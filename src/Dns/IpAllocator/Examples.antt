-- ===== src/Dns/IpAllocator/Examples.antt =====
-- Runs of the allocator, and the theorems at concrete inputs.
use lapdev.Base.{
  ℕ, String, ◌≡◌, ◌≢◌, ◌↔◌, refl, true, Option, none, some, List, [], ◌∷◌, arith, string_key,
  nat_key, length, contains,
}
use lapdev.Base.Map
use lapdev.Net.{IpAddr, v4, ip_key}
use lapdev.Dns.IpAllocator.{
  SyntheticIpAllocator, new, service_key, PickLaws, allocate, lookup_ip, enter, ip_at,
}
use lapdev.Dns.IpAllocator.Addresses.{octets}
use lapdev.Dns.IpAllocator.Invariant.{IsValid}
use lapdev.Dns.IpAllocator.Allocation.{allocate-IsValid, allocate-lookup_ip, allocate-none_iff}
use lapdev.Dns.IpAllocator.Traces.{Call, allocated, deallocated, run, new-IsValid, run_unique}

-- The iterator of a hash set that lists its members as the list does.
abbrev pick : List ℕ → Option ℕ
pick [] = none
pick (o ∷ pool) = some o

pick-PickLaws : PickLaws pick
pick-PickLaws = record { exhausted = exhausted; member = member }
  where
    exhausted : (pool : List ℕ) → pick pool ≡ none → pool ≡ []
    exhausted [] e = refl
    exhausted (o ∷ pool) e = cc

    member : (pool : List ℕ) (offset : ℕ) → pick pool ≡ some offset → contains offset pool ≡ true
    member [] o e = cc
    member (p ∷ pool) o e = ground arith

abbrev one_service : SyntheticIpAllocator
one_service = (allocate pick "api" "shop" new).1

one_service-IsValid : IsValid one_service
one_service-IsValid = allocate-IsValid pick pick-PickLaws "api" "shop" new new-IsValid

first_address : (allocate pick "api" "shop" new).0 ≡ some (v4 (octets 1))
unfolding allocate enter ip_at Map.get
first_address = refl

allocate-lookup_ip_example :
    (lookup_ip (v4 (octets 1)) (allocate pick "api" "shop" new).1 ≡ some "api.shop")
    × (allocate pick "api" "shop" (allocate pick "api" "shop" new).1
        ≡ (some (v4 (octets 1)), (allocate pick "api" "shop" new).1))
    × ((j : String)
        → "api.shop" ≢ j
        → Map.get j (allocate pick "api" "shop" new).1.allocated ≡ Map.get j new.allocated)
allocate-lookup_ip_example =
    allocate-lookup_ip pick pick-PickLaws "api" "shop" new new-IsValid (v4 (octets 1)) first_address

allocate-none_iff_example :
    ((allocate pick "db" "shop" one_service).0 ≡ none)
    ↔ ((Map.get "db.shop" one_service.allocated ≡ none) × (length one_service.allocated ≡ 65535))
allocate-none_iff_example =
    allocate-none_iff pick pick-PickLaws "db" "shop" one_service one_service-IsValid

api_found : Map.get (service_key "api" "shop") one_service.allocated ≡ some (v4 (octets 1))
unfolding allocate enter ip_at Map.get Map.insert
api_found = refl

abbrev calls : List Call
calls =
    allocated "api" "shop"
    ∷ allocated "db" "shop"
    ∷ deallocated "api" "shop"
    ∷ allocated "web" "shop"
    ∷ []

run_unique_example :
    ((j k : String) (ip : IpAddr)
      → Map.get j (run pick calls new).allocated ≡ some ip
      → Map.get k (run pick calls new).allocated ≡ some ip
      → j ≡ k)
    × ((k : String) (ip : IpAddr)
        → (lookup_ip ip (run pick calls new) ≡ some k)
          ↔ (Map.get k (run pick calls new).allocated ≡ some ip))
run_unique_example = run_unique pick pick-PickLaws calls
