-- ===== src/Dns/IpAllocator/Traces.antt =====
-- What holds after any calls on a new allocator.

use lapdev.Base.{ℕ, String, ◌≡◌, ◌↔◌, refl, Option, some, List, [], ◌∷◌, arith, nat_key, string_key}
use lapdev.Base.Map
use lapdev.Base.Map.{get-insert, get-remove}
use lapdev.Net.{IpAddr, ip_key}
use lapdev.Dns.IpAllocator.{
  SyntheticIpAllocator, new, PickLaws, allocate, deallocate, clear, lookup_ip,
}
use lapdev.Dns.IpAllocator.Invariant.{IsValid}
use lapdev.Dns.IpAllocator.Allocation.{allocate-IsValid}
use lapdev.Dns.IpAllocator.Deallocation.{deallocate-IsValid}

pub new-IsValid : IsValid new
unfolding Map.get
new-IsValid = record {
  base_fixed = refl;
  next_small = omega arith;
  tables = record { forward = λ k v e. cc; backward = λ k v e. cc };
  taken = λ k ip e. absurd (cc);
  free = λ o e. cc;
  in_flight = λ o e. cc;
  distinct_keys = tt;
  distinct_pool = tt;
  counted = refl;
}

-- `clear` leaves the allocator as `new` makes it, since the base never changes.
pub clear-eq-new : (s : SyntheticIpAllocator) → IsValid s → clear s ≡ new
unfolding clear
clear-eq-new s h = rw h.base_fixed

-- The calls that the owner of an allocator makes.
pub data Call : Type 0 where
  allocated : String → String → Call
  deallocated : String → String → Call
  cleared : Call

module _ (pick : List ℕ → Option ℕ) where
  pub run : List Call → SyntheticIpAllocator → SyntheticIpAllocator
  run [] s = s
  run (allocated name namespace ∷ calls) s = run calls (allocate pick name namespace s).1
  run (deallocated name namespace ∷ calls) s = run calls (deallocate name namespace s)
  run (cleared ∷ calls) s = run calls (clear s)

  pub run-IsValid :
      PickLaws pick
      → (calls : List Call) (s : SyntheticIpAllocator) → IsValid s
      → IsValid (run calls s)
  unfolding run
  run-IsValid laws [] s h = h
  run-IsValid laws (allocated name namespace ∷ calls) s h =
      run-IsValid laws calls _ (allocate-IsValid pick laws name namespace s h)
  run-IsValid laws (deallocated name namespace ∷ calls) s h =
      run-IsValid laws calls _ (deallocate-IsValid name namespace s h)
  run-IsValid laws (cleared ∷ calls) s h =
      run-IsValid laws calls _ (rw (clear-eq-new s h) new-IsValid)

  -- After any calls on a new allocator, two services never share an address, and `lookup_ip` takes an
  -- address to a service exactly if the service has that address.
  pub run_unique :
      PickLaws pick
      → (calls : List Call)
      → ((j k : String) (ip : IpAddr)
          → Map.get j (run calls new).allocated ≡ some ip
          → Map.get k (run calls new).allocated ≡ some ip
          → j ≡ k)
        × ((k : String) (ip : IpAddr)
            → (lookup_ip ip (run calls new) ≡ some k)
              ↔ (Map.get k (run calls new).allocated ≡ some ip))
  unfolding lookup_ip
  run_unique laws calls =
      let inverse = (run-IsValid laws calls new new-IsValid).tables in
      (
        λ j k ip p q. ground (arith, inverse.forward j ip p, inverse.forward k ip q),
        λ k ip. (inverse.backward k ip, inverse.forward k ip),
      )
