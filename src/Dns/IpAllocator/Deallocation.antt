-- ===== src/Dns/IpAllocator/Deallocation.antt =====
-- What `deallocate` promises its callers.

use lapdev.Base.{
  ℕ, ◌<◌, String, ◌≡◌, ◌≢◌, ap, ◌∙◌, Option, none, some, List, [], ◌∷◌, arith, inl, inr, ◌==◌,
  nat_key, string_key, if◌then◌else◌, length, Option-cases,
}
use lapdev.Base.Map
use lapdev.Base.Map.{get-insert, get-remove}
use lapdev.Net.{IpAddr, v4, ip_key, same_ip_iff}
use lapdev.Dns.IpAllocator.{
  SyntheticIpAllocator, service_key, PickLaws, allocate, deallocate, lookup_ip,
}
use lapdev.Dns.IpAllocator.Addresses.{octets}
use lapdev.Dns.IpAllocator.Invariant.{Accounts, IsValid}
use lapdev.Dns.IpAllocator.Entries.{left, left-Accounts, recycled, recycle_lem, recycled-Accounts}
use lapdev.Dns.IpAllocator.Allocation.{allocate-none_iff}

-- How a call of `deallocate` for a service can go.
pub data Deallocates (key : String) (s : SyntheticIpAllocator) : SyntheticIpAllocator → Type 0 where
  unknown : Map.get key s.allocated ≡ none → Deallocates key s s
  leaves :
      (o : ℕ)
      → Map.get key s.allocated ≡ some (v4 (octets o))
      → (account : Accounts (o ∷ []) (left key (v4 (octets o)) s))
      → Deallocates key s (recycled (left key (v4 (octets o)) s) o account)

module _ (name namespace : String) (s : SyntheticIpAllocator) (h : IsValid s) where
  deallocate_lem : Deallocates (service_key name namespace) s (deallocate name namespace s)
  unfolding deallocate
  deallocate_lem = elim (Option-cases (Map.get (service_key name namespace) s.allocated)) [
    | inl absent ↦ rw (absent, deallocate) (unknown absent)
    | inr (ip, found) ↦
        let (o, e, pos, small, kept, _) = h.taken (service_key name namespace) ip found in
        let at_octets = found ∙ ap some e in
        let account = left-Accounts s h (service_key name namespace) o at_octets pos small kept in
        rw (at_octets, deallocate, recycle_lem _ o account) (leaves o at_octets account)
  ]

  Deallocates-IsValid : {key : String} {t : SyntheticIpAllocator} → Deallocates key s t → IsValid t
  Deallocates-IsValid (unknown _) = h
  Deallocates-IsValid (leaves o _ account) = recycled-Accounts _ o account

  -- `deallocate` keeps a valid allocator valid, whether or not the service has an address.
  pub deallocate-IsValid : IsValid (deallocate name namespace s)
  deallocate-IsValid = Deallocates-IsValid deallocate_lem

  Deallocates-gone :
      {key : String} {t : SyntheticIpAllocator} (ip : IpAddr)
      → Deallocates key s t
      → Map.get key s.allocated ≡ some ip
      → (Map.get ip t.reverse ≡ none)
        × ((j : String)
            → Map.get j t.allocated ≡ (if key == j then none else Map.get j s.allocated))
        × (length t.allocated < 65535)
  Deallocates-gone ip (unknown absent) found = cc
  Deallocates-gone {key} ip (leaves o there account) found = (
    ground (arith, get-remove (v4 (octets o)) ip s.reverse, same_ip_iff (v4 (octets o)) ip),
    λ j. get-remove key j s.allocated,
    ground (arith, account.counted, account.next_small),
  )

  -- Once a service with an address is deallocated, its address belongs to nobody, the other services keep
  -- theirs, and a call of `allocate` for any service succeeds.
  pub allocate-deallocate :
      (ip : IpAddr)
      → Map.get (service_key name namespace) s.allocated ≡ some ip
      → (lookup_ip ip (deallocate name namespace s) ≡ none)
        × ((j : String)
            → Map.get j (deallocate name namespace s).allocated
              ≡ (if service_key name namespace == j then none else Map.get j s.allocated))
        × ((pick : List ℕ → Option ℕ)
            → PickLaws pick
            → (other in_namespace : String)
            → (allocate pick other in_namespace (deallocate name namespace s)).0 ≢ none)
  unfolding lookup_ip
  allocate-deallocate ip found =
      let (gone, others, room) = Deallocates-gone ip deallocate_lem found in
      (
        gone,
        others,
        λ pick laws other in_namespace e.
            let full =
              ((allocate-none_iff pick laws other in_namespace (deallocate name namespace s)
                  deallocate-IsValid).0
                e).1 in
            absurd (omega arith),
      )
