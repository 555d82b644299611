-- ===== src/Dns/IpAllocator/Allocation.antt =====
-- What `allocate` promises its callers.

use text.Mathlib.TextEquality.{eq_iff}
use text.Mathlib.TextPositions.{eq_refl}
use lapdev.Base.{
  ℕ, String, ◌≡◌, ◌≢◌, ◌↔◌, refl, ap, ◌∙◌, Option, none, some, List, [], ◌∷◌, arith, inl, inr, ◌==◌,
  nat_key, string_key, length, Bool-cases, Option-cases,
}
use lapdev.Base.Map
use lapdev.Base.Map.{get-insert, get-remove}
use lapdev.Net.{IpAddr, v4, ip_key}
use lapdev.Dns.IpAllocator.{SyntheticIpAllocator, service_key, PickLaws, allocate, lookup_ip}
use lapdev.Dns.IpAllocator.Addresses.{octets}
use lapdev.Dns.IpAllocator.Invariant.{Accounts, IsValid, take_free-Accounts, take_next-Accounts}
use lapdev.Dns.IpAllocator.Entries.{entered, enter_lem, entered-Accounts}

-- How a call of `allocate` for a service can go.
pub data Allocates (key : String) (s : SyntheticIpAllocator)
    : Option IpAddr × SyntheticIpAllocator → Type 0 where
  known : (ip : IpAddr) → Map.get key s.allocated ≡ some ip → Allocates key s (some ip, s)
  fails :
      Map.get key s.allocated ≡ none
      → s.free_pool ≡ []
      → s.next_offset ≡ 0
      → Allocates key s (none, s)
  enters :
      (o : ℕ) (t : SyntheticIpAllocator)
      → Map.get key s.allocated ≡ none
      → Accounts (o ∷ []) t
      → t.allocated ≡ s.allocated
      → Allocates key s (some (v4 (octets o)), entered key o t)

module _ {key : String} {s : SyntheticIpAllocator} (h : IsValid s) where
  Allocates-IsValid : {r : Option IpAddr × SyntheticIpAllocator} → Allocates key s r → IsValid r.1
  Allocates-IsValid (known ip _) = h
  Allocates-IsValid (fails _ _ _) = h
  Allocates-IsValid (enters o t fresh account same) =
      entered-Accounts t o account key (rw same fresh)

  Allocates-lookup :
      {r : Option IpAddr × SyntheticIpAllocator} (ip : IpAddr)
      → Allocates key s r
      → r.0 ≡ some ip
      → Map.get key r.1.allocated ≡ some ip
  Allocates-lookup ip (known _ found) e = found ∙ e
  Allocates-lookup ip (fails _ _ _) e = cc
  Allocates-lookup ip (enters o t fresh account same) e = simp (get-insert, eq_refl) e

  Allocates-others :
      {r : Option IpAddr × SyntheticIpAllocator} (j : String)
      → Allocates key s r
      → key ≢ j
      → Map.get j r.1.allocated ≡ Map.get j s.allocated
  Allocates-others j (known _ _) other = refl
  Allocates-others j (fails _ _ _) other = refl
  Allocates-others j (enters o t fresh account same) other =
      ground
        (arith, get-insert key j (v4 (octets o)) t.allocated, eq_iff key j, ap (Map.get j) same)

  Allocates-none :
      {r : Option IpAddr × SyntheticIpAllocator}
      → Allocates key s r
      → (r.0 ≡ none) ↔ ((Map.get key s.allocated ≡ none) × (length s.allocated ≡ 65535))
  Allocates-none (known ip found) = (λ e. cc, λ full. cc (found, full.0))
  Allocates-none (fails fresh empty last) =
      (λ _. (fresh, ground (arith, h.counted, ap (length {A = ℕ}) empty)), λ _. refl)
  Allocates-none (enters o t fresh account same) = (
    λ e. cc,
    λ full. absurd (
        ground
          (arith, account.counted, account.next_small, ap (length {A = String × IpAddr}) same)),
  )

-- A service that has an address keeps it, and nothing changes.
pub allocate_known :
    (pick : List ℕ → Option ℕ) (name namespace : String) (s : SyntheticIpAllocator) {ip : IpAddr}
    → Map.get (service_key name namespace) s.allocated ≡ some ip
    → allocate pick name namespace s ≡ (some ip, s)
unfolding allocate
allocate_known pick name namespace s found = rw (found, allocate)

module _ (pick : List ℕ → Option ℕ) (laws : PickLaws pick) where
  module _ (name namespace : String) (s : SyntheticIpAllocator) (h : IsValid s) where
    allocate_lem : Allocates (service_key name namespace) s (allocate pick name namespace s)
    unfolding allocate
    allocate_lem = elim (Option-cases (Map.get (service_key name namespace) s.allocated)) [
      | inr (ip, found) ↦ rw (found, allocate) (known ip found)
      | inl fresh ↦
          rw (fresh, allocate)
            (elim (Option-cases (pick s.free_pool)) [
              | inr (o, picked) ↦
                  let t = take_free-Accounts s h o (laws.member s.free_pool o picked) in
                  rw (picked, enter_lem _ o t (service_key name namespace))
                    (enters o _ fresh t refl)
              | inl exhausted ↦ rw exhausted (elim (Bool-cases (s.next_offset == 0)) [
                | inl last ↦
                    rw last (fails fresh (laws.exhausted s.free_pool exhausted) (ground arith))
                | inr more ↦
                    let t = take_next-Accounts s h more in
                    rw (more, enter_lem _ s.next_offset t (service_key name namespace))
                      (enters s.next_offset _ fresh t refl)
              ])
            ])
    ]

    -- `allocate` keeps a valid allocator valid, whether it answers from the table, reuses an
    -- offset, takes a new one, or fails.
    pub allocate-IsValid : IsValid (allocate pick name namespace s).1
    allocate-IsValid = Allocates-IsValid h allocate_lem

    -- The address that a call of `allocate` answers is one that `lookup_ip` then takes back to the
    -- service, that the next call answers again while it changes nothing, and no other service's
    -- address has changed.
    pub allocate-lookup_ip :
        (ip : IpAddr)
        → (allocate pick name namespace s).0 ≡ some ip
        → (lookup_ip ip (allocate pick name namespace s).1 ≡ some (service_key name namespace))
          × (allocate pick name namespace (allocate pick name namespace s).1
              ≡ (some ip, (allocate pick name namespace s).1))
          × ((j : String)
              → service_key name namespace ≢ j
              → Map.get j (allocate pick name namespace s).1.allocated ≡ Map.get j s.allocated)
    unfolding lookup_ip
    allocate-lookup_ip ip e =
        let there = Allocates-lookup h ip allocate_lem e in
        (
          allocate-IsValid.tables.forward (service_key name namespace) ip there,
          allocate_known pick name namespace _ there,
          λ j other. Allocates-others h j allocate_lem other,
        )

    -- Allocation fails exactly for a service without an address once 65535 services have one.
    pub allocate-none_iff :
        ((allocate pick name namespace s).0 ≡ none)
        ↔ ((Map.get (service_key name namespace) s.allocated ≡ none) × (length s.allocated ≡ 65535))
    allocate-none_iff = Allocates-none h allocate_lem
