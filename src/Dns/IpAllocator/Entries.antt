-- ===== src/Dns/IpAllocator/Entries.antt =====
-- The parts of the methods that write the two tables keep the accounts.
use mathlib.Core.Bool.{false≢true}
use text.Mathlib.TextEquality.{eq_iff}
use lapdev.Base.{
  ℕ, ◌<◌, String, ◌≡◌, refl, ap, false, none, some, [], ◌∷◌, arith, inl, inr, ◌==◌, nat_key,
  string_key, nat_eq_iff, contains, with_item, contains-with_item, with_item-IsDistinct, Bool-cases,
  Option-cases,
}
use lapdev.Base.Map
use lapdev.Base.Map.{
  get-insert, get-remove, insert-IsDistinct, remove-IsDistinct, length-remove, length-insert_fresh,
}
use lapdev.Base.Bimap.{insert-AreInverse, remove-AreInverse}
use lapdev.Net.{IpAddr, v4, ip_key}
use lapdev.Dns.IpAllocator.{SyntheticIpAllocator, enter, recycle}
use lapdev.Dns.IpAllocator.Addresses.{octets, ip_at-octets, offset_of-octets}
use lapdev.Dns.IpAllocator.Invariant.{limit, Accounts, IsValid}

abbrev pub entered : String → ℕ → SyntheticIpAllocator → SyntheticIpAllocator
entered key o s = record s {
  allocated = Map.insert key (v4 (octets o)) s.allocated;
  reverse = Map.insert (v4 (octets o)) key s.reverse;
}

module _ (s : SyntheticIpAllocator) (o : ℕ) (h : Accounts (o ∷ []) s) where
  pub offset_small : o < 65536
  offset_small = ground (arith, h.in_flight o, h.next_small)

  -- `enter` answers with the address of the offset.
  pub enter_lem : (key : String) → enter key o s ≡ (some (v4 (octets o)), entered key o s)
  unfolding enter
  enter_lem key = rw (h.base_fixed, ip_at-octets o offset_small)

  -- No service has the address of an offset in flight.
  pub address_unused : Map.get (v4 (octets o)) s.reverse ≡ none
  address_unused = elim (Option-cases (Map.get (v4 (octets o)) s.reverse)) [
    | inl absent ↦ absent
    | inr (k, there) ↦
        let (p, e, _, small, _, apart) =
          h.taken k (v4 (octets o)) (h.tables.backward k (v4 (octets o)) there) in
        absurd (ground (arith, h.in_flight o, h.next_small))
  ]

  pub entered-Accounts :
      (key : String) → Map.get key s.allocated ≡ none → Accounts [] (entered key o s)
  entered-Accounts key fresh = record {
    base_fixed = h.base_fixed;
    next_small = h.next_small;
    tables =
        insert-AreInverse key (v4 (octets o)) s.allocated s.reverse h.tables fresh address_unused;
    taken = λ k ip found. elim (Bool-cases (key == k)) [
      | inl same ↦ (
        o,
        ground (arith, get-insert key k (v4 (octets o)) s.allocated),
        ground (arith, h.in_flight o),
        ground (arith, h.in_flight o),
        ground (arith, h.free o),
        refl,
      )
      | inr other ↦
          let (p, e, pos, small, kept, _) =
            h.taken k ip (ground (arith, get-insert key k (v4 (octets o)) s.allocated)) in
          (p, e, pos, small, kept, refl)
    ];
    free = λ p there. ground (arith, h.free p);
    in_flight = λ p there. cc;
    distinct_keys = insert-IsDistinct key (v4 (octets o)) s.allocated h.distinct_keys;
    distinct_pool = h.distinct_pool;
    counted = ground (arith, h.counted, length-insert_fresh key (v4 (octets o)) s.allocated fresh);
  }

abbrev pub left : String → IpAddr → SyntheticIpAllocator → SyntheticIpAllocator
left key ip s = record s {
  allocated = Map.remove key s.allocated;
  reverse = Map.remove ip s.reverse;
}

module _ (s : SyntheticIpAllocator) (h : IsValid s) (key : String) (o : ℕ) where
  -- Once a service is out of the tables, its offset is in flight.
  pub left-Accounts :
      Map.get key s.allocated ≡ some (v4 (octets o))
      → 0 < o
      → o < limit s
      → contains o s.free_pool ≡ false
      → Accounts (o ∷ []) (left key (v4 (octets o)) s)
  left-Accounts found pos small kept = record {
    base_fixed = h.base_fixed;
    next_small = h.next_small;
    tables = remove-AreInverse key (v4 (octets o)) s.allocated s.reverse h.tables found;
    taken = λ k ip there. elim (Bool-cases (key == k)) [
      | inl same ↦ absurd (false≢true (ground (arith, get-remove key k s.allocated)))
      | inr other ↦
          let still : Map.get k s.allocated ≡ some ip =
            ground (arith, get-remove key k s.allocated) in
          let (p, e, pos', small', kept', _) = h.taken k ip still in
          (
            p,
            e,
            pos',
            small',
            kept',
            ground (
              arith,
              eq_iff key k,
              ap {B = IpAddr} (λ q. v4 (octets q)) {x = o} {y = p},
              h.tables.forward k ip still,
              h.tables.forward key (v4 (octets o)) found,
            ),
          )
    ];
    free = λ p there. ground (arith, h.free p, nat_eq_iff o p);
    in_flight = λ p there. ground arith;
    distinct_keys = remove-IsDistinct key s.allocated h.distinct_keys;
    distinct_pool = h.distinct_pool;
    counted = ground (arith, h.counted, length-remove key s.allocated h.distinct_keys);
  }

module _ (s : SyntheticIpAllocator) (o : ℕ) (h : Accounts (o ∷ []) s) where
  abbrev pub recycled : SyntheticIpAllocator
  recycled = record s { free_pool = with_item o s.free_pool }

  -- `deallocate` puts the offset of the address back into the pool.
  pub recycle_lem : recycle (v4 (octets o)) s ≡ recycled
  unfolding recycle
  recycle_lem =
      rw (h.base_fixed, offset_of-octets o (offset_small s o h)) (ground (arith, h.in_flight o))

  pub recycled-Accounts : IsValid recycled
  recycled-Accounts = record {
    base_fixed = h.base_fixed;
    next_small = h.next_small;
    tables = h.tables;
    taken = λ k ip there.
        let (p, e, pos, small, kept, apart) = h.taken k ip there in
        (p, e, pos, small, ground (arith, contains-with_item o p s.free_pool), refl);
    free = λ p there. ground (arith, contains-with_item o p s.free_pool, h.free p, h.in_flight p);
    in_flight = λ p there. cc;
    distinct_keys = h.distinct_keys;
    distinct_pool = with_item-IsDistinct o s.free_pool h.distinct_pool;
    counted = ground (arith, h.counted, h.free o);
  }
