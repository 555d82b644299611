-- ===== src/Dns/IpAllocator/Invariant.antt =====
-- What holds of an allocator between two calls, and that every method keeps it.
-- `Accounts pending` says it while the offsets of `pending` are in the hands of a method: each
-- offset below the limit is used by one service, free, or pending.
use lapdev.Base.{
  ℕ, ◌+◌, ◌%◌, ◌<◌, String, ◌≡◌, true, false, some, List, [], ◌∷◌, arith, ◌==◌, nat_key, string_key,
  nat_eq, nat_eq_iff, if◌then◌else◌, length, contains, without, IsDistinct, contains-without,
  without-IsDistinct, length-without_member,
}
use lapdev.Base.Map.{get-insert, get-remove, insert-IsDistinct, remove-IsDistinct, length-remove}
use lapdev.Base.Map
use lapdev.Base.Bimap.{AreInverse}
use lapdev.Net.{IpAddr, v4, ip_key}
use lapdev.Dns.IpAllocator.{SyntheticIpAllocator, loopback_base}
use lapdev.Dns.IpAllocator.Addresses.{octets}

-- The offsets handed out so far are those below the limit; 0 after the last one stands for 65536.
abbrev pub limit : SyntheticIpAllocator → ℕ
limit s = if s.next_offset == 0 then 65536 else s.next_offset

abbrev pub Taken : List ℕ → SyntheticIpAllocator → IpAddr → Type 0
Taken pending s ip =
    (o : ℕ) × (ip ≡ v4 (octets o))
    × (0 < o)
    × (o < limit s)
    × (contains o s.free_pool ≡ false)
    × (contains o pending ≡ false)

pub record Accounts (pending : List ℕ) (s : SyntheticIpAllocator) : Type 0 where
  pub base_fixed : s.base ≡ loopback_base
  pub next_small : s.next_offset < 65536
  pub tables : AreInverse s.allocated s.reverse
  pub taken : (k : String) (ip : IpAddr) → Map.get k s.allocated ≡ some ip → Taken pending s ip
  pub free :
      (o : ℕ)
      → contains o s.free_pool ≡ true
      → (0 < o) × (o < limit s) × (contains o pending ≡ false)
  pub in_flight : (o : ℕ) → contains o pending ≡ true → (0 < o) × (o < limit s)
  pub distinct_keys : IsDistinct (Map.keys s.allocated)
  pub distinct_pool : IsDistinct s.free_pool
  pub counted : length s.allocated + length s.free_pool + length pending + 1 ≡ limit s

abbrev pub IsValid : SyntheticIpAllocator → Type 0
IsValid = Accounts []

module _ (s : SyntheticIpAllocator) (h : IsValid s) where
  -- The first two lines of the branch that reuses an offset.
  pub take_free-Accounts :
      (o : ℕ)
      → contains o s.free_pool ≡ true
      → Accounts (o ∷ []) (record s { free_pool = without o s.free_pool })
  take_free-Accounts o member = record {
    base_fixed = h.base_fixed;
    next_small = h.next_small;
    tables = h.tables;
    taken = λ k ip found.
        let (p, e, pos, small, kept, _) = h.taken k ip found in
        (
          p,
          e,
          pos,
          small,
          ground (arith, contains-without o p s.free_pool),
          ground (arith, nat_eq_iff o p),
        );
    free = λ p there. ground (arith, contains-without o p s.free_pool, h.free p);
    in_flight = λ p there. ground (arith, h.free o);
    distinct_keys = h.distinct_keys;
    distinct_pool = without-IsDistinct o s.free_pool h.distinct_pool;
    counted = omega (arith, h.counted, length-without_member o s.free_pool h.distinct_pool member);
  }

  -- The branch that takes a new offset, up to the call of `enter`.
  pub take_next-Accounts :
      nat_eq s.next_offset 0 ≡ false
      → Accounts (s.next_offset ∷ []) (record s { next_offset = (s.next_offset + 1) % 65536 })
  take_next-Accounts more = record {
    base_fixed = h.base_fixed;
    next_small = omega arith;
    tables = h.tables;
    taken = λ k ip found.
        let (p, e, pos, small, kept, _) = h.taken k ip found in
        (p, e, pos, ground (arith, h.next_small), kept, ground arith);
    free = λ p there. ground (arith, h.next_small, h.free p);
    in_flight = λ p there. ground (arith, h.next_small);
    distinct_keys = h.distinct_keys;
    distinct_pool = h.distinct_pool;
    counted = ground (arith, h.next_small, h.counted);
  }
