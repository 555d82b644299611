-- ===== src/Dns/IpAllocator.antt =====
-- crates/cli/src/devbox/dns/ip_allocator.rs: synthetic loopback addresses from 127.77.0.0/16.
-- A method takes the allocator last and returns it changed, behind its result.
-- `self.free_pool.iter().next()` picks any member of a hash set: it is a parameter.
pub mod Addresses
pub mod Entries
pub mod Allocation
pub mod Deallocation
pub mod Traces
pub mod Invariant
mod Examples
use Prim.Native.Nat.{bit_or}
use Prim.Native.String
use lapdev.Base.{
  ℕ, ◌+◌, ◌-◌, ◌*◌, ◌/◌, ◌%◌, String, ◌≡◌, true, Option, none, some, List, [], ◌==◌, if◌then◌else◌,
  contains, without, with_item, nat_key, string_key,
}
use lapdev.Base.Map
use lapdev.Base.Map.{Map}
use lapdev.Net.{Ipv4Addr, IpAddr, v4, v6, ip_key}

pub record SyntheticIpAllocator : Type 0 where
  pub base : Ipv4Addr
  pub next_offset : ℕ
  pub allocated : Map String IpAddr
  pub reverse : Map IpAddr String
  pub free_pool : List ℕ

abbrev pub loopback_base : Ipv4Addr
loopback_base = record { a = 127; b = 77; c = 0; d = 0 }

abbrev pub new : SyntheticIpAllocator
new = record { base = loopback_base; next_offset = 1; allocated = []; reverse = []; free_pool = [] }

-- format!("{}.{}", service_name, namespace)
abbrev pub service_key : String → String → String
service_key service_name namespace = String.◌++◌ service_name (String.◌++◌ "." namespace)

-- The address with the two bytes of an offset added to the base: `offset >> 8` and `offset & 0xFF`
-- as bytes, the former added with `wrapping_add`.
unfoldable pub ip_at : Ipv4Addr → ℕ → IpAddr
ip_at base offset =
    v4
      (record { a = base.a; b = base.b; c = (base.c + offset / 256 % 256) % 256; d = offset % 256 })

-- The offset of an address: `(high << 8) | low` over u16, `high` by a saturating subtraction.
unfoldable pub offset_of : Ipv4Addr → Ipv4Addr → ℕ
offset_of base ip = bit_or ((ip.c - base.c) * 256 % 65536) ip.d

-- The end of `allocate`, which enters the address in both tables.
unfoldable pub enter : String → ℕ → SyntheticIpAllocator → Option IpAddr × SyntheticIpAllocator
enter key offset s =
    let ip = ip_at s.base offset in
    (
      some ip,
      record s { allocated = Map.insert key ip s.allocated; reverse = Map.insert ip key s.reverse },
    )

-- What is relied on of a hash set's iterator: it is exhausted on the empty set alone, and what it
-- yields is a member.
pub record PickLaws (pick : List ℕ → Option ℕ) : Type 0 where
  pub exhausted : (pool : List ℕ) → pick pool ≡ none → pool ≡ []
  pub member : (pool : List ℕ) (offset : ℕ) → pick pool ≡ some offset → contains offset pool ≡ true

unfoldable pub allocate :
    (pick : List ℕ → Option ℕ)
    → String
    → String
    → SyntheticIpAllocator
    → Option IpAddr × SyntheticIpAllocator
allocate pick service_name namespace s =
    let key = service_key service_name namespace in
    elim (Map.get key s.allocated) [
      | some ip ↦ (some ip, s)
      | none ↦ elim (pick s.free_pool) [
        | some offset ↦ enter key offset (record s { free_pool = without offset s.free_pool })
        | none ↦
            if s.next_offset == 0
            then (none, s)
            else enter key s.next_offset (record s { next_offset = (s.next_offset + 1) % 65536 })
      ]
    ]

unfoldable pub recycle : IpAddr → SyntheticIpAllocator → SyntheticIpAllocator
recycle (v4 ip) s =
    let offset = offset_of s.base ip in
    if offset == 0 then s else record s { free_pool = with_item offset s.free_pool }
recycle (v6 _) s = s

unfoldable pub deallocate : String → String → SyntheticIpAllocator → SyntheticIpAllocator
deallocate service_name namespace s =
    let key = service_key service_name namespace in
    elim (Map.get key s.allocated) [
      | none ↦ s
      | some ip ↦
          recycle ip
            (record s { allocated = Map.remove key s.allocated; reverse = Map.remove ip s.reverse })
    ]

unfoldable pub clear : SyntheticIpAllocator → SyntheticIpAllocator
clear s = record s { allocated = []; reverse = []; free_pool = []; next_offset = 1 }

unfoldable pub lookup_ip : IpAddr → SyntheticIpAllocator → Option String
lookup_ip ip s = Map.get ip s.reverse

unfoldable pub allocated_ips : SyntheticIpAllocator → List IpAddr
allocated_ips s = Map.values s.allocated
