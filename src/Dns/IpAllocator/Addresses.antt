-- ===== src/Dns/IpAllocator/Addresses.antt =====
-- Offsets and addresses are the two sides of one numbering.
use lapdev.Base.{ℕ, ◌-◌, ◌^◌, ◌*◌, ◌/◌, ◌%◌, ◌<◌, ◌≡◌, arith}
use lapdev.Base.Bits.{bit_or-shifted}
use lapdev.Net.{Ipv4Addr, v4}
use lapdev.Dns.IpAllocator.{loopback_base, ip_at, offset_of}

abbrev pub octets : ℕ → Ipv4Addr
octets offset = record { a = 127; b = 77; c = offset / 256; d = offset % 256 }

pub ip_at-octets : (o : ℕ) → o < 65536 → ip_at loopback_base o ≡ v4 (octets o)
unfolding ip_at
ip_at-octets o h = ground arith

-- The high byte, shifted left by eight bits over u16.
shifted : (o : ℕ) → o < 65536 → (o / 256 - 0) * 256 % 65536 ≡ o / 256 * 2 ^ 8
shifted o h = omega arith

-- `deallocate` computes from an address the offset that `allocate` made it of.
pub offset_of-octets : (o : ℕ) → o < 65536 → offset_of loopback_base (octets o) ≡ o
unfolding offset_of
offset_of-octets o h =
    rw (shifted o h) (omega (arith, bit_or-shifted (o / 256) (o % 256) 8 (omega arith)))

-- Two offsets of the subnet never give one address.
pub ip_at-injective :
    (o p : ℕ) → o < 65536 → p < 65536 → ip_at loopback_base o ≡ ip_at loopback_base p → o ≡ p
unfolding ip_at
ip_at-injective o p ho hp e = ground arith
