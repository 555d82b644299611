-- ===== src/Stun.antt =====
-- crates/tunnel/src/direct/stun.rs: reading the answer of a STUN server. A datagram is the list of its
-- bytes. The tests before each access keep the positions within the datagram.
pub mod Attributes
pub mod Masks
pub mod Contents
pub mod Termination
mod Examples
use Prim.Native.Nat.{zero, suc, bit_xor}
use lapdev.Base.{
  ℕ, ◌+◌, ◌-◌, ◌*◌, ◌%◌, Bool, true, false, not, Option, none, some, List, [], ◌∷◌, ◌++◌, ltb, leb,
  ◌==◌, nat_key, if◌then◌else◌, length, take, drop, get_elem?,
}
use lapdev.Net.{Ipv4Addr, IpAddr, v4, v6, SocketAddr, same_octets}

abbrev pub stun_header_size : ℕ
stun_header_size = 20

abbrev pub stun_binding_success : ℕ
stun_binding_success = 0x0101

abbrev pub stun_attr_mapped_address : ℕ
stun_attr_mapped_address = 0x0001

abbrev pub stun_attr_xor_mapped_address : ℕ
stun_attr_xor_mapped_address = 0x0020

-- STUN_MAGIC_COOKIE.to_be_bytes()
abbrev pub stun_magic_cookie : List ℕ
stun_magic_cookie = 0x21 ∷ 0x12 ∷ 0xa4 ∷ 0x42 ∷ []

abbrev pub byte : ℕ → List ℕ → ℕ
byte i datagram = elim (get_elem? datagram i) [ none ↦ 0 | some b ↦ b ]

-- u16::from_be_bytes of the bytes at a position and behind it
abbrev pub word : ℕ → List ℕ → ℕ
word i datagram = byte i datagram * 256 + byte (i + 1) datagram

abbrev pub slice : ℕ → ℕ → List ℕ → List ℕ
slice start stop datagram = take (stop - start) (drop start datagram)

abbrev pub ipv4 : List ℕ → IpAddr
ipv4 octets =
    v4 (record { a = byte 0 octets; b = byte 1 octets; c = byte 2 octets; d = byte 3 octets })

unfoldable pub parse_mapped_address : List ℕ → Option SocketAddr
parse_mapped_address value =
    let family = byte 1 value in
    let port = word 2 value in
    if ltb (length value) 4
    then none
    else if family == 1
    then (if ltb (length value) 8
        then none
        else some (record { ip = ipv4 (slice 4 8 value); port = port }))
    else if family == 2
    then (if ltb (length value) 20
        then none
        else some (record { ip = v6 (slice 4 20 value); port = port }))
    else none

-- The loops `addr[i] = value[4 + i] ^ mask[i]`.
abbrev pub masked : List ℕ → List ℕ → List ℕ
masked [] mask = []
masked (x ∷ xs) [] = x ∷ xs
masked (x ∷ xs) (m ∷ mask) = bit_xor x m ∷ masked xs mask

unfoldable pub parse_xor_mapped_address : List ℕ → List ℕ → Option SocketAddr
parse_xor_mapped_address value transaction_id =
    let family = byte 1 value in
    let port = bit_xor (word 2 value) 0x2112 in
    if ltb (length value) 4
    then none
    else if family == 1
    then (if ltb (length value) 8
        then none
        else some (record { ip = ipv4 (masked (slice 4 8 value) stun_magic_cookie); port = port }))
    else if family == 2
    then (if ltb (length value) 20
        then none
        else some (record {
          ip = v6 (masked (slice 4 20 value) (stun_magic_cookie ++ transaction_id));
          port = port;
        }))
    else none

pub data StunResult : Type 0 where
  parsed : Option SocketAddr → StunResult
  too_short : StunResult
  unexpected_type : StunResult
  truncated : StunResult
  invalid_cookie : StunResult
  mismatched_id : StunResult
  attribute_exceeds : StunResult
  out_of_fuel : StunResult

-- The match on the type of an attribute.
unfoldable pub mapped : ℕ → List ℕ → List ℕ → Option SocketAddr
mapped attr_type value transaction_id =
    if attr_type == stun_attr_xor_mapped_address
    then parse_xor_mapped_address value transaction_id
    else (if attr_type == stun_attr_mapped_address then parse_mapped_address value else none)

abbrev pub padding : ℕ → ℕ
padding attr_len = (4 - attr_len % 4) % 4

-- The loop over the attributes, from an offset to the end of the message.
module _ (datagram transaction_id : List ℕ) (end : ℕ) where
  unfoldable pub attributes : ℕ → ℕ → StunResult
  attributes zero offset = out_of_fuel
  attributes (suc fuel) offset =
      let attr_len = word (offset + 2) datagram in
      let value_end = offset + 4 + attr_len in
      let rest = attributes fuel (value_end + padding attr_len) in
      if leb (offset + 4) end
      then (if ltb (length datagram) value_end
          then attribute_exceeds
          else elim (mapped (word offset datagram) (slice (offset + 4) value_end datagram)
              transaction_id) [ some addr ↦ parsed (some addr) | none ↦ rest ])
      else parsed none

unfoldable pub parse_stun_response : List ℕ → List ℕ → StunResult
parse_stun_response datagram transaction_id =
    let message_len = word 2 datagram in
    if ltb (length datagram) stun_header_size
    then too_short
    else if not (word 0 datagram == stun_binding_success)
    then unexpected_type
    else if ltb (length datagram) (stun_header_size + message_len)
    then truncated
    else if not (same_octets (slice 4 8 datagram) stun_magic_cookie)
    then invalid_cookie
    else if not (same_octets (slice 8 20 datagram) transaction_id)
    then mismatched_id
    else attributes datagram transaction_id (stun_header_size + message_len) (suc message_len)
        stun_header_size
