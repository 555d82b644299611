-- ===== src/Stun/Termination.antt =====
-- crates/tunnel/src/direct/stun.rs: reading ends on any datagram.
use Prim.Native.Nat.{zero, suc}
use lapdev.Base.{
  ℕ, ◌+◌, ◌-◌, ◌<◌, ◌≡◌, refl, Bool, true, false, Bool-cases, inl, inr, Option, none, some, List,
  arith, ltb, leb, length, nat_key,
}
use lapdev.Net.{SocketAddr}
use lapdev.Stun.{
  StunResult, parsed, out_of_fuel, word, slice, mapped, padding, attributes, parse_stun_response,
  stun_header_size,
}

abbrev pub is_settled : StunResult → Bool
is_settled out_of_fuel = false
is_settled _ = true

settled_or :
    (here : Option SocketAddr) (later : StunResult)
    → is_settled later ≡ true
    → is_settled (elim here [ none ↦ later | some addr ↦ parsed (some addr) ]) ≡ true
settled_or none later h = h
settled_or (some addr) later h = refl

module _ (datagram id : List ℕ) (end : ℕ) where
  attributes-settled :
      (fuel offset : ℕ)
      → end - offset < fuel
      → is_settled (attributes datagram id end fuel offset) ≡ true
  unfolding attributes
  attributes-settled zero offset enough = absurd (omega arith)
  attributes-settled (suc fuel) offset enough =
      let len = word (offset + 2) datagram in
      elim (Bool-cases (leb (offset + 4) end)) [
        | inr over ↦ rw (over, attributes) refl
        | inl more ↦ elim (Bool-cases (ltb (length datagram) (offset + 4 + len))) [
          | inl exceeds ↦ rw (more, exceeds, attributes) refl
          | inr fits ↦
              rw (more, fits, attributes)
                (settled_or
                  (mapped (word offset datagram) (slice (offset + 4) (offset + 4 + len) datagram)
                    id)
                  _ (attributes-settled fuel (offset + 4 + len + padding len) (ground arith)))
        ]
      ]

-- Reading ends with the fuel given, on any bytes: with one of the errors of the code, or with the
-- address found or none.
pub parse_stun_response-settled :
    (datagram id : List ℕ) → is_settled (parse_stun_response datagram id) ≡ true
unfolding parse_stun_response
parse_stun_response-settled datagram id = ground (
  arith,
  attributes-settled datagram id (stun_header_size + word 2 datagram) (suc (word 2 datagram))
      stun_header_size,
)
