-- ===== src/Stun/Contents.antt =====
-- crates/tunnel/src/direct/stun.rs: the address that is read from an answer with given contents.
use lapdev.Base.{
  ℕ, ◌<◌, ◌≡◌, ◌≢◌, refl, ap, ◌∙◌, ◌⊎◌, inl, inr, Option, none, some, List, [], ◌∷◌, map, arith,
  length, nat_key, nat_eq_iff,
}
use lapdev.Net.{SocketAddr}
use lapdev.Stun.{
  byte, mapped, parsed, parse_stun_response, parse_mapped_address, parse_xor_mapped_address,
}
use lapdev.Stun.Masks.{IsAddress, mapped_value, xor_mapped_value, parse_mapped-roundtrip}
use lapdev.Stun.Attributes.{Attribute, response, first_mapped, parse_stun_response-attributes}

-- What an attribute is made from: a MAPPED-ADDRESS or an XOR-MAPPED-ADDRESS with its first byte, or what
-- carries no address.
pub data Content : Type 0 where
  plain_address masked_address : ℕ → SocketAddr → Content
  silent : Attribute → Content

-- An attribute of another type, or one whose value is too short or of an unknown family.
abbrev pub IsSilent : Attribute → Type 0
IsSilent a =
    ((a.kind ≢ 1) × (a.kind ≢ 32))
    ⊎ ((length a.value < 8)
        ⊎ (((byte 1 a.value ≡ 2) × (length a.value < 20))
            ⊎ ((byte 1 a.value ≢ 1) × (byte 1 a.value ≢ 2))))

abbrev pub IsContent : Content → Type 0
IsContent (plain_address first addr) = IsAddress addr.ip
IsContent (masked_address first addr) = IsAddress addr.ip
IsContent (silent a) = IsSilent a

abbrev pub AllContents : List Content → Type 0
AllContents [] = Unit
AllContents (content ∷ contents) = IsContent content × AllContents contents

abbrev pub encoded : List ℕ → Content → Attribute
encoded id (plain_address first addr) = record { kind = 1; value = mapped_value first addr }
encoded id (masked_address first addr) = record {
  kind = 32;
  value = xor_mapped_value first id addr;
}
encoded id (silent a) = a

abbrev pub first_address : List Content → Option SocketAddr
first_address [] = none
first_address (plain_address first addr ∷ contents) = some addr
first_address (masked_address first addr ∷ contents) = some addr
first_address (silent a ∷ contents) = first_address contents

parse_mapped-silent :
    (value : List ℕ)
    → (length value < 8)
      ⊎ (((byte 1 value ≡ 2) × (length value < 20)) ⊎ ((byte 1 value ≢ 1) × (byte 1 value ≢ 2)))
    → (id : List ℕ)
    → (parse_mapped_address value ≡ none) × (parse_xor_mapped_address value id ≡ none)
unfolding parse_mapped_address parse_xor_mapped_address
parse_mapped-silent value unread id =
    ground (arith, nat_eq_iff (byte 1 value) 1, nat_eq_iff (byte 1 value) 2)

mapped-silent : (a : Attribute) (id : List ℕ) → IsSilent a → mapped a.kind a.value id ≡ none
unfolding mapped
mapped-silent a id (inl (unlike, unmasked)) =
    ground (arith, nat_eq_iff a.kind 1, nat_eq_iff a.kind 32)
mapped-silent a id (inr unread) = ground (arith, parse_mapped-silent a.value unread id)

mapped-plain :
    (first : ℕ) (id : List ℕ) (addr : SocketAddr)
    → IsAddress addr.ip
    → mapped 1 (mapped_value first addr) id ≡ some addr
unfolding mapped
mapped-plain first id addr h = (parse_mapped-roundtrip first id addr h).0

mapped-masked :
    (first : ℕ) (id : List ℕ) (addr : SocketAddr)
    → IsAddress addr.ip
    → mapped 32 (xor_mapped_value first id addr) id ≡ some addr
unfolding mapped
mapped-masked first id addr h = (parse_mapped-roundtrip first id addr h).1

-- One step of `first_mapped`.
or_first : Option SocketAddr → Option SocketAddr → Option SocketAddr
or_first here first = elim here [ some addr ↦ some addr | none ↦ first ]

first_mapped-encoded :
    (id : List ℕ) (contents : List Content)
    → AllContents contents
    → first_mapped id (map (encoded id) contents) ≡ first_address contents
unfolding or_first
first_mapped-encoded id [] h = refl
first_mapped-encoded id (plain_address first addr ∷ contents) (h, more) =
    ap (λ o. or_first o (first_mapped id (map (encoded id) contents)))
      (mapped-plain first id addr h)
first_mapped-encoded id (masked_address first addr ∷ contents) (h, more) =
    ap (λ o. or_first o (first_mapped id (map (encoded id) contents)))
      (mapped-masked first id addr h)
first_mapped-encoded id (silent a ∷ contents) (h, more) =
    ap (λ o. or_first o (first_mapped id (map (encoded id) contents))) (mapped-silent a id h)
    ∙ first_mapped-encoded id contents more

-- A success answer with the transaction id of the request is read to its end, whatever attributes it
-- carries and whatever follows it. The result is the address that the first MAPPED-ADDRESS or
-- XOR-MAPPED-ADDRESS attribute was made from, in the order of the answer, and no address if there is none;
-- attributes of other types, and those whose value is too short or of an unknown family, do not count.
pub parse_stun_response-encode :
    (id : List ℕ) (contents : List Content) (trailing : List ℕ)
    → length id ≡ 12
    → AllContents contents
    → parse_stun_response (response id (map (encoded id) contents) trailing) id
      ≡ parsed (first_address contents)
parse_stun_response-encode id contents trailing size h =
    parse_stun_response-attributes id (map (encoded id) contents) trailing size
    ∙ ap parsed (first_mapped-encoded id contents h)
