-- ===== src/Stun/Attributes.antt =====
-- crates/tunnel/src/direct/stun.rs: what is read from an answer that is encoded as RFC 5389 says.
use Prim.Native.Nat.{zero, suc}
use mathlib.Core.List.{append_assoc}
use lapdev.Base.{
  ℕ, ◌+◌, ◌-◌, ◌*◌, ◌/◌, ◌%◌, ◌<◌, ◌≤◌, ◌≡◌, refl, sym, ap, ◌∙◌, Option, none, some, List, [], ◌∷◌,
  ◌++◌, arith, length, take, drop, if◌then◌else◌, ltb, leb, false, true, length-append, take-append,
}
use lapdev.Net.{SocketAddr, same_octets, same_octets_iff}
use lapdev.Stun.{
  byte, word, slice, mapped, padding, attributes, StunResult, parsed, attribute_exceeds,
  stun_magic_cookie, parse_stun_response,
}

pub record Attribute : Type 0 where
  pub kind : ℕ
  pub value : List ℕ

abbrev zeros : ℕ → List ℕ
zeros zero = []
zeros (suc n) = 0 ∷ zeros n

-- How much a length is short of a multiple of four.
abbrev gap : ℕ → ℕ
gap n = (n + 3) / 4 * 4 - n

gap-padding : (n : ℕ) → gap n ≡ padding n
gap-padding n = omega arith

abbrev encode_attribute : Attribute → List ℕ
encode_attribute a =
    a.kind / 256 ∷ a.kind % 256 ∷ length a.value / 256 ∷ length a.value % 256 ∷ a.value
    ++ zeros (gap (length a.value))

abbrev pub encode : List Attribute → List ℕ
encode [] = []
encode (a ∷ attrs) = encode_attribute a ++ encode attrs

-- The first attribute that carries an address.
abbrev pub first_mapped : List ℕ → List Attribute → Option SocketAddr
first_mapped transaction_id [] = none
first_mapped transaction_id (a ∷ attrs) = elim (mapped a.kind a.value transaction_id) [
  | some addr ↦ some addr
  | none ↦ first_mapped transaction_id attrs
]

length-zeros : (n : ℕ) → length (zeros n) ≡ n
length-zeros zero = refl
length-zeros (suc n) = omega (arith, length-zeros n)

length-encode_attribute :
    (a : Attribute) → length (encode_attribute a) ≡ 4 + length a.value + padding (length a.value)
length-encode_attribute a = omega (
  arith,
  length-append a.value (zeros (gap (length a.value))),
  length-zeros (gap (length a.value)),
)

suc_sum : (n i : ℕ) → suc n + i ≡ suc (n + i)
suc_sum n i = omega arith

byte-behind : (pre ys : List ℕ) (i : ℕ) → byte (length pre + i) (pre ++ ys) ≡ byte i ys
byte-behind [] ys i = ground arith
byte-behind (x ∷ pre) ys i =
    ap (λ n. byte n (x ∷ (pre ++ ys))) (suc_sum (length pre) i) ∙ byte-behind pre ys i

drop-behind : (pre ys : List ℕ) (i : ℕ) → drop (length pre + i) (pre ++ ys) ≡ drop i ys
drop-behind [] ys i = ground arith
drop-behind (x ∷ pre) ys i =
    ap (λ n. drop n (x ∷ (pre ++ ys))) (suc_sum (length pre) i) ∙ drop-behind pre ys i

-- One attribute behind a prefix: its type, its length and its value.
module _ (pre : List ℕ) (a : Attribute) (rest : List ℕ) where
  abbrev datagram : List ℕ
  datagram = pre ++ (encode_attribute a ++ rest)

  read_kind : word (length pre) datagram ≡ a.kind
  read_kind = ground (
    arith,
    byte-behind pre (encode_attribute a ++ rest) 0,
    byte-behind pre (encode_attribute a ++ rest) 1,
  )

  read_length : word (length pre + 2) datagram ≡ length a.value
  read_length = ground (
    arith,
    byte-behind pre (encode_attribute a ++ rest) 2,
    byte-behind pre (encode_attribute a ++ rest) 3,
  )

  read_value : slice (length pre + 4) (length pre + 4 + length a.value) datagram ≡ a.value
  read_value = ground (
    arith,
    drop-behind pre (encode_attribute a ++ rest) 4,
    append_assoc a.value (zeros (gap (length a.value))) rest,
    take-append a.value (zeros (gap (length a.value)) ++ rest),
  )

  length-datagram :
      length datagram ≡ length pre + (4 + length a.value + padding (length a.value) + length rest)
  length-datagram = omega (
    arith,
    length-append pre (encode_attribute a ++ rest),
    length-append (encode_attribute a) rest,
    length-encode_attribute a,
  )

  -- One round of the loop, from the type and the length that it has read.
  abbrev round : List ℕ → ℕ → (ℕ → StunResult) → ℕ → ℕ → StunResult
  round id end onwards attr_len attr_type =
      let offset = length pre in
      let value_end = offset + 4 + attr_len in
      if leb (offset + 4) end
      then (if ltb (length datagram) value_end
          then attribute_exceeds
          else elim (mapped attr_type (slice (offset + 4) value_end datagram) id) [
            | some addr ↦ parsed (some addr)
            | none ↦ onwards (value_end + padding attr_len)
          ])
      else parsed none

  -- The round of the loop that reads this attribute.
  one_round :
      (id : List ℕ) (end fuel : ℕ)
      → length pre + 4 ≤ end
      → attributes datagram id end (suc fuel) (length pre) ≡ (elim (mapped a.kind a.value id) [
        | some addr ↦ parsed (some addr)
        | none ↦
            attributes datagram id end fuel
              (length pre + 4 + length a.value + padding (length a.value))
      ])
  unfolding attributes
  one_round id end fuel fits =
      let room : ltb (length datagram) (length pre + 4 + length a.value) ≡ false =
        ground (arith, length-datagram) in
      let more : leb (length pre + 4) end ≡ true = ground arith in
      let onwards = attributes datagram id end fuel in
      ap (λ n. round id end onwards n (word (length pre) datagram)) read_length
      ∙ ap (λ k. round id end onwards (length a.value) k) read_kind
      ∙ rw (more, room, read_value) refl

no_attribute :
    (pre trailing id : List ℕ) (fuel : ℕ)
    → attributes (pre ++ trailing) id (length pre + 0) (suc fuel) (length pre) ≡ parsed none
unfolding attributes
no_attribute pre trailing id fuel = ground arith

onwards_or :
    (here : Option SocketAddr) (later : StunResult) (first : Option SocketAddr)
    → later ≡ parsed first
    → Path StunResult
        (elim here [ none ↦ later | some addr ↦ parsed (some addr) ])
        (parsed (elim here [ some addr ↦ some addr | none ↦ first ]))
onwards_or none later first e = e
onwards_or (some addr) later first e = refl

-- The loop from the end of a prefix, over attributes that end where the message does.
attributes-encode :
    (attrs : List Attribute) (pre trailing id : List ℕ) (fuel : ℕ)
    → length attrs < fuel
    → attributes
        (pre ++ (encode attrs ++ trailing))
        id
        (length pre + length (encode attrs))
        fuel
        (length pre)
      ≡ parsed (first_mapped id attrs)
attributes-encode attrs pre trailing id zero enough = absurd (omega arith)
attributes-encode [] pre trailing id (suc fuel) enough = no_attribute pre trailing id fuel
attributes-encode (a ∷ attrs) pre trailing id (suc fuel) enough =
    let E = encode attrs in
    let next = pre ++ encode_attribute a in
    let end = length pre + length (encode_attribute a ++ E) in
    let size : length (encode_attribute a ++ E)
        ≡ 4 + length a.value + padding (length a.value) + length E =
      omega (arith, length-append (encode_attribute a) E, length-encode_attribute a) in
    let next_size : length next ≡ length pre + 4 + length a.value + padding (length a.value) =
      omega (arith, length-append pre (encode_attribute a), length-encode_attribute a) in
    let ih = attributes-encode attrs next trailing id fuel (omega arith) in
    rw (append_assoc (encode_attribute a) E trailing) (
      one_round pre a (E ++ trailing) id end fuel (omega (arith, size))
      ∙ onwards_or (mapped a.kind a.value id) _ (first_mapped id attrs) (
          ap
            (λ d.
              attributes d id end fuel (length pre + 4 + length a.value + padding (length a.value)))
            (sym (append_assoc pre (encode_attribute a) (E ++ trailing)))
          ∙ ap
              (λ e.
                attributes (next ++ (E ++ trailing)) id e fuel
                  (length pre + 4 + length a.value + padding (length a.value)))
              (omega (arith, size, next_size))
          ∙ ap (λ p. attributes (next ++ (E ++ trailing)) id (length next + length E) fuel p)
              (sym next_size)
          ∙ ih))

abbrev header : ℕ → List ℕ → List ℕ
header message_len id = 1 ∷ 1 ∷ message_len / 256 ∷ message_len % 256 ∷ stun_magic_cookie ++ id

-- A success answer to a request (RFC 5389, 6) and what may follow it in the datagram.
abbrev pub response : List ℕ → List Attribute → List ℕ → List ℕ
response id attrs trailing = header (length (encode attrs)) id ++ (encode attrs ++ trailing)

length-attrs : (attrs : List Attribute) → length attrs ≤ length (encode attrs)
length-attrs [] = omega arith
length-attrs (a ∷ attrs) =
    omega (arith, length-attrs attrs, length-append (encode_attribute a) (encode attrs))

-- The loop over the attributes of a whole answer.
pub parse_stun_response-attributes :
    (id : List ℕ) (attrs : List Attribute) (trailing : List ℕ)
    → length id ≡ 12
    → parse_stun_response (response id attrs trailing) id ≡ parsed (first_mapped id attrs)
unfolding parse_stun_response
parse_stun_response-attributes id attrs trailing h =
    let E = encode attrs in
    let pre = header (length E) id in
    let size : length pre ≡ 20 = omega (arith, h, length-append stun_magic_cookie id) in
    let ends =
      attributes-encode attrs pre trailing id (suc (length E))
        (omega (arith, length-attrs attrs)) in
    let datagram = pre ++ (E ++ trailing) in
    let len : word 2 datagram ≡ length E = omega arith in
    let total : length datagram ≡ 20 + length E + length trailing =
      omega (arith, size, length-append pre (E ++ trailing), length-append E trailing) in
    let same_id : take 12 (id ++ (E ++ trailing)) ≡ id =
      ap (λ n. take n (id ++ (E ++ trailing))) (sym h) ∙ take-append id (E ++ trailing) in
    let from_20 : attributes datagram id (20 + length E) (suc (length E)) 20
        ≡ parsed (first_mapped id attrs) =
      ap (λ n. attributes datagram id (n + length E) (suc (length E)) n) (sym size) ∙ ends in
    let loop : attributes datagram id (20 + word 2 datagram) (suc (word 2 datagram)) 20
        ≡ parsed (first_mapped id attrs) =
      ap (λ n. attributes datagram id (20 + n) (suc n) 20) len ∙ from_20 in
    let long : ltb (length datagram) 20 ≡ false = ground (arith, total) in
    let whole : ltb (length datagram) (20 + word 2 datagram) ≡ false = ground (arith, total, len) in
    let matching : same_octets (take 12 (id ++ (E ++ trailing))) id ≡ true =
      (same_octets_iff _ _).1 same_id in
    rw (long, whole, matching, parse_stun_response) loop
