-- ===== src/Stun/Masks.antt =====
-- crates/tunnel/src/direct/stun.rs: an address that a server masked is read back.
use Prim.Native.Nat.{zero, suc, bit_xor}
use lapdev.Base.{ℕ, ◌/◌, ◌%◌, ◌≡◌, refl, some, List, [], ◌∷◌, ◌++◌, arith, length, take}
use lapdev.Base.Bits.{bit_xor_twice}
use lapdev.Net.{Ipv4Addr, IpAddr, v4, v6, SocketAddr}
use lapdev.Stun.{masked, stun_magic_cookie, parse_xor_mapped_address, parse_mapped_address}

masked_twice : (xs mask : List ℕ) → masked (masked xs mask) mask ≡ xs
masked_twice [] mask = refl
masked_twice (x ∷ xs) [] = refl
masked_twice (x ∷ xs) (m ∷ mask) = ground (arith, bit_xor_twice x m, masked_twice xs mask)

length-masked : (xs mask : List ℕ) → length (masked xs mask) ≡ length xs
length-masked [] mask = refl
length-masked (x ∷ xs) [] = refl
length-masked (x ∷ xs) (m ∷ mask) = ground (arith, length-masked xs mask)

abbrev octets : IpAddr → List ℕ
octets (v4 ip) = ip.a ∷ ip.b ∷ ip.c ∷ ip.d ∷ []
octets (v6 parts) = parts

abbrev family : IpAddr → ℕ
family (v4 _) = 1
family (v6 _) = 2

-- The value of a MAPPED-ADDRESS attribute (RFC 5389, 15.1): a zero byte, the family, the port and
-- the address.
abbrev pub mapped_value : ℕ → SocketAddr → List ℕ
mapped_value first addr =
    first ∷ family addr.ip ∷ addr.port / 256 ∷ addr.port % 256 ∷ octets addr.ip

-- The value of a XOR-MAPPED-ADDRESS attribute (RFC 5389, 15.2): the same with the port and the address
-- masked by the cookie and the transaction id.
abbrev pub xor_mapped_value : ℕ → List ℕ → SocketAddr → List ℕ
xor_mapped_value first transaction_id addr =
    let port = bit_xor addr.port 0x2112 in
    first
    ∷ family addr.ip
    ∷ port / 256
    ∷ port % 256
    ∷ masked (octets addr.ip) (stun_magic_cookie ++ transaction_id)

abbrev pub IsAddress : IpAddr → Type 0
IsAddress (v4 _) = Unit
IsAddress (v6 parts) = length parts ≡ 16

take_all {ℓ} : {A : Type ℓ} (n : ℕ) (xs : List A) → length xs ≡ n → take n xs ≡ xs
take_all zero [] h = refl
take_all zero (x ∷ xs) h = absurd (omega (arith, h))
take_all (suc n) [] h = absurd (omega (arith, h))
take_all (suc n) (x ∷ xs) h = ground (arith, take_all n xs)

parse_mapped-v4 :
    (first : ℕ) (ip : Ipv4Addr) (port : ℕ)
    → parse_mapped_address (mapped_value first (record { ip = v4 ip; port = port }))
      ≡ some (record { ip = v4 ip; port = port })
unfolding parse_mapped_address
parse_mapped-v4 first ip port = ground arith

parse_mapped-v6 :
    (first : ℕ) (parts : List ℕ) (port : ℕ)
    → length parts ≡ 16
    → parse_mapped_address (mapped_value first (record { ip = v6 parts; port = port }))
      ≡ some (record { ip = v6 parts; port = port })
unfolding parse_mapped_address
parse_mapped-v6 first parts port h = ground (arith, take_all 16 parts h)

parse_xor-v4 :
    (first : ℕ) (id : List ℕ) (ip : Ipv4Addr) (port : ℕ)
    → parse_xor_mapped_address (xor_mapped_value first id (record { ip = v4 ip; port = port })) id
      ≡ some (record { ip = v4 ip; port = port })
unfolding parse_xor_mapped_address
parse_xor-v4 first id ip port = ground (
  arith,
  bit_xor_twice ip.a 0x21,
  bit_xor_twice ip.b 0x12,
  bit_xor_twice ip.c 0xa4,
  bit_xor_twice ip.d 0x42,
  bit_xor_twice port 0x2112,
)

parse_xor-v6 :
    (first : ℕ) (id parts : List ℕ) (port : ℕ)
    → length parts ≡ 16
    → parse_xor_mapped_address
        (xor_mapped_value first id (record { ip = v6 parts; port = port }))
        id
      ≡ some (record { ip = v6 parts; port = port })
unfolding parse_xor_mapped_address
parse_xor-v6 first id parts port h = ground (
  arith,
  take_all 16 (masked parts (stun_magic_cookie ++ id)),
  length-masked parts (stun_magic_cookie ++ id),
  masked_twice parts (stun_magic_cookie ++ id),
  bit_xor_twice port 0x2112,
)

-- Both kinds of mapped address, plain and masked with the transaction id that the answer is read with,
-- are read back as the address that they encode, of either family, whatever the first byte is.
pub parse_mapped-roundtrip :
    (first : ℕ) (id : List ℕ) (addr : SocketAddr)
    → IsAddress addr.ip
    → (parse_mapped_address (mapped_value first addr) ≡ some addr)
      × (parse_xor_mapped_address (xor_mapped_value first id addr) id ≡ some addr)
parse_mapped-roundtrip first id addr h =
    elim addr.ip
        as (λ ip.
          let encoded : SocketAddr = record { ip = ip; port = addr.port } in
          IsAddress ip
          → (parse_mapped_address (mapped_value first encoded) ≡ some encoded)
            × (parse_xor_mapped_address (xor_mapped_value first id encoded) id ≡ some encoded)) [
              | v4 ip ↦
                  λ h. (parse_mapped-v4 first ip addr.port, parse_xor-v4 first id ip addr.port)
              | v6 parts ↦ λ h.
                  (parse_mapped-v6 first parts addr.port h, parse_xor-v6 first id parts addr.port h)
            ]
      h
