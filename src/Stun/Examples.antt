-- ===== src/Stun/Examples.antt =====
-- Witnesses for the theorems on the answers of STUN servers.
use lapdev.Base.{map, arith, inl, inr, some, ℕ, ◌≡◌, refl, true, List, [], ◌∷◌}
use lapdev.Net.{v4, SocketAddr}
use lapdev.Stun.{parsed, parse_stun_response}
use lapdev.Stun.Attributes.{response}
use lapdev.Stun.Contents.{
  Content, plain_address, masked_address, silent, encoded, AllContents, parse_stun_response-encode,
}
use lapdev.Stun.Termination.{is_settled, parse_stun_response-settled}

abbrev public_address : SocketAddr
public_address = record { ip = v4 (record { a = 203; b = 0; c = 113; d = 7 }); port = 40000 }

abbrev id : List ℕ
id = 1 ∷ 2 ∷ 3 ∷ 4 ∷ 5 ∷ 6 ∷ 7 ∷ 8 ∷ 9 ∷ 10 ∷ 11 ∷ 12 ∷ []

-- A software name, a cut address, the masked address, and a plain one behind it.
abbrev answered : List Content
answered =
    silent (record { kind = 0x8022; value = 97 ∷ 98 ∷ 99 ∷ [] })
    ∷ silent (record { kind = 1; value = 0 ∷ 1 ∷ 0 ∷ [] })
    ∷ masked_address 0 public_address
    ∷ plain_address 0 (record public_address { port = 1 })
    ∷ []

answered-AllContents : AllContents answered
answered-AllContents = (inl (omega arith, omega arith), (inr (inl (omega arith)), (tt, (tt, tt))))

parse_stun_response-encode_example :
    parse_stun_response (response id (map (encoded id) answered) (0 ∷ [])) id
    ≡ parsed (some public_address)
parse_stun_response-encode_example =
    parse_stun_response-encode id answered (0 ∷ []) refl answered-AllContents

parse_stun_response-settled_example : is_settled (parse_stun_response (1 ∷ 1 ∷ []) id) ≡ true
parse_stun_response-settled_example = parse_stun_response-settled (1 ∷ 1 ∷ []) id
