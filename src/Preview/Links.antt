-- ===== src/Preview/Links.antt =====
-- Reading the name of a link back.
use Prim.Native.Nat.{suc}
use lapdev.Base.{
  ℕ, ◌+◌, ◌-◌, ◌<◌, ◌≡◌, refl, ap, ◌∙◌, String, true, false, List, [], ◌∷◌, ◌++◌, arith, nat_key,
  string_key, ltb, length, take, drop, length-append, take-append, drop-append,
}
use lapdev.Base.Int.{int_key}
use lapdev.Base.Text.{append, nowhere, is_char, split, join}
use lapdev.Base.Text.Splits.{split-append, split-nowhere, split-length, join-split}
use lapdev.Base.Text.Numerals.{decimal, parse_u16-decimal, decimal-nowhere}
use lapdev.Preview.{ok, link_name, first, parse_parts, parse_preview_url}

-- The parts of a link between its first and its last.
drop_last :
    (parts : List String) (last : String)
    → (take (length parts) (parts ++ last ∷ []) ≡ parts)
      × (first (drop (length parts) (parts ++ last ∷ [])) ≡ last)
drop_last parts last = (take-append parts (last ∷ []), ap first (drop-append parts (last ∷ [])))

module _ (port : ℕ) (service random : String) (small : port < 65536)
    (dashless : nowhere (is_char 45) random ≡ true) where
  parts_of_link :
      split 45 (link_name (decimal port) service random)
      ≡ decimal port ∷ (split 45 service ++ random ∷ [])
  parts_of_link =
      split-append "-" (decimal port) (append service (append "-" random))
      ∙ ap (λ parts. parts ++ split 45 (append service (append "-" random)))
          (split-nowhere 45 (decimal port) (decimal-nowhere port 45 (omega arith)))
      ∙ ap (λ parts. decimal port ∷ parts) (split-append "-" service random)
      ∙ ap (λ parts. decimal port ∷ (split 45 service ++ parts)) (split-nowhere 45 random dashless)

  -- The name of a link is read as the port, the service and the random end that it was made of, if the
  -- port fits in 16 bits and the random end has no dash; the name of the service may have some.
  pub parse_preview_url-link_name :
      parse_preview_url (link_name (decimal port) service random)
      ≡ ok (record { service_name = service; port = port; environment_hash = random })
  unfolding parse_preview_url
  parse_preview_url-link_name =
      let parts = split 45 service in
      let (middle, last) = drop_last parts random in
      let size : length (parts ++ random ∷ []) ≡ length parts + 1 =
        length-append parts (random ∷ []) in
      let some_parts = split-length 45 service in
      let joined : join "-" parts ≡ service = join-split "-" service in
      let long : ltb (suc (length (parts ++ random ∷ []))) 3 ≡ false = ground arith in
      let index : suc (length (parts ++ random ∷ [])) - 1 ≡ suc (length parts) = omega arith in
      let inner : suc (length parts) - 1 ≡ length parts = omega arith in
      ap parse_parts parts_of_link
      ∙ rw (long, parse_u16-decimal port small, index, inner, middle, last, joined) refl
