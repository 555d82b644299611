-- ===== src/Http/Search.antt =====
-- crates/kube-rpc/src/http_parser.rs: the search for the end of the head reads only the end of the
-- buffer again.
use Prim.Native.Nat.{zero, suc}
use lapdev.Base.{
  ℕ, ◌≤◌, ◌≡◌, refl, false, ◌&&◌, ◌||◌, Bool-cases, inl, inr, List, [], ◌∷◌, ◌++◌, arith, leb,
  length, take, drop, length-append,
}
use lapdev.Net.{same_octets}
use lapdev.Http.{headers_complete, header_end_marker, search_start}

take_within {ℓ} :
    {A : Type ℓ} (n : ℕ) (xs ys : List A) → n ≤ length xs → take n (xs ++ ys) ≡ take n xs
take_within zero xs ys h = refl
take_within (suc n) [] ys h = absurd (omega arith)
take_within (suc n) (x ∷ xs) ys h = ground (arith, take_within n xs ys)

first_window :
    (x : ℕ) (xs : List ℕ)
    → headers_complete (x ∷ xs) header_end_marker ≡ (
        leb 3 (length xs) && same_octets (take 4 (x ∷ xs)) header_end_marker
        || headers_complete xs header_end_marker)
unfolding headers_complete
first_window x xs = ground arith

-- Once a buffer without the marker is longer, the marker can only end in what was added: the search
-- from the third last byte of the old buffer finds it exactly if a search of the whole buffer does.
pub search_from_end :
    (xs ys : List ℕ)
    → headers_complete xs header_end_marker ≡ false
    → headers_complete (drop (search_start (length xs)) (xs ++ ys)) header_end_marker
      ≡ headers_complete (xs ++ ys) header_end_marker
search_from_end [] ys h = refl
search_from_end (x ∷ xs) ys h = elim (Bool-cases (leb 3 (length xs))) [
  | inl long ↦ ground (
    arith,
    search_from_end xs ys,
    first_window x xs,
    first_window x (xs ++ ys),
    take_within 4 (x ∷ xs) ys,
    length-append xs ys,
  )
  | inr short ↦ ground arith
]
