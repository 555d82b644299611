-- ===== src/Preview/Fields.antt =====
-- Lines of headers as texts: their names and values, and what stays printable.
use Prim.Native.Char.{Char, code}
use Prim.Native.String.{[], ◌∷◌}
use lapdev.Base.{
  ℕ, zero, suc, ◌≡◌, refl, String, Bool, true, false, not, ◌&&◌, ◌||◌, Bool-cases, inl, inr, arith,
  leb, nat_eq,
}
use lapdev.Base.Text.{
  append, nowhere, is_empty, is_whitespace, lower, trim, trim_start, trim_end, skip,
  eq_ignore_ascii_case, lower_starts_with,
}
use lapdev.Sidecar.Headers.{Header}
use lapdev.Base.Text.Splits.{trim_end-nowhere, and_false}

-- What stands in a header on a line of its own: a name of letters, digits and dashes, a colon, and a
-- value of printable ASCII characters.
abbrev pub is_unprintable : Char → Bool
is_unprintable c = not (leb 32 (code c) && leb (code c) 126)

abbrev pub is_unnamed : Char → Bool
is_unnamed c = not (
    (leb 97 (lower c) && leb (lower c) 122)
    || ((leb 48 (code c) && leb (code c) 57) || nat_eq (code c) 45))

abbrev pub is_header : Header → Bool
is_header (name, value) =
    not (is_empty name) && (nowhere is_unnamed name && nowhere is_unprintable value)

abbrev pub line_of : Header → String
line_of (name, value) = append name (append ":" value)

module _ (p : Char → Bool) where
  pub skip-nowhere : (n : ℕ) (s : String) → nowhere p s ≡ true → nowhere p (skip n s) ≡ true
  unfolding skip
  skip-nowhere zero s h = h
  skip-nowhere (suc n) [] h = refl
  skip-nowhere (suc n) (c ∷ s) h = skip-nowhere n s (ground arith)

  trim_start-keeps : (s : String) → nowhere p s ≡ true → nowhere p (trim_start s) ≡ true
  trim_start-keeps [] h = refl
  trim_start-keeps (c ∷ s) h = elim (Bool-cases (is_whitespace c)) [
    | inl space ↦ rw space (trim_start-keeps s (ground arith))
    | inr other ↦ rw other h
  ]

  trim_end-keeps : (s : String) → nowhere p s ≡ true → nowhere p (trim_end s) ≡ true
  trim_end-keeps [] h = refl
  trim_end-keeps (c ∷ s) h =
      let more : nowhere p s ≡ true = ground arith in
      let rest = trim_end-keeps s more in
      let here : p c ≡ false = ground arith in
      elim (Bool-cases (is_empty (trim_end s) && is_whitespace c)) [
        | inl blank ↦ rw blank refl
        | inr kept ↦ rw (kept, here, rest) refl
      ]

  pub trim-keeps : (s : String) → nowhere p s ≡ true → nowhere p (trim s) ≡ true
  trim-keeps s h = trim_end-keeps (trim_start s) (trim_start-keeps s h)

nonempty : (s : String) (c : Char) (t : String) → is_empty (append s (c ∷ t)) ≡ false
nonempty [] c t = refl
nonempty (d ∷ s) c t = refl

-- A text whose end has no white space keeps its end.
pub trim_end-append :
    (s : String) (c : Char) (t : String)
    → nowhere is_whitespace (c ∷ t) ≡ true
    → trim_end (append s (c ∷ t)) ≡ append s (c ∷ t)
trim_end-append [] c t h = trim_end-nowhere (c ∷ t) h
trim_end-append (d ∷ s) c t h =
    let full : is_empty (append s (c ∷ t)) ≡ false = nonempty s c t in
    rw (trim_end-append s c t h, full) refl

-- A trimmed text begins with no white space, whatever follows it.
pub trim_start-trim :
    (s t : String) → is_empty (trim s) ≡ false → trim_start (append (trim s) t) ≡ append (trim s) t
trim_start-trim [] t h = cc
trim_start-trim (c ∷ s) t h = elim (Bool-cases (is_whitespace c)) [
  | inl space ↦ rw space (trim_start-trim s t (rw space at h))
  | inr other ↦
      let first : trim_end (c ∷ s) ≡ c ∷ trim_end s =
        rw (other, and_false (is_empty (trim_end s))) refl in
      rw (other, first, other) refl
]

-- A text of characters that are their own lower case.
abbrev pub is_lower : String → Bool
is_lower [] = true
is_lower (c ∷ s) = nat_eq (lower c) (code c) && is_lower s

-- The colon ends a name.
colon_ends :
    (c : Char)
    → is_unnamed c ≡ false
    → (nat_eq (lower c) 58 ≡ false) × (nat_eq 58 (lower c) ≡ false)
colon_ends c h = ground arith

-- A line of a header begins with a word and a colon exactly if the word is its name, in any case.
pub lower_starts_with-line_of :
    (name value word : String)
    → nowhere is_unnamed name ≡ true
    → nowhere is_unnamed word ≡ true
    → is_lower word ≡ true
    → lower_starts_with (append name (append ":" value)) (append word ":")
      ≡ eq_ignore_ascii_case name word
unfolding eq_ignore_ascii_case lower_starts_with
lower_starts_with-line_of [] value [] h k low = refl
lower_starts_with-line_of [] value (d ∷ word) h k low = ground arith
lower_starts_with-line_of (c ∷ name) value [] h k low = ground arith
lower_starts_with-line_of (c ∷ name) value (d ∷ word) h k low =
    ground (arith, lower_starts_with-line_of name value word)

abbrev size : String → ℕ
size [] = 0
size (c ∷ s) = suc (size s)

-- Behind a name and its colon stands the value.
pub skip-line_of :
    (name value word : String)
    → eq_ignore_ascii_case name word ≡ true
    → skip (suc (size word)) (append name (append ":" value)) ≡ value
unfolding eq_ignore_ascii_case skip
skip-line_of [] value [] h = refl
skip-line_of [] value (d ∷ word) h = cc
skip-line_of (c ∷ name) value [] h = cc
skip-line_of (c ∷ name) value (d ∷ word) h = skip-line_of name value word (ground arith)
