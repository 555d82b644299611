-- ===== src/Base/Text/Splits.antt =====
-- Splitting and joining of texts, and trimming of texts without white space.

use Prim.Native.Char.{Char, code}
use Prim.Native.String.{String, [], ◌∷◌}
use text.Mathlib.TextEquality.{Char-path}
use lapdev.Base.Tests.{nat_eq, Bool-cases}
use lapdev.Base.Lists.{length}
use Prim.Native.Nat.{ℕ, ◌≤◌}
use mathlib.Core.Bool.{Bool, true, false, ◌&&◌, false≢true}
use mathlib.Core.Option.{some}
use mathlib.Core.List
use mathlib.Core.List.{List}
use mathlib.Core.Path.{◌≡◌, refl, ap, ◌∙◌, sym}
use mathlib.Core.Logic.{inl, inr}
use native.Mathlib.Omega.{arith}
use lapdev.Base.Text.{
  append, nowhere, is_char, is_whitespace, is_empty, trim, trim_start, trim_end, split, split_once,
  join, prepend,
}

prepend-length : (c : Char) (parts : List String) → 1 ≤ length (prepend c parts)
prepend-length c List.[] = omega arith
prepend-length c (List.◌∷◌ part parts) = omega arith

pub split-length : (separator : ℕ) (s : String) → 1 ≤ length (split separator s)
unfolding split
split-length separator [] = omega arith
split-length separator (c ∷ s) = elim (Bool-cases (nat_eq (code c) separator)) [
  | inl there ↦ rw there (omega arith)
  | inr other ↦ rw other (prepend-length c (split separator s))
]

prepend-append :
    (c : Char) (parts more : List String)
    → 1 ≤ length parts
    → prepend c (List.◌++◌ parts more) ≡ List.◌++◌ (prepend c parts) more
prepend-append c List.[] more h = absurd (omega arith)
prepend-append c (List.◌∷◌ part parts) more h = refl

-- The parts on both sides of a separator.
pub split-append :
    (c : Char) (s t : String)
    → split (code c) (append s (c ∷ t)) ≡ List.◌++◌ (split (code c) s) (split (code c) t)
unfolding split
split-append c [] t = let same : nat_eq (code c) (code c) ≡ true = ground arith in rw same
split-append c (d ∷ s) t = elim (Bool-cases (nat_eq (code d) (code c))) [
  | inl there ↦ rw there (ap (List.◌∷◌ []) (split-append c s t))
  | inr other ↦ rw other (
      ap (prepend d) (split-append c s t)
      ∙ prepend-append d (split (code c) s) (split (code c) t) (split-length (code c) s))
]

-- A text without the separator is one part.
pub split-nowhere :
    (separator : ℕ) (s : String)
    → nowhere (is_char separator) s ≡ true
    → split separator s ≡ List.◌∷◌ s List.[]
unfolding split
split-nowhere separator [] h = refl
split-nowhere separator (c ∷ s) h = elim (Bool-cases (nat_eq (code c) separator)) [
  | inl there ↦ absurd (false≢true (rw there at h))
  | inr other ↦
      let more : nowhere (is_char separator) s ≡ true = ground arith in
      rw other (ap (prepend c) (split-nowhere separator s more))
]

join-empty :
    (separator : String) (parts : List String)
    → 1 ≤ length parts
    → join separator (List.◌∷◌ [] parts) ≡ append separator (join separator parts)
unfolding join
join-empty separator List.[] h = absurd (omega arith)
join-empty separator (List.◌∷◌ part parts) h = refl

join-prepend :
    (separator : String) (c : Char) (parts : List String)
    → 1 ≤ length parts
    → join separator (prepend c parts) ≡ c ∷ join separator parts
unfolding join
join-prepend separator c List.[] h = absurd (omega arith)
join-prepend separator c (List.◌∷◌ part List.[]) h = refl
join-prepend separator c (List.◌∷◌ part (List.◌∷◌ next parts)) h = refl

same_char : (d c : Char) → nat_eq (code d) (code c) ≡ true → d ≡ c
same_char d c h = Char-path d c (ground arith)

-- Joining the parts with the separator gives the text back.
pub join-split : (c : Char) (s : String) → join (c ∷ []) (split (code c) s) ≡ s
unfolding split
join-split c [] = unfold join in refl
join-split c (d ∷ s) = elim (Bool-cases (nat_eq (code d) (code c))) [
  | inl there ↦ rw there (
      join-empty (c ∷ []) (split (code c) s) (split-length (code c) s)
      ∙ ap (λ (t : String). c ∷ t) (join-split c s)
      ∙ ap (λ (e : Char). e ∷ s) (sym (same_char d c there)))
  | inr other ↦ rw other (
      join-prepend (c ∷ []) d (split (code c) s) (split-length (code c) s)
      ∙ ap (λ (t : String). d ∷ t) (join-split c s))
]

pub split_once-append :
    (c : Char) (s t : String)
    → nowhere (is_char (code c)) s ≡ true
    → split_once (code c) (append s (c ∷ t)) ≡ some (s, t)
unfolding split_once
split_once-append c [] t h = let same : nat_eq (code c) (code c) ≡ true = ground arith in rw same
split_once-append c (d ∷ s) t h = elim (Bool-cases (nat_eq (code d) (code c))) [
  | inl there ↦ absurd (false≢true (rw there at h))
  | inr other ↦
      let more : nowhere (is_char (code c)) s ≡ true = ground arith in
      rw (other, split_once-append c s t more)
]

trim_start-nowhere : (s : String) → nowhere is_whitespace s ≡ true → trim_start s ≡ s
trim_start-nowhere [] h = refl
trim_start-nowhere (c ∷ s) h = elim (Bool-cases (is_whitespace c)) [
  | inl space ↦ absurd (false≢true (rw space at h))
  | inr other ↦ rw other
]

pub and_false : (b : Bool) → (b && false) ≡ false
and_false true = refl
and_false false = refl

pub trim_end-nowhere : (s : String) → nowhere is_whitespace s ≡ true → trim_end s ≡ s
trim_end-nowhere [] h = refl
trim_end-nowhere (c ∷ s) h = elim (Bool-cases (is_whitespace c)) [
  | inl space ↦ absurd (false≢true (rw space at h))
  | inr other ↦ rw (trim_end-nowhere s (rw other at h), other, and_false (is_empty s))
]

-- A text without white space is trimmed already.
pub trim-nowhere : (s : String) → nowhere is_whitespace s ≡ true → trim s ≡ s
trim-nowhere s h = ap trim_end (trim_start-nowhere s h) ∙ trim_end-nowhere s h

pub nowhere-append :
    (p : Char → Bool) (s t : String)
    → nowhere p s ≡ true
    → nowhere p t ≡ true
    → nowhere p (append s t) ≡ true
nowhere-append p [] t hs ht = ht
nowhere-append p (c ∷ s) t hs ht = ground (arith, nowhere-append p s t)
