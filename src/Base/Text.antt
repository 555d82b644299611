-- ===== src/Base/Text.antt =====
-- What the source uses of `str`: trimming, splitting, tests that ignore the case, by
-- characters.
pub mod Splits
pub mod Numerals
use Prim.Native.Nat.{ℕ, ◌+◌, zero, suc}
use Prim.Native.Char.{Char, code}
use Prim.Native.String.{String, [], ◌∷◌}
use mathlib.Core.Bool.{Bool, true, false, ◌&&◌, ◌||◌}
use mathlib.Core.List
use mathlib.Core.List.{List}
use mathlib.Core.Option.{Option, none, some}
use lapdev.Base.Tests.{leb, nat_eq, if◌then◌else◌}

-- The characters with the Unicode property White_Space.
abbrev pub is_whitespace : Char → Bool
is_whitespace c =
    let n = code c in
    (leb 9 n && leb n 13)
    || nat_eq n 32
    || nat_eq n 133
    || nat_eq n 160
    || nat_eq n 5760
    || (leb 8192 n && leb n 8202)
    || nat_eq n 8232
    || nat_eq n 8233
    || nat_eq n 8239
    || nat_eq n 8287
    || nat_eq n 12288

abbrev pub is_empty : String → Bool
is_empty [] = true
is_empty (c ∷ s) = false

abbrev pub trim_start : String → String
trim_start [] = []
trim_start (c ∷ s) = let rest = trim_start s in if is_whitespace c then rest else c ∷ s

abbrev pub trim_end : String → String
trim_end [] = []
trim_end (c ∷ s) =
    let rest = trim_end s in if is_empty rest && is_whitespace c then [] else c ∷ rest

abbrev pub trim : String → String
trim s = trim_end (trim_start s)

-- `push_str` and `format!`.
abbrev pub append : String → String → String
append [] t = t
append (c ∷ s) t = c ∷ append s t

abbrev pub prepend : Char → List String → List String
prepend c List.[] = List.◌∷◌ (c ∷ []) List.[]
prepend c (List.◌∷◌ part parts) = List.◌∷◌ (c ∷ part) parts

-- `split` at a character, which is given by its code: as many parts as separators, and one more.
unfoldable pub split : ℕ → String → List String
split separator [] = List.◌∷◌ [] List.[]
split separator (c ∷ s) =
    let parts = split separator s in
    if nat_eq (code c) separator then List.◌∷◌ [] parts else prepend c parts

-- `split_once`: what stands before the first separator, and what stands behind it.
unfoldable pub split_once : ℕ → String → Option (String × String)
split_once separator [] = none
split_once separator (c ∷ s) =
    let rest : Option (String × String) = elim (split_once separator s) [
      | none ↦ none
      | some (before, after) ↦ some (c ∷ before, after)
    ] in
    if nat_eq (code c) separator then some ([], s) else rest

unfoldable pub join : String → List String → String
join separator List.[] = []
join separator (List.◌∷◌ part List.[]) = part
join separator (List.◌∷◌ part (List.◌∷◌ next parts)) =
    append part (append separator (join separator (List.◌∷◌ next parts)))

-- `to_ascii_lowercase` of a character, by its code.
abbrev pub lower : Char → ℕ
lower c = let n = code c in if leb 65 n && leb n 90 then n + 32 else n

unfoldable pub eq_ignore_ascii_case : String → String → Bool
eq_ignore_ascii_case [] [] = true
eq_ignore_ascii_case (c ∷ s) (d ∷ t) = nat_eq (lower c) (lower d) && eq_ignore_ascii_case s t
eq_ignore_ascii_case _ _ = false

-- `s.to_lowercase().starts_with(prefix)`, for a prefix of which no character is the lower case of
-- one that is not ASCII.
unfoldable pub lower_starts_with : String → String → Bool
lower_starts_with s [] = true
lower_starts_with [] (d ∷ prefix) = false
lower_starts_with (c ∷ s) (d ∷ prefix) = nat_eq (lower c) (code d) && lower_starts_with s prefix

unfoldable pub lower_contains : String → String → Bool
lower_contains [] text = lower_starts_with [] text
lower_contains (c ∷ s) text = lower_starts_with (c ∷ s) text || lower_contains s text

-- What stands behind a prefix, if the text has it.
unfoldable pub strip_prefix : String → String → Option String
strip_prefix s [] = some s
strip_prefix [] (d ∷ prefix) = none
strip_prefix (c ∷ s) (d ∷ prefix) =
    let rest = strip_prefix s prefix in if nat_eq (code c) (code d) then rest else none

-- The text behind its first characters.
unfoldable pub skip : ℕ → String → String
skip zero s = s
skip (suc n) [] = []
skip (suc n) (c ∷ s) = skip n s

abbrev pub nowhere : (Char → Bool) → String → Bool
nowhere p [] = true
nowhere p (c ∷ s) = (if p c then false else true) && nowhere p s

abbrev pub is_char : ℕ → Char → Bool
is_char n c = nat_eq (code c) n
