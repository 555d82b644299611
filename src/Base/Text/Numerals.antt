-- ===== src/Base/Text/Numerals.antt =====
-- Decimal numbers: `Display` of a natural number and `FromStr` of `u16`.
use Prim.Native.Nat.{zero, suc}
use Prim.Native.Char.{Char, code, nul}
use Prim.Native.String.{String, [], ◌∷◌}
use lapdev.Base.Tests.{ltb, leb, nat_eq, if◌then◌else◌, Bool-cases}
use Prim.Native.Nat.{ℕ, ◌+◌, ◌*◌, ◌-◌, ◌/◌, ◌%◌, ◌≤◌, ◌<◌}
use mathlib.Core.Bool.{Bool, true, false, ◌&&◌, not, false≢true}
use mathlib.Core.Option.{Option, none, some}
use mathlib.Core.Path.{◌≡◌, refl, ap, ◌∙◌}
use mathlib.Core.Logic.{inl, inr}
use native.Mathlib.Omega.{arith}
use lapdev.Base.Text.{nowhere, is_char}

abbrev nth : String → ℕ → Char
nth [] n = nul
nth (c ∷ s) zero = c
nth (c ∷ s) (suc n) = nth s n

unfoldable pub digit : ℕ → Char
digit n = nth "0123456789" n

-- The digits of a number before a text, the last digit first.
pub decimal_from : ℕ → ℕ → String → String
decimal_from zero n tail = tail
decimal_from (suc fuel) n tail = elim (ltb n 10) [
  | true ↦ digit n ∷ tail
  | false ↦ decimal_from fuel (n / 10) (digit (n % 10) ∷ tail)
]

unfoldable pub decimal : ℕ → String
unfolding decimal_from digit
decimal n = decimal_from (suc n) n []

unfoldable pub parse_digits : ℕ → String → Option ℕ
parse_digits n [] = some n
parse_digits n (c ∷ s) =
    let next = n * 10 + (code c - 48) in
    let rest = parse_digits next s in
    if leb 48 (code c) && leb (code c) 57 && leb next 65535 then rest else none

-- `str::parse::<u16>`: one `+` may stand in front, and there is a digit.
unfoldable pub parse_u16 : String → Option ℕ
unfolding parse_digits
parse_u16 [] = none
parse_u16 (c ∷ []) = parse_digits 0 (c ∷ [])
parse_u16 (c ∷ (d ∷ s)) =
    if nat_eq (code c) 43 then parse_digits 0 (d ∷ s) else parse_digits 0 (c ∷ (d ∷ s))

code-digit : (n : ℕ) → n < 10 → code (digit n) ≡ 48 + n
unfolding digit
code-digit zero h = refl
code-digit (suc zero) h = refl
code-digit (suc (suc zero)) h = refl
code-digit (suc (suc (suc zero))) h = refl
code-digit (suc (suc (suc (suc zero)))) h = refl
code-digit (suc (suc (suc (suc (suc zero))))) h = refl
code-digit (suc (suc (suc (suc (suc (suc zero)))))) h = refl
code-digit (suc (suc (suc (suc (suc (suc (suc zero))))))) h = refl
code-digit (suc (suc (suc (suc (suc (suc (suc (suc zero)))))))) h = refl
code-digit (suc (suc (suc (suc (suc (suc (suc (suc (suc zero))))))))) h = refl
code-digit (suc (suc (suc (suc (suc (suc (suc (suc (suc (suc n)))))))))) h = absurd (omega arith)

parse_digits-step :
    (n d : ℕ) (tail : String)
    → d < 10
    → n * 10 + d ≤ 65535
    → parse_digits n (digit d ∷ tail) ≡ parse_digits (n * 10 + d) tail
unfolding parse_digits
parse_digits-step n d tail small fits =
    let same : 48 + d - 48 ≡ d = omega arith in rw (code-digit d small, same) (ground arith)

parse_digits-first :
    (n : ℕ) (tail : String) → n < 10 → parse_digits 0 (digit n ∷ tail) ≡ parse_digits n tail
parse_digits-first n tail small =
    let same : 0 * 10 + n ≡ n = omega arith in
    parse_digits-step 0 n tail small (omega arith) ∙ ap (λ m. parse_digits m tail) same

parse_digits-decimal_from :
    (fuel n : ℕ) (tail : String)
    → n < fuel
    → n ≤ 65535
    → parse_digits 0 (decimal_from fuel n tail) ≡ parse_digits n tail
unfolding decimal_from
parse_digits-decimal_from zero n tail enough fits = absurd (omega arith)
parse_digits-decimal_from (suc fuel) n tail enough fits = elim (Bool-cases (ltb n 10)) [
  | inl one ↦ rw (one, decimal_from) (parse_digits-first n tail (ground arith))
  | inr more ↦
      rw (more, decimal_from)
        (parse_digits-decimal_from fuel (n / 10) (digit (n % 10) ∷ tail) (ground arith)
            (omega arith)
          ∙ parse_digits-step (n / 10) (n % 10) tail (omega arith) (omega arith)
          ∙ let same : (n / 10) * 10 + n % 10 ≡ n = omega arith in rw same)
]

-- A number begins with a character that is no sign.
starts_digit : String → Bool
starts_digit [] = false
starts_digit (c ∷ s) = not (nat_eq (code c) 43)

decimal_from-starts :
    (fuel n : ℕ) (tail : String) → n < fuel → starts_digit (decimal_from fuel n tail) ≡ true
unfolding decimal_from
decimal_from-starts zero n tail enough = absurd (omega arith)
decimal_from-starts (suc fuel) n tail enough = elim (Bool-cases (ltb n 10)) [
  | inl one ↦ rw (one, decimal_from) (unfold starts_digit in ground (arith, code-digit n))
  | inr more ↦
      rw (more, decimal_from)
        (decimal_from-starts fuel (n / 10) (digit (n % 10) ∷ tail) (ground arith))
]

parse_u16-starts : (s : String) → starts_digit s ≡ true → parse_u16 s ≡ parse_digits 0 s
unfolding parse_u16 starts_digit
parse_u16-starts [] h = absurd (false≢true h)
parse_u16-starts (c ∷ []) h = refl
parse_u16-starts (c ∷ (d ∷ s)) h = ground arith

pub parse_u16-decimal : (n : ℕ) → n < 65536 → parse_u16 (decimal n) ≡ some n
unfolding decimal
parse_u16-decimal n h =
    parse_u16-starts _ (decimal_from-starts (suc n) n [] (omega arith))
    ∙ parse_digits-decimal_from (suc n) n [] (omega arith) (omega arith)
    ∙ unfold parse_digits in refl

decimal_from-nowhere :
    (fuel n : ℕ) (tail : String) (mark : ℕ)
    → mark < 48
    → nowhere (is_char mark) tail ≡ true
    → nowhere (is_char mark) (decimal_from fuel n tail) ≡ true
unfolding decimal_from
decimal_from-nowhere zero n tail mark small h = h
decimal_from-nowhere (suc fuel) n tail mark small h = elim (Bool-cases (ltb n 10)) [
  | inl one ↦ rw (one, decimal_from) (ground (arith, code-digit n))
  | inr more ↦
      rw (more, decimal_from)
        (decimal_from-nowhere fuel (n / 10) (digit (n % 10) ∷ tail) mark small (
          let small_digit : n % 10 < 10 = omega arith in
          ground (arith, code-digit (n % 10) small_digit)))
]

-- No character before the digits stands in a number.
pub decimal-nowhere : (n mark : ℕ) → mark < 48 → nowhere (is_char mark) (decimal n) ≡ true
unfolding decimal
decimal-nowhere n mark small = decimal_from-nowhere (suc n) n [] mark small refl
