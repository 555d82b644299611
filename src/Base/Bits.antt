-- ===== src/Base/Bits.antt =====
-- `|` of disjoint fields and `^` of words, from the digit recursion behind the native operations.
use Prim.Native.Nat.{ℕ, zero, suc, ◌+◌, ◌*◌, ◌/◌, ◌%◌, ◌^◌, ◌≤◌, ◌<◌, max, bit_or, bit_xor, differ}
use Prim.Native.Nat.{digits, bitwise, bit_or-bitwise, bit_xor-bitwise}
use mathlib.Core.Path.{◌≡◌, refl, sym, ap, ◌∙◌}
use native.Mathlib.Nat.{le_refl, pow-suc}
use native.Mathlib.Omega.{arith}

-- The two operations read digits alike: what differs is the function on one digit, which keeps the
-- right digit where the left one is absent.
module _ (on_digit : ℕ → ℕ → ℕ) (keeps : (d : ℕ) → on_digit 0 d ≡ d) where
  exhausted : (fuel b : ℕ) → digits (λ y. y) on_digit fuel 0 b ≡ b
  exhausted zero b = refl
  exhausted (suc fuel) b = refl

  same_result :
      (a b fuel more : ℕ)
      → a ≤ fuel
      → a ≤ more
      → digits (λ y. y) on_digit fuel a b ≡ digits (λ y. y) on_digit more a b
  same_result zero b fuel more _ _ = exhausted fuel b ∙ sym (exhausted more b)
  same_result (suc a) b zero more enough _ = absurd (omega arith)
  same_result (suc a) b (suc fuel) zero _ enough = absurd (omega arith)
  same_result (suc a) b (suc fuel) (suc more) enough still =
      ap (λ t. t * 2 + on_digit (suc a % 2) (b % 2))
        (same_result (suc a / 2) (b / 2) fuel more (omega arith) (omega arith))

  by_halves :
      (a b : ℕ)
      → bitwise (λ y. y) on_digit a b
        ≡ bitwise (λ y. y) on_digit (a / 2) (b / 2) * 2 + on_digit (a % 2) (b % 2)
  by_halves zero b = ground (arith, exhausted 0 b, exhausted 0 (b / 2), keeps (b % 2))
  by_halves (suc a) b =
      omega (arith, same_result (suc a / 2) (b / 2) a (suc a / 2) (omega arith) (le_refl _))

pub bit_or_halves : (a b : ℕ) → bit_or a b ≡ max (a % 2) (b % 2) + bit_or (a / 2) (b / 2) * 2
bit_or_halves a b = simp bit_or-bitwise (omega (arith, by_halves max (λ d. omega arith) a b))

pub bit_xor_step : (a b : ℕ) → bit_xor a b ≡ bit_xor (a / 2) (b / 2) * 2 + differ (a % 2) (b % 2)
bit_xor_step a b = simp bit_xor-bitwise (by_halves differ (λ d. refl) a b)

nothing_set : (bound a : ℕ) → a ≤ bound → bit_or a 0 ≡ a
nothing_set zero zero h = refl
nothing_set zero (suc a) h = absurd (omega arith)
nothing_set (suc bound) a h =
    omega (arith, bit_or_halves a 0, nothing_set bound (a / 2) (omega arith))

-- A low field of `k` bits under a high field: what `(high << k) | low` computes.
pub bit_or-shifted : (high low k : ℕ) → low < 2 ^ k → bit_or (high * 2 ^ k) low ≡ high * 2 ^ k + low
bit_or-shifted high low zero fits = ground (arith, nothing_set high high)
bit_or-shifted high low (suc k) fits = ground (
  arith,
  pow-suc 2 k,
  bit_or_halves (high * 2 ^ suc k) low,
  ap (λ (power : ℕ). high * power) (pow-suc 2 k),
  bit_or-shifted high (low / 2) k,
)

-- One digit of `(a ^ b) ^ b`.
differ_twice : (a b : ℕ) → a < 2 → b < 2 → differ (differ a b) b ≡ a
differ_twice zero zero p q = refl
differ_twice zero (suc zero) p q = refl
differ_twice (suc zero) zero p q = refl
differ_twice (suc zero) (suc zero) p q = refl
differ_twice (suc (suc a)) b p q = absurd (omega arith)
differ_twice a (suc (suc b)) p q = absurd (omega arith)

differ_bit : (a b : ℕ) → a < 2 → b < 2 → differ a b < 2
differ_bit zero b p q = q
differ_bit (suc zero) zero p q = omega arith
differ_bit (suc zero) (suc zero) p q = omega arith
differ_bit (suc (suc a)) b p q = absurd (omega arith)
differ_bit a (suc (suc b)) p q = absurd (omega arith)

module _ (a b : ℕ) where
  digit_bound : differ (a % 2) (b % 2) < 2
  digit_bound = differ_bit (a % 2) (b % 2) (omega arith) (omega arith)

  xor_half : bit_xor a b / 2 ≡ bit_xor (a / 2) (b / 2)
  xor_half = omega (arith, bit_xor_step a b, digit_bound)

  xor_low : bit_xor a b % 2 ≡ differ (a % 2) (b % 2)
  xor_low = omega (arith, bit_xor_step a b, digit_bound)

xor_cancel : (n a b : ℕ) → a ≤ n → b ≤ n → bit_xor (bit_xor a b) b ≡ a
xor_cancel zero zero zero p q = refl
xor_cancel zero (suc a) b p q = absurd (omega arith)
xor_cancel zero zero (suc b) p q = absurd (omega arith)
xor_cancel (suc n) a b p q =
    bit_xor_step (bit_xor a b) b
    ∙ rw (xor_half a b, xor_low a b)
        (omega (
          arith,
          xor_cancel n (a / 2) (b / 2) (omega arith) (omega arith),
          differ_twice (a % 2) (b % 2) (omega arith) (omega arith),
        ))

-- Masking twice with the same word gives the word back.
pub bit_xor_twice : (a b : ℕ) → bit_xor (bit_xor a b) b ≡ a
bit_xor_twice a b = xor_cancel (a + b) a b (omega arith) (omega arith)

-- The mask of two words of `k` bits has `k` bits.
pub bit_xor-lt : (k a b : ℕ) → a < 2 ^ k → b < 2 ^ k → bit_xor a b < 2 ^ k
bit_xor-lt zero zero zero p q = omega arith
bit_xor-lt zero (suc a) b p q = absurd (omega arith)
bit_xor-lt zero zero (suc b) p q = absurd (omega arith)
bit_xor-lt (suc k) a b p q = omega (
  arith,
  pow-suc 2 k,
  bit_xor_step a b,
  bit_xor-lt k (a / 2) (b / 2) (omega (arith, pow-suc 2 k)) (omega (arith, pow-suc 2 k)),
  digit_bound a b,
)
