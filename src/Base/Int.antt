-- ===== src/Base/Int.antt =====
-- Signed integers over the native numbers.
use native.Mathlib.Nat.{mul_comm}
use lapdev.Base.{
  ◌<◌, ◌≡◌, arith, ℕ, ◌+◌, ◌-◌, ◌*◌, ◌%◌, Bool, true, false, ltb, leb, nat_eq, nat_eq_iff, Key, ◌↔◌,
  if◌then◌else◌,
}

-- `negsuc n` is -(n + 1).
pub data ℤ : Type 0 where
  pos : ℕ → ℤ
  negsuc : ℕ → ℤ

-- `i32` and `usize`, with the wrap-around of the casts.
unfoldable pub as_i32 : ℕ → ℤ
as_i32 n =
    let low = n % 4294967296 in if ltb low 2147483648 then pos low else negsuc (4294967295 - low)

unfoldable pub as_usize : ℤ → ℕ
as_usize (pos n) = n
as_usize (negsuc n) = 18446744073709551615 - n

-- `.max(0) as usize`.
abbrev pub clamped : ℤ → ℕ
clamped (pos n) = n
clamped (negsuc _) = 0

-- A 32-bit number as what is left of it modulo 2 ^ 32.
abbrev pub residue : ℤ → ℕ
residue (pos n) = n % 4294967296
residue (negsuc n) = 4294967295 - n % 4294967296

unfoldable pub sub_i32 : ℤ → ℤ → ℤ
unfolding as_i32
sub_i32 a b = as_i32 (residue a + (4294967296 - residue b))

abbrev pub leb_int : ℤ → ℤ → Bool
leb_int (pos a) (pos b) = leb a b
leb_int (pos a) (negsuc b) = false
leb_int (negsuc a) (pos b) = true
leb_int (negsuc a) (negsuc b) = leb b a

unfoldable pub mul_i32 : ℤ → ℤ → ℤ
unfolding as_i32
mul_i32 a b = as_i32 (residue a * residue b)

pub as_i32-small : (n : ℕ) → n < 2147483648 → as_i32 n ≡ pos n
unfolding as_i32
as_i32-small n h = ground arith

pub mul_i32-small :
    (a b : ℕ)
    → a < 2147483648
    → b < 2147483648
    → b * a < 2147483648
    → mul_i32 (pos a) (pos b) ≡ pos (b * a)
unfolding mul_i32
mul_i32-small a b small_a small_b small =
    let same_a : a % 4294967296 ≡ a = omega arith in
    let same_b : b % 4294967296 ≡ b = omega arith in
    rw (same_a, same_b, mul_comm a b) (as_i32-small (b * a) small)

abbrev pub same_int : ℤ → ℤ → Bool
same_int (pos a) (pos b) = nat_eq a b
same_int (negsuc a) (negsuc b) = nat_eq a b
same_int _ _ = false

pub same_int_iff : (a b : ℤ) → (same_int a b ≡ true) ↔ (a ≡ b)
same_int_iff (pos a) (pos b) = ground (arith, nat_eq_iff a b)
same_int_iff (pos a) (negsuc b) = ground arith
same_int_iff (negsuc a) (pos b) = ground arith
same_int_iff (negsuc a) (negsuc b) = ground (arith, nat_eq_iff a b)

instance abbrev pub int_key : Key ℤ
int_key = record { same = same_int; same_iff = same_int_iff }
