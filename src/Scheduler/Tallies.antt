-- ===== src/Scheduler/Tallies.antt =====
-- How many cores there are of a kind, and the size of a map from cores.
use Prim.Native.Nat.{zero, suc}
use lapdev.Base.{
  ℕ, ◌<◌, ◌≤◌, ◌≡◌, refl, sym, ap, ◌∙◌, Bool, true, false, ◌||◌, [], ◌∷◌, ◌==◌, arith, nat_key,
  nat_eq_iff, Bool-cases, inl, inr, if◌then◌else◌, length, contains, IsDistinct,
}
use lapdev.Base.Map
use lapdev.Base.Map.{Map}

-- The number of cores below `n` for which the test holds.
abbrev pub tally : (ℕ → Bool) → ℕ → ℕ
tally p zero = 0
tally p (suc n) = let rest = tally p n in if p n then suc rest else rest

pub tally-le : (p : ℕ → Bool) (n : ℕ) → tally p n ≤ n
tally-le p zero = omega arith
tally-le p (suc n) = ground (arith, tally-le p n)

pub tally_same : (p q : ℕ → Bool) (n : ℕ) → ((i : ℕ) → i < n → p i ≡ q i) → tally p n ≡ tally q n
tally_same p q zero same = refl
tally_same p q (suc n) same =
    let here = same n (omega arith) in
    let below : (i : ℕ) → i < n → p i ≡ q i = λ i small. same i (omega arith) in
    let rest = tally_same p q n below in ground (arith, rest, here)

pub tally_none : (n : ℕ) → tally (λ i. false) n ≡ 0
tally_none zero = refl
tally_none (suc n) = tally_none n

tally_more :
    (p : ℕ → Bool) (i n : ℕ) → i < n → p i ≡ false → tally (λ j. i == j || p j) n ≡ suc (tally p n)
tally_more p i zero small absent = absurd (omega arith)
tally_more p i (suc n) small absent = elim (Bool-cases (i == n)) [
  | inl here ↦
      let same : i ≡ n = (nat_eq_iff i n).0 here in
      let below : (j : ℕ) → j < n → (i == j || p j) ≡ p j =
        λ j less. ground (arith, nat_eq_iff i j) in
      let rest = tally_same (λ j. i == j || p j) p n below in
      let last : p n ≡ false = ap p (sym same) ∙ absent in ground (arith, here, rest, last)
  | inr there ↦
      let other : i < n = ground (arith, nat_eq_iff i n) in
      let rest = tally_more p i n other absent in ground (arith, there, rest)
]

-- A map has as many entries as keys, if these are all below a number.
pub length-tally :
    {V : Type 0} (m : Map ℕ V) (n : ℕ)
    → IsDistinct (Map.keys m)
    → ((i : ℕ) → contains i (Map.keys m) ≡ true → i < n)
    → length m ≡ tally (λ i. contains i (Map.keys m)) n
length-tally [] n h bound = sym (tally_none n)
length-tally ((i, v) ∷ m) n (fresh, h) bound =
    let below : (j : ℕ) → contains j (Map.keys m) ≡ true → j < n =
      λ j known. bound j (ground arith) in
    let rest = length-tally m n h below in
    let here = bound i (ground (arith, nat_eq_iff i i)) in
    ap suc rest ∙ sym (tally_more (λ j. contains j (Map.keys m)) i n here fresh)
