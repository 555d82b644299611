-- ===== src/Base/Lists.antt =====
-- Lists measured and indexed by native numbers, under the library's names.
use Prim.Native.Nat.{ℕ, zero, suc, ◌+◌, ◌-◌, ◌≤◌, min}
use mathlib.Core.Path.{◌≡◌, refl, ap}
use mathlib.Core.Bool.{Bool, true, false, ◌&&◌, ◌||◌, false≢true}
use mathlib.Core.List.{List, [], ◌∷◌, ◌++◌}
use mathlib.Core.Option.{Option, none, some}
use native.Mathlib.Omega.{arith}
use lapdev.Base.Tests.{Key, ◌==◌, if◌then◌else◌}

module _ {ℓ} {A : Type ℓ} where
  abbrev pub length : List A → ℕ
  length [] = 0
  length (x ∷ xs) = suc (length xs)

  abbrev pub get_elem? : List A → ℕ → Option A
  get_elem? [] i = none
  get_elem? (x ∷ xs) zero = some x
  get_elem? (x ∷ xs) (suc i) = get_elem? xs i

  abbrev pub take : ℕ → List A → List A
  take zero xs = []
  take (suc n) [] = []
  take (suc n) (x ∷ xs) = x ∷ take n xs

  abbrev pub drop : ℕ → List A → List A
  drop zero xs = xs
  drop (suc n) [] = []
  drop (suc n) (x ∷ xs) = drop n xs

  -- The items for which the test holds, in order (`Iterator::filter`, `Vec::retain`).
  abbrev pub select : (A → Bool) → List A → List A
  select p [] = []
  select p (x ∷ xs) = let rest = select p xs in if p x then x ∷ rest else rest

  -- The first item for which the test holds (`Iterator::find`).
  abbrev pub find : (A → Bool) → List A → Option A
  find p [] = none
  find p (x ∷ xs) = let rest = find p xs in if p x then some x else rest

  abbrev pub any : (A → Bool) → List A → Bool
  any p [] = false
  any p (x ∷ xs) = p x || any p xs

  abbrev pub all : (A → Bool) → List A → Bool
  all p [] = true
  all p (x ∷ xs) = p x && all p xs

  pub length-append : (xs ys : List A) → length (xs ++ ys) ≡ length xs + length ys
  length-append [] ys = omega arith
  length-append (x ∷ xs) ys = omega (arith, length-append xs ys)

  pub length-take : (n : ℕ) (xs : List A) → length (take n xs) ≡ min n (length xs)
  length-take zero xs = omega arith
  length-take (suc n) [] = omega arith
  length-take (suc n) (x ∷ xs) = omega (arith, length-take n xs)

  pub length-drop : (n : ℕ) (xs : List A) → length (drop n xs) ≡ length xs - n
  length-drop zero xs = omega arith
  length-drop (suc n) [] = omega arith
  length-drop (suc n) (x ∷ xs) = omega (arith, length-drop n xs)

  pub take-append : (xs ys : List A) → take (length xs) (xs ++ ys) ≡ xs
  take-append [] ys = refl
  take-append (x ∷ xs) ys = ap (λ l. x ∷ l) (take-append xs ys)

  pub drop-append : (xs ys : List A) → drop (length xs) (xs ++ ys) ≡ ys
  drop-append [] ys = refl
  drop-append (x ∷ xs) ys = drop-append xs ys

-- Sets of keys as lists: `HashSet::contains`, `insert` and `remove`.
module _ {ℓ} {K : Type ℓ} ⦃key : Key K⦄ where
  abbrev pub contains : K → List K → Bool
  contains k [] = false
  contains k (j ∷ js) = j == k || contains k js

  abbrev pub without : K → List K → List K
  without k [] = []
  without k (j ∷ js) = let rest = without k js in if j == k then rest else j ∷ rest

  abbrev pub with_item : K → List K → List K
  with_item k js = if contains k js then js else k ∷ js

  pub contains-without :
      (k j : K) (js : List K)
      → contains j (without k js) ≡ (if k == j then false else contains j js)
  contains-without k j [] = ground arith
  contains-without k j (i ∷ js) =
      ground (arith, contains-without k j js, key.same_iff i k, key.same_iff i j, key.same_iff k j)

  pub contains-with_item :
      (k j : K) (js : List K)
      → contains j (with_item k js) ≡ (if k == j then true else contains j js)
  contains-with_item k j js = ground (arith, key.same_iff k j)

  pub contains-append :
      (k : K) (xs ys : List K) → contains k (xs ++ ys) ≡ (contains k xs || contains k ys)
  contains-append k [] ys = refl
  contains-append k (x ∷ xs) ys = ground (arith, contains-append k xs ys)

  pub contains-select :
      (p : K → Bool) (k : K) (xs : List K) → contains k (select p xs) ≡ (p k && contains k xs)
  contains-select p k [] = ground arith
  contains-select p k (x ∷ xs) = ground (arith, contains-select p k xs, key.same_iff x k)

  pub length-without : (k : K) (js : List K) → length (without k js) ≤ length js
  length-without k [] = omega arith
  length-without k (j ∷ js) = ground (arith, length-without k js)

  -- No item stands twice.
  abbrev pub IsDistinct : List K → Type 0
  IsDistinct [] = Unit
  IsDistinct (k ∷ ks) = (contains k ks ≡ false) × IsDistinct ks

  pub without-IsDistinct : (k : K) (js : List K) → IsDistinct js → IsDistinct (without k js)
  without-IsDistinct k [] h = tt
  without-IsDistinct k (j ∷ js) (fresh, h) =
      ground (arith, without-IsDistinct k js h, contains-without k j js)

  pub with_item-IsDistinct : (k : K) (js : List K) → IsDistinct js → IsDistinct (with_item k js)
  with_item-IsDistinct k js h = ground arith

  pub without_absent : (k : K) (js : List K) → contains k js ≡ false → without k js ≡ js
  without_absent k [] h = refl
  without_absent k (j ∷ js) h = ground (arith, without_absent k js)

  -- A member of a list without repetitions stands there once.
  pub length-without_member :
      (k : K) (js : List K)
      → IsDistinct js
      → contains k js ≡ true
      → length js ≡ suc (length (without k js))
  length-without_member k [] d h = absurd (false≢true h)
  length-without_member k (j ∷ js) (fresh, d) h =
      ground (arith, length-without_member k js d, key.same_iff j k, without_absent k js)
