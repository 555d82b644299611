-- ===== src/Base/Map.antt =====
-- `std::collections::HashMap` as an association list: `get`, `insert`, `remove`, `keys`, `values`.
-- The order of the list is one order of iteration; statements range over all lists.
use Prim.Native.Nat.{suc}
use mathlib.Core.Path.{◌≡◌, refl}
use mathlib.Core.Bool.{Bool, true, false}
use mathlib.Core.Option.{Option, none, some}
use mathlib.Core.List.{List, [], ◌∷◌}
use native.Mathlib.Omega.{arith}
use lapdev.Base.Tests.{Key, ◌==◌, if◌then◌else◌}
use lapdev.Base.Lists.{contains, IsDistinct, length}

abbrev pub Map {ℓ κ} : Type ℓ → Type κ → Type (ℓ ⊔ κ)
Map K V = List (K × V)

abbrev pub map_some {ℓ κ} : {A : Type ℓ} {B : Type κ} → (A → B) → Option A → Option B
map_some f none = none
map_some f (some a) = some (f a)

abbrev pub unwrap_or {ℓ} : {A : Type ℓ} → A → Option A → A
unwrap_or default none = default
unwrap_or default (some a) = a

-- `values_mut`, with the same write to every value.
unfoldable pub map_values {ℓ κ} : {K : Type ℓ} {V : Type κ} → (V → V) → Map K V → Map K V
map_values f [] = []
map_values f ((k, v) ∷ m) = (k, f v) ∷ map_values f m

abbrev pub is_some {ℓ} : {A : Type ℓ} → Option A → Bool
is_some none = false
is_some (some _) = true

module _ {ℓ κ} {K : Type ℓ} {V : Type κ} where
  abbrev pub keys : Map K V → List K
  keys [] = []
  keys ((k, v) ∷ m) = k ∷ keys m

  abbrev pub values : Map K V → List V
  values [] = []
  values ((k, v) ∷ m) = v ∷ values m

module _ {ℓ κ} {K : Type ℓ} {V : Type κ} ⦃key : Key K⦄ where
  unfoldable pub get : K → Map K V → Option V
  get k [] = none
  get k ((j, v) ∷ m) = if j == k then some v else get k m

  unfoldable pub remove : K → Map K V → Map K V
  remove k [] = []
  remove k ((j, v) ∷ m) = let rest = remove k m in if j == k then rest else (j, v) ∷ rest

  unfoldable pub insert : K → V → Map K V → Map K V
  unfolding remove
  insert k v m = (k, v) ∷ remove k m

  -- `get_mut` and a write through it.
  unfoldable pub modify : K → (V → V) → Map K V → Map K V
  modify k f [] = []
  modify k f ((j, v) ∷ m) =
      let rest = modify k f m in if j == k then (j, f v) ∷ rest else (j, v) ∷ rest

  -- The entries of a list, inserted one after another.
  unfoldable pub extend : List (K × V) → Map K V → Map K V
  extend [] m = m
  extend ((k, v) ∷ entries) m = extend entries (insert k v m)

  pub get-remove : (k j : K) (m : Map K V) → get j (remove k m) ≡ (if k == j then none else get j m)
  unfolding get remove
  get-remove k j [] = ground arith
  get-remove k j ((i, v) ∷ m) =
      ground (arith, get-remove k j m, key.same_iff i k, key.same_iff i j, key.same_iff k j)

  pub get-insert :
      (k j : K) (v : V) (m : Map K V) → get j (insert k v m) ≡ (if k == j then some v else get j m)
  unfolding get insert
  get-insert k j v m = ground (arith, get-remove k j m)

  pub contains-keys : (k : K) (m : Map K V) → contains k (keys m) ≡ is_some (get k m)
  unfolding get
  contains-keys k [] = refl
  contains-keys k ((j, v) ∷ m) = ground (arith, contains-keys k m)

  remove-contains :
      (k j : K) (m : Map K V) → contains j (keys m) ≡ false → contains j (keys (remove k m)) ≡ false
  remove-contains k j m h =
      ground (arith, contains-keys j m, contains-keys j (remove k m), get-remove k j m)

  pub remove-IsDistinct :
      (k : K) (m : Map K V) → IsDistinct (keys m) → IsDistinct (keys (remove k m))
  unfolding remove
  remove-IsDistinct k [] h = tt
  remove-IsDistinct k ((j, v) ∷ m) (fresh, h) =
      ground (arith, remove-IsDistinct k m h, remove-contains k j m fresh)

  pub insert-IsDistinct :
      (k : K) (v : V) (m : Map K V) → IsDistinct (keys m) → IsDistinct (keys (insert k v m))
  unfolding insert
  insert-IsDistinct k v m h = (
    ground (arith, contains-keys k (remove k m), get-remove k k m, key.same_iff k k),
    remove-IsDistinct k m h,
  )

  remove_absent : (k : K) (m : Map K V) → get k m ≡ none → remove k m ≡ m
  unfolding get remove
  remove_absent k [] h = refl
  remove_absent k ((j, v) ∷ m) h = ground (arith, remove_absent k m)

  -- A key that is there stands once, so removing it makes the map one entry shorter.
  pub length-remove :
      (k : K) (m : Map K V)
      → IsDistinct (keys m)
      → length m ≡ (if is_some (get k m) then suc (length (remove k m)) else length (remove k m))
  unfolding get remove
  length-remove k [] h = refl
  length-remove k ((j, v) ∷ m) (fresh, h) =
      ground (arith, length-remove k m h, key.same_iff j k, contains-keys j m, remove_absent j m)

  -- A new key makes the map one entry longer.
  pub length-insert_fresh :
      (k : K) (v : V) (m : Map K V) → get k m ≡ none → length (insert k v m) ≡ suc (length m)
  unfolding insert
  length-insert_fresh k v m h = ground (arith, remove_absent k m h)

  pub get-modify :
      (k j : K) (f : V → V) (m : Map K V)
      → get j (modify k f m) ≡ (if k == j then map_some f (get j m) else get j m)
  unfolding get modify
  get-modify k j f [] = ground arith
  get-modify k j f ((i, v) ∷ m) =
      ground (arith, get-modify k j f m, key.same_iff i k, key.same_iff i j, key.same_iff k j)

  pub get-map_values :
      (j : K) (f : V → V) (m : Map K V) → get j (map_values f m) ≡ map_some f (get j m)
  unfolding get map_values
  get-map_values j f [] = refl
  get-map_values j f ((i, v) ∷ m) = ground (arith, get-map_values j f m)

  pub keys-modify : (k : K) (f : V → V) (m : Map K V) → keys (modify k f m) ≡ keys m
  unfolding modify
  keys-modify k f [] = refl
  keys-modify k f ((j, v) ∷ m) = ground (arith, keys-modify k f m)
