-- ===== src/Base/Bimap.antt =====
-- Two hash maps that invert one another, as a table and its reverse table.
use mathlib.Core.Path.{◌≡◌}
use mathlib.Core.Option.{none, some}
use native.Mathlib.Omega.{arith}
use lapdev.Base.Tests.{Key}
use lapdev.Base.Map
use lapdev.Base.Map.{Map, get-insert, get-remove}

module _ {ℓ κ} {K : Type ℓ} {V : Type κ} ⦃key : Key K⦄ ⦃value : Key V⦄ where
  pub record AreInverse (a : Map K V) (r : Map V K) : Type (ℓ ⊔ κ) where
    pub forward : (k : K) (v : V) → Map.get k a ≡ some v → Map.get v r ≡ some k
    pub backward : (k : K) (v : V) → Map.get v r ≡ some k → Map.get k a ≡ some v

  pub insert-AreInverse :
      (k : K) (v : V) (a : Map K V) (r : Map V K)
      → AreInverse a r
      → Map.get k a ≡ none
      → Map.get v r ≡ none
      → AreInverse (Map.insert k v a) (Map.insert v k r)
  insert-AreInverse k v a r h fresh_key fresh_value = record {
    forward = λ j w e. ground (
      arith,
      get-insert k j v a,
      get-insert v w k r,
      key.same_iff k j,
      value.same_iff v w,
      h.forward j w,
    );
    backward = λ j w e. ground (
      arith,
      get-insert k j v a,
      get-insert v w k r,
      key.same_iff k j,
      value.same_iff v w,
      h.backward j w,
    );
  }

  pub remove-AreInverse :
      (k : K) (v : V) (a : Map K V) (r : Map V K)
      → AreInverse a r
      → Map.get k a ≡ some v
      → AreInverse (Map.remove k a) (Map.remove v r)
  remove-AreInverse k v a r h found = record {
    forward = λ j w e. ground (
      arith,
      get-remove k j a,
      get-remove v w r,
      key.same_iff k j,
      value.same_iff v w,
      h.forward j w,
      h.forward k v,
    );
    backward = λ j w e. ground (
      arith,
      get-remove k j a,
      get-remove v w r,
      key.same_iff k j,
      value.same_iff v w,
      h.backward j w,
      h.forward k v,
    );
  }
