-- ===== src/Watch/Retry.antt =====
-- crates/kube-manager/src/watch_manager.rs: the loop of a watcher task, which runs `watch_resource`
-- again and again. The input lists the results of the runs, `true` for a run that ended gracefully.
use Prim.Native.Nat.{zero, suc}
use native.Mathlib.Nat.{pow-suc}
use lapdev.Base.{ℕ, ◌*◌, ◌^◌, min, ◌≡◌, refl, ap, Bool, true, false, List, [], ◌∷◌, ◌++◌, arith}

-- The pauses in seconds, from a given one on.
unfoldable pub pauses : ℕ → List Bool → List ℕ
pauses backoff [] = []
pauses backoff (true ∷ results) = pauses 1 results
pauses backoff (false ∷ results) = backoff ∷ pauses (min (backoff * 2) 30) results

abbrev pub failures : ℕ → List Bool
failures zero = []
failures (suc n) = false ∷ failures n

-- The pauses of a run of failures by their closed form, from the `k`-th on.
abbrev pub capped_powers : ℕ → ℕ → List ℕ
capped_powers k zero = []
capped_powers k (suc n) = min (2 ^ k) 30 ∷ capped_powers (suc k) n

pauses-failures : (k n : ℕ) → pauses (min (2 ^ k) 30) (failures n) ≡ capped_powers k n
unfolding pauses
pauses-failures k zero = refl
pauses-failures k (suc n) = ground (arith, pauses-failures (suc k) n, pow-suc 2 k)

-- A graceful end resets the pause: whatever happened before, the failures that follow it are waited
-- for 1, 2, 4, … seconds, doubling up to 30.
pub pauses-reset :
    (backoff n : ℕ) (results : List Bool)
    → pauses backoff (results ++ true ∷ failures n) ≡ pauses backoff results ++ capped_powers 0 n
unfolding pauses
pauses-reset backoff n [] = pauses-failures 0 n
pauses-reset backoff n (true ∷ results) = pauses-reset 1 n results
pauses-reset backoff n (false ∷ results) =
    ap (λ l. backoff ∷ l) (pauses-reset (min (backoff * 2) 30) n results)
