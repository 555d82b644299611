-- ===== src/Scheduler/Cores.antt =====
-- Which cores of a host are available, and how many workspaces share each.
use Prim.Native.Nat.{suc, zero}
use lapdev.Base.{
  ℕ, ◌+◌, ◌≡◌, ◌∙◌, refl, Bool, true, false, ◌&&◌, ◌||◌, not, Option, none, some, List, [], ◌∷◌,
  arith, ltb, ◌==◌, nat_key, nat_eq_iff, if◌then◌else◌, contains, without, contains-without,
  IsDistinct,
}
use lapdev.Base.Map
use lapdev.Base.Map.{
  Map, is_some, map_some, get-insert, get-modify, contains-keys, insert-IsDistinct,
}
use lapdev.Scheduler.{
  all_cores, remove_cores, remove_dedicated, zero_each, count_cores, count_shared, below,
  available_cores, unused, dedicated,
}

-- Whether a core is dedicated to one of the workspaces.
abbrev pub is_dedicated : ℕ → List (List ℕ × Bool) → Bool
is_dedicated i [] = false
is_dedicated i ((cores, shared) ∷ existing) =
    (not shared && contains i cores) || is_dedicated i existing

-- How often a core stands in a list.
abbrev pub occurrences : ℕ → List ℕ → ℕ
occurrences i [] = 0
occurrences i (j ∷ cores) = (if j == i then 1 else 0) + occurrences i cores

-- How many workspaces share a core: each has it in its set once.
abbrev pub sharers : ℕ → List (List ℕ × Bool) → ℕ
sharers i [] = 0
sharers i ((cores, shared) ∷ existing) =
    (if shared then occurrences i cores else 0) + sharers i existing

contains-all_cores : (i n : ℕ) → contains i (all_cores n) ≡ ltb i n
unfolding all_cores
contains-all_cores i zero = ground arith
contains-all_cores i (suc n) = ground (arith, contains-all_cores i n, nat_eq_iff n i)

contains-remove_cores :
    (i : ℕ) (cores all : List ℕ)
    → contains i (remove_cores cores all) ≡ (not (contains i cores) && contains i all)
unfolding remove_cores
contains-remove_cores i [] all = refl
contains-remove_cores i (j ∷ cores) all =
    ground (arith, contains-remove_cores i cores (without j all), contains-without j i all)

contains-remove_dedicated :
    (i : ℕ) (existing : List (List ℕ × Bool)) (all : List ℕ)
    → contains i (remove_dedicated existing all) ≡ (not (is_dedicated i existing) && contains i all)
unfolding remove_dedicated
contains-remove_dedicated i [] all = refl
contains-remove_dedicated i ((cores, true) ∷ existing) all =
    contains-remove_dedicated i existing all
contains-remove_dedicated i ((cores, false) ∷ existing) all = ground (
  arith,
  contains-remove_dedicated i existing (remove_cores cores all),
  contains-remove_cores i cores all,
)

zero_each-get :
    (i : ℕ) (all : List ℕ) → Map.get i (zero_each all) ≡ (if contains i all then some 0 else none)
unfolding zero_each Map.get
zero_each-get i [] = refl
zero_each-get i (j ∷ all) =
    ground (arith, zero_each-get i all, get-insert j i 0 (zero_each all), nat_eq_iff j i)

-- A number of a core, with more workspaces counted.
abbrev plus : ℕ → Option ℕ → Option ℕ
plus n none = none
plus n (some m) = some (m + n)

count_cores-get :
    (i : ℕ) (cores : List ℕ) (num : Map ℕ ℕ)
    → Map.get i (count_cores cores num) ≡ plus (occurrences i cores) (Map.get i num)
unfolding count_cores
count_cores-get i [] num = ground arith
count_cores-get i (j ∷ cores) num = ground (
  arith,
  count_cores-get i cores (Map.modify j (λ n. n + 1) num),
  get-modify j i (λ n. n + 1) num,
  nat_eq_iff j i,
)

count_shared-get :
    (i : ℕ) (existing : List (List ℕ × Bool)) (num : Map ℕ ℕ)
    → Map.get i (count_shared existing num) ≡ plus (sharers i existing) (Map.get i num)
unfolding count_shared
count_shared-get i [] num = ground arith
count_shared-get i ((cores, false) ∷ existing) num = ground (arith, count_shared-get i existing num)
count_shared-get i ((cores, true) ∷ existing) num =
    ground (arith, count_shared-get i existing (count_cores cores num), count_cores-get i cores num)

zero_each-IsDistinct : (all : List ℕ) → IsDistinct (Map.keys (zero_each all))
unfolding zero_each
zero_each-IsDistinct [] = tt
zero_each-IsDistinct (i ∷ all) = insert-IsDistinct i 0 (zero_each all) (zero_each-IsDistinct all)

modify-keys : (i : ℕ) (f : ℕ → ℕ) (num : Map ℕ ℕ) → Map.keys (Map.modify i f num) ≡ Map.keys num
unfolding Map.modify
modify-keys i f [] = refl
modify-keys i f ((j, n) ∷ num) = ground (arith, modify-keys i f num)

count_cores-keys :
    (cores : List ℕ) (num : Map ℕ ℕ) → Map.keys (count_cores cores num) ≡ Map.keys num
unfolding count_cores
count_cores-keys [] num = refl
count_cores-keys (j ∷ cores) num =
    count_cores-keys cores (Map.modify j (λ n. n + 1) num) ∙ modify-keys j (λ n. n + 1) num

count_shared-keys :
    (existing : List (List ℕ × Bool)) (num : Map ℕ ℕ)
    → Map.keys (count_shared existing num) ≡ Map.keys num
unfolding count_shared
count_shared-keys [] num = refl
count_shared-keys ((cores, false) ∷ existing) num = count_shared-keys existing num
count_shared-keys ((cores, true) ∷ existing) num =
    count_shared-keys existing (count_cores cores num) ∙ count_cores-keys cores num

below-get :
    (overcommit i : ℕ) (num : Map ℕ ℕ)
    → IsDistinct (Map.keys num)
    → Map.get i (below overcommit num)
      ≡ (elim (Map.get i num) [ none ↦ none | some n ↦ if ltb n overcommit then some n else none ])
unfolding below Map.get
below-get overcommit i [] h = refl
below-get overcommit i ((j, n) ∷ num) (fresh, h) =
    ground (arith, below-get overcommit i num h, contains-keys j num, nat_eq_iff j i)

below-IsDistinct :
    (overcommit : ℕ) (num : Map ℕ ℕ)
    → IsDistinct (Map.keys num)
    → IsDistinct (Map.keys (below overcommit num))
unfolding below
below-IsDistinct overcommit [] h = tt
below-IsDistinct overcommit ((j, n) ∷ num) (fresh, h) = ground (
  arith,
  below-IsDistinct overcommit num h,
  below-get overcommit j num h,
  contains-keys j num,
  contains-keys j (below overcommit num),
)

counted-IsDistinct :
    (existing : List (List ℕ × Bool)) (all : List ℕ)
    → IsDistinct (Map.keys (count_shared existing (zero_each all)))
counted-IsDistinct existing all =
    rw (count_shared-keys existing (zero_each all)) (zero_each-IsDistinct all)

pub available_cores-IsDistinct :
    (total overcommit : ℕ) (existing : List (List ℕ × Bool))
    → IsDistinct (Map.keys (available_cores total overcommit existing).available)
unfolding available_cores
available_cores-IsDistinct total overcommit existing =
    let all = remove_dedicated existing (all_cores total) in
    below-IsDistinct overcommit (count_shared existing (zero_each all))
      (counted-IsDistinct existing all)

-- A core is available exactly if the host has it, no workspace has it to itself, and fewer workspaces
-- share it than the overcommit allows; the answer says how many do.
pub available_cores-get :
    (total overcommit : ℕ) (existing : List (List ℕ × Bool)) (i : ℕ)
    → Map.get i (available_cores total overcommit existing).available ≡ (
        if ltb i total && not (is_dedicated i existing) && ltb (sharers i existing) overcommit
        then some (sharers i existing)
        else none)
unfolding available_cores
available_cores-get total overcommit existing i =
    let all = remove_dedicated existing (all_cores total) in
    ground (
      arith,
      below-get overcommit i (count_shared existing (zero_each all))
          (counted-IsDistinct existing all),
      count_shared-get i existing (zero_each all),
      zero_each-get i all,
      contains-remove_dedicated i existing (all_cores total),
      contains-all_cores i total,
    )

contains-unused :
    (i : ℕ) (available : Map ℕ ℕ)
    → IsDistinct (Map.keys available)
    → contains i (unused available)
      ≡ (elim (Map.get i available) [ none ↦ false | some n ↦ n == 0 ])
unfolding unused Map.get
contains-unused i [] h = refl
contains-unused i ((j, n) ∷ available) (fresh, h) =
    ground (arith, contains-unused i available h, contains-keys j available, nat_eq_iff j i)

unused-IsDistinct :
    (available : Map ℕ ℕ) → IsDistinct (Map.keys available) → IsDistinct (unused available)
unfolding unused
unused-IsDistinct [] h = tt
unused-IsDistinct ((j, n) ∷ available) (fresh, h) =
    ground (
      arith,
      unused-IsDistinct available h,
      contains-unused j available h,
      contains-keys j available,
    )

pub dedicated-IsDistinct :
    (total overcommit : ℕ) (existing : List (List ℕ × Bool))
    → IsDistinct (dedicated (available_cores total overcommit existing))
dedicated-IsDistinct total overcommit existing =
    unused-IsDistinct (available_cores total overcommit existing).available
      (available_cores-IsDistinct total overcommit existing)

-- A core can be dedicated exactly if the host has it and no workspace has it, alone or with others, as
-- long as the overcommit is not 0.
pub contains-dedicated :
    (total overcommit : ℕ) (existing : List (List ℕ × Bool)) (i : ℕ)
    → contains i (dedicated (available_cores total overcommit existing)) ≡ (
        ltb i total && not (is_dedicated i existing) && sharers i existing == 0 && ltb 0 overcommit)
contains-dedicated total overcommit existing i = ground (
  arith,
  contains-unused i (available_cores total overcommit existing).available
      (available_cores-IsDistinct total overcommit existing),
  available_cores-get total overcommit existing i,
  nat_eq_iff (sharers i existing) 0,
)
