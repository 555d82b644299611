-- ===== src/Scheduler/Advertised.antt =====
-- What a host advertises, and what it is good for.
use Prim.Native.Nat.{suc, zero}
use lapdev.Base.{
  contains, Bool-cases, ltb, not, ◌&&◌, if◌then◌else◌, ap, ◌∙◌, ℕ, ◌+◌, ◌<◌, ◌≤◌, ◌≡◌, refl, String,
  Bool, true, false, Option, some, List, [], ◌∷◌, arith, nat_key, nat_eq_iff, length, all, without,
  length-without, IsDistinct, Option-cases, inl, inr,
}
use lapdev.Base.Int.{pos, as_i32, as_usize, as_i32-small}
use lapdev.Base.Map
use lapdev.Base.Map.{Map, contains-keys, length-remove}
use lapdev.Scheduler.Tallies.{tally, tally_same, tally_none, length-tally}
use lapdev.Scheduler.{
  Uuid, ExistingResource, CpuCore, WorkspaceHost, Workspace, Prebuild, all_cores, remove_cores,
  remove_dedicated, zero_each, count_cores, count_shared, below, unused, available_cores, dedicated,
  get_existing_resource,
}
use lapdev.Scheduler.Cores.{sharers, available_cores-get, available_cores-IsDistinct}
use lapdev.Scheduler.Hosts.{recalcuate_workspce_host}
use lapdev.Scheduler.Picks.{is_taken, get_existing_resource-cores}

-- How many cores there are at most.
length-all_cores : (n : ℕ) → length (all_cores n) ≡ n
unfolding all_cores
length-all_cores zero = refl
length-all_cores (suc n) = ground (arith, length-all_cores n)

length-remove_cores : (cores all : List ℕ) → length (remove_cores cores all) ≤ length all
unfolding remove_cores
length-remove_cores [] all = omega arith
length-remove_cores (i ∷ cores) all =
    ground (arith, length-remove_cores cores (without i all), length-without i all)

length-remove_dedicated :
    (existing : List (List ℕ × Bool)) (all : List ℕ)
    → length (remove_dedicated existing all) ≤ length all
unfolding remove_dedicated
length-remove_dedicated [] all = omega arith
length-remove_dedicated ((cores, true) ∷ existing) all = length-remove_dedicated existing all
length-remove_dedicated ((cores, false) ∷ existing) all = ground (
  arith,
  length-remove_dedicated existing (remove_cores cores all),
  length-remove_cores cores all,
)

length-remove_entry : (i : ℕ) (num : Map ℕ ℕ) → length (Map.remove i num) ≤ length num
unfolding Map.remove
length-remove_entry i [] = omega arith
length-remove_entry i ((j, n) ∷ num) = ground (arith, length-remove_entry i num)

length-zero_each : (all : List ℕ) → length (zero_each all) ≤ length all
unfolding zero_each Map.insert
length-zero_each [] = omega arith
length-zero_each (i ∷ all) =
    ground (arith, length-zero_each all, length-remove_entry i (zero_each all))

length-modify : (i : ℕ) (f : ℕ → ℕ) (num : Map ℕ ℕ) → length (Map.modify i f num) ≡ length num
unfolding Map.modify
length-modify i f [] = refl
length-modify i f ((j, n) ∷ num) = ground (arith, length-modify i f num)

length-count_cores : (cores : List ℕ) (num : Map ℕ ℕ) → length (count_cores cores num) ≡ length num
unfolding count_cores
length-count_cores [] num = refl
length-count_cores (i ∷ cores) num = ground (
  arith,
  length-count_cores cores (Map.modify i (λ n. n + 1) num),
  length-modify i (λ n. n + 1) num,
)

length-count_shared :
    (existing : List (List ℕ × Bool)) (num : Map ℕ ℕ)
    → length (count_shared existing num) ≡ length num
unfolding count_shared
length-count_shared [] num = refl
length-count_shared ((cores, false) ∷ existing) num = length-count_shared existing num
length-count_shared ((cores, true) ∷ existing) num =
    ground
      (arith, length-count_shared existing (count_cores cores num), length-count_cores cores num)

length-below : (overcommit : ℕ) (num : Map ℕ ℕ) → length (below overcommit num) ≤ length num
unfolding below
length-below overcommit [] = omega arith
length-below overcommit ((i, n) ∷ num) = ground (arith, length-below overcommit num)

pub length-available_cores :
    (total overcommit : ℕ) (existing : List (List ℕ × Bool))
    → length (available_cores total overcommit existing).available ≤ total
unfolding available_cores
length-available_cores total overcommit existing =
    let all = remove_dedicated existing (all_cores total) in
    ground (
      arith,
      length-below overcommit (count_shared existing (zero_each all)),
      length-count_shared existing (zero_each all),
      length-zero_each all,
      length-remove_dedicated existing (all_cores total),
      length-all_cores total,
    )

-- If nobody shares a core, every available core can be dedicated.
length-unused :
    (available : Map ℕ ℕ)
    → IsDistinct (Map.keys available)
    → ((i n : ℕ) → Map.get i available ≡ some n → n ≡ 0)
    → length (unused available) ≡ length available
unfolding unused Map.get
length-unused [] h zeros = refl
length-unused ((i, n) ∷ available) (fresh, h) zeros =
    let here : n ≡ 0 = zeros i n (ground (arith, nat_eq_iff i i)) in
    ground (
      arith,
      length-unused available h
          (λ j m e. zeros j m (ground (arith, contains-keys i available, nat_eq_iff i j))),
      nat_eq_iff n 0,
    )

pub length-dedicated :
    (total overcommit : ℕ) (existing : List (List ℕ × Bool))
    → ((i : ℕ) → sharers i existing ≡ 0)
    → length (dedicated (available_cores total overcommit existing))
      ≡ length (available_cores total overcommit existing).available
length-dedicated total overcommit existing alone =
    length-unused (available_cores total overcommit existing).available
      (available_cores-IsDistinct total overcommit existing)
      (λ i n e. ground (arith, available_cores-get total overcommit existing i, alone i))

-- How many cores of a host with `n` cores are to be had: those that no live workspace and no running
-- prebuild has to itself, and none if no workspace may share a core.
abbrev pub to_be_had : (String → Option CpuCore) → ℕ → ℕ → Uuid → List Workspace → List Prebuild → ℕ
to_be_had from_str overcommit n host workspaces prebuilds =
    if ltb 0 overcommit
    then tally (λ i. not (is_taken from_str host i workspaces prebuilds)) n
    else 0

length-available_tally :
    (from_str : String → Option CpuCore) (overcommit n : ℕ) (host : Uuid)
    (workspaces : List Workspace) (prebuilds : List Prebuild) (existing : ExistingResource)
    → get_existing_resource from_str host workspaces prebuilds ≡ some existing
    → length (available_cores n overcommit existing.cores).available
      ≡ to_be_had from_str overcommit n host workspaces prebuilds
length-available_tally from_str overcommit n host workspaces prebuilds existing read =
    let cores = (available_cores n overcommit existing.cores).available in
    let known : (i : ℕ)
        → contains i (Map.keys cores)
          ≡ (ltb i n && not (is_taken from_str host i workspaces prebuilds) && ltb 0 overcommit) =
      λ i. ground (
        arith,
        contains-keys i cores,
        available_cores-get n overcommit existing.cores i,
        get_existing_resource-cores from_str i host workspaces prebuilds existing read,
      ) in
    let counted =
      length-tally cores n (available_cores-IsDistinct n overcommit existing.cores)
        (λ i member. ground (arith, known i)) in
    elim (Bool-cases (ltb 0 overcommit)) [
      | inl some_share ↦
          counted
          ∙ tally_same _ (λ i. not (is_taken from_str host i workspaces prebuilds)) n
              (λ i small. ground (arith, known i, some_share))
          ∙ rw some_share refl
      | inr none_share ↦
          counted
          ∙ tally_same _ (λ i. false) n (λ i small. ground (arith, known i, none_share))
          ∙ tally_none n
          ∙ rw none_share refl
    ]

-- Recalculating a host with fewer than 2 ^ 31 cores, if an overcommit is allowed at all, advertises both to
-- share and to dedicate the number of its cores that no live workspace and no running prebuild has to
-- itself, and no core if the overcommit is 0. So neither the workspaces that share cores nor how large the
-- overcommit is change what is advertised. The number is no more than the cores of the host.
pub recalcuate_workspce_host-bounds :
    (from_str : String → Option CpuCore) (overcommit n : ℕ) (host after : WorkspaceHost)
    (workspaces : List Workspace) (prebuilds : List Prebuild)
    → host.cpu ≡ pos n
    → n < 2147483648
    → recalcuate_workspce_host from_str overcommit host workspaces prebuilds ≡ some after
    → let k = to_be_had from_str overcommit n host.id workspaces prebuilds in
      (after.available_shared_cpu ≡ pos k) × (after.available_dedicated_cpu ≡ pos k) × (k ≤ n)
unfolding recalcuate_workspce_host as_usize
recalcuate_workspce_host-bounds from_str overcommit n host after workspaces prebuilds cpus small h =
    elim (Option-cases (get_existing_resource from_str host.id workspaces prebuilds)) [
      | inl unread ↦ ground (arith, unread)
      | inr (existing, read) ↦
          let cores = available_cores n overcommit existing.cores in
          let same = length-dedicated n overcommit existing.cores (λ i.
            (get_existing_resource-cores from_str i host.id workspaces prebuilds existing
              read).1) in
          let most = length-available_cores n overcommit existing.cores in
          let counted =
            length-available_tally from_str overcommit n host.id workspaces prebuilds existing
              read in
          let shared : after.available_shared_cpu ≡ as_i32 (length cores.available) =
            ground (arith, read, cpus) in
          let own : after.available_dedicated_cpu ≡ as_i32 (length (dedicated cores)) =
            ground (arith, read, cpus) in
          let as_count : as_i32 (length cores.available)
              ≡ pos (to_be_had from_str overcommit n host.id workspaces prebuilds) =
            as_i32-small (length cores.available) (omega arith) ∙ ap pos counted in
          (shared ∙ as_count, own ∙ ap as_i32 same ∙ as_count, omega (arith, most, counted))
    ]
