-- ===== src/Scheduler.antt =====
-- crates/conductor/src/scheduler.rs: which host a workspace is put on, and which of its cores it gets.
-- The tables of the database are lists of rows. `from_str` reads the column `cores`, and `iterate` is the
-- order in which a `HashSet` yields its items; both are parameters.
pub mod Cores
pub mod Hosts
pub mod Picks
mod Tallies
mod Advertised
mod Candidates
mod Decisions
mod Examples
use lapdev.Base.{
  ℕ, ◌+◌, ◌-◌, ◌%◌, String, Bool, true, false, ◌&&◌, ◌||◌, not, Option, none, some, List, [], ◌∷◌,
  ◌++◌, ltb, leb, ◌==◌, nat_key, if◌then◌else◌, select, find, take, length, contains, without,
  with_item,
}
use lapdev.Base.Int.{ℤ, pos, negsuc, clamped}
use lapdev.Base.Map
use lapdev.Base.Map.{Map}
use Prim.Native.Nat.{suc, zero}

abbrev pub Uuid : Type 0
Uuid = ℕ

pub data CpuCore : Type 0 where
  shared_cores : ℕ → CpuCore
  dedicated_cores : List ℕ → CpuCore

pub record AvailableCore : Type 0 where
  pub total : ℕ
  pub overcommit : ℕ
  pub available : Map ℕ ℕ

pub record ExistingResource : Type 0 where
  pub cores : List (List ℕ × Bool)
  pub memory : ℕ
  pub disk : ℕ

pub record MachineType : Type 0 where
  pub memory : ℤ
  pub disk : ℤ

pub data PrebuildStatus : Type 0 where
  building ready failed : PrebuildStatus

pub data WorkspaceHostStatus : Type 0 where
  new active inactive version_mismatch : WorkspaceHostStatus

pub record WorkspaceHost : Type 0 where
  pub id : Uuid
  pub deleted : Bool
  pub status : WorkspaceHostStatus
  pub cpu : ℤ
  pub memory : ℤ
  pub disk : ℤ
  pub available_dedicated_cpu : ℤ
  pub available_shared_cpu : ℤ
  pub available_memory : ℤ
  pub available_disk : ℤ
  pub region : String

pub record Workspace : Type 0 where
  pub host_id : Uuid
  pub deleted : Bool
  pub has_compose_parent : Bool
  pub cores : String
  pub machine_type : Option MachineType

pub record Prebuild : Type 0 where
  pub host_id : Uuid
  pub deleted : Bool
  pub status : PrebuildStatus
  pub by_workspace : Bool
  pub cores : String
  pub machine_type : Option MachineType

abbrev pub is_active : WorkspaceHostStatus → Bool
is_active WorkspaceHostStatus.active = true
is_active _ = false

abbrev is_building : PrebuildStatus → Bool
is_building PrebuildStatus.building = true
is_building _ = false

-- `HashSet::from_iter`.
unfoldable pub from_iter : List ℕ → List ℕ
from_iter [] = []
from_iter (core ∷ cores) = with_item core (from_iter cores)

abbrev with_cores : CpuCore → List (List ℕ × Bool) → List (List ℕ × Bool)
with_cores (dedicated_cores cores) existing = existing ++ (from_iter cores, false) ∷ []
with_cores (shared_cores _) existing = existing

abbrev pub usize_mod : ℕ
usize_mod = 18446744073709551616

-- One round of either loop of `get_existing_resource`, on the columns that it reads.
unfoldable pub add_existing :
    (String → Option CpuCore)
    → String
    → Option MachineType
    → ExistingResource
    → Option ExistingResource
add_existing from_str cores none existing = some existing
add_existing from_str cores (some machine_type) existing = elim (from_str cores) [
  | none ↦ none
  | some core ↦ some (record {
    cores = with_cores core existing.cores;
    memory = (existing.memory + clamped machine_type.memory) % usize_mod;
    disk = (existing.disk + clamped machine_type.disk) % usize_mod;
  })
]

abbrev pub is_live : Uuid → Workspace → Bool
is_live host w = w.host_id == host && not w.deleted && not w.has_compose_parent

abbrev pub is_pending : Uuid → Prebuild → Bool
is_pending host p = p.host_id == host && is_building p.status && not p.deleted && not p.by_workspace

unfoldable pub add_workspaces :
    (String → Option CpuCore) → List Workspace → ExistingResource → Option ExistingResource
add_workspaces from_str [] existing = some existing
add_workspaces from_str (w ∷ ws) existing =
    elim (add_existing from_str w.cores w.machine_type existing) [
      | none ↦ none
      | some more ↦ add_workspaces from_str ws more
    ]

unfoldable pub add_prebuilds :
    (String → Option CpuCore) → List Prebuild → ExistingResource → Option ExistingResource
add_prebuilds from_str [] existing = some existing
add_prebuilds from_str (p ∷ ps) existing =
    elim (add_existing from_str p.cores p.machine_type existing) [
      | none ↦ none
      | some more ↦ add_prebuilds from_str ps more
    ]

abbrev pub nothing_existing : ExistingResource
nothing_existing = record { cores = []; memory = 0; disk = 0 }

-- Nothing where `serde_json` cannot read a row.
unfoldable pub get_existing_resource :
    (String → Option CpuCore) → Uuid → List Workspace → List Prebuild → Option ExistingResource
get_existing_resource from_str host workspaces prebuilds =
    elim (add_workspaces from_str (select (is_live host) workspaces) nothing_existing) [
      | none ↦ none
      | some existing ↦ add_prebuilds from_str (select (is_pending host) prebuilds) existing
    ]

-- The cores `0..total`, as a set.
unfoldable pub all_cores : ℕ → List ℕ
all_cores zero = []
all_cores (suc n) = n ∷ all_cores n

unfoldable pub remove_cores : List ℕ → List ℕ → List ℕ
remove_cores [] all = all
remove_cores (i ∷ cores) all = remove_cores cores (without i all)

-- The loop over `existing` that takes the dedicated cores away.
unfoldable pub remove_dedicated : List (List ℕ × Bool) → List ℕ → List ℕ
remove_dedicated [] all = all
remove_dedicated ((cores, shared) ∷ existing) all =
    remove_dedicated existing (if not shared then remove_cores cores all else all)

unfoldable pub zero_each : List ℕ → Map ℕ ℕ
zero_each [] = []
zero_each (i ∷ all) = Map.insert i 0 (zero_each all)

unfoldable pub count_cores : List ℕ → Map ℕ ℕ → Map ℕ ℕ
count_cores [] num = num
count_cores (i ∷ cores) num = count_cores cores (Map.modify i (λ n. n + 1) num)

-- The loop over `existing` that counts the users of the shared cores.
unfoldable pub count_shared : List (List ℕ × Bool) → Map ℕ ℕ → Map ℕ ℕ
count_shared [] num = num
count_shared ((cores, shared) ∷ existing) num =
    count_shared existing (if shared then count_cores cores num else num)

unfoldable pub below : ℕ → Map ℕ ℕ → Map ℕ ℕ
below overcommit [] = []
below overcommit ((i, n) ∷ num) =
    let rest = below overcommit num in if ltb n overcommit then (i, n) ∷ rest else rest

unfoldable pub available_cores : ℕ → ℕ → List (List ℕ × Bool) → AvailableCore
available_cores total overcommit existing = record {
  total = total;
  overcommit = overcommit;
  available =
      below overcommit
        (count_shared existing (zero_each (remove_dedicated existing (all_cores total))));
}

-- `AvailableCore::dedicated`, on the map.
unfoldable pub unused : Map ℕ ℕ → List ℕ
unused [] = []
unused ((i, n) ∷ available) = let rest = unused available in if n == 0 then i ∷ rest else rest

abbrev pub dedicated : AvailableCore → List ℕ
dedicated a = unused a.available
