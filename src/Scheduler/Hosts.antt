-- ===== src/Scheduler/Hosts.antt =====
-- crates/conductor/src/scheduler.rs: deciding on a host, picking its cores, and what a host advertises.
-- The query of the database selects rows and orders them; which of two equal rows comes first is the
-- order of the list.

use lapdev.Base.{
  ℕ, String, Bool, ◌&&◌, ◌||◌, not, Option, none, some, List, [], ◌∷◌, ◌==◌, nat_key, string_key,
  if◌then◌else◌, select, find, take, length, contains,
}
use lapdev.Base.Int.{ℤ, as_i32, as_usize, leb_int, sub_i32}
use lapdev.Sidecar.Rpc.{is_empty}
use lapdev.Scheduler.{
  Uuid, CpuCore, shared_cores, dedicated_cores, ExistingResource, WorkspaceHost, Workspace,
  Prebuild, is_active, get_existing_resource, available_cores, dedicated,
}

-- What is asked for.
pub record Request : Type 0 where
  pub prebuild_workspace_host : Option Uuid
  pub prebuild_replica_hosts : List Uuid
  pub shared : Bool
  pub cpu : ℕ
  pub memory : ℕ
  pub disk : ℕ
  pub region : String

-- `cpu_column`.
abbrev pub available_cpu : Bool → WorkspaceHost → ℤ
available_cpu shared host =
    if not shared then host.available_dedicated_cpu else host.available_shared_cpu

-- The filters of `query`.
unfoldable pub is_candidate : Request → WorkspaceHost → Bool
is_candidate request host =
    host.region == request.region
    && not host.deleted
    && is_active host.status
    && leb_int (as_i32 request.memory) host.available_memory
    && leb_int (as_i32 request.disk) host.available_disk
    && leb_int (as_i32 request.cpu) (available_cpu request.shared host)

abbrev lt_int : ℤ → ℤ → Bool
lt_int a b = not (leb_int b a)

-- Whether a row comes after another by the three descending columns.
unfoldable pub is_after : Bool → WorkspaceHost → WorkspaceHost → Bool
is_after shared a b =
    let a_cpu = available_cpu shared a in
    let b_cpu = available_cpu shared b in
    lt_int a_cpu b_cpu
    || (leb_int a_cpu b_cpu
        && (lt_int a.available_memory b.available_memory
            || (leb_int a.available_memory b.available_memory
                && lt_int a.available_disk b.available_disk)))

-- The first row by `order_by`.
unfoldable pub first_ordered : Bool → List WorkspaceHost → Option WorkspaceHost
first_ordered shared [] = none
first_ordered shared (host ∷ hosts) = elim (first_ordered shared hosts) [
  | none ↦ some host
  | some other ↦ if is_after shared host other then some other else some host
]

abbrev pub has_id : Uuid → WorkspaceHost → Bool
has_id id host = host.id == id

abbrev pub or_next : Option WorkspaceHost → Option WorkspaceHost → Option WorkspaceHost
or_next (some host) next = some host
or_next none next = next

-- The host of the prebuild, if it is a candidate.
abbrev pub prebuilt : Request → List WorkspaceHost → Option WorkspaceHost
prebuilt request candidates = elim request.prebuild_workspace_host [
  | none ↦ none
  | some id ↦ find (has_id id) candidates
]

-- The replicas, if there are any.
abbrev pub replica : Request → List WorkspaceHost → Option WorkspaceHost
replica request candidates =
    if not (is_empty request.prebuild_replica_hosts)
    then first_ordered request.shared
        (select (λ host. contains host.id request.prebuild_replica_hosts) candidates)
    else none

unfoldable pub decide_workspace_host : Request → List WorkspaceHost → Option WorkspaceHost
decide_workspace_host request hosts =
    let candidates = select (is_candidate request) hosts in
    or_next (prebuilt request candidates)
      (or_next (replica request candidates) (first_ordered request.shared candidates))

pub data PickError : Type 0 where
  no_host cores_unreadable not_enough_cpus : PickError

pub data Pick : Type 0 where
  picked : WorkspaceHost → CpuCore → Pick
  not_picked : PickError → Pick

-- The cores of a host for the request, by what exists on it.
unfoldable pub pick_cores :
    (List ℕ → List ℕ) → Request → ℕ → WorkspaceHost → ExistingResource → Pick
pick_cores iterate request cpu_overcommit host existing =
    let available = dedicated (available_cores (as_usize host.cpu) cpu_overcommit existing.cores) in
    let cores = take request.cpu (iterate available) in
    if not request.shared
    then (if not (length cores == request.cpu)
        then not_picked not_enough_cpus
        else picked host (dedicated_cores cores))
    else picked host (shared_cores request.cpu)

unfoldable pub pick_workspce_host :
    (String → Option CpuCore)
    → (List ℕ → List ℕ)
    → Request
    → ℕ
    → List WorkspaceHost
    → List Workspace
    → List Prebuild
    → Pick
pick_workspce_host from_str iterate request cpu_overcommit hosts workspaces prebuilds =
    elim (decide_workspace_host request hosts) [
      | none ↦ not_picked no_host
      | some host ↦ elim (get_existing_resource from_str host.id workspaces prebuilds) [
        | none ↦ not_picked cores_unreadable
        | some existing ↦ pick_cores iterate request cpu_overcommit host existing
      ]
    ]

unfoldable pub recalcuate_workspce_host :
    (String → Option CpuCore)
    → ℕ
    → WorkspaceHost
    → List Workspace
    → List Prebuild
    → Option WorkspaceHost
recalcuate_workspce_host from_str cpu_overcommit host workspaces prebuilds =
    elim (get_existing_resource from_str host.id workspaces prebuilds) [
      | none ↦ none
      | some existing ↦
          let cores = available_cores (as_usize host.cpu) cpu_overcommit existing.cores in
          some (record host {
            available_shared_cpu = as_i32 (length cores.available);
            available_dedicated_cpu = as_i32 (length (dedicated cores));
            available_memory = sub_i32 host.memory (as_i32 existing.memory);
            available_disk = sub_i32 host.disk (as_i32 existing.disk);
          })
    ]
