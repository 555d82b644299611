-- ===== src/Lifecycle.antt =====
-- crates/conductor/src/server.rs: starting, stopping and deleting a workspace, and the guards of
-- crates/api/src/workspace.rs. A call changes the tables and leaves a task, which asks the service of
-- the workspace's host, one workspace after another, and writes down what it answered. Audit logs,
-- recalculating the host, outdated prebuilds, the dates of a row and whose workspace it is are left out.
pub mod Steps
pub mod Interleavings
pub mod Billing
mod Examples
use Prim.Native.Nat.{zero, suc}
use lapdev.Base.{
  ℕ, ◌+◌, String, Bool, true, false, ◌&&◌, ◌||◌, not, Option, none, some, List, [], ◌∷◌, ◌++◌, ◌==◌,
  nat_key, option_key, if◌then◌else◌, select, find,
}
use lapdev.Base.Int.{ℤ}
use lapdev.Base.Map
use lapdev.Base.Map.{Map, is_some, map_some}
use lapdev.Usage.{Uuid, Time, Usage, new_usage, end_usage}

pub data Status : Type 0 where
  new prebuild_building prebuild_copying building running starting : Status
  stopping stopped stop_failed failed delete_failed deleting deleted : Status

abbrev pub is_running : Status → Bool
is_running running = true
is_running _ = false

abbrev pub is_stopped : Status → Bool
is_stopped stopped = true
is_stopped _ = false

-- The states in which a workspace cannot be deleted.
abbrev pub is_building : Status → Bool
is_building prebuild_building = true
is_building building = true
is_building prebuild_copying = true
is_building new = true
is_building _ = false

pub record Workspace : Type 0 where
  pub id : Uuid
  pub deleted_at : Option Time
  pub organization_id : Uuid
  pub user_id : Uuid
  pub name : String
  pub status : Status
  pub machine_type_id : Uuid
  pub usage_id : Option ℕ
  pub is_compose : Bool
  pub compose_parent : Option Uuid

pub data TaskKind : Type 0 where
  start_task stop_task delete_task : TaskKind

-- The workspaces that a task has still to do, as they were when it was spawned. A caller that waits for
-- a task does not go on behind an error.
pub record Task : Type 0 where
  pub task_kind : TaskKind
  pub remaining : List Workspace
  pub waiting : Bool

-- What the calls read and change: the tables of the database, and the tasks that were spawned.
pub record Conductor : Type 0 where
  pub workspaces : List Workspace
  pub usages : List Usage
  pub next_usage : ℕ
  pub has_running_workspace : Map Uuid Bool
  pub tasks : List Task

abbrev pub has_id : Uuid → Workspace → Bool
has_id id ws = ws.id == id

abbrev pub update_all : Uuid → (Workspace → Workspace) → List Workspace → List Workspace
update_all id f [] = []
update_all id f (ws ∷ rows) =
    let rest = update_all id f rows in if ws.id == id then f ws ∷ rest else ws ∷ rest

-- `ActiveModel::update` by the primary key; a row is never taken out of the table.
unfoldable pub update_workspace : Uuid → (Workspace → Workspace) → Conductor → Conductor
update_workspace id f c = record c { workspaces = update_all id f c.workspaces }

abbrev pub set_status : Status → Workspace → Workspace
set_status status ws = record ws { status = status }

-- The services of a compose workspace.
unfoldable pub compose_services : Workspace → List Workspace → List Workspace
compose_services ws rows =
    if ws.is_compose
    then select (λ (w : Workspace). not (is_some w.deleted_at) && w.compose_parent == some ws.id)
        rows
    else []

abbrev pub is_compose_service : Workspace → Bool
is_compose_service ws = ws.is_compose && is_some ws.compose_parent

pub data ConductorError : Type 0 where
  compose_service building_workspace limit_reached quota_reached no_client : ConductorError
  usage_missing already_running already_stopped : ConductorError

abbrev pub spawn : TaskKind → Bool → Workspace → Conductor → Conductor
spawn kind waiting ws c = record c {
  tasks =
      c.tasks
      ++ record {
        task_kind = kind;
        remaining = compose_services ws c.workspaces ++ ws ∷ [];
        waiting = waiting;
      }
        ∷ [];
}

-- A call: what it leaves, and its error. The limit, the quota and whether the host is connected are
-- given.
unfoldable pub start_workspace :
    Workspace → Bool → Bool → Bool → Bool → Conductor → Conductor × Option ConductorError
start_workspace ws waiting within_limit within_quota connected c =
    let starts = update_workspace ws.id (set_status starting) c in
    if is_compose_service ws
    then (c, some compose_service)
    else if not within_limit
    then (c, some limit_reached)
    else if not within_quota
    then (c, some quota_reached)
    else if connected
    then (spawn start_task waiting (set_status starting ws) starts, none)
    else (starts, some no_client)

-- Ending the usage of a workspace, if it has one.
abbrev pub end_of : Option ℕ → Time → List Usage → Option (List Usage)
end_of none now usages = some usages
end_of (some id) now usages = end_usage id now usages

abbrev pub without_usage : Status → Workspace → Workspace
without_usage status ws = record ws { status = status; usage_id = none }

abbrev pub after_end : Workspace → Status → Conductor → Option (List Usage) → Option Conductor
after_end ws status c none = none
after_end ws status c (some usages) =
    some (update_workspace ws.id (without_usage status) (record c { usages = usages }))

abbrev pub stop_after :
    Workspace → Bool → Conductor → Option Conductor → Conductor × Option ConductorError
stop_after ws connected c none = (c, some usage_missing)
stop_after ws connected c (some stops) =
    if connected
    then (spawn stop_task false (without_usage stopping ws) stops, none)
    else (stops, some no_client)

unfoldable pub stop_workspace :
    Workspace → Time → Bool → Conductor → Conductor × Option ConductorError
stop_workspace ws now connected c =
    if is_compose_service ws
    then (c, some compose_service)
    else stop_after ws connected c (after_end ws stopping c (end_of ws.usage_id now c.usages))

abbrev pub delete_after :
    Workspace → Conductor → Option Conductor → Conductor × Option ConductorError
delete_after ws c none = (c, some usage_missing)
delete_after ws c (some deletes) =
    (spawn delete_task false (without_usage deleting ws) deletes, none)

unfoldable pub delete_workspace : Workspace → Time → Conductor → Conductor × Option ConductorError
delete_workspace ws now c =
    if is_building ws.status
    then (c, some building_workspace)
    else if is_compose_service ws
    then (c, some compose_service)
    else delete_after ws c (after_end ws deleting c (end_of ws.usage_id now c.usages))

-- What the service of a host answers, if it does.
pub data Answer : Type 0 where
  succeeded refused unreachable : Answer

abbrev pub is_live_running : Uuid → Workspace → Bool
is_live_running organization ws =
    ws.organization_id == organization && (not (is_some ws.deleted_at) && is_running ws.status)

unfoldable pub update_org_has_running_workspace : Uuid → Conductor → Conductor
update_org_has_running_workspace organization c =
    if is_some (find (is_live_running organization) c.workspaces)
    then c
    else record c { has_running_workspace = Map.insert organization false c.has_running_workspace }

abbrev pub started : Option ℕ → Workspace → Workspace
started usage ws = record ws { status = running; usage_id = usage }

-- What is written down of a workspace that runs, with what a second of its machine type costs.
unfoldable pub run_started : Workspace → Time → Conductor → Option ℤ → Conductor × Bool
run_started ws now c none = (c, false)
run_started ws now c (some cost_per_second) =
    let billed = record c {
      usages =
          new_usage c.next_usage now ws.organization_id (some ws.user_id) "Workspace" ws.id ws.name
            ws.machine_type_id cost_per_second c.usages;
      next_usage = c.next_usage + 1;
    } in
    let after =
      if is_some ws.compose_parent
      then update_workspace ws.id (started none) c
      else update_workspace ws.id (started (some c.next_usage)) billed in
    (
      record after {
        has_running_workspace = Map.insert ws.organization_id true after.has_running_workspace;
      },
      true,
    )

-- The machine type is looked up by its id.
unfoldable pub do_start_workspace :
    (Uuid → Option ℤ) → Workspace → Time → Answer → Conductor → Conductor × Bool
unfolding run_started
do_start_workspace cost_of ws now unreachable c = (c, false)
do_start_workspace cost_of ws now refused c = (update_workspace ws.id (set_status failed) c, true)
do_start_workspace cost_of ws now succeeded c = run_started ws now c (cost_of ws.machine_type_id)

unfoldable pub do_stop_workspace : Workspace → Answer → Conductor → Conductor × Bool
do_stop_workspace ws unreachable c = (c, false)
do_stop_workspace ws refused c = (
  update_org_has_running_workspace ws.organization_id
      (update_workspace ws.id (set_status stop_failed) c),
  true,
)
do_stop_workspace ws succeeded c = (
  update_org_has_running_workspace ws.organization_id
      (update_workspace ws.id (set_status stopped) c),
  true,
)

abbrev pub set_deleted : Time → Workspace → Workspace
set_deleted now ws = record ws { status = deleted; deleted_at = some now }

unfoldable pub do_delete_workspace : Workspace → Time → Answer → Conductor → Conductor × Bool
do_delete_workspace ws now unreachable c = (c, false)
do_delete_workspace ws now refused c = (
  update_org_has_running_workspace ws.organization_id
      (update_workspace ws.id (set_status delete_failed) c),
  true,
)
do_delete_workspace ws now succeeded c = (
  update_org_has_running_workspace ws.organization_id (update_workspace ws.id (set_deleted now) c),
  true,
)

-- The guards of the handlers, which read the workspace first.
unfoldable pub api_start_workspace :
    Workspace → Bool → Bool → Bool → Conductor → Conductor × Option ConductorError
api_start_workspace ws within_limit within_quota connected c =
    if is_running ws.status
    then (c, some already_running)
    else start_workspace ws false within_limit within_quota connected c

unfoldable pub api_stop_workspace :
    Workspace → Time → Bool → Conductor → Conductor × Option ConductorError
api_stop_workspace ws now connected c =
    if is_stopped ws.status then (c, some already_stopped) else stop_workspace ws now connected c

abbrev pub do_task :
    (Uuid → Option ℤ) → TaskKind → Workspace → Time → Answer → Conductor → Conductor × Bool
do_task cost_of start_task ws now answer c = do_start_workspace cost_of ws now answer c
do_task cost_of stop_task ws now answer c = do_stop_workspace ws answer c
do_task cost_of delete_task ws now answer c = do_delete_workspace ws now answer c

-- One workspace of a task is done; what is left of the task stays where it was in the list.
abbrev pub work_through :
    (Uuid → Option ℤ) → Time → Answer → Task → List Workspace → Conductor → Task × Conductor
work_through cost_of now answer task [] c = (task, c)
work_through cost_of now answer task (ws ∷ rest) c =
    let (after, well) = do_task cost_of task.task_kind ws now answer c in
    (record task { remaining = if not well && task.waiting then [] else rest }, after)

abbrev pub work_on : (Uuid → Option ℤ) → Time → Answer → Task → Conductor → Task × Conductor
work_on cost_of now answer task c = work_through cost_of now answer task task.remaining c

unfoldable pub work :
    (Uuid → Option ℤ) → ℕ → Time → Answer → List Task → Conductor → List Task × Conductor
work cost_of index now answer [] c = ([], c)
work cost_of zero now answer (task ∷ tasks) c =
    let (task', c') = work_on cost_of now answer task c in (task' ∷ tasks, c')
work cost_of (suc index) now answer (task ∷ tasks) c =
    let (tasks', c') = work cost_of index now answer tasks c in (task ∷ tasks', c')

-- What happens to a conductor, in any order: the calls of users, and the progress of a task.
pub data Event : Type 0 where
  start_called : Uuid → Bool → Bool → Bool → Event
  stop_called : Uuid → Time → Bool → Event
  delete_called : Uuid → Time → Event
  worked : ℕ → Time → Answer → Event

-- A workspace that is deleted is not found.
abbrev pub with_workspace : Uuid → (Workspace → Conductor) → Conductor → Conductor
with_workspace id f c = elim (find (has_id id) c.workspaces) [
  | none ↦ c
  | some ws ↦ if is_some ws.deleted_at then c else f ws
]

abbrev pub with_tasks : List Task × Conductor → Conductor
with_tasks (tasks, c) = record c { tasks = tasks }

unfoldable pub happen : (Uuid → Option ℤ) → Event → Conductor → Conductor
unfolding work
happen cost_of (start_called id within_limit within_quota connected) c =
    with_workspace id (λ ws. (api_start_workspace ws within_limit within_quota connected c).0) c
happen cost_of (stop_called id now connected) c =
    with_workspace id (λ ws. (api_stop_workspace ws now connected c).0) c
happen cost_of (delete_called id now) c = with_workspace id (λ ws. (delete_workspace ws now c).0) c
happen cost_of (worked index now answer) c = with_tasks (work cost_of index now answer c.tasks c)

unfoldable pub run : (Uuid → Option ℤ) → List Event → Conductor → Conductor
run cost_of [] c = c
run cost_of (event ∷ events) c = run cost_of events (happen cost_of event c)
