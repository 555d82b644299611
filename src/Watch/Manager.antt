-- ===== src/Watch/Manager.antt =====
-- crates/kube-manager/src/watch_manager.rs: which namespaces are watched, and by which tasks. A
-- task is its number in the order of spawning; `aborted` says which tasks `abort` was called on.
-- A method takes the manager last and returns it changed.
pub mod Tasks
pub mod Sweeps
pub mod Requests
pub mod Namespaces
use lapdev.Base.{
  ℕ, ◌+◌, min, ◌*◌, String, ◌≡◌, refl, Bool, true, false, ◌&&◌, ◌||◌, not, Option, none, some, List,
  [], ◌∷◌, map, ◌↔◌, arith, Key, ◌==◌, if◌then◌else◌, contains, with_item, without, select, nat_key,
  string_key, pair_key,
}
use lapdev.Base.Map
use lapdev.Base.Map.{Map, is_some}
use lapdev.Watch.Types.{ResourceType, watched_resource_types, type_key}
use lapdev.Base.Text.{trim, is_empty}

abbrev pub WatchKey : Type 0
WatchKey = ResourceType × String

pub record WatchManager : Type 0 where
  pub namespaces : List String
  pub tasks : Map WatchKey ℕ
  pub task_count : ℕ
  pub aborted : ℕ → Bool

abbrev pub new : WatchManager
new = record { namespaces = []; tasks = []; task_count = 0; aborted = λ _. false }

abbrev pub abort : ℕ → (ℕ → Bool) → ℕ → Bool
abort handle aborted task = handle == task || aborted task

-- One round of the loop of `stop_namespace`.
unfoldable pub stop_task : WatchKey → WatchManager → WatchManager
stop_task key s = elim (Map.get key s.tasks) [
  | none ↦ s
  | some handle ↦ record s { tasks = Map.remove key s.tasks; aborted = abort handle s.aborted }
]

unfoldable pub stop_tasks : List WatchKey → WatchManager → WatchManager
stop_tasks [] s = s
stop_tasks (key ∷ keys) s = stop_tasks keys (stop_task key s)

abbrev pub of_namespace : String → WatchKey → Bool
of_namespace namespace key = key.1 == namespace

unfoldable pub stop_namespace : String → WatchManager → WatchManager
stop_namespace namespace s = stop_tasks (select (of_namespace namespace) (Map.keys s.tasks)) s

-- One round of the loop of `start_namespace`.
unfoldable pub start_task : ResourceType → String → WatchManager → WatchManager
start_task resource_type namespace s =
    if is_some (Map.get (resource_type, namespace) s.tasks) then s else record s {
      tasks = Map.insert (resource_type, namespace) s.task_count s.tasks;
      task_count = s.task_count + 1;
    }

unfoldable pub start_tasks : List ResourceType → String → WatchManager → WatchManager
start_tasks [] namespace s = s
start_tasks (resource_type ∷ types) namespace s =
    start_tasks types namespace (start_task resource_type namespace s)

unfoldable pub start_namespace : String → WatchManager → WatchManager
start_namespace namespace s = start_tasks watched_resource_types namespace s

unfoldable pub stop_all : List String → WatchManager → WatchManager
stop_all [] s = s
stop_all (namespace ∷ namespaces) s = stop_all namespaces (stop_namespace namespace s)

unfoldable pub start_all : List String → WatchManager → WatchManager
start_all [] s = s
start_all (namespace ∷ namespaces) s = start_all namespaces (start_namespace namespace s)

-- The set collected from the trimmed names that are not empty.
unfoldable pub new_namespaces : List String → List String
new_namespaces [] = []
new_namespaces (ns ∷ namespaces) =
    let rest = new_namespaces namespaces in
    if is_empty (trim ns) then rest else with_item (trim ns) rest

abbrev pub not_in : List String → String → Bool
not_in namespaces ns = not (contains ns namespaces)

unfoldable pub configure_watches : List String → WatchManager → WatchManager
configure_watches namespaces s =
    let wanted = new_namespaces namespaces in
    let to_remove = select (not_in wanted) s.namespaces in
    let to_add = select (not_in s.namespaces) wanted in
    record (start_all to_add (stop_all to_remove s)) { namespaces = wanted }

unfoldable pub add_namespace_watch : String → WatchManager → WatchManager
add_namespace_watch namespace s =
    let namespace = trim namespace in
    if is_empty namespace || contains namespace s.namespaces
    then s
    else (let started = start_namespace namespace s in
        record started { namespaces = with_item namespace started.namespaces })

unfoldable pub remove_namespace_watch : String → WatchManager → WatchManager
remove_namespace_watch namespace s =
    let namespace = trim namespace in
    if is_empty namespace || not (contains namespace s.namespaces)
    then s
    else stop_namespace namespace (record s { namespaces = without namespace s.namespaces })
