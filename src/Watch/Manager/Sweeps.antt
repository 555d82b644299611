-- ===== src/Watch/Manager/Sweeps.antt =====
-- crates/kube-manager/src/watch_manager.rs: the two loops of `configure_watches` over namespaces.
use lapdev.Base.{
  ℕ, String, ◌≡◌, ◌∙◌, refl, true, ◌&&◌, ◌||◌, not, none, some, List, [], ◌∷◌, map, arith, ◌==◌,
  if◌then◌else◌, contains, select, nat_key, string_key, pair_key, contains-select,
  contains-with_item, nat_eq_iff,
}
use lapdev.Base.Map
use lapdev.Base.Map.{is_some, contains-keys}
use lapdev.Base.Text.{trim, is_empty}
use lapdev.Watch.Types.{type_key, watched_resource_types}
use lapdev.Watch.Manager.{
  WatchKey, WatchManager, stop_task, stop_tasks, stop_namespace, of_namespace, start_namespace,
  stop_all, start_all, new_namespaces,
}
use lapdev.Watch.Manager.Tasks.{
  IsConsistent, key_iff, stop_task-get, stop_task-IsConsistent, stop_namespace-get,
  start_namespace-kept, start_namespace-there, stop_namespace-IsConsistent,
  start_namespace-IsConsistent, start_tasks-aborted,
}

pub stop_all-IsConsistent :
    (names : List String) (s : WatchManager) → IsConsistent s → IsConsistent (stop_all names s)
unfolding stop_all
stop_all-IsConsistent [] s h = h
stop_all-IsConsistent (n ∷ names) s h =
    stop_all-IsConsistent names (stop_namespace n s) (stop_namespace-IsConsistent n s h)

pub start_all-IsConsistent :
    (names : List String) (s : WatchManager) → IsConsistent s → IsConsistent (start_all names s)
unfolding start_all
start_all-IsConsistent [] s h = h
start_all-IsConsistent (n ∷ names) s h =
    start_all-IsConsistent names (start_namespace n s) (start_namespace-IsConsistent n s h)

pub stop_all-get :
    (names : List String) (s : WatchManager) (j : WatchKey)
    → IsConsistent s
    → Map.get j (stop_all names s).tasks ≡ (if contains j.1 names then none else Map.get j s.tasks)
unfolding stop_all
stop_all-get [] s j h = refl
stop_all-get (n ∷ names) s j h = ground (
  arith,
  stop_all-get names (stop_namespace n s) j (stop_namespace-IsConsistent n s h),
  stop_namespace-get n s j h,
  string_key.same_iff n j.1,
  string_key.same_iff j.1 n,
)

pub start_all-kept :
    (names : List String) (s : WatchManager) (j : WatchKey) (task : ℕ)
    → IsConsistent s
    → Map.get j s.tasks ≡ some task
    → Map.get j (start_all names s).tasks ≡ some task
unfolding start_all
start_all-kept [] s j task h e = e
start_all-kept (n ∷ names) s j task h e =
    start_all-kept names (start_namespace n s) j task (start_namespace-IsConsistent n s h)
      (start_namespace-kept n s h j task e)

pub start_all-there :
    (names : List String) (s : WatchManager) (j : WatchKey)
    → IsConsistent s
    → is_some (Map.get j (start_all names s).tasks)
      ≡ (contains j.1 names || is_some (Map.get j s.tasks))
unfolding start_all
start_all-there [] s j h = refl
start_all-there (n ∷ names) s j h = ground (
  arith,
  start_all-there names (start_namespace n s) j (start_namespace-IsConsistent n s h),
  start_namespace-there n s h j,
)

-- Which tasks are aborted.
stop_task_aborts :
    (key : WatchKey) (s : WatchManager) (task : ℕ)
    → (stop_task key s).aborted task ≡ (elim (Map.get key s.tasks) [
      | none ↦ s.aborted task
      | some h ↦ h == task || s.aborted task
    ])
unfolding stop_task
stop_task_aborts key s task = ground arith

stop_tasks_aborted :
    (keys : List WatchKey) (s : WatchManager) (task : ℕ)
    → s.aborted task ≡ true
    → (stop_tasks keys s).aborted task ≡ true
unfolding stop_tasks
stop_tasks_aborted [] s task e = e
stop_tasks_aborted (key ∷ keys) s task e =
    stop_tasks_aborted keys (stop_task key s) task (ground (arith, stop_task_aborts key s task))

stop_tasks_aborts :
    (keys : List WatchKey) (s : WatchManager) (j : WatchKey) (task : ℕ)
    → IsConsistent s
    → Map.get j s.tasks ≡ some task
    → contains j keys ≡ true
    → (stop_tasks keys s).aborted task ≡ true
unfolding stop_tasks
stop_tasks_aborts [] s j task h e listed = ground arith
stop_tasks_aborts (key ∷ keys) s j task h e listed = ground (
  arith,
  stop_tasks_aborts keys (stop_task key s) j task (stop_task-IsConsistent s h key),
  stop_tasks_aborted keys (stop_task key s) task,
  stop_task_aborts key s task,
  stop_task-get s h key j,
  key_iff key j,
  nat_eq_iff task task,
)

stop_namespace_aborted :
    (n : String) (s : WatchManager) (task : ℕ)
    → s.aborted task ≡ true
    → (stop_namespace n s).aborted task ≡ true
unfolding stop_namespace
stop_namespace_aborted n s task e = stop_tasks_aborted _ s task e

stop_namespace_aborts :
    (n : String) (s : WatchManager) (j : WatchKey) (task : ℕ)
    → IsConsistent s
    → Map.get j s.tasks ≡ some task
    → (j.1 == n) ≡ true
    → (stop_namespace n s).aborted task ≡ true
unfolding stop_namespace
stop_namespace_aborts n s j task h e here =
    stop_tasks_aborts (select (of_namespace n) (Map.keys s.tasks)) s j task h e (
      ground
        (arith, contains-select (of_namespace n) j (Map.keys s.tasks), contains-keys j s.tasks))

stop_all_aborted :
    (names : List String) (s : WatchManager) (task : ℕ)
    → s.aborted task ≡ true
    → (stop_all names s).aborted task ≡ true
unfolding stop_all
stop_all_aborted [] s task e = e
stop_all_aborted (n ∷ names) s task e =
    stop_all_aborted names (stop_namespace n s) task (stop_namespace_aborted n s task e)

pub stop_all_aborts :
    (names : List String) (s : WatchManager) (j : WatchKey) (task : ℕ)
    → IsConsistent s
    → Map.get j s.tasks ≡ some task
    → contains j.1 names ≡ true
    → (stop_all names s).aborted task ≡ true
unfolding stop_all
stop_all_aborts [] s j task h e listed = ground arith
stop_all_aborts (n ∷ names) s j task h e listed = ground (
  arith,
  stop_all_aborts names (stop_namespace n s) j task (stop_namespace-IsConsistent n s h),
  stop_all_aborted names (stop_namespace n s) task,
  stop_namespace_aborts n s j task h e,
  stop_namespace-get n s j h,
  string_key.same_iff n j.1,
  string_key.same_iff j.1 n,
)

pub start_all-aborted :
    (names : List String) (s : WatchManager) → (start_all names s).aborted ≡ s.aborted
unfolding start_all start_namespace
start_all-aborted [] s = refl
start_all-aborted (n ∷ names) s =
    start_all-aborted names (start_namespace n s) ∙ start_tasks-aborted watched_resource_types n s

pub contains-new_namespaces :
    (n : String) (names : List String)
    → contains n (new_namespaces names) ≡ (not (is_empty n) && contains n (map trim names))
unfolding new_namespaces
contains-new_namespaces n [] = ground arith
contains-new_namespaces n (m ∷ names) = ground (
  arith,
  contains-new_namespaces n names,
  contains-with_item (trim m) n (new_namespaces names),
  string_key.same_iff (trim m) n,
)
