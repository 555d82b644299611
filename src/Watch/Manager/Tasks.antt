-- ===== src/Watch/Manager/Tasks.antt =====
-- crates/kube-manager/src/watch_manager.rs: what `stop_namespace` and `start_namespace` do to the
-- table of tasks, and that the tasks that run are those in the table.
use lapdev.Base.{
  ℕ, ◌<◌, ◌≤◌, ◌+◌, String, ◌≡◌, ◌↔◌, refl, true, false, ◌&&◌, ◌||◌, not, none, some, List, [], ◌∷◌,
  arith, ◌==◌, if◌then◌else◌, contains, select, nat_key, string_key, pair_key, Option-cases,
  Bool-cases, inl, inr, contains-select, nat_eq_iff,
}
use lapdev.Base.Map
use lapdev.Base.Map.{Map, is_some, get-insert, get-remove, contains-keys}
use lapdev.Watch.Types.{ResourceType, watched_resource_types, watched_type, type_key}
use lapdev.Watch.Manager.{
  WatchKey, WatchManager, abort, stop_task, stop_tasks, of_namespace, stop_namespace, start_task,
  start_tasks, start_namespace,
}

-- The running tasks are those of the table, each under one key.
pub record IsConsistent (s : WatchManager) : Type 0 where
  pub live :
      (key : WatchKey) (task : ℕ)
      → Map.get key s.tasks ≡ some task
      → (task < s.task_count) × (s.aborted task ≡ false)
  pub owned :
      (task : ℕ)
      → task < s.task_count
      → s.aborted task ≡ false
      → (key : WatchKey) × (Map.get key s.tasks ≡ some task)
  pub single :
      (key other : WatchKey) (task : ℕ)
      → Map.get key s.tasks ≡ some task
      → Map.get other s.tasks ≡ some task
      → key ≡ other
  pub unspawned : (task : ℕ) → s.task_count ≤ task → s.aborted task ≡ false

pub key_iff : (a b : WatchKey) → ((a == b) ≡ true) ↔ (a ≡ b)
key_iff = pair_key.same_iff

module _ (s : WatchManager) (h : IsConsistent s) where
  pub stop_task-get :
      (key j : WatchKey)
      → Map.get j (stop_task key s).tasks ≡ (if key == j then none else Map.get j s.tasks)
  unfolding stop_task
  stop_task-get key j = ground (arith, get-remove key j s.tasks, key_iff key j)

  still_owned :
      (key : WatchKey) (handle task : ℕ)
      → Map.get key s.tasks ≡ some handle
      → task < s.task_count
      → abort handle s.aborted task ≡ false
      → (j : WatchKey) × (Map.get j (Map.remove key s.tasks) ≡ some task)
  still_owned key handle task found made running =
      let (j, e) = h.owned task made (ground arith) in
      (j, ground (arith, get-remove key j s.tasks, key_iff key j, nat_eq_iff handle task))

  pub stop_task-IsConsistent : (key : WatchKey) → IsConsistent (stop_task key s)
  unfolding stop_task
  stop_task-IsConsistent key = elim (Option-cases (Map.get key s.tasks)) [
    | inl missing ↦ rw (missing, stop_task) h
    | inr (handle, found) ↦
        rw (found, stop_task)
          (record {
            live = λ j task e. ground (
              arith,
              get-remove key j s.tasks,
              h.live j task,
              h.single key j handle,
              key_iff key j,
              nat_eq_iff handle task,
            );
            owned = λ task made running. still_owned key handle task found made running;
            single = λ j l task e f.
                ground
                  (arith, get-remove key j s.tasks, get-remove key l s.tasks, h.single j l task);
            unspawned = λ task later.
                ground (arith, h.unspawned task, h.live key handle found, nat_eq_iff handle task);
          })
  ]

  pub start_task-get :
      (t : ResourceType) (namespace : String) (j : WatchKey)
      → Map.get j (start_task t namespace s).tasks ≡ (
          if (t, namespace) == j && not (is_some (Map.get j s.tasks))
          then some s.task_count
          else Map.get j s.tasks)
  unfolding start_task
  start_task-get t namespace j =
      ground (arith, get-insert (t, namespace) j s.task_count s.tasks, key_iff (t, namespace) j)

  newly_owned :
      (t : ResourceType) (namespace : String) (task : ℕ)
      → Map.get (t, namespace) s.tasks ≡ none
      → task < s.task_count + 1
      → s.aborted task ≡ false
      → (j : WatchKey) × (Map.get j (Map.insert (t, namespace) s.task_count s.tasks) ≡ some task)
  newly_owned t namespace task missing made running = elim (Bool-cases (task == s.task_count)) [
    | inl last ↦ (
      (t, namespace),
      ground (
        arith,
        get-insert (t, namespace) (t, namespace) s.task_count s.tasks,
        key_iff (t, namespace) (t, namespace),
        nat_eq_iff task s.task_count,
      ),
    )
    | inr earlier ↦
        let (j, e) = h.owned task (ground (arith, nat_eq_iff task s.task_count)) running in
        (
          j,
          ground
              (arith, get-insert (t, namespace) j s.task_count s.tasks, key_iff (t, namespace) j),
        )
  ]

  pub start_task-IsConsistent :
      (t : ResourceType) (namespace : String) → IsConsistent (start_task t namespace s)
  unfolding start_task
  start_task-IsConsistent t namespace = elim (Option-cases (Map.get (t, namespace) s.tasks)) [
    | inl missing ↦
        rw (missing, start_task)
          (record {
            live = λ j task e. ground (
              arith,
              get-insert (t, namespace) j s.task_count s.tasks,
              h.live j task,
              h.unspawned s.task_count,
            );
            owned = λ task made running. newly_owned t namespace task missing made running;
            single = λ j l task e f. ground (
              arith,
              get-insert (t, namespace) j s.task_count s.tasks,
              get-insert (t, namespace) l s.task_count s.tasks,
              key_iff (t, namespace) j,
              key_iff (t, namespace) l,
              h.live j task,
              h.live l task,
              h.single j l task,
            );
            unspawned = λ task later. h.unspawned task (omega arith);
          })
    | inr (handle, found) ↦ rw (found, start_task) h
  ]

pub stop_tasks-IsConsistent :
    (keys : List WatchKey) (s : WatchManager) → IsConsistent s → IsConsistent (stop_tasks keys s)
unfolding stop_tasks
stop_tasks-IsConsistent [] s h = h
stop_tasks-IsConsistent (key ∷ keys) s h =
    stop_tasks-IsConsistent keys (stop_task key s) (stop_task-IsConsistent s h key)

pub start_tasks-IsConsistent :
    (types : List ResourceType) (namespace : String) (s : WatchManager)
    → IsConsistent s
    → IsConsistent (start_tasks types namespace s)
unfolding start_tasks
start_tasks-IsConsistent [] namespace s h = h
start_tasks-IsConsistent (t ∷ types) namespace s h =
    start_tasks-IsConsistent types namespace (start_task t namespace s)
      (start_task-IsConsistent s h t namespace)

stop_tasks-get :
    (keys : List WatchKey) (s : WatchManager) (j : WatchKey)
    → IsConsistent s
    → Map.get j (stop_tasks keys s).tasks ≡ (if contains j keys then none else Map.get j s.tasks)
unfolding stop_tasks
stop_tasks-get [] s j h = refl
stop_tasks-get (key ∷ keys) s j h = ground (
  arith,
  stop_tasks-get keys (stop_task key s) j (stop_task-IsConsistent s h key),
  stop_task-get s h key j,
)

-- Exactly the tasks of the namespace are stopped.
pub stop_namespace-get :
    (namespace : String) (s : WatchManager) (j : WatchKey)
    → IsConsistent s
    → Map.get j (stop_namespace namespace s).tasks
      ≡ (if j.1 == namespace then none else Map.get j s.tasks)
unfolding stop_namespace
stop_namespace-get namespace s j h = ground (
  arith,
  stop_tasks-get (select (of_namespace namespace) (Map.keys s.tasks)) s j h,
  contains-select (of_namespace namespace) j (Map.keys s.tasks),
  contains-keys j s.tasks,
)

-- A task stays; for a missing one of the listed types a task is spawned.
start_tasks_kept :
    (types : List ResourceType) (namespace : String) (s : WatchManager) (j : WatchKey) (task : ℕ)
    → IsConsistent s
    → Map.get j s.tasks ≡ some task
    → Map.get j (start_tasks types namespace s).tasks ≡ some task
unfolding start_tasks
start_tasks_kept [] namespace s j task h e = e
start_tasks_kept (t ∷ types) namespace s j task h e =
    start_tasks_kept types namespace (start_task t namespace s) j task
      (start_task-IsConsistent s h t namespace) (ground (arith, start_task-get s h t namespace j))

start_tasks_there :
    (types : List ResourceType) (namespace : String) (s : WatchManager) (j : WatchKey)
    → IsConsistent s
    → is_some (Map.get j (start_tasks types namespace s).tasks)
      ≡ (contains j.0 types && namespace == j.1 || is_some (Map.get j s.tasks))
unfolding start_tasks
start_tasks_there [] namespace s j h = refl
start_tasks_there (t ∷ types) namespace s j h = ground (
  arith,
  start_tasks_there types namespace (start_task t namespace s) j
      (start_task-IsConsistent s h t namespace),
  start_task-get s h t namespace j,
)

-- `stop_namespace` and `start_namespace` leave the set of namespaces alone.
stop_tasks-namespaces :
    (keys : List WatchKey) (s : WatchManager) → (stop_tasks keys s).namespaces ≡ s.namespaces
unfolding stop_tasks stop_task
stop_tasks-namespaces [] s = refl
stop_tasks-namespaces (key ∷ keys) s = ground (arith, stop_tasks-namespaces keys (stop_task key s))

start_tasks-namespaces :
    (types : List ResourceType) (namespace : String) (s : WatchManager)
    → (start_tasks types namespace s).namespaces ≡ s.namespaces
unfolding start_tasks start_task
start_tasks-namespaces [] namespace s = refl
start_tasks-namespaces (t ∷ types) namespace s =
    ground (arith, start_tasks-namespaces types namespace (start_task t namespace s))

pub start_tasks-aborted :
    (types : List ResourceType) (namespace : String) (s : WatchManager)
    → (start_tasks types namespace s).aborted ≡ s.aborted
unfolding start_tasks start_task
start_tasks-aborted [] namespace s = refl
start_tasks-aborted (t ∷ types) namespace s =
    ground (arith, start_tasks-aborted types namespace (start_task t namespace s))

-- Every type is watched, so a namespace is started for all of them.
module _ (namespace : String) (s : WatchManager) where
  pub stop_namespace-namespaces : (stop_namespace namespace s).namespaces ≡ s.namespaces
  unfolding stop_namespace
  stop_namespace-namespaces = stop_tasks-namespaces _ s

  pub start_namespace-namespaces : (start_namespace namespace s).namespaces ≡ s.namespaces
  unfolding start_namespace
  start_namespace-namespaces = start_tasks-namespaces watched_resource_types namespace s

module _ (namespace : String) (s : WatchManager) (h : IsConsistent s) where
  pub start_namespace-kept :
      (j : WatchKey) (task : ℕ)
      → Map.get j s.tasks ≡ some task
      → Map.get j (start_namespace namespace s).tasks ≡ some task
  unfolding start_namespace
  start_namespace-kept j task e = start_tasks_kept watched_resource_types namespace s j task h e

  pub start_namespace-there :
      (j : WatchKey)
      → is_some (Map.get j (start_namespace namespace s).tasks)
        ≡ (namespace == j.1 || is_some (Map.get j s.tasks))
  unfolding start_namespace
  start_namespace-there j =
      ground (arith, start_tasks_there watched_resource_types namespace s j h, watched_type j.0)

  pub stop_namespace-IsConsistent : IsConsistent (stop_namespace namespace s)
  unfolding stop_namespace
  stop_namespace-IsConsistent = stop_tasks-IsConsistent _ s h

  pub start_namespace-IsConsistent : IsConsistent (start_namespace namespace s)
  unfolding start_namespace
  start_namespace-IsConsistent = start_tasks-IsConsistent watched_resource_types namespace s h
