-- ===== src/Watch/Manager/Namespaces.antt =====
-- crates/kube-manager/src/watch_manager.rs: the requests to the manager. What is watched is what
-- was asked for last, and a watcher that is still wanted is never restarted.
use lapdev.Base.{
  ℕ, String, ◌≡◌, ◌∙◌, sym, ap, ◌&&◌, ◌||◌, not, none, some, List, map, arith, if◌then◌else◌,
  contains, with_item, without, select, nat_key, string_key, pair_key, contains-select,
  contains-with_item, contains-without, Bool-cases, inl, inr,
}
use lapdev.Base.Map
use lapdev.Base.Map.{is_some, contains-keys}
use lapdev.Base.Text.{trim, is_empty}
use lapdev.Watch.Types.{type_key}
use lapdev.Watch.Manager.{
  WatchKey, WatchManager, stop_namespace, start_namespace, stop_all, new_namespaces, not_in,
  configure_watches, add_namespace_watch, remove_namespace_watch,
}
use lapdev.Watch.Manager.Sweeps.{
  stop_all-IsConsistent, start_all-IsConsistent, stop_all-get, start_all-kept, start_all-there,
  stop_all_aborts, start_all-aborted, contains-new_namespaces,
}
use lapdev.Watch.Manager.Tasks.{
  IsConsistent, stop_namespace-get, start_namespace-there, stop_namespace-IsConsistent,
  start_namespace-IsConsistent, stop_namespace-namespaces, start_namespace-namespaces,
}

-- The tasks are those of the watched namespaces, all types of each.
pub record IsValid (s : WatchManager) : Type 0 where
  pub consistent : IsConsistent s
  pub watched : (j : WatchKey) → is_some (Map.get j s.tasks) ≡ contains j.1 s.namespaces

configure_watches-IsConsistent :
    (names : List String) (s : WatchManager)
    → IsConsistent s
    → IsConsistent (configure_watches names s)
unfolding configure_watches
configure_watches-IsConsistent names s h =
    let to_remove = select (not_in (new_namespaces names)) s.namespaces in
    let to_add = select (not_in s.namespaces) (new_namespaces names) in
    let done =
      start_all-IsConsistent to_add (stop_all to_remove s) (stop_all-IsConsistent to_remove s h) in
    record {
      live = done.live;
      owned = done.owned;
      single = done.single;
      unspawned = done.unspawned;
    }

-- `configure_watches` makes the watched namespaces those asked for: after it there is a task for a
-- resource type and a namespace exactly if the namespace is not empty and is a name of the request,
-- trimmed.
pub configure_watches-watched :
    (names : List String) (s : WatchManager) (j : WatchKey)
    → IsValid s
    → is_some (Map.get j (configure_watches names s).tasks)
      ≡ (not (is_empty j.1) && contains j.1 (map trim names))
unfolding configure_watches
configure_watches-watched names s j h =
    let to_remove = select (not_in (new_namespaces names)) s.namespaces in
    let to_add = select (not_in s.namespaces) (new_namespaces names) in
    ground (
      arith,
      start_all-there to_add (stop_all to_remove s) j
          (stop_all-IsConsistent to_remove s h.consistent),
      stop_all-get to_remove s j h.consistent,
      h.watched j,
      contains-select (not_in (new_namespaces names)) j.1 s.namespaces,
      contains-select (not_in s.namespaces) j.1 (new_namespaces names),
      contains-new_namespaces j.1 names,
    )

-- A task of a namespace that the request of `configure_watches` names again goes on undisturbed; any
-- other task of the table is aborted and leaves it.
pub configure_watches-tasks :
    (names : List String) (s : WatchManager) (j : WatchKey) (task : ℕ)
    → IsValid s
    → Map.get j s.tasks ≡ some task
    → let wanted = not (is_empty j.1) && contains j.1 (map trim names) in
      (Map.get j (configure_watches names s).tasks ≡ (if wanted then some task else none))
      × ((configure_watches names s).aborted task ≡ not wanted)
unfolding configure_watches
configure_watches-tasks names s j task h e =
    let to_remove = select (not_in (new_namespaces names)) s.namespaces in
    let to_add = select (not_in s.namespaces) (new_namespaces names) in
    let stopped = stop_all-IsConsistent to_remove s h.consistent in
    ground (
      arith,
      configure_watches-watched names s j h,
      start_all-kept to_add (stop_all to_remove s) j task stopped,
      stop_all-get to_remove s j h.consistent,
      stop_all_aborts to_remove s j task h.consistent e,
      ap (λ aborted. aborted task) (start_all-aborted to_add (stop_all to_remove s)),
      (configure_watches-IsConsistent names s h.consistent).live j task,
      h.watched j,
      contains-select (not_in (new_namespaces names)) j.1 s.namespaces,
      contains-new_namespaces j.1 names,
    )

configured :
    (names : List String) (s : WatchManager) (j : WatchKey)
    → IsValid s
    → is_some (Map.get j (configure_watches names s).tasks)
      ≡ contains j.1 (configure_watches names s).namespaces
unfolding configure_watches
configured names s j h =
    configure_watches-watched names s j h ∙ sym (contains-new_namespaces j.1 names)

pub configure_watches-IsValid :
    (names : List String) (s : WatchManager) → IsValid s → IsValid (configure_watches names s)
configure_watches-IsValid names s h = record {
  consistent = configure_watches-IsConsistent names s h.consistent;
  watched = λ j. configured names s j h;
}

-- The branches of `add_namespace_watch` and `remove_namespace_watch` that change something.
added :
    (n : String) (s : WatchManager)
    → IsValid s
    → IsValid
        (record (start_namespace n s) { namespaces = with_item n (start_namespace n s).namespaces })
added n s h =
    let c = start_namespace-IsConsistent n s h.consistent in
    record {
      consistent = record {
        live = c.live;
        owned = c.owned;
        single = c.single;
        unspawned = c.unspawned;
      };
      watched = λ j. ground (
        arith,
        start_namespace-there n s h.consistent j,
        h.watched j,
        start_namespace-namespaces n s,
        contains-with_item n j.1 s.namespaces,
      );
    }

removed :
    (n : String) (s : WatchManager)
    → IsValid s
    → IsValid (stop_namespace n (record s { namespaces = without n s.namespaces }))
removed n s h =
    let t = record s { namespaces = without n s.namespaces } in
    let c : IsConsistent t = record {
      live = h.consistent.live;
      owned = h.consistent.owned;
      single = h.consistent.single;
      unspawned = h.consistent.unspawned;
    } in
    record {
      consistent = stop_namespace-IsConsistent n t c;
      watched = λ j. ground (
        arith,
        stop_namespace-get n t j c,
        h.watched j,
        stop_namespace-namespaces n t,
        contains-without n j.1 s.namespaces,
        string_key.same_iff n j.1,
        string_key.same_iff j.1 n,
      );
    }

pub add_namespace_watch-IsValid :
    (n : String) (s : WatchManager) → IsValid s → IsValid (add_namespace_watch n s)
unfolding add_namespace_watch
add_namespace_watch-IsValid n s h =
    elim (Bool-cases (is_empty (trim n) || contains (trim n) s.namespaces)) [
      | inl skipped ↦ rw (skipped, add_namespace_watch) h
      | inr fresh ↦ rw (fresh, add_namespace_watch) (added (trim n) s h)
    ]

pub remove_namespace_watch-IsValid :
    (n : String) (s : WatchManager) → IsValid s → IsValid (remove_namespace_watch n s)
unfolding remove_namespace_watch
remove_namespace_watch-IsValid n s h =
    elim (Bool-cases (is_empty (trim n) || not (contains (trim n) s.namespaces))) [
      | inl skipped ↦ rw (skipped, remove_namespace_watch) h
      | inr there ↦ rw (there, remove_namespace_watch) (removed (trim n) s h)
    ]
