-- ===== src/Watch/Examples.antt =====
-- Witnesses for the theorems on the watchers.
use lapdev.Base.{ℕ, ◌≡◌, refl, true, none, some, List, [], ◌∷◌, string_key, pair_key}
use lapdev.Base.Map
use lapdev.Base.Map.{is_some}
use lapdev.Watch.Types.{deployment, type_key}
use lapdev.Watch.Manager.{
  WatchManager, new, configure_watches, start_namespace, start_tasks, start_task, stop_all,
  start_all, new_namespaces,
}
use lapdev.Watch.Manager.Namespaces.{IsValid, configure_watches-tasks, configure_watches-IsValid}
use lapdev.Watch.Manager.Requests.{new-IsValid}
use lapdev.Watch.Events.{
  KubeObject, WatcherEvent, apply, delete, init, init_apply, init_done, watch_kind,
}
use lapdev.Watch.Events.Replay.{replay, in_order, watch_kind-replay, watch_kind-in_order}

abbrev watching : WatchManager
watching = configure_watches ("dev " ∷ "prod" ∷ []) new

watching-IsValid : IsValid watching
watching-IsValid = configure_watches-IsValid ("dev " ∷ "prod" ∷ []) new new-IsValid

-- Tasks are numbered in the order of spawning.
first_task : Map.get (deployment, "dev") watching.tasks ≡ some 0
unfolding configure_watches new_namespaces stop_all start_all start_namespace start_tasks start_task
    Map.get Map.insert Map.remove
first_task = refl

configure_watches-tasks_example :
    (Map.get (deployment, "dev") (configure_watches (" prod" ∷ "test" ∷ []) watching).tasks ≡ none)
    × ((configure_watches (" prod" ∷ "test" ∷ []) watching).aborted 0 ≡ true)
configure_watches-tasks_example =
    configure_watches-tasks (" prod" ∷ "test" ∷ []) watching (deployment, "dev") 0 watching-IsValid
      first_task

abbrev web : KubeObject
web = record { name = "web"; version = some "7"; yaml = some "kind: Deployment" }

abbrev stream : List (ℕ × WatcherEvent)
stream = (1, init) ∷ (2, init_apply web) ∷ (3, init_done) ∷ (4, apply web) ∷ (5, delete web) ∷ []

watch_kind-replay_example :
    replay (watch_kind "dev" deployment stream []).0 [] ≡ (watch_kind "dev" deployment stream []).1
watch_kind-replay_example = watch_kind-replay "dev" deployment stream []

watch_kind-in_order_example : in_order (watch_kind "dev" deployment stream []).0 [] ≡ true
watch_kind-in_order_example = (watch_kind-in_order "dev" deployment stream []).0
