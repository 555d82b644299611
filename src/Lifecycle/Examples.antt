-- ===== src/Lifecycle/Examples.antt =====
-- A workspace that is started once or twice and stopped, and the theorems at it.
use lapdev.Base.{List, ◌≡◌, refl, Option, none, some, [], ◌∷◌, true, false, find, nat_key}
use lapdev.Base.Int.{ℤ, pos}
use lapdev.Usage
use lapdev.Usage.{Uuid, Usage, ended, update}
use lapdev.Lifecycle.{
  stopped, stopping, Workspace, Conductor, has_id, without_usage, start_called, stop_called, worked,
  succeeded, run, started, stop_workspace, Event, happen, work, api_start_workspace,
  start_workspace, update_workspace, compose_services, do_start_workspace, run_started,
}
use lapdev.Lifecycle.Steps.{open_usage}
use lapdev.Lifecycle.Billing.{IsBilled}
use lapdev.Lifecycle.Billing.Runs.{stop_workspace-succeeds}
use lapdev.Lifecycle.Interleavings.{start_workspace-leaks, start_workspace-bills}

abbrev shop : Workspace
shop = record {
  id = 4;
  deleted_at = none;
  organization_id = 9;
  user_id = 3;
  name = "shop";
  status = stopped;
  machine_type_id = 2;
  usage_id = none;
  is_compose = false;
  compose_parent = none;
}

abbrev conductor : Conductor
conductor = record {
  workspaces = shop ∷ [];
  usages = [];
  next_usage = 7;
  has_running_workspace = [];
  tasks = [];
}

abbrev cost_of : Uuid → Option ℤ
cost_of id = some (pos 5)

start_workspace-leaks_example :
    let last =
      run cost_of
        (start_called 4 true true true
          ∷ (start_called 4 true true true
              ∷ (worked 0 10000000000 succeeded
                  ∷ (worked 1 20000000000 succeeded ∷ (stop_called 4 60000000000 true ∷ [])))))
        conductor in
    (find (Usage.has_id 7) last.usages ≡ some (open_usage 7 shop 10000000000 (pos 5)))
    × (find (has_id 4) last.workspaces ≡ some (without_usage stopping shop))
start_workspace-leaks_example =
    start_workspace-leaks cost_of 4 shop conductor (pos 5) refl refl refl refl refl refl refl
      10000000000 20000000000 60000000000

start_workspace-bills_example :
    let last =
      run cost_of
        (start_called 4 true true true
          ∷ (worked 0 10000000000 succeeded ∷ (stop_called 4 60000000000 true ∷ [])))
        conductor in
    (last.usages ≡ ended 60000000000 (open_usage 7 shop 10000000000 (pos 5)) ∷ [])
    × (find (has_id 4) last.workspaces ≡ some (without_usage stopping shop))
unfolding update
start_workspace-bills_example =
    start_workspace-bills cost_of 4 shop conductor (pos 5) refl refl refl refl refl refl refl
      10000000000 60000000000

abbrev one_start : List Event
one_start = start_called 4 true true true ∷ (worked 0 10000000000 succeeded ∷ [])

conductor-IsBilled : IsBilled conductor
unfolding IsBilled
conductor-IsBilled = refl

shop_found :
    find (has_id 4) (run cost_of one_start conductor).workspaces ≡ some (started (some 7) shop)
unfolding run happen work api_start_workspace start_workspace update_workspace compose_services
    do_start_workspace run_started
shop_found = refl

stop_workspace-succeeds_example :
    ((stop_workspace (started (some 7) shop) 60000000000 true (run cost_of one_start conductor)).1
      ≡ none)
    × (find
          (has_id 4)
          (stop_workspace
            (started (some 7) shop)
            60000000000
            true
            (run cost_of one_start conductor)).0.workspaces
        ≡ some (without_usage stopping (started (some 7) shop)))
stop_workspace-succeeds_example =
    stop_workspace-succeeds cost_of one_start conductor 4 (started (some 7) shop) 60000000000
      conductor-IsBilled shop_found refl
