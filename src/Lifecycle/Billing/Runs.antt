-- ===== src/Lifecycle/Billing/Runs.antt =====
-- crates/conductor/src/server.rs: calls and tasks in any order, and the usages that workspaces name.

use mathlib.Core.Path.{subst}
use lapdev.Base.{
  ◌≡◌, refl, Option-cases, sym, ap, ◌∙◌, true, false, inl, inr, Option, none, some, List, [], ◌∷◌,
  arith, nat_key, if◌then◌else◌, find,
}
use lapdev.Base.Int.{ℤ}
use lapdev.Usage.{Uuid, Time}
use lapdev.Lifecycle.Steps.{found_by}
use lapdev.Base.Map.{is_some}
use lapdev.Lifecycle.{
  stopping, Workspace, Conductor, has_id, update_workspace, without_usage, end_of, after_end,
  stop_after, Task, work, with_workspace, with_tasks, stop_workspace, Event, start_called,
  stop_called, delete_called, worked, happen, run,
}
use lapdev.Lifecycle.Billing.{
  is_known, AllKnown, IsBilled, end_of-Extends, found-known, found-has_id, IsBilled-AllKnown,
}
use lapdev.Lifecycle.Billing.Calls.{
  api_start_workspace-IsBilled, api_stop_workspace-IsBilled, delete_workspace-IsBilled,
}
use lapdev.Lifecycle.Billing.Tasks.{work-IsBilled}

with_workspace-IsBilled :
    (id : Uuid) (f : Workspace → Conductor) (c : Conductor)
    → IsBilled c
    → ((ws : Workspace) → is_known c.usages ws.usage_id ≡ true → IsBilled (f ws))
    → IsBilled (with_workspace id f c)
with_workspace-IsBilled id f c billed keeps = elim (Option-cases (find (has_id id) c.workspaces)) [
  | inl absent ↦ subst (λ o. IsBilled (of_found o)) (sym absent) billed
  | inr (ws, found) ↦
      let kept = keeps ws (known ws found) in
      let given : IsBilled (of_found (some ws)) = ground arith in
      subst (λ o. IsBilled (of_found o)) (sym found) given
]
  where
    of_found : Option Workspace → Conductor
    of_found o = elim o [ none ↦ c | some ws ↦ if is_some ws.deleted_at then c else f ws ]

    known :
        (ws : Workspace)
        → find (has_id id) c.workspaces ≡ some ws
        → is_known c.usages ws.usage_id ≡ true
    known ws found = found-known id c.usages c.workspaces ws found (IsBilled-AllKnown c billed)

with_tasks-IsBilled : (r : List Task × Conductor) → IsBilled r.1 → IsBilled (with_tasks r)
unfolding IsBilled
with_tasks-IsBilled r billed = billed

happen-IsBilled :
    (cost_of : Uuid → Option ℤ) (event : Event) (c : Conductor)
    → IsBilled c
    → IsBilled (happen cost_of event c)
unfolding happen
happen-IsBilled cost_of (start_called id within_limit within_quota connected) c billed =
    with_workspace-IsBilled id _ c billed
      (λ ws known. api_start_workspace-IsBilled ws within_limit within_quota connected c billed)
happen-IsBilled cost_of (stop_called id now connected) c billed =
    with_workspace-IsBilled id _ c billed
      (λ ws known. api_stop_workspace-IsBilled ws now connected c known billed)
happen-IsBilled cost_of (delete_called id now) c billed =
    with_workspace-IsBilled id _ c billed
      (λ ws known. delete_workspace-IsBilled ws now c known billed)
happen-IsBilled cost_of (worked index now answer) c billed =
    with_tasks-IsBilled (work cost_of index now answer c.tasks c)
      (work-IsBilled cost_of index now answer c.tasks c billed)

run-IsBilled :
    (cost_of : Uuid → Option ℤ) (events : List Event) (c : Conductor)
    → IsBilled c
    → IsBilled (run cost_of events c)
unfolding run
run-IsBilled cost_of [] c billed = billed
run-IsBilled cost_of (event ∷ events) c billed =
    run-IsBilled cost_of events (happen cost_of event c) (happen-IsBilled cost_of event c billed)

-- A stop when the usages that workspaces name are in the table.
stop_workspace-stops :
    (id : Uuid) (ws : Workspace) (now : Time) (c : Conductor)
    → AllKnown c.usages c.workspaces
    → find (has_id id) c.workspaces ≡ some ws
    → ws.is_compose ≡ false
    → ((stop_workspace ws now true c).1 ≡ none)
      × (find (has_id id) (stop_workspace ws now true c).0.workspaces
          ≡ some (without_usage stopping ws))
unfolding stop_workspace update_workspace
stop_workspace-stops id ws now c known found alone =
    let (rows, (ends, extends)) =
      end_of-Extends ws.usage_id now c.usages
        (found-known id c.usages c.workspaces ws found known) in
    let named = found-has_id id c.workspaces ws found in
    let passes : stop_workspace ws now true c
        ≡ stop_after ws true c (after_end ws stopping c (end_of ws.usage_id now c.usages)) =
      rw alone refl in
    let stops : stop_workspace ws now true c
        ≡ stop_after ws true c (after_end ws stopping c (some rows)) =
      passes ∙ ap (λ o. stop_after ws true c (after_end ws stopping c o)) ends in
    (
      ap (λ r. r.1) stops,
      ap (λ r. find (has_id id) r.0.workspaces) stops
          ∙ found_by ws.id id (without_usage stopping) c.workspaces ws named (λ w. refl) found,
    )

-- Whatever is called and whatever the hosts answer, in any order, from tables in which every usage that a
-- workspace names is found: a stop of a workspace of the tables, of one that is not of a compose file and whose
-- host is connected, succeeds, and its row is then stopping and without a usage.
pub stop_workspace-succeeds :
    (cost_of : Uuid → Option ℤ) (events : List Event) (c : Conductor) (id : Uuid) (ws : Workspace)
    (now : Time)
    → IsBilled c
    → find (has_id id) (run cost_of events c).workspaces ≡ some ws
    → ws.is_compose ≡ false
    → ((stop_workspace ws now true (run cost_of events c)).1 ≡ none)
      × (find (has_id id) (stop_workspace ws now true (run cost_of events c)).0.workspaces
          ≡ some (without_usage stopping ws))
stop_workspace-succeeds cost_of events c id ws now billed found alone =
    stop_workspace-stops id ws now (run cost_of events c)
      (IsBilled-AllKnown (run cost_of events c) (run-IsBilled cost_of events c billed)) found alone
