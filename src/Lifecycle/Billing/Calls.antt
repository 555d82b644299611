-- ===== src/Lifecycle/Billing/Calls.antt =====
-- crates/conductor/src/server.rs: what the calls of users leave of the usages that workspaces name.

use mathlib.Core.Path.{subst}
use lapdev.Base.{◌≡◌, refl, sym, ap, Bool, true, false, some, arith, nat_key}
use lapdev.Usage.{Time}
use lapdev.Lifecycle.{
  start_task, stop_task, delete_task, delete_after, Status, starting, stopping, deleting, Workspace,
  Conductor, update_workspace, set_status, without_usage, end_of, after_end, stop_after, start_task,
  stop_task, start_workspace, stop_workspace, delete_workspace, api_start_workspace,
  api_stop_workspace,
}
use lapdev.Lifecycle.Billing.{
  is_known, IsBilled, Extends-AllKnown, end_of-Extends, update_workspace-IsBilled, spawn-IsBilled,
}

pub api_start_workspace-IsBilled :
    (ws : Workspace) (within_limit within_quota connected : Bool) (c : Conductor)
    → IsBilled c
    → IsBilled (api_start_workspace ws within_limit within_quota connected c).0
unfolding api_start_workspace start_workspace
api_start_workspace-IsBilled ws within_limit within_quota connected c billed =
    let starts =
      update_workspace-IsBilled ws.id (set_status starting) c (λ w known. known) billed in
    let spawns =
      spawn-IsBilled start_task false (set_status starting ws)
        (update_workspace ws.id (set_status starting) c) starts in
    ground arith

-- What ending the usage of a workspace of the table leaves.
pub after_end-IsBilled :
    (ws : Workspace) (status : Status) (now : Time) (c : Conductor)
    → is_known c.usages ws.usage_id ≡ true
    → IsBilled c
    → (after : Conductor) × ((after_end ws status c (end_of ws.usage_id now c.usages) ≡ some after)
        × IsBilled after)
unfolding IsBilled
after_end-IsBilled ws status now c known billed =
    let (rows, (ends, extends)) = end_of-Extends ws.usage_id now c.usages known in
    let kept = Extends-AllKnown c.usages rows c.workspaces extends billed in
    (
      update_workspace ws.id (without_usage status) (record c { usages = rows }),
      (
        ap (after_end ws status c) ends,
        update_workspace-IsBilled ws.id (without_usage status) (record c { usages = rows })
            (λ w named. refl) kept,
      ),
    )

pub stop_workspace-IsBilled :
    (ws : Workspace) (now : Time) (connected : Bool) (c : Conductor)
    → is_known c.usages ws.usage_id ≡ true
    → IsBilled c
    → IsBilled (stop_workspace ws now connected c).0
unfolding stop_workspace
stop_workspace-IsBilled ws now connected c known billed =
    let (after, (ends, kept)) = after_end-IsBilled ws stopping now c known billed in
    let spawns = spawn-IsBilled stop_task false (without_usage stopping ws) after kept in
    let stops : IsBilled (stop_after ws connected c (some after)).0 = ground arith in
    let stopped_ = subst (λ o. IsBilled (stop_after ws connected c o).0) (sym ends) stops in
    ground arith

pub api_stop_workspace-IsBilled :
    (ws : Workspace) (now : Time) (connected : Bool) (c : Conductor)
    → is_known c.usages ws.usage_id ≡ true
    → IsBilled c
    → IsBilled (api_stop_workspace ws now connected c).0
unfolding api_stop_workspace
api_stop_workspace-IsBilled ws now connected c known billed =
    ground (arith, stop_workspace-IsBilled ws now connected c known billed)

pub delete_workspace-IsBilled :
    (ws : Workspace) (now : Time) (c : Conductor)
    → is_known c.usages ws.usage_id ≡ true
    → IsBilled c
    → IsBilled (delete_workspace ws now c).0
unfolding delete_workspace
delete_workspace-IsBilled ws now c known billed =
    let (after, (ends, kept)) = after_end-IsBilled ws deleting now c known billed in
    let spawns = spawn-IsBilled delete_task false (without_usage deleting ws) after kept in
    let deletes = subst (λ o. IsBilled (delete_after ws c o).0) (sym ends) spawns in ground arith
