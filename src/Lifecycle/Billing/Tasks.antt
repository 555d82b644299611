-- ===== src/Lifecycle/Billing/Tasks.antt =====
-- crates/conductor/src/server.rs: what the tasks leave of the usages that workspaces name.
use Prim.Native.Nat.{zero, suc}
use lapdev.Base.{
  String, ℕ, ◌≡◌, refl, true, Option, none, some, List, [], ◌∷◌, arith, ◌==◌, nat_key, nat_eq_iff,
}
use lapdev.Base.Int.{ℤ}
use lapdev.Usage.{Uuid, Time, Usage, new_usage}
use lapdev.Lifecycle.{
  start_task, stop_task, delete_task, stopped, stop_failed, failed, delete_failed, Workspace,
  Conductor, update_workspace, set_status, Task, TaskKind, start_task, stop_task, Answer, succeeded,
  refused, unreachable, started, run_started, do_start_workspace, do_stop_workspace,
  do_delete_workspace, set_deleted, update_org_has_running_workspace, do_task, work_through, work,
}
use lapdev.Lifecycle.Billing.{
  is_known, IsBilled, update_all-AllKnown, Extends, Extends-AllKnown, update_workspace-IsBilled,
}

pub update_org_has_running_workspace-IsBilled :
    (organization : Uuid) (c : Conductor)
    → IsBilled c
    → IsBilled (update_org_has_running_workspace organization c)
unfolding IsBilled update_org_has_running_workspace
update_org_has_running_workspace-IsBilled organization c billed = ground arith

pub new_usage-Extends :
    (id : ℕ) (now : Time) (organization : Uuid) (user : Option Uuid) (kind : String)
    (resource : Uuid) (name : String) (machine_type : Uuid) (cost : ℤ) (rows : List Usage)
    → Extends rows (new_usage id now organization user kind resource name machine_type cost rows)
unfolding Extends new_usage
new_usage-Extends id now organization user kind resource name machine_type cost rows u found =
    ground arith

pub run_started-IsBilled :
    (ws : Workspace) (now : Time) (c : Conductor) (cost : Option ℤ)
    → IsBilled c
    → IsBilled (run_started ws now c cost).0
unfolding run_started IsBilled update_workspace new_usage
run_started-IsBilled ws now c none billed = billed
run_started-IsBilled ws now c (some cost) billed =
    let rows =
      new_usage c.next_usage now ws.organization_id (some ws.user_id) "Workspace" ws.id ws.name
        ws.machine_type_id cost c.usages in
    let same : (c.next_usage == c.next_usage) ≡ true =
      (nat_eq_iff c.next_usage c.next_usage).1 refl in
    let opened : is_known rows (some c.next_usage) ≡ true = rw same refl in
    let extends =
      new_usage-Extends c.next_usage now ws.organization_id (some ws.user_id) "Workspace" ws.id
        ws.name ws.machine_type_id cost c.usages in
    let service =
      update_all-AllKnown c.usages ws.id (started none) c.workspaces (λ w known. refl) billed in
    let alone =
      update_all-AllKnown rows ws.id (started (some c.next_usage)) c.workspaces (λ w known. opened)
        (Extends-AllKnown c.usages rows c.workspaces extends billed) in
    ground arith

pub do_start_workspace-IsBilled :
    (cost_of : Uuid → Option ℤ) (ws : Workspace) (now : Time) (answer : Answer) (c : Conductor)
    → IsBilled c
    → IsBilled (do_start_workspace cost_of ws now answer c).0
unfolding do_start_workspace
do_start_workspace-IsBilled cost_of ws now unreachable c billed = billed
do_start_workspace-IsBilled cost_of ws now refused c billed =
    update_workspace-IsBilled ws.id (set_status failed) c (λ w known. known) billed
do_start_workspace-IsBilled cost_of ws now succeeded c billed =
    run_started-IsBilled ws now c (cost_of ws.machine_type_id) billed

pub do_stop_workspace-IsBilled :
    (ws : Workspace) (answer : Answer) (c : Conductor)
    → IsBilled c
    → IsBilled (do_stop_workspace ws answer c).0
unfolding do_stop_workspace
do_stop_workspace-IsBilled ws unreachable c billed = billed
do_stop_workspace-IsBilled ws refused c billed =
    update_org_has_running_workspace-IsBilled ws.organization_id _
      (update_workspace-IsBilled ws.id (set_status stop_failed) c (λ w known. known) billed)
do_stop_workspace-IsBilled ws succeeded c billed =
    update_org_has_running_workspace-IsBilled ws.organization_id _
      (update_workspace-IsBilled ws.id (set_status stopped) c (λ w known. known) billed)

pub do_delete_workspace-IsBilled :
    (ws : Workspace) (now : Time) (answer : Answer) (c : Conductor)
    → IsBilled c
    → IsBilled (do_delete_workspace ws now answer c).0
unfolding do_delete_workspace
do_delete_workspace-IsBilled ws now unreachable c billed = billed
do_delete_workspace-IsBilled ws now refused c billed =
    update_org_has_running_workspace-IsBilled ws.organization_id _
      (update_workspace-IsBilled ws.id (set_status delete_failed) c (λ w known. known) billed)
do_delete_workspace-IsBilled ws now succeeded c billed =
    update_org_has_running_workspace-IsBilled ws.organization_id _
      (update_workspace-IsBilled ws.id (set_deleted now) c (λ w known. known) billed)

pub do_task-IsBilled :
    (cost_of : Uuid → Option ℤ) (kind : TaskKind) (ws : Workspace) (now : Time) (answer : Answer)
    (c : Conductor)
    → IsBilled c
    → IsBilled (do_task cost_of kind ws now answer c).0
do_task-IsBilled cost_of start_task ws now answer c billed =
    do_start_workspace-IsBilled cost_of ws now answer c billed
do_task-IsBilled cost_of stop_task ws now answer c billed =
    do_stop_workspace-IsBilled ws answer c billed
do_task-IsBilled cost_of delete_task ws now answer c billed =
    do_delete_workspace-IsBilled ws now answer c billed

pub work_through-IsBilled :
    (cost_of : Uuid → Option ℤ) (now : Time) (answer : Answer) (task : Task)
    (remaining : List Workspace) (c : Conductor)
    → IsBilled c
    → IsBilled (work_through cost_of now answer task remaining c).1
work_through-IsBilled cost_of now answer task [] c billed = billed
work_through-IsBilled cost_of now answer task (ws ∷ rest) c billed =
    do_task-IsBilled cost_of task.task_kind ws now answer c billed

pub work-IsBilled :
    (cost_of : Uuid → Option ℤ) (index : ℕ) (now : Time) (answer : Answer) (tasks : List Task)
    (c : Conductor)
    → IsBilled c
    → IsBilled (work cost_of index now answer tasks c).1
unfolding work
work-IsBilled cost_of index now answer [] c billed = billed
work-IsBilled cost_of zero now answer (task ∷ tasks) c billed =
    work_through-IsBilled cost_of now answer task task.remaining c billed
work-IsBilled cost_of (suc index) now answer (task ∷ tasks) c billed =
    work-IsBilled cost_of index now answer tasks c billed
