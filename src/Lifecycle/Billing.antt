-- ===== src/Lifecycle/Billing.antt =====
-- crates/conductor/src/server.rs: every usage that a workspace names is in the table of usages. What is
-- shared by the proof that this stays so, and by that ending a usage does not fail.
pub mod Calls
pub mod Tasks
pub mod Runs
use Prim.Native.Nat.{zero, suc}
use mathlib.Core.Bool.{false≢true}
use mathlib.Core.Path.{subst}
use lapdev.Base.{
  String, ℕ, ◌≡◌, refl, Option-cases, sym, ap, ◌∙◌, Bool, true, false, Bool-cases, inl, inr, Option,
  none, some, List, [], ◌∷◌, arith, ◌==◌, nat_key, nat_eq_iff, if◌then◌else◌, find, any, all,
}
use lapdev.Base.Int.{ℤ}
use lapdev.Usage
use lapdev.Usage.{Uuid, Time, Usage, new_usage, end_usage, ended, update}
use lapdev.Lifecycle.Steps.{found_by}
use lapdev.Base.Map.{is_some}
use lapdev.Lifecycle.{
  start_task, stop_task, delete_task, delete_after, Status, starting, stopping, deleting, stopped,
  stop_failed, failed, delete_failed, Workspace, Conductor, has_id, update_all, update_workspace,
  set_status, without_usage, spawn, end_of, after_end, stop_after, Task, TaskKind, start_task,
  stop_task, Answer, succeeded, refused, unreachable, started, run_started, do_start_workspace,
  do_stop_workspace, do_delete_workspace, set_deleted, update_org_has_running_workspace, do_task,
  work_through, work, with_workspace, with_tasks, start_workspace, stop_workspace, delete_workspace,
  api_start_workspace, api_stop_workspace, Event, start_called, stop_called, delete_called, worked,
  happen, run,
}

abbrev pub is_known : List Usage → Option ℕ → Bool
is_known rows none = true
is_known rows (some id) = any (Usage.has_id id) rows

abbrev pub AllKnown : List Usage → List Workspace → Type 0
AllKnown rows workspaces = all (λ (w : Workspace). is_known rows w.usage_id) workspaces ≡ true

-- The usages that the workspaces name are in the table.
unfoldable pub IsBilled : Conductor → Type 0
IsBilled c = AllKnown c.usages c.workspaces

pub update_all-AllKnown :
    (rows : List Usage) (id : Uuid) (f : Workspace → Workspace) (workspaces : List Workspace)
    → ((w : Workspace) → is_known rows w.usage_id ≡ true → is_known rows (f w).usage_id ≡ true)
    → AllKnown rows workspaces
    → AllKnown rows (update_all id f workspaces)
update_all-AllKnown rows id f [] keeps known = refl
update_all-AllKnown rows id f (w ∷ workspaces) keeps known =
    ground (arith, update_all-AllKnown rows id f workspaces keeps, keeps w)

-- A table in which every usage is found that was found in another.
pub Extends : List Usage → List Usage → Type 0
Extends rows more = (id : ℕ) → any (Usage.has_id id) rows ≡ true → any (Usage.has_id id) more ≡ true

pub is_known-Extends :
    (rows more : List Usage) (used : Option ℕ)
    → Extends rows more
    → is_known rows used ≡ true
    → is_known more used ≡ true
unfolding Extends
is_known-Extends rows more none extends known = refl
is_known-Extends rows more (some id) extends known = extends id known

pub Extends-AllKnown :
    (rows more : List Usage) (workspaces : List Workspace)
    → Extends rows more
    → AllKnown rows workspaces
    → AllKnown more workspaces
Extends-AllKnown rows more [] extends known = refl
Extends-AllKnown rows more (w ∷ workspaces) extends known = ground (
  arith,
  Extends-AllKnown rows more workspaces extends,
  is_known-Extends rows more w.usage_id extends,
)

pub any-update :
    (id u : ℕ) (now : Time) (rows : List Usage)
    → any (Usage.has_id u) (update id (ended now) rows) ≡ any (Usage.has_id u) rows
unfolding update ended
any-update id u now [] = refl
any-update id u now (usage ∷ rows) = ground (arith, any-update id u now rows)

pub any-find :
    (id : ℕ) (rows : List Usage)
    → find (Usage.has_id id) rows ≡ none
    → any (Usage.has_id id) rows ≡ false
any-find id [] absent = refl
any-find id (usage ∷ rows) absent = ground (arith, any-find id rows)

pub end_usage-known :
    (id : ℕ) (now : Time) (rows : List Usage)
    → any (Usage.has_id id) rows ≡ true
    → end_usage id now rows ≡ some (update id (ended now) rows)
unfolding end_usage
end_usage-known id now rows known = elim (Option-cases (find (Usage.has_id id) rows)) [
  | inl absent ↦ absurd (false≢true (sym (any-find id rows absent) ∙ known))
  | inr (usage, found) ↦
      ap (λ o. (elim o [ none ↦ none | some u ↦ some (update id (ended now) rows) ])) found
]

-- The usage of a workspace that names none, or one of the table, can be ended.
pub end_of-Extends :
    (used : Option ℕ) (now : Time) (rows : List Usage)
    → is_known rows used ≡ true
    → (after : List Usage) × ((end_of used now rows ≡ some after) × Extends rows after)
unfolding Extends
end_of-Extends none now rows known = (rows, (refl, λ id found. found))
end_of-Extends (some id) now rows known = (
  update id (ended now) rows,
  (end_usage-known id now rows known, λ u found. any-update id u now rows ∙ found),
)

pub update_workspace-IsBilled :
    (id : Uuid) (f : Workspace → Workspace) (c : Conductor)
    → ((w : Workspace)
        → is_known c.usages w.usage_id ≡ true
        → is_known c.usages (f w).usage_id ≡ true)
    → IsBilled c
    → IsBilled (update_workspace id f c)
unfolding IsBilled update_workspace
update_workspace-IsBilled id f c = update_all-AllKnown c.usages id f c.workspaces

pub spawn-IsBilled :
    (kind : TaskKind) (waiting : Bool) (ws : Workspace) (c : Conductor)
    → IsBilled c
    → IsBilled (spawn kind waiting ws c)
unfolding IsBilled
spawn-IsBilled kind waiting ws c billed = billed

pub found-known :
    (id : Uuid) (rows : List Usage) (workspaces : List Workspace) (ws : Workspace)
    → find (has_id id) workspaces ≡ some ws
    → AllKnown rows workspaces
    → is_known rows ws.usage_id ≡ true
found-known id rows [] ws found known = cc
found-known id rows (w ∷ workspaces) ws found known = elim (Bool-cases (w.id == id)) [
  | inl same ↦
      let this : some w ≡ some ws = rw same at found in
      let well : is_known rows w.usage_id ≡ true = ground arith in cc
  | inr other ↦ found-known id rows workspaces ws (rw other at found) (ground arith)
]

pub found-has_id :
    (id : Uuid) (workspaces : List Workspace) (ws : Workspace)
    → find (has_id id) workspaces ≡ some ws
    → ws.id ≡ id
found-has_id id [] ws found = cc
found-has_id id (w ∷ workspaces) ws found = elim (Bool-cases (w.id == id)) [
  | inl same ↦
      let this : some w ≡ some ws = rw same at found in
      let named : w.id ≡ id = (nat_eq_iff w.id id).0 same in cc
  | inr other ↦ found-has_id id workspaces ws (rw other at found)
]

pub IsBilled-AllKnown : (c : Conductor) → IsBilled c → AllKnown c.usages c.workspaces
unfolding IsBilled
IsBilled-AllKnown c billed = billed
