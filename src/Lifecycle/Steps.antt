-- ===== src/Lifecycle/Steps.antt =====
-- crates/conductor/src/server.rs: what a start, its task and a stop leave when they succeed.
use lapdev.Base.{
  ℕ, ◌+◌, ◌≡◌, refl, ap, ◌∙◌, true, false, Bool-cases, inl, inr, Option, none, some, List, [], ◌∷◌,
  ◌++◌, arith, ◌==◌, nat_key, nat_eq_iff, if◌then◌else◌, find,
}
use lapdev.Base.Int.{ℤ, pos}
use lapdev.Base.Map
use lapdev.Base.Map.{map_some, is_some}
use lapdev.Usage
use lapdev.Usage.{Uuid, Time, Usage, new_usage, end_usage, ended, update}
use lapdev.Lifecycle.{
  starting, stopping, with_workspace, is_stopped, without_usage, end_of, after_end,
  api_stop_workspace, stop_workspace, stop_after, stop_task, is_running, Workspace, Conductor,
  has_id, update_all, update_workspace, set_status, started, start_task, compose_services, Task,
  start_called, stop_called, worked, succeeded, api_start_workspace, start_workspace, run_started,
  do_start_workspace, happen,
}

-- What is found of a workspace that was updated.
pub found_updated :
    (id : Uuid) (f : Workspace → Workspace) (rows : List Workspace) (ws : Workspace)
    → ((w : Workspace) → (f w).id ≡ w.id)
    → find (has_id id) rows ≡ some ws
    → find (has_id id) (update_all id f rows) ≡ some (f ws)
found_updated id f [] ws keeps found = cc
found_updated id f (w ∷ rows) ws keeps found = elim (Bool-cases (w.id == id)) [
  | inl same ↦ rw (same, ap (λ i. i == id) (keeps w) ∙ same) (ap (map_some f) (rw same at found))
  | inr other ↦ rw (other, other) (found_updated id f rows ws keeps (rw other at found))
]

pub found_by :
    (j id : Uuid) (f : Workspace → Workspace) (rows : List Workspace) (ws : Workspace)
    → j ≡ id
    → ((w : Workspace) → (f w).id ≡ w.id)
    → find (has_id id) rows ≡ some ws
    → find (has_id id) (update_all j f rows) ≡ some (f ws)
found_by j id f rows ws same keeps found =
    ap (λ k. find (has_id id) (update_all k f rows)) same ∙ found_updated id f rows ws keeps found

pub with_workspace-found :
    (id : Uuid) (f : Workspace → Conductor) (ws : Workspace) (c : Conductor)
    → find (has_id id) c.workspaces ≡ some ws
    → ws.deleted_at ≡ none
    → with_workspace id f c ≡ f ws
with_workspace-found id f ws c found live =
    ap (λ o. (elim o [ none ↦ c | some w ↦ if is_some w.deleted_at then c else f w ])) found
    ∙ rw live refl

abbrev pub spawned : Workspace → Conductor → Conductor
spawned ws c = record c {
  workspaces = update_all ws.id (set_status starting) c.workspaces;
  tasks =
      c.tasks
      ++ record { task_kind = start_task; remaining = set_status starting ws ∷ []; waiting = false }
        ∷ [];
}

pub happen-start :
    (cost_of : Uuid → Option ℤ) (id : Uuid) (ws : Workspace) (c : Conductor)
    → ws.id ≡ id
    → find (has_id id) c.workspaces ≡ some ws
    → ws.deleted_at ≡ none
    → ws.is_compose ≡ false
    → is_running ws.status ≡ false
    → happen cost_of (start_called id true true true) c ≡ spawned ws c
unfolding happen
happen-start cost_of id ws c same found live alone idle =
    with_workspace-found id (λ w. (api_start_workspace w true true true c).0) ws c found live
    ∙ unfold api_start_workspace start_workspace update_workspace compose_services in
      rw (idle, alone) refl

-- The row of a new usage, and the workspace with it.
abbrev pub open_usage : ℕ → Workspace → Time → ℤ → Usage
open_usage id ws now cost = record {
  id = id;
  start = now;
  end = none;
  resource_kind = "Workspace";
  resource_id = ws.id;
  resource_name = ws.name;
  organization_id = ws.organization_id;
  machine_type_id = ws.machine_type_id;
  user_id = some ws.user_id;
  duration = none;
  cost_per_second = cost;
  total_cost = pos 0;
}

abbrev pub billed : Workspace → Time → ℤ → Conductor → Conductor
billed ws now cost c = record c {
  workspaces = update_all ws.id (started (some c.next_usage)) c.workspaces;
  usages = open_usage c.next_usage ws now cost ∷ c.usages;
  next_usage = c.next_usage + 1;
  has_running_workspace = Map.insert ws.organization_id true c.has_running_workspace;
}

abbrev pub start_of : List Workspace → Task
start_of remaining = record { task_kind = start_task; remaining = remaining; waiting = false }

module _ (cost_of : Uuid → Option ℤ) (ws : Workspace) (cost : ℤ)
    (priced : cost_of ws.machine_type_id ≡ some cost) (parentless : ws.compose_parent ≡ none) where
  pub do_start_workspace-billed :
      (now : Time) (c : Conductor)
      → do_start_workspace cost_of ws now succeeded c ≡ (billed ws now cost c, true)
  unfolding do_start_workspace update_workspace new_usage
  do_start_workspace-billed now c = ap (run_started ws now c) priced ∙ rw parentless refl

  -- The first task, and the second, with one workspace to start.
  pub happen-first :
      (now : Time) (tasks : List Task) (c : Conductor)
      → happen cost_of (worked 0 now succeeded) (record c { tasks = start_of (ws ∷ []) ∷ tasks })
        ≡ record (billed ws now cost c) { tasks = start_of [] ∷ tasks }
  unfolding happen
  happen-first now tasks c =
      rw (do_start_workspace-billed now (record c { tasks = start_of (ws ∷ []) ∷ tasks })) refl

  pub happen-second :
      (now : Time) (task : Task) (c : Conductor)
      → happen cost_of
          (worked 1 now succeeded)
          (record c { tasks = task ∷ (start_of (ws ∷ []) ∷ []) })
        ≡ record (billed ws now cost c) { tasks = task ∷ (start_of [] ∷ []) }
  unfolding happen
  happen-second now task c =
      rw (do_start_workspace-billed now (record c { tasks = task ∷ (start_of (ws ∷ []) ∷ []) }))
        refl

-- A stop of a workspace whose usage is the first of the table.
pub end_of-first :
    (used : Option ℕ) (now : Time) (usage : Usage) (rows : List Usage) (more : List Usage)
    → used ≡ some usage.id
    → rows ≡ usage ∷ more
    → end_of used now rows ≡ some (ended now usage ∷ update usage.id (ended now) more)
unfolding end_usage update
end_of-first used now usage rows more names first =
    let same : (usage.id == usage.id) ≡ true = (nat_eq_iff usage.id usage.id).1 refl in
    let named : find (Usage.has_id usage.id) (usage ∷ more) ≡ some usage = rw same refl in
    let updated : update usage.id (ended now) (usage ∷ more)
        ≡ ended now usage ∷ update usage.id (ended now) more =
      rw same refl in
    rw (names, first)
      (ap
          (λ o. (elim o [
            | none ↦ none
            | some u ↦ some (update usage.id (ended now) (usage ∷ more))
          ]))
          named
        ∙ ap some updated)

-- Ending the later of two usages keeps the earlier one as it is.
pub update-keeps :
    (n : ℕ) (now : Time) (later earlier : Usage) (rows : List Usage)
    → later.id ≡ n + 1
    → earlier.id ≡ n
    → find (Usage.has_id n) (ended now later ∷ update (n + 1) (ended now) (earlier ∷ rows))
      ≡ some earlier
unfolding update ended
update-keeps n now later earlier rows after at =
    ground (arith, nat_eq_iff later.id n, nat_eq_iff earlier.id n, nat_eq_iff earlier.id (n + 1))

abbrev pub stops : Workspace → List Usage → Conductor → Conductor
stops ws usages c = record c {
  workspaces = update_all ws.id (without_usage stopping) c.workspaces;
  usages = usages;
  tasks =
      c.tasks
      ++ record {
        task_kind = stop_task;
        remaining = without_usage stopping ws ∷ [];
        waiting = false;
      }
        ∷ [];
}

-- A stop that the guards let through.
pub api_stop_workspace-passes :
    (now : Time) (ws : Workspace) (c : Conductor)
    → is_stopped ws.status ≡ false
    → ws.is_compose ≡ false
    → api_stop_workspace ws now true c
      ≡ stop_after ws true c (after_end ws stopping c (end_of ws.usage_id now c.usages))
unfolding api_stop_workspace stop_workspace
api_stop_workspace-passes now ws c unstopped alone = rw (unstopped, alone) refl

pub happen-stop :
    (cost_of : Uuid → Option ℤ) (id : Uuid) (now : Time) (ws : Workspace) (c : Conductor)
    (usage : Usage) (more : List Usage)
    → find (has_id id) c.workspaces ≡ some ws
    → ws.deleted_at ≡ none
    → is_stopped ws.status ≡ false
    → ws.is_compose ≡ false
    → ws.usage_id ≡ some usage.id
    → c.usages ≡ usage ∷ more
    → happen cost_of (stop_called id now true) c
      ≡ stops ws (ended now usage ∷ update usage.id (ended now) more) c
unfolding happen update_workspace compose_services
happen-stop cost_of id now ws c usage more found live unstopped alone used first =
    with_workspace-found id (λ w. (api_stop_workspace w now true c).0) ws c found live
    ∙ ap (λ p. p.0) (api_stop_workspace-passes now ws c unstopped alone)
    ∙ ap (λ o. (stop_after ws true c (after_end ws stopping c o)).0)
        (end_of-first ws.usage_id now usage c.usages more used first)
    ∙ rw alone refl
