-- ===== src/Lifecycle/Interleavings.antt =====
-- crates/conductor/src/server.rs: calls for one workspace that come before its tasks are done.
use lapdev.Base.{
  ◌+◌, ◌≡◌, refl, ap, ◌∙◌, true, false, Option, none, some, List, [], ◌∷◌, nat_key, find,
}
use lapdev.Base.Int.{ℤ}
use lapdev.Usage
use lapdev.Usage.{Uuid, Time, Usage, new_usage, end_usage, ended, update}
use lapdev.Lifecycle.{
  starting, stopping, without_usage, is_running, Workspace, Conductor, has_id, update_all,
  set_status, started, Event, start_called, stop_called, worked, succeeded, happen, run,
}
use lapdev.Lifecycle.Steps.{
  found_by, spawned, happen-start, open_usage, billed, start_of, update-keeps, stops, happen-stop,
  happen-first, happen-second,
}

module _ (cost_of : Uuid → Option ℤ) (id : Uuid) (ws : Workspace) (c : Conductor) (cost : ℤ)
    (named : ws.id ≡ id) (found : find (has_id id) c.workspaces ≡ some ws)
    (live : ws.deleted_at ≡ none) (idle : is_running ws.status ≡ false)
    (alone : ws.is_compose ≡ false) (parentless : ws.compose_parent ≡ none)
    (priced : cost_of ws.machine_type_id ≡ some cost) where
  abbrev start_event : Event
  start_event = start_called id true true true

  abbrev quiet : Conductor
  quiet = record c { tasks = [] }

  abbrev begun : Workspace
  begun = set_status starting ws

  -- What two starts leave.
  run-starts : run cost_of (start_event ∷ start_event ∷ []) quiet ≡ spawned begun (spawned ws quiet)
  unfolding run
  run-starts =
      ap (happen cost_of start_event) (happen-start cost_of id ws quiet named found live alone idle)
      ∙ happen-start cost_of id begun (spawned ws quiet) named
          (found_by ws.id id (set_status starting) c.workspaces ws named (λ w. refl) found) live
          alone refl

  -- The workspace and the tables when both tasks have succeeded.
  abbrev billed_twice : Time → Time → Conductor
  billed_twice first second =
      record (billed begun second cost
        (billed begun first cost (spawned begun (spawned ws quiet)))) {
          tasks = start_of [] ∷ (start_of [] ∷ []);
        }

  run-works :
      (first second : Time)
      → run cost_of
          (worked 0 first succeeded ∷ worked 1 second succeeded ∷ [])
          (spawned begun (spawned ws quiet))
        ≡ billed_twice first second
  unfolding run
  run-works first second =
      ap (happen cost_of (worked 1 second succeeded)) (
        happen-first cost_of begun cost priced parentless first (start_of (begun ∷ []) ∷ [])
          (spawned begun (spawned ws quiet)))
      ∙ happen-second cost_of begun cost priced parentless second (start_of [])
          (billed begun first cost (spawned begun (spawned ws quiet)))

  found_again :
      (f : Workspace → Workspace) (rows : List Workspace) (w : Workspace)
      → ((v : Workspace) → (f v).id ≡ v.id)
      → find (has_id id) rows ≡ some w
      → find (has_id id) (update_all ws.id f rows) ≡ some (f w)
  found_again f rows w = found_by ws.id id f rows w named

  found_twice :
      (first second : Time)
      → find (has_id id) (billed_twice first second).workspaces
        ≡ some (started (some (c.next_usage + 1)) ws)
  found_twice first second =
      found_again (started (some (c.next_usage + 1))) _ _ (λ w. refl)
        (found_again (started (some c.next_usage)) _ _ (λ w. refl)
          (found_again (set_status starting) _ _ (λ w. refl)
            (found_again (set_status starting) _ _ (λ w. refl) found)))

  abbrev double_start : Time → Time → Time → List Event
  double_start first second now =
      start_event
      ∷ (start_event
          ∷ (worked 0 first succeeded
              ∷ (worked 1 second succeeded ∷ (stop_called id now true ∷ []))))

  run-stops :
      (first second now : Time)
      → run cost_of (double_start first second now) quiet
        ≡ stops
            (started (some (c.next_usage + 1)) ws)
            (ended now (open_usage (c.next_usage + 1) ws second cost)
              ∷ update
                  (c.next_usage + 1)
                  (ended now)
                  (open_usage c.next_usage ws first cost ∷ c.usages))
            (billed_twice first second)
  unfolding run
  run-stops first second now =
      ap
        (λ s.
          happen cost_of (stop_called id now true)
            (run cost_of (worked 0 first succeeded ∷ worked 1 second succeeded ∷ []) s))
        run-starts
      ∙ ap (happen cost_of (stop_called id now true)) (run-works first second)
      ∙ happen-stop cost_of id now (started (some (c.next_usage + 1)) ws)
          (billed_twice first second) (open_usage (c.next_usage + 1) ws second cost)
          (open_usage c.next_usage ws first cost ∷ c.usages) (found_twice first second) live refl
          alone refl refl

  -- A workspace that is not deleted, is none of a compose file and does not run is started twice,
  -- within its limits and with its host connected, before the first start is done. What its machine
  -- type costs is known, no other task is on its way, both starts succeed, and the workspace is
  -- stopped. Of the two usages that were opened the first is then still open, with no end and no
  -- cost, and the workspace has no usage.
  pub start_workspace-leaks :
      (first second now : Time)
      → let last = run cost_of (double_start first second now) (record c { tasks = [] }) in
        (find (Usage.has_id c.next_usage) last.usages
          ≡ some (open_usage c.next_usage ws first cost))
        × (find (has_id id) last.workspaces ≡ some (without_usage stopping ws))
  start_workspace-leaks first second now = (
    ap (λ s. find (Usage.has_id c.next_usage) s.usages) (run-stops first second now)
        ∙ update-keeps c.next_usage now (open_usage (c.next_usage + 1) ws second cost)
            (open_usage c.next_usage ws first cost) c.usages refl refl,
    ap (λ s. find (has_id id) s.workspaces) (run-stops first second now)
        ∙ found_again (without_usage stopping) _ _ (λ w. refl) (found_twice first second),
  )

  -- A workspace that is not deleted, is none of a compose file and does not run is started once,
  -- within its limits and with its host connected. What its machine type costs is known, no other
  -- task is on its way, the start succeeds, and the workspace is stopped. The table of usages has
  -- then one row more, which began at the start and is ended at the stop with its cost, the rows
  -- behind it are as `update` leaves them, and the workspace has no usage.
  pub start_workspace-bills :
      (first now : Time)
      → let last =
          run cost_of
            (start_event ∷ (worked 0 first succeeded ∷ (stop_called id now true ∷ [])))
            (record c { tasks = [] }) in
        (last.usages
          ≡ ended now (open_usage c.next_usage ws first cost)
            ∷ update c.next_usage (ended now) c.usages)
        × (find (has_id id) last.workspaces ≡ some (without_usage stopping ws))
  unfolding run
  start_workspace-bills first now =
      let starts = happen-start cost_of id ws quiet named found live alone idle in
      let works = happen-first cost_of begun cost priced parentless first [] (spawned ws quiet) in
      let known =
        found_again (started (some c.next_usage)) _ _ (λ w. refl)
          (found_again (set_status starting) _ _ (λ w. refl) found) in
      let stopped =
        happen-stop cost_of id now (started (some c.next_usage) ws)
          (record (billed begun first cost (spawned ws quiet)) { tasks = start_of [] ∷ [] })
          (open_usage c.next_usage ws first cost) c.usages known live refl alone refl refl in
      let whole =
        ap
          (λ s.
            happen cost_of (stop_called id now true) (happen cost_of (worked 0 first succeeded) s))
          starts
        ∙ ap (happen cost_of (stop_called id now true)) works
        ∙ stopped in
      (
        ap (λ s. s.usages) whole,
        ap (λ s. find (has_id id) s.workspaces) whole
            ∙ found_again (without_usage stopping) _ _ (λ w. refl) known,
      )
