-- ===== src/Scheduler/Decisions.antt =====
-- A workspace gets its cores on the host that is decided on.
use lapdev.Base.{
  Bool-cases, sym, ℕ, ◌<◌, ◌≤◌, ◌≡◌, refl, String, true, false, Option, none, some, List, arith,
  nat_key, nat_eq_iff, length, length-take, take, Option-cases, inl, inr,
}
use lapdev.Base.Int.{pos, as_i32, as_usize, as_i32-small}
use mathlib.Core.Path.{subst}
use lapdev.Scheduler.{
  CpuCore, shared_cores, dedicated_cores, ExistingResource, WorkspaceHost, Workspace, Prebuild,
  available_cores, dedicated, get_existing_resource,
}
use lapdev.Scheduler.Hosts.{
  Request, is_candidate, decide_workspace_host, Pick, picked, not_picked, pick_cores,
  pick_workspce_host, recalcuate_workspce_host,
}
use lapdev.Scheduler.Picks.{IterateLaws, AreFree, pick_cores-free, get_existing_resource-cores}
use lapdev.Scheduler.Advertised.{length-available_cores, length-dedicated}
use lapdev.Scheduler.Candidates.{decide_workspace_host-is_candidate}

-- A pick of the host with the cores that the request asks for: as many shared ones, or as many of its own,
-- which are free on the host.
abbrev pub GetsCores :
    (String → Option CpuCore)
    → Request
    → WorkspaceHost
    → List Workspace
    → List Prebuild
    → Pick
    → Type 0
GetsCores from_str request host workspaces prebuilds (not_picked _) = ⊥
GetsCores from_str request host workspaces prebuilds (picked chosen (shared_cores n)) =
    (chosen ≡ host) × ((request.shared ≡ true) × (n ≡ request.cpu))
GetsCores from_str request host workspaces prebuilds (picked chosen (dedicated_cores cores)) =
    (chosen ≡ host)
    × ((request.shared ≡ false) × AreFree from_str request host workspaces prebuilds cores)

pick_cores-shared :
    (iterate : List ℕ → List ℕ) (request : Request) (overcommit : ℕ) (host : WorkspaceHost)
    (existing : ExistingResource)
    → request.shared ≡ true
    → pick_cores iterate request overcommit host existing ≡ picked host (shared_cores request.cpu)
unfolding pick_cores
pick_cores-shared iterate request overcommit host existing shared = ground arith

pick_cores-dedicated :
    (iterate : List ℕ → List ℕ) (request : Request) (overcommit : ℕ) (host : WorkspaceHost)
    (existing : ExistingResource)
    → IterateLaws iterate
    → request.shared ≡ false
    → request.cpu
      ≤ length (dedicated (available_cores (as_usize host.cpu) overcommit existing.cores))
    → pick_cores iterate request overcommit host existing
      ≡ picked host (
          dedicated_cores (
            take request.cpu (
              iterate (dedicated (available_cores (as_usize host.cpu) overcommit existing.cores)))))
unfolding pick_cores
pick_cores-dedicated iterate request overcommit host existing laws own enough =
    let available = dedicated (available_cores (as_usize host.cpu) overcommit existing.cores) in
    ground (
      arith,
      laws.same_length available,
      length-take request.cpu (iterate available),
      nat_eq_iff (length (take request.cpu (iterate available))) request.cpu,
    )

pick_cores-GetsCores :
    (from_str : String → Option CpuCore) (iterate : List ℕ → List ℕ) (request : Request)
    (overcommit : ℕ) (host : WorkspaceHost) (workspaces : List Workspace)
    (prebuilds : List Prebuild) (existing : ExistingResource)
    → IterateLaws iterate
    → get_existing_resource from_str host.id workspaces prebuilds ≡ some existing
    → (request.shared ≡ false
        → request.cpu
          ≤ length (dedicated (available_cores (as_usize host.cpu) overcommit existing.cores)))
    → GetsCores from_str request host workspaces prebuilds
        (pick_cores iterate request overcommit host existing)
pick_cores-GetsCores from_str iterate request overcommit host workspaces prebuilds existing laws
      read enough =
    elim (Bool-cases request.shared) [
      | inl shared ↦
          subst (GetsCores from_str request host workspaces prebuilds)
            (sym (pick_cores-shared iterate request overcommit host existing shared))
            (refl, (shared, refl))
      | inr own ↦
          let picks =
            pick_cores-dedicated iterate request overcommit host existing laws own (enough own) in
          subst (GetsCores from_str request host workspaces prebuilds) (sym picks) (
            refl,
            (
              own,
              (pick_cores-free from_str iterate request overcommit host host workspaces prebuilds
                  existing _ laws read picks).1,
            ),
          )
    ]

recalcuate_workspce_host-unread :
    (from_str : String → Option CpuCore) (overcommit : ℕ) (host : WorkspaceHost)
    (workspaces : List Workspace) (prebuilds : List Prebuild)
    → get_existing_resource from_str host.id workspaces prebuilds ≡ none
    → recalcuate_workspce_host from_str overcommit host workspaces prebuilds ≡ none
unfolding recalcuate_workspce_host
recalcuate_workspce_host-unread from_str overcommit host workspaces prebuilds unread =
    rw (unread, recalcuate_workspce_host) refl

recalcuate_workspce_host-dedicated :
    (from_str : String → Option CpuCore) (overcommit n : ℕ) (host after : WorkspaceHost)
    (workspaces : List Workspace) (prebuilds : List Prebuild) (existing : ExistingResource)
    → host.cpu ≡ pos n
    → get_existing_resource from_str host.id workspaces prebuilds ≡ some existing
    → recalcuate_workspce_host from_str overcommit host workspaces prebuilds ≡ some after
    → after.available_dedicated_cpu
      ≡ as_i32 (length (dedicated (available_cores n overcommit existing.cores)))
unfolding recalcuate_workspce_host as_usize
recalcuate_workspce_host-dedicated from_str overcommit n host after workspaces prebuilds existing
      cpus read h =
    ground (arith, read, cpus)

asked_fits :
    (request : Request) (host : WorkspaceHost) (available : ℕ)
    → request.shared ≡ false
    → is_candidate request host ≡ true
    → host.available_dedicated_cpu ≡ as_i32 available
    → request.cpu < 2147483648
    → available < 2147483648
    → request.cpu ≤ available
unfolding is_candidate
asked_fits request host available own candidate advertised asked small =
    ground (arith, as_i32-small request.cpu asked, as_i32-small available small)

pick_workspce_host-existing :
    (from_str : String → Option CpuCore) (iterate : List ℕ → List ℕ) (request : Request)
    (overcommit : ℕ) (hosts : List WorkspaceHost) (workspaces : List Workspace)
    (prebuilds : List Prebuild) (host : WorkspaceHost) (existing : ExistingResource)
    → decide_workspace_host request hosts ≡ some host
    → get_existing_resource from_str host.id workspaces prebuilds ≡ some existing
    → pick_workspce_host from_str iterate request overcommit hosts workspaces prebuilds
      ≡ pick_cores iterate request overcommit host existing
unfolding pick_workspce_host
pick_workspce_host-existing from_str iterate request overcommit hosts workspaces prebuilds host
      existing decided read =
    ground (arith, decided, read)

-- A workspace that asks for fewer than 2 ^ 31 cores is put on the host that is decided on, if what that
-- host advertises is up to date and the host has fewer than 2 ^ 31 cores. It gets as many cores as it
-- asks for: shared ones, if it asks for those, and otherwise cores of its own, none of them twice, all of
-- them cores of the host, and none of them a core of its own of a live workspace or a running prebuild
-- there.
pub pick_workspce_host-succeeds :
    (from_str : String → Option CpuCore) (iterate : List ℕ → List ℕ) (request : Request)
    (overcommit n : ℕ) (hosts : List WorkspaceHost) (workspaces : List Workspace)
    (prebuilds : List Prebuild) (host : WorkspaceHost)
    → IterateLaws iterate
    → decide_workspace_host request hosts ≡ some host
    → recalcuate_workspce_host from_str overcommit host workspaces prebuilds ≡ some host
    → host.cpu ≡ pos n
    → n < 2147483648
    → request.cpu < 2147483648
    → GetsCores from_str request host workspaces prebuilds
        (pick_workspce_host from_str iterate request overcommit hosts workspaces prebuilds)
unfolding as_usize
pick_workspce_host-succeeds from_str iterate request overcommit n hosts workspaces prebuilds host
      laws decided current cpus small asked =
    elim (Option-cases (get_existing_resource from_str host.id workspaces prebuilds)) [
      | inl unread ↦ ground (
        arith,
        recalcuate_workspce_host-unread from_str overcommit host workspaces prebuilds unread,
        current,
      )
      | inr (existing, read) ↦
          let cores = available_cores n overcommit existing.cores in
          let same = length-dedicated n overcommit existing.cores (λ i.
            (get_existing_resource-cores from_str i host.id workspaces prebuilds existing
              read).1) in
          let most = length-available_cores n overcommit existing.cores in
          let enough : request.shared ≡ false → request.cpu ≤ length (dedicated cores) = λ own.
            asked_fits request host (length (dedicated cores)) own
              (decide_workspace_host-is_candidate request hosts host decided)
              (recalcuate_workspce_host-dedicated from_str overcommit n host host workspaces
                prebuilds existing cpus read current)
              asked (omega arith) in
          subst (GetsCores from_str request host workspaces prebuilds)
            (sym (
              pick_workspce_host-existing from_str iterate request overcommit hosts workspaces
                prebuilds host existing decided read))
            (pick_cores-GetsCores from_str iterate request overcommit host workspaces prebuilds
              existing laws read (rw cpus enough))
    ]
