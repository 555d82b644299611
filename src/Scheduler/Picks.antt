-- ===== src/Scheduler/Picks.antt =====
-- The cores that a workspace is given are its own.
use Prim.Native.Nat.{suc, zero}
use lapdev.Base.{
  ℕ, ◌<◌, ◌≡◌, refl, String, Bool, true, false, ◌||◌, Option, none, some, List, [], ◌∷◌, ◌++◌,
  arith, nat_key, nat_eq_iff, length, take, select, any, contains, contains-with_item, IsDistinct,
  Option-cases, inl, inr,
}
use lapdev.Base.Int.{as_usize}
use lapdev.Scheduler.{
  Uuid, CpuCore, shared_cores, dedicated_cores, ExistingResource, MachineType, WorkspaceHost,
  Workspace, Prebuild, from_iter, add_existing, add_workspaces, add_prebuilds, is_live, is_pending,
  nothing_existing, get_existing_resource, available_cores, dedicated,
}
use lapdev.Scheduler.Cores.{is_dedicated, sharers, contains-dedicated, dedicated-IsDistinct}
use lapdev.Scheduler.Hosts.{Request, decide_workspace_host, picked, pick_cores, pick_workspce_host}

-- What the order of iteration of a set does: the items stay.
pub record IterateLaws (iterate : List ℕ → List ℕ) : Type 0 where
  pub same_items : (i : ℕ) (items : List ℕ) → contains i (iterate items) ≡ contains i items
  pub same_length : (items : List ℕ) → length (iterate items) ≡ length items
  pub still_distinct : (items : List ℕ) → IsDistinct items → IsDistinct (iterate items)

-- Whether a row of either table has a core to itself.
abbrev pub takes : (String → Option CpuCore) → ℕ → String → Option MachineType → Bool
takes from_str i cores none = false
takes from_str i cores (some _) = elim (from_str cores) [
  | none ↦ false
  | some (shared_cores _) ↦ false
  | some (dedicated_cores own) ↦ contains i own
]

-- Whether a workspace or a prebuild on the host has a core to itself.
abbrev pub is_taken : (String → Option CpuCore) → Uuid → ℕ → List Workspace → List Prebuild → Bool
is_taken from_str host i workspaces prebuilds =
    any (λ w. takes from_str i w.cores w.machine_type) (select (is_live host) workspaces)
    || any (λ p. takes from_str i p.cores p.machine_type) (select (is_pending host) prebuilds)

contains-from_iter : (i : ℕ) (cores : List ℕ) → contains i (from_iter cores) ≡ contains i cores
unfolding from_iter
contains-from_iter i [] = refl
contains-from_iter i (j ∷ cores) =
    ground
      (arith, contains-from_iter i cores, contains-with_item j i (from_iter cores), nat_eq_iff j i)

is_dedicated-append :
    (i : ℕ) (cores : List ℕ) (existing : List (List ℕ × Bool))
    → is_dedicated i (existing ++ (cores, false) ∷ [])
      ≡ (is_dedicated i existing || contains i cores)
is_dedicated-append i cores [] = ground arith
is_dedicated-append i cores ((other, shared) ∷ existing) =
    ground (arith, is_dedicated-append i cores existing)

sharers-append :
    (i : ℕ) (cores : List ℕ) (existing : List (List ℕ × Bool))
    → sharers i (existing ++ (cores, false) ∷ []) ≡ sharers i existing
sharers-append i cores [] = ground arith
sharers-append i cores ((other, shared) ∷ existing) =
    ground (arith, sharers-append i cores existing)

module _ (from_str : String → Option CpuCore) (i : ℕ) where
  add_existing-cores :
      (cores : String) (machine_type : Option MachineType) (before after : ExistingResource)
      → add_existing from_str cores machine_type before ≡ some after
      → (is_dedicated i after.cores
          ≡ (is_dedicated i before.cores || takes from_str i cores machine_type))
        × (sharers i after.cores ≡ sharers i before.cores)
  unfolding add_existing
  add_existing-cores cores none before after h = ground arith
  add_existing-cores cores (some machine_type) before after h =
      elim (Option-cases (from_str cores)) [
        | inl unread ↦ ground (arith, unread)
        | inr (shared_cores n, read) ↦ ground (arith, read)
        | inr (dedicated_cores own, read) ↦ ground (
          arith,
          read,
          is_dedicated-append i (from_iter own) before.cores,
          sharers-append i (from_iter own) before.cores,
          contains-from_iter i own,
        )
      ]

  add_workspaces-cores :
      (workspaces : List Workspace) (before after : ExistingResource)
      → add_workspaces from_str workspaces before ≡ some after
      → (is_dedicated i after.cores ≡ (
          is_dedicated i before.cores
          || any (λ w. takes from_str i w.cores w.machine_type) workspaces))
        × (sharers i after.cores ≡ sharers i before.cores)
  unfolding add_workspaces
  add_workspaces-cores [] before after h = ground arith
  add_workspaces-cores (w ∷ workspaces) before after h =
      elim (Option-cases (add_existing from_str w.cores w.machine_type before)) [
        | inl unread ↦ ground (arith, unread)
        | inr (more, read) ↦ ground (
          arith,
          read,
          add_existing-cores w.cores w.machine_type before more read,
          add_workspaces-cores workspaces more after,
        )
      ]

  add_prebuilds-cores :
      (prebuilds : List Prebuild) (before after : ExistingResource)
      → add_prebuilds from_str prebuilds before ≡ some after
      → (is_dedicated i after.cores ≡ (
          is_dedicated i before.cores
          || any (λ p. takes from_str i p.cores p.machine_type) prebuilds))
        × (sharers i after.cores ≡ sharers i before.cores)
  unfolding add_prebuilds
  add_prebuilds-cores [] before after h = ground arith
  add_prebuilds-cores (p ∷ prebuilds) before after h =
      elim (Option-cases (add_existing from_str p.cores p.machine_type before)) [
        | inl unread ↦ ground (arith, unread)
        | inr (more, read) ↦ ground (
          arith,
          read,
          add_existing-cores p.cores p.machine_type before more read,
          add_prebuilds-cores prebuilds more after,
        )
      ]

  -- The rows that have a core to themselves are those that the scheduler knows of; it counts nobody who
  -- shares a core.
  pub get_existing_resource-cores :
      (host : Uuid) (workspaces : List Workspace) (prebuilds : List Prebuild)
      (existing : ExistingResource)
      → get_existing_resource from_str host workspaces prebuilds ≡ some existing
      → (is_dedicated i existing.cores ≡ is_taken from_str host i workspaces prebuilds)
        × (sharers i existing.cores ≡ 0)
  unfolding get_existing_resource
  get_existing_resource-cores host workspaces prebuilds existing h =
      let live = select (is_live host) workspaces in
      let pending = select (is_pending host) prebuilds in
      elim (Option-cases (add_workspaces from_str live nothing_existing)) [
        | inl unread ↦ ground (arith, unread)
        | inr (more, read) ↦ ground (
          arith,
          read,
          add_workspaces-cores live nothing_existing more read,
          add_prebuilds-cores pending more existing,
        )
      ]

contains-take :
    (i n : ℕ) (items : List ℕ) → contains i (take n items) ≡ true → contains i items ≡ true
contains-take i zero items h = cc
contains-take i (suc n) [] h = cc
contains-take i (suc n) (j ∷ items) h = ground (arith, contains-take i n items)

take-IsDistinct : (n : ℕ) (items : List ℕ) → IsDistinct items → IsDistinct (take n items)
take-IsDistinct zero items h = tt
take-IsDistinct (suc n) [] h = tt
take-IsDistinct (suc n) (j ∷ items) (fresh, h) =
    ground (arith, take-IsDistinct n items h, contains-take j n items)

-- What a list of cores is, when a workspace may have it on a host.
pub record AreFree (from_str : String → Option CpuCore) (request : Request) (host : WorkspaceHost)
    (workspaces : List Workspace) (prebuilds : List Prebuild) (cores : List ℕ) : Type 0 where
  pub enough : length cores ≡ request.cpu
  pub distinct : IsDistinct cores
  pub free :
      (i : ℕ)
      → contains i cores ≡ true
      → (i < as_usize host.cpu) × (is_taken from_str host.id i workspaces prebuilds ≡ false)

pub pick_cores-free :
    (from_str : String → Option CpuCore) (iterate : List ℕ → List ℕ) (request : Request)
    (overcommit : ℕ) (host chosen : WorkspaceHost) (workspaces : List Workspace)
    (prebuilds : List Prebuild) (existing : ExistingResource) (cores : List ℕ)
    → IterateLaws iterate
    → get_existing_resource from_str host.id workspaces prebuilds ≡ some existing
    → pick_cores iterate request overcommit host existing ≡ picked chosen (dedicated_cores cores)
    → (chosen ≡ host) × AreFree from_str request host workspaces prebuilds cores
unfolding pick_cores
pick_cores-free from_str iterate request overcommit host chosen workspaces prebuilds existing cores
      laws read h =
    let available = dedicated (available_cores (as_usize host.cpu) overcommit existing.cores) in
    let taken = take request.cpu (iterate available) in
    let same : cores ≡ taken = ground (arith, nat_eq_iff (length taken) request.cpu) in
    (
      ground (arith, nat_eq_iff (length taken) request.cpu),
      record {
        enough = ground (arith, nat_eq_iff (length taken) request.cpu);
        distinct = rw same (
            take-IsDistinct request.cpu (iterate available) (
              laws.still_distinct available
                (dedicated-IsDistinct (as_usize host.cpu) overcommit existing.cores)));
        free = λ i member. ground (
          arith,
          same,
          contains-take i request.cpu (iterate available),
          laws.same_items i available,
          contains-dedicated (as_usize host.cpu) overcommit existing.cores i,
          get_existing_resource-cores from_str i host.id workspaces prebuilds existing read,
        );
      },
    )

-- When a workspace is given cores of its own, they are as many as it asks for, none of them twice, all of
-- them cores of the host, and none of them a core of its own of a live workspace or a running prebuild
-- on that host, whatever the order in which a set yields its items.
pub pick_workspce_host-AreFree :
    (from_str : String → Option CpuCore) (iterate : List ℕ → List ℕ) (request : Request)
    (overcommit : ℕ) (hosts : List WorkspaceHost) (workspaces : List Workspace)
    (prebuilds : List Prebuild) (host : WorkspaceHost) (cores : List ℕ)
    → IterateLaws iterate
    → pick_workspce_host from_str iterate request overcommit hosts workspaces prebuilds
      ≡ picked host (dedicated_cores cores)
    → AreFree from_str request host workspaces prebuilds cores
unfolding pick_workspce_host
pick_workspce_host-AreFree from_str iterate request overcommit hosts workspaces prebuilds host cores
      laws h =
    elim (Option-cases (decide_workspace_host request hosts)) [
      | inl nowhere ↦ ground (arith, nowhere)
      | inr (chosen, decided) ↦
          elim (Option-cases (get_existing_resource from_str chosen.id workspaces prebuilds)) [
            | inl unread ↦ ground (arith, decided, unread)
            | inr (existing, read) ↦
                let free =
                  pick_cores-free from_str iterate request overcommit chosen host workspaces
                    prebuilds existing cores laws read (ground (arith, h, decided, read)) in
                rw free.0 free.1
          ]
    ]
