-- ===== src/Scheduler/Candidates.antt =====
-- The host that is decided on is one that fits the request.
use lapdev.Base.{
  ◌≡◌, refl, Bool, true, false, ◌||◌, not, Option, none, some, List, [], ◌∷◌, arith, nat_key,
  select, all, any, find, contains, Option-cases, inl, inr,
}
use lapdev.Sidecar.Rpc.{is_empty}
use lapdev.Base.Map.{is_some}
use lapdev.Scheduler.{WorkspaceHost}
use lapdev.Scheduler.Hosts.{
  Request, is_candidate, first_ordered, has_id, or_next, prebuilt, replica, decide_workspace_host,
}

-- The host that is decided on fits.
module _ (fits : WorkspaceHost → Bool) where
  all-select : (hosts : List WorkspaceHost) → all fits (select fits hosts) ≡ true
  all-select [] = refl
  all-select (host ∷ hosts) = ground (arith, all-select hosts)

  all-select_other :
      (other : WorkspaceHost → Bool) (hosts : List WorkspaceHost)
      → all fits hosts ≡ true
      → all fits (select other hosts) ≡ true
  all-select_other other [] h = refl
  all-select_other other (host ∷ hosts) h = ground (arith, all-select_other other hosts)

  find-fits :
      (other : WorkspaceHost → Bool) (hosts : List WorkspaceHost) (found : WorkspaceHost)
      → all fits hosts ≡ true
      → find other hosts ≡ some found
      → fits found ≡ true
  find-fits other [] found h e = cc
  find-fits other (host ∷ hosts) found h e = ground (arith, find-fits other hosts found)

  first_ordered-fits :
      (shared : Bool) (hosts : List WorkspaceHost) (found : WorkspaceHost)
      → all fits hosts ≡ true
      → first_ordered shared hosts ≡ some found
      → fits found ≡ true
  unfolding first_ordered
  first_ordered-fits shared [] found h e = cc
  first_ordered-fits shared (host ∷ hosts) found h e =
      elim (Option-cases (first_ordered shared hosts)) [
        | inl nobody ↦ ground (arith, nobody)
        | inr (other, first) ↦ ground (arith, first, first_ordered-fits shared hosts other)
      ]

  or_next-fits :
      (first next : Option WorkspaceHost) (found : WorkspaceHost)
      → ((x : WorkspaceHost) → first ≡ some x → fits x ≡ true)
      → ((x : WorkspaceHost) → next ≡ some x → fits x ≡ true)
      → or_next first next ≡ some found
      → fits found ≡ true
  or_next-fits none next found f n h = n found h
  or_next-fits (some x) next found f n h = f found h

  prebuilt-fits :
      (request : Request) (hosts : List WorkspaceHost)
      → all fits hosts ≡ true
      → (x : WorkspaceHost) → prebuilt request hosts ≡ some x
      → fits x ≡ true
  prebuilt-fits request hosts good x h = elim (Option-cases request.prebuild_workspace_host) [
    | inl absent ↦ ground (arith, absent)
    | inr (id, asked) ↦ ground (arith, asked, find-fits (has_id id) hosts x good)
  ]

  replica-fits :
      (request : Request) (hosts : List WorkspaceHost)
      → all fits hosts ≡ true
      → (x : WorkspaceHost) → replica request hosts ≡ some x
      → fits x ≡ true
  replica-fits request hosts good x h =
      let replicas = λ (host : WorkspaceHost). contains host.id request.prebuild_replica_hosts in
      ground (
        arith,
        first_ordered-fits request.shared (select replicas hosts) x
            (all-select_other replicas hosts good),
      )

pub decide_workspace_host-is_candidate :
    (request : Request) (hosts : List WorkspaceHost) (host : WorkspaceHost)
    → decide_workspace_host request hosts ≡ some host
    → is_candidate request host ≡ true
unfolding decide_workspace_host
decide_workspace_host-is_candidate request hosts host h =
    let fits = is_candidate request in
    let candidates = select fits hosts in
    let good = all-select fits hosts in
    or_next-fits fits (prebuilt request candidates)
      (or_next (replica request candidates) (first_ordered request.shared candidates)) host
      (prebuilt-fits fits request candidates good)
      (λ x.
        or_next-fits fits (replica request candidates) (first_ordered request.shared candidates) x
          (replica-fits fits request candidates good)
          (λ y. first_ordered-fits fits request.shared candidates y good))
      h

first_ordered-is_some :
    (shared : Bool) (hosts : List WorkspaceHost)
    → is_some (first_ordered shared hosts) ≡ not (is_empty hosts)
unfolding first_ordered
first_ordered-is_some shared [] = refl
first_ordered-is_some shared (host ∷ hosts) = ground arith

select-is_empty :
    (fits : WorkspaceHost → Bool) (hosts : List WorkspaceHost)
    → is_empty (select fits hosts) ≡ not (any fits hosts)
select-is_empty fits [] = refl
select-is_empty fits (host ∷ hosts) = ground (arith, select-is_empty fits hosts)

no_candidates :
    (request : Request) (hosts : List WorkspaceHost)
    → is_empty hosts ≡ true
    → is_some (or_next (prebuilt request hosts) (replica request hosts)) ≡ false
unfolding first_ordered
no_candidates request [] h = elim (Option-cases request.prebuild_workspace_host) [
  | inl absent ↦ ground (arith, absent)
  | inr (id, asked) ↦ ground (arith, asked)
]
no_candidates request (host ∷ hosts) h = cc

or_next-is_some : (a b : Option WorkspaceHost) → is_some (or_next a b) ≡ (is_some a || is_some b)
or_next-is_some none b = refl
or_next-is_some (some a) b = refl

-- The host that is decided on is a candidate: in the region, active, and with enough of everything; and a
-- host is decided on exactly if there is a candidate.
pub decide_workspace_host-fits :
    (request : Request) (hosts : List WorkspaceHost)
    → ((host : WorkspaceHost)
        → decide_workspace_host request hosts ≡ some host
        → is_candidate request host ≡ true)
      × (is_some (decide_workspace_host request hosts) ≡ any (is_candidate request) hosts)
unfolding decide_workspace_host
decide_workspace_host-fits request hosts =
    let candidates = select (is_candidate request) hosts in
    (
      decide_workspace_host-is_candidate request hosts,
      ground (
        arith,
        or_next-is_some (prebuilt request candidates)
            (or_next (replica request candidates) (first_ordered request.shared candidates)),
        or_next-is_some (replica request candidates) (first_ordered request.shared candidates),
        or_next-is_some (prebuilt request candidates) (replica request candidates),
        first_ordered-is_some request.shared candidates,
        select-is_empty (is_candidate request) hosts,
        no_candidates request candidates,
      ),
    )
