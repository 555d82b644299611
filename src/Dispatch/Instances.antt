-- ===== src/Dispatch/Instances.antt =====
-- Which of a cluster's managers a change of routes reaches.
use lapdev.Base.{
  ℕ, ◌≡◌, ◌≢◌, ◌∙◌, ap, refl, Bool, true, false, ◌||◌, Option, none, some, [], ◌∷◌, arith, nat_key,
  nat_eq_iff, Option-cases, inl, inr, contains, any, IsDistinct,
}
use lapdev.Base.Map
use lapdev.Base.Map.{Map, get-insert}
use lapdev.Sidecar.Types.{Uuid}
use lapdev.Sidecar.Rpc
use lapdev.Sidecar.Rpc.{DevboxRouteConfig}
use lapdev.SidecarManager.{Client, latest_clients_for_environment}
use lapdev.SidecarManager.Snapshots.{upsert_devbox_route_snapshot}
use lapdev.SidecarManager.Routes
use lapdev.SidecarManager.Routes.{Cluster, Outcome, done, failed, latest}
use lapdev.Dispatch.{
  Connection, KubeController, Answer, delivered, not_dispatched, not_sent, refused, answer_of,
  Operation, ask, unless_delivered, try_each, dispatch, set_devbox_route,
}

to_workload-none :
    (e w : Uuid) (c : Cluster) (send : Client → Cluster → Outcome × Cluster)
    → latest e c ≡ none
    → Routes.to_workload e w c send ≡ (done, c)
to_workload-none e w c send h = go (latest e c) h
  where
    go :
        (clients : Option (Map Uuid Client))
        → clients ≡ none
        → ◌≡◌ {A = Outcome × Cluster}
            (elim clients [
              | none ↦ (done, c)
              | some some_clients ↦ elim (Map.get w some_clients) [
                | none ↦ (done, c)
                | some found ↦ send found c
              ]
            ])
            (done, c)
    go none h = refl
    go (some some_clients) h = cc

-- A manager without a sidecar in the environment takes a devbox route: it remembers it and is done.
set_devbox_route-nobody :
    (e : Uuid) (route : DevboxRouteConfig) (c : Cluster)
    → latest e c ≡ none
    → Routes.set_devbox_route e route c
      ≡ (done, record c { manager = upsert_devbox_route_snapshot e route c.manager })
unfolding Routes.set_devbox_route latest_clients_for_environment upsert_devbox_route_snapshot
set_devbox_route-nobody e route c nobody =
    let after = record c { manager = upsert_devbox_route_snapshot e route c.manager } in
    to_workload-none e route.workload_id after
      (λ client before.
        Routes.sent_or (Routes.devbox_route_not_sent route.workload_id)
          (Routes.call client (Rpc.set_devbox_route route) before))
      nobody

ask-done :
    (operation : Operation) (server : Connection) (managers : Map Connection Cluster)
    (c after : Cluster)
    → Map.get server managers ≡ some c
    → operation c ≡ (done, after)
    → ask operation server managers ≡ (delivered, Map.insert server after managers)
unfolding ask
ask-done operation server managers c after known taken =
    rw (known, ask) (ap (λ x. (answer_of x.0, Map.insert server x.1 managers)) taken)

dispatch-first :
    (cluster_id : Uuid) (operation : Operation) (k : KubeController) (generation : ℕ)
    (first : Connection) (servers : Map ℕ Connection) (c after : Cluster)
    → Map.get cluster_id k.kube_cluster_servers ≡ some ((generation, first) ∷ servers)
    → Map.get first k.managers ≡ some c
    → operation c ≡ (done, after)
    → dispatch cluster_id operation k
      ≡ (delivered, record k { managers = Map.insert first after k.managers })
unfolding dispatch try_each
dispatch-first cluster_id operation k generation first servers c after listed known taken =
    rw (listed, dispatch)
      (ap (λ x. (x.0, record k { managers = x.1 }))
        (ap (λ x. unless_delivered x (try_each operation servers))
          (ask-done operation first k.managers c after known taken)))

-- If the manager that connected first has no sidecar in the environment, sending a devbox route is
-- reported as delivered, and no other manager of the cluster learns of it, whatever sidecars these have.
pub set_devbox_route-first :
    (cluster_id e : Uuid) (route : DevboxRouteConfig) (k : KubeController) (generation : ℕ)
    (first : Connection) (servers : Map ℕ Connection) (c : Cluster)
    → Map.get cluster_id k.kube_cluster_servers ≡ some ((generation, first) ∷ servers)
    → Map.get first k.managers ≡ some c
    → latest e c ≡ none
    → ((set_devbox_route cluster_id e route k).0 ≡ delivered)
      × ((other : Connection)
          → first ≢ other
          → Map.get other (set_devbox_route cluster_id e route k).1.managers
            ≡ Map.get other k.managers)
unfolding set_devbox_route
set_devbox_route-first cluster_id e route k generation first servers c listed known nobody =
    let after = record c { manager = upsert_devbox_route_snapshot e route c.manager } in
    let sent =
      dispatch-first cluster_id (Routes.set_devbox_route e route) k generation first servers c after
        listed known (set_devbox_route-nobody e route c nobody) in
    (
      ap (λ x. x.0) sent,
      λ other apart.
          ap (λ x. Map.get other x.1.managers) sent
          ∙ get-insert first other after k.managers
          ∙ ground (arith, nat_eq_iff first other),
    )

abbrev pub is_delivered : Answer → Bool
is_delivered delivered = true
is_delivered _ = false

-- Whether the manager behind a connection would take the change.
unfoldable pub accepts : Operation → Map Connection Cluster → ℕ × Connection → Bool
accepts operation managers entry = elim (Map.get entry.1 managers) [
  | none ↦ false
  | some c ↦ is_delivered (answer_of (operation c).0)
]

any-other :
    (operation : Operation) (server : Connection) (after : Cluster)
    (managers : Map Connection Cluster) (servers : Map ℕ Connection)
    → contains server (Map.values servers) ≡ false
    → any (accepts operation (Map.insert server after managers)) servers
      ≡ any (accepts operation managers) servers
unfolding accepts
any-other operation server after managers [] h = refl
any-other operation server after managers ((generation, other) ∷ servers) h = ground (
  arith,
  any-other operation server after managers servers,
  get-insert server other after managers,
  nat_eq_iff server other,
)

-- After one manager answered, the rest of the loop.
one_answer :
    (operation : Operation) (server : Connection) (servers : Map ℕ Connection)
    (managers : Map Connection Cluster) (result : Outcome × Cluster)
    → contains server (Map.values servers) ≡ false
    → ((last_err : Answer)
        → is_delivered last_err ≡ false
        → is_delivered (try_each operation servers last_err (Map.insert server result.1 managers)).0
          ≡ any (accepts operation (Map.insert server result.1 managers)) servers)
    → is_delivered
        (unless_delivered
          (answer_of result.0, Map.insert server result.1 managers)
          (try_each operation servers)).0
      ≡ (is_delivered (answer_of result.0) || any (accepts operation managers) servers)
one_answer operation server servers managers (done, after) fresh rest = refl
one_answer operation server servers managers (failed failure, after) fresh rest =
    rest (refused failure) refl ∙ any-other operation server after managers servers fresh

try_each-delivered :
    (operation : Operation) (servers : Map ℕ Connection) (last_err : Answer)
    (managers : Map Connection Cluster)
    → is_delivered last_err ≡ false
    → IsDistinct (Map.values servers)
    → is_delivered (try_each operation servers last_err managers).0
      ≡ any (accepts operation managers) servers
unfolding try_each ask accepts
try_each-delivered operation [] last_err managers h d = h
try_each-delivered operation ((generation, server) ∷ servers) last_err managers h (fresh, d) =
    elim (Option-cases (Map.get server managers)) [
      | inl absent ↦
          rw (try_each, ask, any, accepts, absent)
            (try_each-delivered operation servers not_sent managers refl d)
      | inr (c, known) ↦
          rw (try_each, ask, any, accepts, known)
            (one_answer operation server servers managers (operation c) fresh (λ last i.
              try_each-delivered operation servers last (Map.insert server (operation c).1 managers)
                i d))
    ]

-- A change of routes is delivered exactly if a manager of the cluster would take it, whichever failed
-- before it, when the connections of the cluster are different ones.
pub dispatch-delivered :
    (cluster_id : Uuid) (operation : Operation) (k : KubeController) (servers : Map ℕ Connection)
    → Map.get cluster_id k.kube_cluster_servers ≡ some servers
    → IsDistinct (Map.values servers)
    → is_delivered (dispatch cluster_id operation k).0 ≡ any (accepts operation k.managers) servers
unfolding dispatch
dispatch-delivered cluster_id operation k servers listed distinct =
    rw (listed, dispatch)
      (try_each-delivered operation servers not_dispatched k.managers refl distinct)
