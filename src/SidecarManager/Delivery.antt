-- ===== src/SidecarManager/Delivery.antt =====
-- Sending one devbox route to a workload's sidecar, and taking it away.
use lapdev.Base.{
  ℕ, ◌≡◌, ◌≢◌, refl, ap, ◌∙◌, true, ◌&&◌, Option, none, some, arith, ◌==◌, nat_key, option_key,
  nat_eq_iff, if◌then◌else◌,
}
use lapdev.Base.Map
use lapdev.Base.Map.{Map, is_some, map_some, unwrap_or, get-insert, get-remove}
use lapdev.Sidecar.Types.{Uuid, RouteDecision}
use lapdev.Sidecar.Routing.{or_else, resolve_http, resolve_target_port}
use lapdev.Sidecar.Rpc
use lapdev.Sidecar.Rpc.{
  DevboxRouteConfig, ProxyBranchRouteConfig, SidecarProxyRpcServer, Reply, ok, err,
  devbox_connection_from_config, is_empty,
}
use lapdev.Sidecar.Rpc.DevboxRoutes.{devbox_decision, is_known, set_devbox_route-attaches}
use lapdev.SidecarManager.{Client, latest_clients_for_environment}
use lapdev.SidecarManager.Tables.{get_in, latest_client}
use lapdev.SidecarManager.Snapshots.{upsert_devbox_route_snapshot, devbox_route_for_workload}
use lapdev.SidecarManager.Lookups.{upsert_devbox_route_snapshot-lookup}
use lapdev.SidecarManager.Routes.{
  Process, Cluster, Outcome, done, Handler, with_sidecar, call, sent_or, latest, to_workload,
  set_devbox_route, upsert_branch_service_route, replay_devbox_route, replayed,
  devbox_route_not_sent, branch_service_route_not_updated,
}

-- A workload's latest client has a connection to a sidecar process in the state `s`.
pub record Reaches (e w : Uuid) (c : Cluster) (client : Client) (process : Process)
    (s : SidecarProxyRpcServer) : Type 0 where
  pub is_latest : latest_client e w c.manager ≡ some client
  pub is_connected : Map.get client c.connections ≡ some process
  pub is_running : Map.get process c.sidecars ≡ some s

pub call-Reaches :
    (c : Cluster) (client : Client) (process : Process) (s : SidecarProxyRpcServer)
    (handler : Handler)
    → Map.get client c.connections ≡ some process
    → Map.get process c.sidecars ≡ some s
    → call client handler c ≡ with_sidecar process c (handler s)
unfolding call
call-Reaches c client process s handler connected running = rw (connected, running, call) refl

pub to_workload-some :
    (e w : Uuid) (c : Cluster) (client : Client) (send : Client → Cluster → Outcome × Cluster)
    → latest_client e w c.manager ≡ some client
    → to_workload e w c send ≡ send client c
to_workload-some e w c client send h = go (latest e c) h
  where
    go :
        (clients : Option (Map Uuid Client))
        → get_in w clients ≡ some client
        → (elim clients [
          | none ↦ (done, c)
          | some some_clients ↦ elim (Map.get w some_clients) [
            | none ↦ (done, c)
            | some found ↦ send found c
          ]
        ])
          ≡ send client c
    go none h = cc
    go (some some_clients) h = rw h refl

-- What the sidecar process `p` decides for a request of a branch.
abbrev pub decision_at : Process → ℕ → Option Uuid → Cluster → Option RouteDecision
decision_at p port branch c =
    map_some (λ s. resolve_http port branch s.routing_table) (Map.get p c.sidecars)

-- The decision that sends a request to the devbox of a route.
abbrev pub intercept : DevboxRouteConfig → SidecarProxyRpcServer → ℕ → RouteDecision
intercept route s port =
    let connection =
      devbox_connection_from_config route (or_else route.branch_environment_id s.environment_id) in
    devbox_decision route.branch_environment_id connection (resolve_target_port connection port)

pub set_devbox_route-call :
    (e : Uuid) (route : DevboxRouteConfig) (c : Cluster) (client : Client) (p : Process)
    (s : SidecarProxyRpcServer)
    → Reaches e route.workload_id c client p s
    → set_devbox_route e route c ≡ (
      done,
      record {
        manager = upsert_devbox_route_snapshot e route c.manager;
        connections = c.connections;
        sidecars = Map.insert p (Rpc.set_devbox_route route s).1 c.sidecars;
      },
    )
unfolding set_devbox_route latest_clients_for_environment upsert_devbox_route_snapshot
set_devbox_route-call e route c client p s reaches =
    let after = record c { manager = upsert_devbox_route_snapshot e route c.manager } in
    to_workload-some e route.workload_id after client
      (λ x before.
        sent_or (devbox_route_not_sent route.workload_id)
          (call x (Rpc.set_devbox_route route) before))
      reaches.is_latest
    ∙ ap (sent_or (devbox_route_not_sent route.workload_id)) (
        call-Reaches after client p s (Rpc.set_devbox_route route) reaches.is_connected
          reaches.is_running)

-- While a workload's latest client leads to the workload's sidecar, and the sidecar knows the branch
-- of a devbox route, sending the route succeeds: the requests of that branch go to its devbox, no
-- other process changes, and exactly this workload's remembered route changes, to the new one.
pub set_devbox_route-Reaches :
    (e : Uuid) (route : DevboxRouteConfig) (c : Cluster) (client : Client) (p : Process)
    (s : SidecarProxyRpcServer)
    → Reaches e route.workload_id c client p s
    → route.workload_id ≡ s.workload_id
    → is_known route.branch_environment_id s.routing_table ≡ true
    → ((set_devbox_route e route c).0 ≡ done)
      × ((port : ℕ)
          → decision_at p port route.branch_environment_id (set_devbox_route e route c).1
            ≡ some (intercept route s port))
      × ((q : Process)
          → p ≢ q
          → Map.get q (set_devbox_route e route c).1.sidecars ≡ Map.get q c.sidecars)
      × ((d v : Uuid)
          → devbox_route_for_workload d v (set_devbox_route e route c).1.manager ≡ (
              if e == d && route.workload_id == v
              then some route
              else devbox_route_for_workload d v c.manager))
set_devbox_route-Reaches e route c client p s reaches own known =
    rw (set_devbox_route-call e route c client p s reaches) (
      refl,
      λ port. ground (
        arith,
        get-insert p p (Rpc.set_devbox_route route s).1 c.sidecars,
        nat_eq_iff p p,
        (set_devbox_route-attaches route s).1 own known port,
      ),
      λ q other.
          ground
            (arith, get-insert p q (Rpc.set_devbox_route route s).1 c.sidecars, nat_eq_iff p q),
      λ d v. upsert_devbox_route_snapshot-lookup e route c.manager d v,
    )

set_devbox_route-ok :
    (route : DevboxRouteConfig) (s : SidecarProxyRpcServer) → (Rpc.set_devbox_route route s).0 ≡ ok
unfolding Rpc.set_devbox_route
set_devbox_route-ok route s = ground arith

-- Replaying the remembered route of a workload, to whatever sidecar process now serves it.
replay_devbox_route-call :
    (e w : Uuid) (route : DevboxRouteConfig) (c : Cluster) (client : Client) (p : Process)
    (s : SidecarProxyRpcServer)
    → devbox_route_for_workload e w c.manager ≡ some route
    → Reaches e w c client p s
    → replay_devbox_route e w c
      ≡ (done, record c { sidecars = Map.insert p (Rpc.set_devbox_route route s).1 c.sidecars })
unfolding replay_devbox_route
replay_devbox_route-call e w route c client p s remembered reaches =
    rw (remembered, replay_devbox_route)
      (to_workload-some e w c client
          (λ x before. replayed w (call x (Rpc.set_devbox_route route) before)) reaches.is_latest
        ∙ ap (replayed w) (
            call-Reaches c client p s (Rpc.set_devbox_route route) reaches.is_connected
              reaches.is_running)
        ∙ rw (set_devbox_route-ok route s) refl)

-- Whatever process a workload's latest client leads to now, replaying makes it send the requests of the
-- remembered route's branch to the remembered devbox, if it serves the workload and knows the branch;
-- the other processes, and what the manager knows, do not change.
pub replay_devbox_route-Reaches :
    (e w : Uuid) (route : DevboxRouteConfig) (c : Cluster) (client : Client) (p : Process)
    (s : SidecarProxyRpcServer)
    → devbox_route_for_workload e w c.manager ≡ some route
    → Reaches e w c client p s
    → route.workload_id ≡ s.workload_id
    → is_known route.branch_environment_id s.routing_table ≡ true
    → ((replay_devbox_route e w c).0 ≡ done)
      × ((port : ℕ)
          → decision_at p port route.branch_environment_id (replay_devbox_route e w c).1
            ≡ some (intercept route s port))
      × ((q : Process)
          → p ≢ q
          → Map.get q (replay_devbox_route e w c).1.sidecars ≡ Map.get q c.sidecars)
      × ((replay_devbox_route e w c).1.manager ≡ c.manager)
replay_devbox_route-Reaches e w route c client p s remembered reaches own known =
    rw (replay_devbox_route-call e w route c client p s remembered reaches) (
      refl,
      λ port. ground (
        arith,
        get-insert p p (Rpc.set_devbox_route route s).1 c.sidecars,
        nat_eq_iff p p,
        (set_devbox_route-attaches route s).1 own known port,
      ),
      λ q other.
          ground
            (arith, get-insert p q (Rpc.set_devbox_route route s).1 c.sidecars, nat_eq_iff p q),
      refl,
    )

upsert_branch_service_route-call :
    (e w : Uuid) (route : ProxyBranchRouteConfig) (c : Cluster) (client : Client) (p : Process)
    (s : SidecarProxyRpcServer)
    → Reaches e w c client p s
    → upsert_branch_service_route e w route c ≡ (
      done,
      record c { sidecars = Map.insert p (Rpc.upsert_branch_service_route route s).1 c.sidecars },
    )
unfolding upsert_branch_service_route
upsert_branch_service_route-call e w route c client p s reaches =
    to_workload-some e w c client
      (λ x before.
        sent_or (branch_service_route_not_updated w)
          (call x (Rpc.upsert_branch_service_route route) before))
      reaches.is_latest
    ∙ ap (sent_or (branch_service_route_not_updated w)) (
        call-Reaches c client p s (Rpc.upsert_branch_service_route route) reaches.is_connected
          reaches.is_running)

-- While a workload's latest client leads to a sidecar, the manager reports success for a branch's
-- service route that the sidecar refuses since it names no service: the sidecar answers with an
-- error, and no process changes.
pub upsert_branch_service_route-refused :
    (e w : Uuid) (route : ProxyBranchRouteConfig) (c : Cluster) (client : Client) (p : Process)
    (s : SidecarProxyRpcServer)
    → Reaches e w c client p s
    → is_empty route.service_names ≡ true
    → ((Rpc.upsert_branch_service_route route s).0
        ≡ err "Missing service_names for branch service route update")
      × ((upsert_branch_service_route e w route c).0 ≡ done)
      × ((q : Process)
          → Map.get q (upsert_branch_service_route e w route c).1.sidecars ≡ Map.get q c.sidecars)
unfolding Rpc.upsert_branch_service_route
upsert_branch_service_route-refused e w route c client p s reaches nameless = (
  ground arith,
  ap (λ x. x.0) (upsert_branch_service_route-call e w route c client p s reaches),
  λ q.
      ap (λ x. Map.get q x.1.sidecars)
        (upsert_branch_service_route-call e w route c client p s reaches)
      ∙ ground (
        arith,
        get-insert p q (Rpc.upsert_branch_service_route route s).1 c.sidecars,
        nat_eq_iff p q,
        reaches.is_running,
      ),
)
