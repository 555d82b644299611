-- ===== src/SidecarManager/Removal.antt =====
-- Taking a devbox route away: `remove_devbox_route` looks at the one route it remembers for the
-- workload, whatever branches the sidecar has routes for.
use lapdev.Base.{
  ℕ, ◌≡◌, ◌≢◌, refl, ap, sym, ◌∙◌, true, false, ◌&&◌, Option, none, some, arith, ◌==◌, nat_key,
  option_key, nat_eq_iff, if◌then◌else◌,
}
use lapdev.Base.Map
use lapdev.Base.Map.{Map, is_some, map_some, unwrap_or, get-insert, get-remove, get-modify}
use lapdev.Sidecar.Types.{Uuid, DevboxConnection, RoutingTable, BranchMode}
use lapdev.Sidecar.Routing.{with_mode, set_branch_devbox, set_default_devbox, or_else, resolve_http}
use lapdev.Sidecar.Rpc
use lapdev.Sidecar.Rpc.{
  DevboxRouteConfig, ProxyBranchRouteConfig, SidecarProxyRpcServer, Reply, attach, ok, err,
  devbox_connection_from_config, is_empty,
}
use lapdev.Sidecar.Routing.Devboxes.{resolve_http-set_branch_devbox}
use lapdev.Sidecar.Rpc.DevboxRoutes.{
  devbox_decision, is_known, set_devbox_route-attaches, stop_devbox-stops,
}
use lapdev.SidecarManager.{
  latest_clients, Client, SidecarProxyManager, latest_clients_for_environment,
}
use lapdev.SidecarManager.Tables.{get_in, latest_client}
use lapdev.SidecarManager.Snapshots.{
  with_routes, upsert_devbox_route_snapshot, remove_devbox_route_snapshot,
  devbox_route_for_workload,
}
use lapdev.SidecarManager.Lookups.{
  remembers, upsert_devbox_route_snapshot-lookup, remove_devbox_route_snapshot-answer,
  remove_devbox_route_snapshot-lookup,
}
use lapdev.SidecarManager.Routes.{
  Process, Cluster, done, call, sent_or, set_devbox_route, remove_devbox_route,
  devbox_route_not_cleared,
}
use lapdev.SidecarManager.Delivery.{
  Reaches, call-Reaches, to_workload-some, decision_at, intercept, set_devbox_route-call,
}

remove_devbox_route_snapshot-sidecar_proxies :
    (e w : Uuid) (branch : Option Uuid) (m : SidecarProxyManager)
    → (remove_devbox_route_snapshot e w branch m).1.sidecar_proxies ≡ m.sidecar_proxies
unfolding remove_devbox_route_snapshot with_routes
remove_devbox_route_snapshot-sidecar_proxies e w branch m = ground arith

latest_client-remove :
    (e w : Uuid) (branch : Option Uuid) (m : SidecarProxyManager)
    → latest_client e w (remove_devbox_route_snapshot e w branch m).1 ≡ latest_client e w m
unfolding latest_clients_for_environment
latest_client-remove e w branch m =
    ap (λ table. get_in w (map_some latest_clients (Map.get e table)))
      (remove_devbox_route_snapshot-sidecar_proxies e w branch m)

remove_devbox_route-call :
    (e w : Uuid) (branch : Option Uuid) (c : Cluster) (client : Client) (p : Process)
    (s : SidecarProxyRpcServer)
    → Reaches e w c client p s
    → remembers e w branch c.manager ≡ true
    → remove_devbox_route e w branch c ≡ (
      done,
      record {
        manager = (remove_devbox_route_snapshot e w branch c.manager).1;
        connections = c.connections;
        sidecars = Map.insert p (Rpc.stop_devbox branch s).1 c.sidecars;
      },
    )
unfolding remove_devbox_route
remove_devbox_route-call e w branch c client p s reaches here =
    let after = record c { manager = (remove_devbox_route_snapshot e w branch c.manager).1 } in
    rw (remove_devbox_route, remove_devbox_route_snapshot-answer e w branch c.manager, here)
      (to_workload-some e w after client
          (λ x before.
            sent_or (devbox_route_not_cleared w) (call x (Rpc.stop_devbox branch) before))
          (latest_client-remove e w branch c.manager ∙ reaches.is_latest)
        ∙ ap (sent_or (devbox_route_not_cleared w)) (
            call-Reaches after client p s (Rpc.stop_devbox branch) reaches.is_connected
              reaches.is_running))

remove_devbox_route-other :
    (e w : Uuid) (branch : Option Uuid) (c : Cluster)
    → remembers e w branch c.manager ≡ false
    → remove_devbox_route e w branch c
      ≡ (done, record c { manager = (remove_devbox_route_snapshot e w branch c.manager).1 })
unfolding remove_devbox_route
remove_devbox_route-other e w branch c other =
    rw (remove_devbox_route, remove_devbox_route_snapshot-answer e w branch c.manager, other) refl

-- Taking away the route of a branch for a workload that the manager remembers a route of that branch
-- for, while the workload's latest client leads to a sidecar: it succeeds, no request of the branch
-- goes to a devbox of that branch any more, no other process changes, and the manager forgets exactly
-- that route. If the remembered route is of another branch, or there is none, it still succeeds, and
-- neither a sidecar nor a remembered route changes.
pub remove_devbox_route-Reaches :
    (e w : Uuid) (branch : Option Uuid) (c : Cluster)
    → ((client : Client) (p : Process) (s : SidecarProxyRpcServer)
        → Reaches e w c client p s
        → remembers e w branch c.manager ≡ true
        → let answer = remove_devbox_route e w branch c in
          (answer.0 ≡ done)
          × ((connection : DevboxConnection) (port target : ℕ)
              → decision_at p port branch answer.1
                ≢ some (devbox_decision branch connection target))
          × ((q : Process) → p ≢ q → Map.get q answer.1.sidecars ≡ Map.get q c.sidecars)
          × ((d v : Uuid)
              → devbox_route_for_workload d v answer.1.manager
                ≡ (if e == d && w == v then none else devbox_route_for_workload d v c.manager)))
      × (remembers e w branch c.manager ≡ false
          → let answer = remove_devbox_route e w branch c in
            (answer.0 ≡ done)
            × (answer.1.sidecars ≡ c.sidecars)
            × ((d v : Uuid)
                → devbox_route_for_workload d v answer.1.manager
                  ≡ devbox_route_for_workload d v c.manager))
remove_devbox_route-Reaches e w branch c = (
  λ client p s reaches here. rw (remove_devbox_route-call e w branch c client p s reaches here) (
    refl,
    λ connection port target same. (stop_devbox-stops branch s).0 branch connection port target (
        ground
          (arith, same, get-insert p p (Rpc.stop_devbox branch s).1 c.sidecars, nat_eq_iff p p)),
    λ q other.
        ground (arith, get-insert p q (Rpc.stop_devbox branch s).1 c.sidecars, nat_eq_iff p q),
    λ d v. ground (arith, remove_devbox_route_snapshot-lookup e w branch c.manager d v),
  ),
  λ other. rw (remove_devbox_route-other e w branch c other) (
    refl,
    refl,
    λ d v. ground (arith, remove_devbox_route_snapshot-lookup e w branch c.manager d v),
  ),
)

-- A sidecar that accepted a route still serves its workload and knows the same branches.
attach-keeps :
    (target : Option Uuid) (connection : DevboxConnection) (t : RoutingTable) (branch : Option Uuid)
    → is_known branch (attach target connection t) ≡ is_known branch t
unfolding attach set_default_devbox set_branch_devbox
attach-keeps none connection t none = refl
attach-keeps none connection t (some id) = refl
attach-keeps (some j) connection t none = refl
attach-keeps (some j) connection t (some id) = ground (
  arith,
  get-modify j id (with_mode (BranchMode.devbox connection)) t.branch_routes,
  nat_eq_iff j id,
)

set_devbox_route-keeps :
    (route : DevboxRouteConfig) (s : SidecarProxyRpcServer)
    → ((Rpc.set_devbox_route route s).1.workload_id ≡ s.workload_id)
      × ((branch : Option Uuid)
          → is_known branch (Rpc.set_devbox_route route s).1.routing_table
            ≡ is_known branch s.routing_table)
unfolding Rpc.set_devbox_route
set_devbox_route-keeps route s = (
  ground arith,
  λ branch. ground (
    arith,
    attach-keeps route.branch_environment_id
        (devbox_connection_from_config route (or_else route.branch_environment_id s.environment_id))
        s.routing_table branch,
  ),
)

Reaches-set_devbox_route :
    (e : Uuid) (route : DevboxRouteConfig) (c : Cluster) (client : Client) (p : Process)
    (s : SidecarProxyRpcServer)
    → Reaches e route.workload_id c client p s
    → Reaches e route.workload_id
        (set_devbox_route e route c).1
        client
        p
        (Rpc.set_devbox_route route s).1
unfolding latest_clients_for_environment upsert_devbox_route_snapshot
Reaches-set_devbox_route e route c client p s reaches =
    rw (set_devbox_route-call e route c client p s reaches) record {
      is_latest = reaches.is_latest;
      is_connected = reaches.is_connected;
      is_running =
          get-insert p p (Rpc.set_devbox_route route s).1 c.sidecars
          ∙ ground (arith, nat_eq_iff p p);
    }

-- A devbox route of another branch does not change where the requests of a branch go.
set_devbox_route-other :
    (route : DevboxRouteConfig) (s : SidecarProxyRpcServer) (a b : Uuid) (port : ℕ)
    → route.branch_environment_id ≡ some b
    → a ≢ b
    → resolve_http port (some a) (Rpc.set_devbox_route route s).1.routing_table
      ≡ resolve_http port (some a) s.routing_table
unfolding Rpc.set_devbox_route attach
set_devbox_route-other route s a b port of_b other =
    let connection =
      devbox_connection_from_config route (or_else route.branch_environment_id s.environment_id) in
    ground (
      arith,
      (resolve_http-set_branch_devbox b connection s.routing_table).1 port (some a),
      nat_eq_iff a b,
    )

-- Two devbox routes for one workload, of different branches, the first of which the workload's
-- sidecar knows: once both are sent through the workload's latest client to that sidecar, taking
-- away the first succeeds, and the requests of its branch still go to its devbox.
pub remove_devbox_route-shadowed :
    (e : Uuid) (first second : DevboxRouteConfig) (a b : Uuid) (c : Cluster) (client : Client)
    (p : Process) (s : SidecarProxyRpcServer)
    → Reaches e first.workload_id c client p s
    → first.workload_id ≡ s.workload_id
    → second.workload_id ≡ s.workload_id
    → first.branch_environment_id ≡ some a
    → second.branch_environment_id ≡ some b
    → a ≢ b
    → is_known (some a) s.routing_table ≡ true
    → let both = (set_devbox_route e second (set_devbox_route e first c).1).1 in
      let answer = remove_devbox_route e first.workload_id (some a) both in
      (answer.0 ≡ done)
      × ((port : ℕ) → decision_at p port (some a) answer.1 ≡ some (intercept first s port))
remove_devbox_route-shadowed e first second a b c client p s reaches own_first own_second of_a of_b
      other known =
    let after_first = (set_devbox_route e first c).1 in
    let s_first = (Rpc.set_devbox_route first s).1 in
    let reaches_first = Reaches-set_devbox_route e first c client p s reaches in
    let reaches_second : Reaches e second.workload_id after_first client p s_first =
      rw (own_second ∙ sym own_first) reaches_first in
    let both = (set_devbox_route e second after_first).1 in
    let reaches_both =
      Reaches-set_devbox_route e second after_first client p s_first reaches_second in
    let known_first : is_known first.branch_environment_id s.routing_table ≡ true = rw of_a known in
    let first_sent : (port : ℕ)
        → resolve_http port (some a) s_first.routing_table ≡ intercept first s port =
      λ port. ground (arith, (set_devbox_route-attaches first s).1 own_first known_first port) in
    let forgotten : remembers e first.workload_id (some a) both.manager ≡ false = ground (
      arith,
      ap (remembers e first.workload_id (some a)) (
          ap (λ x. x.1.manager)
            (set_devbox_route-call e second after_first client p s_first reaches_second)),
      upsert_devbox_route_snapshot-lookup e second after_first.manager e first.workload_id,
      nat_eq_iff e e,
      nat_eq_iff second.workload_id first.workload_id,
      nat_eq_iff b a,
    ) in
    rw (remove_devbox_route-other e first.workload_id (some a) both forgotten) (
      refl,
      λ port.
          rw reaches_both.is_running
            (ap some (set_devbox_route-other second s_first a b port of_b other ∙ first_sent port)),
    )
