-- ===== src/SidecarManager/Routes.antt =====
-- crates/kube-manager/src/sidecar_proxy_manager.rs and sidecar_proxy_manager_rpc.rs: the operations
-- that send routes to sidecars. The cluster is the manager, the open connection that each client
-- stands for, and the sidecar processes; two connections may lead to the same process. A call
-- through a client without an open connection is a transport error.
use lapdev.Base.{ℕ, String, not, Option, none, some, [], ◌∷◌, nat_key, option_key, if◌then◌else◌}
use lapdev.Base.Map
use lapdev.Base.Map.{Map, map_some}
use lapdev.Sidecar.Types.{Uuid}
use lapdev.Sidecar.Rpc
use lapdev.Sidecar.Rpc.{
  DevboxRouteConfig, ProxyBranchRouteConfig, SidecarProxyRpcServer, Reply, ok, err,
}
use lapdev.SidecarManager.{
  Client, SidecarProxyManager, answered, rejected, unreachable, KubeClusterRpcClient,
  latest_clients_for_environment,
}
use lapdev.SidecarManager.Snapshots.{
  snapshot_devbox_routes_for_environment, upsert_devbox_route_snapshot,
  remove_devbox_route_snapshot, devbox_route_for_workload, prune_devbox_route_snapshot,
}

abbrev pub Process : Type 0
Process = ℕ

pub record Cluster : Type 0 where
  pub manager : SidecarProxyManager
  pub connections : Map Client Process
  pub sidecars : Map Process SidecarProxyRpcServer

-- The messages of the errors, with what they quote.
pub data Failure : Type 0 where
  routes_rejected : Uuid → Uuid → String → Failure
  routes_not_fetched : Uuid → Uuid → Failure
  service_routes_not_pushed : Uuid → Failure
  devbox_routes_not_sent : Uuid → Failure
  devbox_routes_not_cleared : Uuid → Failure
  devbox_route_not_sent : Uuid → Failure
  devbox_route_not_cleared : Uuid → Failure
  branch_service_route_not_updated : Uuid → Failure
  branch_service_route_not_removed : Uuid → Uuid → Failure
  replay_not_sent : Uuid → Failure
  replay_refused : Uuid → String → Failure
  not_registered : Failure

pub data Outcome : Type 0 where
  done : Outcome
  failed : Failure → Outcome

abbrev pub Handler : Type 0
Handler = SidecarProxyRpcServer → Reply × SidecarProxyRpcServer

abbrev pub with_sidecar : Process → Cluster → Reply × SidecarProxyRpcServer → Option Reply × Cluster
with_sidecar process c answer =
    (some answer.0, record c { sidecars = Map.insert process answer.1 c.sidecars })

-- The process at the other end of a client's connection.
abbrev pub process_of : Client → Cluster → Option Process
process_of client c = Map.get client c.connections

-- A call through a client: no reply where the transport fails.
unfoldable pub call : Client → Handler → Cluster → Option Reply × Cluster
call client handler c = elim (Map.get client c.connections) [
  | none ↦ (none, c)
  | some process ↦ elim (Map.get process c.sidecars) [
    | none ↦ (none, c)
    | some s ↦ with_sidecar process c (handler s)
  ]
]

-- `if let Err(e) = …`, which looks at the transport only.
abbrev pub sent_or : Failure → Option Reply × Cluster → Outcome × Cluster
sent_or failure (none, c) = (failed failure, c)
sent_or failure (some _, c) = (done, c)

abbrev pub and_then : Outcome × Cluster → (Cluster → Outcome × Cluster) → Outcome × Cluster
and_then (failed failure, c) next = (failed failure, c)
and_then (done, c) next = next c

abbrev pub latest : Uuid → Cluster → Option (Map Uuid Client)
latest environment_id c = latest_clients_for_environment environment_id c.manager

-- The client that a call for one workload goes through, if one is connected.
abbrev pub to_workload :
    Uuid → Uuid → Cluster → (Client → Cluster → Outcome × Cluster) → Outcome × Cluster
to_workload environment_id workload_id c send = elim (latest environment_id c) [
  | none ↦ (done, c)
  | some clients ↦ elim (Map.get workload_id clients) [
    | none ↦ (done, c)
    | some client ↦ send client c
  ]
]

-- The loop of `set_devbox_routes`.
unfoldable pub send_routes :
    Map Uuid Client
    → Map Uuid DevboxRouteConfig
    → Map Uuid DevboxRouteConfig
    → Cluster
    → Outcome × Cluster
send_routes [] devbox_routes previous_routes c = (done, c)
send_routes ((workload_id, client) ∷ clients) devbox_routes previous_routes c =
    elim (Map.get workload_id devbox_routes) [
      | some route ↦
          and_then
            (sent_or (devbox_routes_not_sent workload_id)
              (call client (Rpc.set_devbox_route route) c))
            (send_routes clients (Map.remove workload_id devbox_routes) previous_routes)
      | none ↦
          let prior_branch : Option Uuid = elim (Map.get workload_id previous_routes) [
            | none ↦ none
            | some route ↦ route.branch_environment_id
          ] in
          and_then
            (sent_or (devbox_routes_not_cleared workload_id)
              (call client (Rpc.stop_devbox prior_branch) c))
            (send_routes clients devbox_routes previous_routes)
    ]

unfoldable pub set_devbox_routes : Uuid → Map Uuid DevboxRouteConfig → Cluster → Outcome × Cluster
set_devbox_routes environment_id devbox_routes c =
    let snapshot = snapshot_devbox_routes_for_environment environment_id devbox_routes c.manager in
    let after = record c { manager = snapshot.1 } in
    elim (latest environment_id after) [
      | none ↦ (done, after)
      | some clients ↦ send_routes clients devbox_routes snapshot.0 after
    ]

unfoldable pub set_devbox_route : Uuid → DevboxRouteConfig → Cluster → Outcome × Cluster
set_devbox_route environment_id route c =
    let after = record c {
      manager = upsert_devbox_route_snapshot environment_id route c.manager;
    } in
    to_workload environment_id route.workload_id after (λ client before.
      sent_or (devbox_route_not_sent route.workload_id)
        (call client (Rpc.set_devbox_route route) before))

unfoldable pub remove_devbox_route : Uuid → Uuid → Option Uuid → Cluster → Outcome × Cluster
remove_devbox_route environment_id workload_id branch_environment_id c =
    let removal =
      remove_devbox_route_snapshot environment_id workload_id branch_environment_id c.manager in
    let after = record c { manager = removal.1 } in
    if not removal.0
    then (done, after)
    else to_workload environment_id workload_id after (λ client before.
      sent_or (devbox_route_not_cleared workload_id)
        (call client (Rpc.stop_devbox branch_environment_id) before))

unfoldable pub upsert_branch_service_route :
    Uuid → Uuid → ProxyBranchRouteConfig → Cluster → Outcome × Cluster
upsert_branch_service_route base_environment_id workload_id route c =
    to_workload base_environment_id workload_id c (λ client before.
      sent_or (branch_service_route_not_updated workload_id)
        (call client (Rpc.upsert_branch_service_route route) before))

unfoldable pub remove_branch_service_route : Uuid → Uuid → Uuid → Cluster → Outcome × Cluster
remove_branch_service_route base_environment_id workload_id branch_environment_id c =
    to_workload base_environment_id workload_id c (λ client before.
      sent_or (branch_service_route_not_removed workload_id branch_environment_id)
        (call client (Rpc.remove_branch_service_route branch_environment_id) before))

-- The loop of `clear_devbox_routes`.
unfoldable pub stop_all : Map Uuid Client → Option Uuid → Cluster → Outcome × Cluster
stop_all [] branch_environment_id c = (done, c)
stop_all ((workload_id, client) ∷ clients) branch_environment_id c =
    and_then
      (sent_or (devbox_routes_not_cleared workload_id)
        (call client (Rpc.stop_devbox branch_environment_id) c))
      (stop_all clients branch_environment_id)

unfoldable pub clear_devbox_routes : Uuid → Option Uuid → Cluster → Outcome × Cluster
clear_devbox_routes environment_id branch_environment_id c =
    let after = record c {
      manager = prune_devbox_route_snapshot environment_id branch_environment_id c.manager;
    } in
    elim (latest environment_id after) [
      | none ↦ (done, after)
      | some clients ↦ stop_all clients branch_environment_id after
    ]

-- The loop of `set_service_routes_if_registered`.
unfoldable pub push_service_routes :
    Uuid → KubeClusterRpcClient → Map Uuid Client → Cluster → Outcome × Cluster
push_service_routes environment_id cluster_client [] c = (done, c)
push_service_routes environment_id cluster_client ((workload_id, client) ∷ clients) c =
    elim (cluster_client.list_branch_service_routes environment_id workload_id) [
      | rejected message ↦ (failed (routes_rejected environment_id workload_id message), c)
      | unreachable ↦ (failed (routes_not_fetched environment_id workload_id), c)
      | answered listed ↦
          and_then
            (sent_or (service_routes_not_pushed workload_id)
              (call client (Rpc.set_service_routes listed) c))
            (push_service_routes environment_id cluster_client clients)
    ]

unfoldable pub set_service_routes_if_registered : Uuid → Cluster → Outcome × Cluster
set_service_routes_if_registered environment_id c = elim (latest environment_id c) [
  | none ↦ (done, c)
  | some clients ↦ elim c.manager.kube_cluster_rpc_client [
    | none ↦ (done, c)
    | some cluster_client ↦ push_service_routes environment_id cluster_client clients c
  ]
]

abbrev pub replayed : Uuid → Option Reply × Cluster → Outcome × Cluster
replayed workload_id (none, c) = (failed (replay_not_sent workload_id), c)
replayed workload_id (some ok, c) = (done, c)
replayed workload_id (some (err message), c) = (failed (replay_refused workload_id message), c)

unfoldable pub replay_devbox_route : Uuid → Uuid → Cluster → Outcome × Cluster
replay_devbox_route environment_id workload_id c =
    elim (devbox_route_for_workload environment_id workload_id c.manager) [
      | none ↦ (done, c)
      | some route ↦
          to_workload environment_id workload_id c (λ client before.
            replayed workload_id (call client (Rpc.set_devbox_route route) before))
    ]
