-- ===== src/SidecarManager/Sessions.antt =====
-- crates/kube-manager/src/sidecar_proxy_manager_rpc.rs: what the manager does for one connection of a
-- sidecar, from its registration to its end.
use lapdev.Base.{
  ℕ, ◌≡◌, refl, ap, sym, ◌∙◌, true, false, Option, none, some, List, arith, nat_key, option_key,
  if◌then◌else◌, IsDistinct, contains,
}
use lapdev.Base.Map
use lapdev.Base.Map.{Map, is_some, map_some}
use lapdev.Sidecar.Types.{Uuid}
use lapdev.Sidecar.Rpc
use lapdev.Sidecar.Rpc.{
  DevboxRouteConfig, ProxyBranchRouteConfig, SidecarProxyRpcServer, is_empty, branch_ids,
}
use lapdev.Sidecar.Rpc.ServiceRoutes.{config_for, set_service_routes-get}
use lapdev.Sidecar.Rpc.DevboxRoutes.{is_known}
use lapdev.SidecarManager.{
  Client, KubeClusterRpcClient, answered, SidecarProxyManager, register_sidecar, remove_sidecar,
  record_sidecar_heartbeat,
}
use lapdev.SidecarManager.Tables.{latest_client}
use lapdev.SidecarManager.Snapshots.{devbox_route_for_workload}
use lapdev.SidecarManager.Routes.{
  Process, Cluster, not_registered, Outcome, done, failed, latest, set_service_routes_if_registered,
  replay_devbox_route,
}
use lapdev.SidecarManager.Delivery.{Reaches, decision_at, intercept, replay_devbox_route-Reaches}
use lapdev.SidecarManager.Rounds.{Connected, workload_at}
use lapdev.SidecarManager.Environments.{set_service_routes_if_registered-Connected}

pub record SidecarProxyManagerRpcServer : Type 0 where
  pub rpc_client : Client
  pub connection_generation : Option ℕ
  pub environment : Option Uuid
  pub workload : Option Uuid

abbrev pub new : Client → SidecarProxyManagerRpcServer
new client = record {
  rpc_client = client;
  connection_generation = none;
  environment = none;
  workload = none;
}

unfoldable pub handle_disconnect :
    SidecarProxyManagerRpcServer → SidecarProxyManager → SidecarProxyManager
handle_disconnect server m = elim server.environment [
  | none ↦ m
  | some environment_id ↦ elim server.workload [
    | none ↦ m
    | some workload_id ↦ elim server.connection_generation [
      | none ↦ m
      | some generation ↦ remove_sidecar environment_id workload_id generation m
    ]
  ]
]

unfoldable pub heartbeat : Uuid → Uuid → SidecarProxyManager → Outcome
heartbeat workload_id environment_id m =
    if record_sidecar_heartbeat environment_id workload_id m then done else failed not_registered

-- The manager and the connection after `register_sidecar`, before any route is sent.
unfoldable pub registered :
    Uuid → Uuid → SidecarProxyManagerRpcServer → Cluster → SidecarProxyManagerRpcServer × Cluster
registered workload_id environment_id server c =
    let registration = register_sidecar environment_id workload_id server.rpc_client c.manager in
    (
      record server {
        environment = some environment_id;
        workload = some workload_id;
        connection_generation = some registration.0;
      },
      record c { manager = registration.1 },
    )

-- A failed replay is only logged.
abbrev pub then_replay : Uuid → Uuid → Outcome × Cluster → Outcome × Cluster
then_replay workload_id environment_id (failed failure, c) = (failed failure, c)
then_replay workload_id environment_id (done, c) =
    (done, (replay_devbox_route environment_id workload_id c).1)

unfoldable pub register_sidecar_proxy :
    Uuid
    → Uuid
    → SidecarProxyManagerRpcServer
    → Cluster
    → Outcome × (SidecarProxyManagerRpcServer × Cluster)
register_sidecar_proxy workload_id environment_id server c =
    let registration = registered workload_id environment_id server c in
    let answer =
      then_replay workload_id environment_id
        (set_service_routes_if_registered environment_id registration.1) in
    (answer.0, (registration.0, answer.1))

set_service_routes-is_known :
    (b : Uuid) (listed : List ProxyBranchRouteConfig) (config : ProxyBranchRouteConfig)
    (s : SidecarProxyRpcServer)
    → IsDistinct (branch_ids listed)
    → config_for b listed ≡ some config
    → is_empty config.service_names ≡ false
    → is_known (some b) (Rpc.set_service_routes listed s).1.routing_table ≡ true
set_service_routes-is_known b listed config s distinct found served =
    ground (arith, set_service_routes-get b listed s distinct)

set_service_routes-workload_id :
    (listed : List ProxyBranchRouteConfig) (s : SidecarProxyRpcServer)
    → (Rpc.set_service_routes listed s).1.workload_id ≡ s.workload_id
unfolding Rpc.set_service_routes
set_service_routes-workload_id listed s = refl

registered-other :
    (w e : Uuid) (server : SidecarProxyManagerRpcServer) (c : Cluster)
    → ((registered w e server c).1.manager.kube_cluster_rpc_client
        ≡ c.manager.kube_cluster_rpc_client)
      × (devbox_route_for_workload e w (registered w e server c).1.manager
          ≡ devbox_route_for_workload e w c.manager)
      × ((registered w e server c).1.connections ≡ c.connections)
      × ((registered w e server c).1.sidecars ≡ c.sidecars)
unfolding registered register_sidecar devbox_route_for_workload
registered-other w e server c = (refl, refl, refl, refl)

then_replay-done :
    (w e : Uuid) (synced : Outcome × Cluster)
    → synced.0 ≡ done
    → then_replay w e synced ≡ (done, (replay_devbox_route e w synced.1).1)
then_replay-done w e (done, c) h = refl
then_replay-done w e (failed failure, c) h = cc

-- A sidecar that connects again gets its routes back, whatever state its process is in. Suppose that its
-- connection becomes the latest of its workload, that the latest clients of the environment lead to
-- processes of their own, and that the API server answers for each of their workloads. Then the
-- registration succeeds, and the requests of the branch of the devbox route that the manager remembers
-- for the workload go to that devbox, if the workload's list names each branch once and names a
-- service of that branch.
pub register_sidecar_proxy-restores :
    (w e : Uuid) (server : SidecarProxyManagerRpcServer) (c : Cluster) (route : DevboxRouteConfig)
    (b : Uuid) (clients : Map Uuid Client) (ends : Map Uuid Process)
    (cluster_client : KubeClusterRpcClient) (listed : Uuid → List ProxyBranchRouteConfig)
    (config : ProxyBranchRouteConfig) (p : Process) (s : SidecarProxyRpcServer)
    → latest e (registered w e server c).1 ≡ some clients
    → Connected clients ends (registered w e server c).1
    → c.manager.kube_cluster_rpc_client ≡ some cluster_client
    → ((v : Uuid)
        → contains v (Map.keys clients) ≡ true
        → cluster_client.list_branch_service_routes e v ≡ answered (listed v))
    → latest_client e w (registered w e server c).1.manager ≡ some server.rpc_client
    → Map.get server.rpc_client c.connections ≡ some p
    → workload_at p ends ≡ some w
    → Map.get p c.sidecars ≡ some s
    → s.workload_id ≡ w
    → devbox_route_for_workload e w c.manager ≡ some route
    → route.workload_id ≡ w
    → route.branch_environment_id ≡ some b
    → IsDistinct (branch_ids (listed w))
    → config_for b (listed w) ≡ some config
    → is_empty config.service_names ≡ false
    → let answer = register_sidecar_proxy w e server c in
      (answer.0 ≡ done)
      × ((port : ℕ)
          → decision_at p port (some b) answer.1.1
            ≡ some (intercept route (Rpc.set_service_routes (listed w) s).1 port))
unfolding register_sidecar_proxy
register_sidecar_proxy-restores w e server c route b clients ends cluster_client listed config p s
      found connected api lists here link serves running own remembered for_w of_b distinct
      configured served =
    let during = (registered w e server c).1 in
    let same = registered-other w e server c in
    let sync =
      set_service_routes_if_registered-Connected e during clients ends cluster_client listed found
        connected (same.0 ∙ api) lists in
    let after = (set_service_routes_if_registered e during).1 in
    let s_after = (Rpc.set_service_routes (listed w) s).1 in
    let reaches : Reaches e w after server.rpc_client p s_after = record {
      is_latest = ap (latest_client e w) sync.2 ∙ here;
      is_connected = ap (Map.get server.rpc_client) (sync.3 ∙ same.2) ∙ link;
      is_running = sync.1 p ∙ rw (serves, same.3, running) refl;
    } in
    let still = ap (devbox_route_for_workload e w) sync.2 ∙ same.1 ∙ remembered in
    let knows : is_known route.branch_environment_id s_after.routing_table ≡ true =
      rw of_b (set_service_routes-is_known b (listed w) config s distinct configured served) in
    let replay =
      replay_devbox_route-Reaches e w route after server.rpc_client p s_after still reaches
        (for_w ∙ sym own ∙ sym (set_service_routes-workload_id (listed w) s)) knows in
    let synced = then_replay-done w e (set_service_routes_if_registered e during) sync.0 in
    rw (register_sidecar_proxy, synced) (refl, λ port. rw⁻¹ of_b (replay.1 port))
