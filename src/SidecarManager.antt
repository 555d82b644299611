-- ===== src/SidecarManager.antt =====
-- crates/kube-manager/src/sidecar_proxy_manager.rs: which sidecars are connected. A client of a
-- sidecar's RPC is a number; the maps from environments to workloads to generations are nested maps.
mod Tables
mod Connections
mod Lookups
pub mod Registrations
pub mod Snapshots
pub mod Routes
mod Delivery
mod Removal
mod Rounds
mod Environments
mod Sessions
mod Examples
use lapdev.Base.{
  ℕ, String, ◌+◌, ◌%◌, Bool, true, false, ◌&&◌, not, Option, none, some, List, [], ◌∷◌, ltb,
  nat_key, if◌then◌else◌,
}
use lapdev.Base.Map
use lapdev.Base.Map.{Map, is_some, unwrap_or}
use lapdev.Sidecar.Types.{Uuid}
use lapdev.Sidecar.Rpc.{DevboxRouteConfig, ProxyBranchRouteConfig, is_empty}

abbrev pub Client : Type 0
Client = ℕ

-- What the API server answers to `list_branch_service_routes`, or that it cannot be reached.
pub data RouteAnswer : Type 0 where
  answered : List ProxyBranchRouteConfig → RouteAnswer
  rejected : String → RouteAnswer
  unreachable : RouteAnswer

-- The client of the API server's RPC.
pub record KubeClusterRpcClient : Type 0 where
  pub list_branch_service_routes : Uuid → Uuid → RouteAnswer

pub record SidecarProxyManager : Type 0 where
  pub sidecar_proxies : Map Uuid (Map Uuid (Map ℕ Client))
  pub kube_cluster_rpc_client : Option KubeClusterRpcClient
  pub generation_counter : ℕ
  pub devbox_route_snapshots : Map Uuid (Map Uuid DevboxRouteConfig)

abbrev pub new : SidecarProxyManager
new = record {
  sidecar_proxies = [];
  kube_cluster_rpc_client = none;
  generation_counter = 1;
  devbox_route_snapshots = [];
}

abbrev pub u64_mod : ℕ
u64_mod = 18446744073709551616

abbrev pub workloads_of : Uuid → SidecarProxyManager → Map Uuid (Map ℕ Client)
workloads_of environment_id m = unwrap_or [] (Map.get environment_id m.sidecar_proxies)

-- The generation of the new connection, and the manager with it.
unfoldable pub register_sidecar :
    Uuid → Uuid → Client → SidecarProxyManager → ℕ × SidecarProxyManager
register_sidecar environment_id workload_id client m =
    let generation = m.generation_counter in
    let workloads = workloads_of environment_id m in
    let entries = unwrap_or [] (Map.get workload_id workloads) in
    (
      generation,
      record m {
        sidecar_proxies =
            Map.insert environment_id
              (Map.insert workload_id (Map.insert generation client entries) workloads)
              m.sidecar_proxies;
        generation_counter = (generation + 1) % u64_mod;
      },
    )

-- What `remove_sidecar` leaves of an environment's workloads.
unfoldable pub without_entry :
    Uuid → Map ℕ Client → Map Uuid (Map ℕ Client) → Map Uuid (Map ℕ Client)
without_entry workload_id rest workloads =
    if is_empty rest
    then Map.remove workload_id workloads
    else Map.insert workload_id rest workloads

unfoldable pub remove_sidecar : Uuid → Uuid → ℕ → SidecarProxyManager → SidecarProxyManager
remove_sidecar environment_id workload_id generation m =
    elim (Map.get environment_id m.sidecar_proxies) [
      | none ↦ m
      | some workloads ↦ elim (Map.get workload_id workloads) [
        | none ↦ m
        | some entries ↦
            let removed = is_some (Map.get generation entries) in
            let left = without_entry workload_id (Map.remove generation entries) workloads in
            record m {
              sidecar_proxies =
                  if removed && is_empty left
                  then Map.remove environment_id m.sidecar_proxies
                  else Map.insert environment_id left m.sidecar_proxies;
            }
      ]
    ]

-- `next_back` of a `BTreeMap`: the entry with the greatest key.
unfoldable pub next_back : Map ℕ Client → Option (ℕ × Client)
next_back [] = none
next_back ((generation, client) ∷ entries) = elim (next_back entries) [
  | none ↦ some (generation, client)
  | some (other, last) ↦
      if ltb generation other then some (other, last) else some (generation, client)
]

unfoldable pub latest_clients : Map Uuid (Map ℕ Client) → Map Uuid Client
latest_clients [] = []
latest_clients ((workload_id, entries) ∷ workloads) =
    let rest = latest_clients workloads in
    elim (next_back entries) [ none ↦ rest | some (_, client) ↦ (workload_id, client) ∷ rest ]

unfoldable pub latest_clients_for_environment :
    Uuid → SidecarProxyManager → Option (Map Uuid Client)
latest_clients_for_environment environment_id m =
    Map.map_some latest_clients (Map.get environment_id m.sidecar_proxies)

unfoldable pub record_sidecar_heartbeat : Uuid → Uuid → SidecarProxyManager → Bool
record_sidecar_heartbeat environment_id workload_id m =
    elim (Map.get environment_id m.sidecar_proxies) [
      | none ↦ false
      | some workloads ↦ elim (Map.get workload_id workloads) [
        | none ↦ false
        | some entries ↦ not (is_empty entries)
      ]
    ]

unfoldable pub set_cluster_rpc_client :
    KubeClusterRpcClient → SidecarProxyManager → SidecarProxyManager
set_cluster_rpc_client client m = record m { kube_cluster_rpc_client = some client }

unfoldable pub clear_cluster_rpc_client : SidecarProxyManager → SidecarProxyManager
clear_cluster_rpc_client m = record m { kube_cluster_rpc_client = none }
