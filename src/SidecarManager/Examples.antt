-- ===== src/SidecarManager/Examples.antt =====
-- An environment with two workloads, their sidecars, and the theorems at these.
use lapdev.Base.{
  ◌||◌, if◌then◌else◌, ◌==◌, nat_eq_iff, contains, ℕ, ◌≡◌, ◌≢◌, refl, true, none, some, List, [],
  ◌∷◌, arith, nat_key, option_key, String, IsDistinct,
}
use lapdev.Base.Map
use lapdev.Base.Map.{Map, map_some, is_some}
use lapdev.Sidecar.Types.{
  Uuid, AccessLevel, BranchServiceRoute, BranchRoute, BranchMode, local, DevboxConnection,
}
use lapdev.Sidecar.Registry
use lapdev.Sidecar.Rpc
use lapdev.Sidecar.Rpc.{
  DevboxRouteConfig, ProxyBranchRouteConfig, ProxyRouteAccessLevel, SidecarProxyRpcServer,
  devbox_connection_from_config, err,
}
use lapdev.Sidecar.Rpc.DevboxRoutes.{devbox_decision}
use lapdev.SidecarManager.{
  Client, SidecarProxyManager, KubeClusterRpcClient, answered, rejected, latest_clients,
  latest_clients_for_environment, next_back, register_sidecar,
}
use lapdev.SidecarManager
use lapdev.SidecarManager.Tables.{latest_client}
use lapdev.SidecarManager.Connections.{
  Event, register, disconnect, serve, open_connections, last_client,
}
use lapdev.SidecarManager.Registrations.{serve-latest_client}
use lapdev.SidecarManager.Snapshots.{devbox_route_for_workload, snapshots_of}
use lapdev.SidecarManager.Lookups.{remembers}
use lapdev.SidecarManager.Routes.{
  Cluster, Process, done, set_devbox_route, set_devbox_routes, remove_devbox_route,
  clear_devbox_routes, upsert_branch_service_route,
}
use lapdev.SidecarManager.Delivery.{
  Reaches, decision_at, intercept, upsert_branch_service_route-refused,
}
use lapdev.SidecarManager.Removal.{remove_devbox_route-Reaches, remove_devbox_route-shadowed}
use lapdev.SidecarManager.Rounds.{Connected, workload_at, instructed, instruction}
use lapdev.SidecarManager.Environments.{set_devbox_routes-Connected, clear_devbox_routes-Connected}
use lapdev.SidecarManager.Sessions.{
  registered, register_sidecar_proxy, register_sidecar_proxy-restores,
}
use lapdev.SidecarManager.Sessions

-- The workload 3 connects twice, the first connection ends after the second began, 4 connects.
abbrev history : List Event
history = register 7 3 20 ∷ register 7 3 21 ∷ disconnect 7 3 1 ∷ register 7 4 22 ∷ []

serve-latest_client_example :
    latest_client 7 3 (serve history SidecarManager.new)
    ≡ last_client 7 3 (open_connections history 1 [])
serve-latest_client_example = serve-latest_client history 7 3 (omega arith)

abbrev api_service : BranchServiceRoute
api_service = record {
  service_names = (8080, "api-branch") ∷ [];
  headers = [];
  requires_auth = true;
  access_level = AccessLevel.personal;
  timeout_ms = none;
}

abbrev branch_entry : BranchRoute
branch_entry = record { service = api_service; mode = BranchMode.service }

abbrev devbox_of : Uuid → Uuid → DevboxRouteConfig
devbox_of workload branch = record {
  intercept_id = 5;
  workload_id = workload;
  auth_token = "token";
  websocket_url = "wss://ws";
  path_pattern = "/*";
  branch_environment_id = some branch;
  created_at_epoch_seconds = none;
  expires_at_epoch_seconds = none;
  port_mappings = (8080, 3000) ∷ [];
}

abbrev laptop : DevboxConnection
laptop = devbox_connection_from_config (devbox_of 3 1) 1

abbrev sidecar : Uuid → SidecarProxyRpcServer
sidecar workload = record {
  workload_id = workload;
  environment_id = 7;
  namespace = "shop";
  routing_table = record {
    branch_routes = (1, branch_entry) ∷ (2, branch_entry) ∷ [];
    default_route = local;
    port_routes = [];
  };
  connection_registry = Registry.empty;
}

abbrev cluster : Map Uuid DevboxRouteConfig → Cluster
cluster remembered = record {
  manager = record SidecarManager.new {
    sidecar_proxies = (7, (3, (1, 20) ∷ []) ∷ (4, (2, 21) ∷ []) ∷ []) ∷ [];
    generation_counter = 3;
    devbox_route_snapshots = (7, remembered) ∷ [];
  };
  connections = (20, 100) ∷ (21, 101) ∷ (22, 100) ∷ [];
  sidecars = (100, sidecar 3) ∷ (101, sidecar 4) ∷ [];
}

reaches :
    (remembered : Map Uuid DevboxRouteConfig) → Reaches 7 3 (cluster remembered) 20 100 (sidecar 3)
unfolding Map.get latest_clients_for_environment latest_clients next_back
reaches remembered = record { is_latest = refl; is_connected = refl; is_running = refl }

abbrev remembered : Map Uuid DevboxRouteConfig
remembered = (3, devbox_of 3 1) ∷ []

remembered_branch : remembers 7 3 (some 1) (cluster remembered).manager ≡ true
unfolding Map.get devbox_route_for_workload
remembered_branch = refl

remove_devbox_route-Reaches_example :
    decision_at 100 8080 (some 1) (remove_devbox_route 7 3 (some 1) (cluster remembered)).1
    ≢ some (devbox_decision (some 1) laptop 3000)
remove_devbox_route-Reaches_example =
    ((remove_devbox_route-Reaches 7 3 (some 1) (cluster remembered)).0 20 100 (sidecar 3)
        (reaches remembered) remembered_branch).1
      laptop 8080 3000

-- Two branches share the workload 3.
remove_devbox_route-shadowed_example :
    decision_at 100 8080
      (some 1)
      (remove_devbox_route 7 3
        (some 1)
        (set_devbox_route 7
          (devbox_of 3 2)
          (set_devbox_route 7 (devbox_of 3 1) (cluster [])).1).1).1
    ≡ some (intercept (devbox_of 3 1) (sidecar 3) 8080)
unfolding Map.get
remove_devbox_route-shadowed_example =
    (remove_devbox_route-shadowed 7 (devbox_of 3 1) (devbox_of 3 2) 1 2 (cluster []) 20 100
        (sidecar 3) (reaches []) refl refl refl refl (λ e. ground arith) refl).1
      8080

abbrev everyone : Map Uuid Client
everyone = (3, 20) ∷ (4, 21) ∷ []

abbrev ends : Map Uuid Process
ends = (3, 100) ∷ (4, 101) ∷ []

everyone_found : latest_clients_for_environment 7 (cluster remembered).manager ≡ some everyone
unfolding Map.get latest_clients_for_environment latest_clients next_back
everyone_found = refl

everyone-Connected : Connected everyone ends (cluster remembered)
unfolding Map.get
everyone-Connected = (refl, refl, refl, refl, (refl, refl, refl, refl, tt))

set_devbox_routes-Connected_example :
    Map.get 101 (set_devbox_routes 7 ((4, devbox_of 4 2) ∷ []) (cluster remembered)).1.sidecars
    ≡ instructed
        (instruction ((4, devbox_of 4 2) ∷ []) (snapshots_of 7 (cluster remembered).manager))
        (workload_at 101 ends)
        (Map.get 101 (cluster remembered).sidecars)
set_devbox_routes-Connected_example =
    (set_devbox_routes-Connected 7 ((4, devbox_of 4 2) ∷ []) (cluster remembered) everyone ends
        everyone_found (refl, (refl, tt)) everyone-Connected).1
      101

remembered_once : IsDistinct (Map.keys (snapshots_of 7 (cluster remembered).manager))
unfolding Map.get
remembered_once = (refl, tt)

clear_devbox_routes-Connected_example :
    devbox_route_for_workload 7 3 (clear_devbox_routes 7 (some 1) (cluster remembered)).1.manager
    ≡ none
unfolding Map.get devbox_route_for_workload
clear_devbox_routes-Connected_example =
    (clear_devbox_routes-Connected 7 (some 1) (cluster remembered) everyone ends everyone_found
        everyone-Connected remembered_once).2
      7 3

abbrev config : List (ℕ × String) → ProxyBranchRouteConfig
config services = record {
  branch_environment_id = 1;
  service_names = services;
  headers = [];
  requires_auth = true;
  access_level = ProxyRouteAccessLevel.personal;
  timeout_ms = none;
  devbox_route = none;
}

upsert_branch_service_route-refused_example :
    (upsert_branch_service_route 7 3 (config []) (cluster remembered)).0 ≡ done
upsert_branch_service_route-refused_example =
    (upsert_branch_service_route-refused 7 3 (config []) (cluster remembered) 20 100 (sidecar 3)
      (reaches remembered) refl).1

-- The routes of the workloads 3 and 4; other workloads are not known.
abbrev api_listed : Uuid → List ProxyBranchRouteConfig
api_listed w = if w == 3 then config ((8080, "api-branch") ∷ []) ∷ [] else []

abbrev api : KubeClusterRpcClient
api = record {
  list_branch_service_routes =
      λ e w. if w == 3 || w == 4 then answered (api_listed w) else rejected "unknown workload";
}

-- The cluster as the process 100 connects again with the client 22.
abbrev reconnecting : Cluster
reconnecting = record (cluster remembered) {
  manager = record (cluster remembered).manager { kube_cluster_rpc_client = some api };
}

abbrev later : Map Uuid Client
later = (3, 22) ∷ (4, 21) ∷ []

later_found :
    latest_clients_for_environment 7 (registered 3 7 (Sessions.new 22) reconnecting).1.manager
    ≡ some later
unfolding Map.get Map.insert Map.remove registered register_sidecar latest_clients_for_environment
    latest_clients next_back
later_found = refl

later-Connected : Connected later ends (registered 3 7 (Sessions.new 22) reconnecting).1
unfolding Map.get registered
later-Connected = (refl, refl, refl, refl, (refl, refl, refl, refl, tt))

later_client : latest_client 7 3 (registered 3 7 (Sessions.new 22) reconnecting).1.manager ≡ some 22
unfolding Map.get Map.insert Map.remove registered register_sidecar latest_clients_for_environment
    latest_clients next_back
later_client = refl

route_remembered : devbox_route_for_workload 7 3 reconnecting.manager ≡ some (devbox_of 3 1)
unfolding Map.get devbox_route_for_workload
route_remembered = refl

api_lists :
    (w : Uuid)
    → contains w (Map.keys later) ≡ true
    → api.list_branch_service_routes 7 w ≡ answered (api_listed w)
api_lists w known = ground (arith, nat_eq_iff w 3, nat_eq_iff w 4, nat_eq_iff 3 w, nat_eq_iff 4 w)

register_sidecar_proxy-restores_example :
    decision_at 100 8080 (some 1) (register_sidecar_proxy 3 7 (Sessions.new 22) reconnecting).1.1
    ≡ some (
        intercept
          (devbox_of 3 1)
          (Rpc.set_service_routes (config ((8080, "api-branch") ∷ []) ∷ []) (sidecar 3)).1
          8080)
unfolding Map.get
register_sidecar_proxy-restores_example =
    (register_sidecar_proxy-restores 3 7 (Sessions.new 22) reconnecting (devbox_of 3 1) 1 later ends
        api api_listed (config ((8080, "api-branch") ∷ [])) 100 (sidecar 3) later_found
        later-Connected refl api_lists later_client refl refl refl refl route_remembered refl refl
        (refl, tt) refl refl).1
      8080
