-- ===== src/Sidecar/Examples.antt =====
-- A sidecar with a branch and its configurations, and the theorems at these.
use lapdev.Base.{◌≡◌, ◌≢◌, refl, true, false, none, some, List, [], ◌∷◌, nat_key, option_key}
use lapdev.Base.Map
use lapdev.Base.Map.{Map, map_some, is_some}
use lapdev.Sidecar.Types.{
  AccessLevel, DevboxConnection, BranchServiceRoute, BranchMode, service, local, ProxyPortRoute,
  branch_devbox, RoutingTable,
}
use lapdev.Sidecar.Routing.{resolve_http}
use lapdev.Sidecar.Registry.{empty, subscribe, shutdown_branches}
use lapdev.Sidecar.Registry.Signals.{empty-IsValid, shutdown_branches-signals}
use lapdev.Sidecar.Rpc.{
  DevboxRouteConfig, ProxyRouteAccessLevel, ProxyBranchRouteConfig, SidecarProxyRpcServer,
  devbox_connection_from_config, service_route_from_config, set_service_routes, stop_devbox,
}
use lapdev.Sidecar.Rpc.ServiceRoutes.{set_service_routes-get}
use lapdev.Sidecar.Rpc.{set_devbox_route}
use lapdev.Sidecar.Rpc.Decisions.{set_devbox_route-decides}
use lapdev.Sidecar.Rpc.DevboxRoutes.{stop_devbox-stops}

abbrev api_service : BranchServiceRoute
api_service = record {
  service_names = (8080, "api-branch") ∷ [];
  headers = [];
  requires_auth = true;
  access_level = AccessLevel.personal;
  timeout_ms = none;
}

abbrev laptop_config : DevboxRouteConfig
laptop_config = record {
  intercept_id = 5;
  workload_id = 3;
  auth_token = "token";
  websocket_url = "wss://ws";
  path_pattern = "/*";
  branch_environment_id = some 1;
  created_at_epoch_seconds = none;
  expires_at_epoch_seconds = none;
  port_mappings = (8080, 3000) ∷ [];
}

abbrev laptop : DevboxConnection
laptop = devbox_connection_from_config laptop_config 1

abbrev ports : List ProxyPortRoute
ports =
    record { proxy_port = 26001; service_port = 8080; target_port = 80 }
    ∷ record { proxy_port = 26002; service_port = 9090; target_port = 90 }
    ∷ []

-- Branch 1 has a route to its service; nothing is intercepted.
abbrev table : RoutingTable
table = record {
  branch_routes = (1, record { service = api_service; mode = service }) ∷ [];
  default_route = local;
  port_routes = (26001, record { proxy_port = 26001; service_port = 8080; target_port = 80 }) ∷ [];
}

-- The same with the laptop on branch 1.
abbrev intercepted : RoutingTable
intercepted = record table {
  branch_routes = (1, record { service = api_service; mode = BranchMode.devbox laptop }) ∷ [];
}

abbrev api_config : ProxyBranchRouteConfig
api_config = record {
  branch_environment_id = 1;
  service_names = (8080, "api-branch") ∷ [];
  headers = [];
  requires_auth = true;
  access_level = ProxyRouteAccessLevel.personal;
  timeout_ms = none;
  devbox_route = some laptop_config;
}

-- A sidecar of workload 3 with a connection to branch 1.
abbrev server : SidecarProxyRpcServer
server = record {
  workload_id = 3;
  environment_id = 9;
  namespace = "shop";
  routing_table = table;
  connection_registry = (subscribe (some 1) empty).1;
}

set_devbox_route-decides_example :
    resolve_http 8080 (some 1) (set_devbox_route laptop_config server).1.routing_table
    ≡ branch_devbox 1 laptop 3000
unfolding Map.get
set_devbox_route-decides_example =
    (set_devbox_route-decides laptop_config server 8080 (some 1)).0 1 refl refl

port_found :
    Map.get 26001 table.port_routes
    ≡ some (record { proxy_port = 26001; service_port = 8080; target_port = 80 })
unfolding Map.get
port_found = refl

shutdown_branches-signals_example :
    ((shutdown_branches (some 1 ∷ []) (subscribe (some 1) empty).1).signalled
        (subscribe (some 1) empty).0
      ≡ true)
    × ((shutdown_branches (some 1 ∷ []) (subscribe (some 1) empty).1).signalled
          (subscribe none (shutdown_branches (some 1 ∷ []) (subscribe (some 1) empty).1)).0
        ≡ false)
shutdown_branches-signals_example =
    shutdown_branches-signals (some 1 ∷ []) empty (some 1) none empty-IsValid

set_service_routes-get_example :
    Map.get 1 (set_service_routes (api_config ∷ []) server).1.routing_table.branch_routes
    ≡ some
        (record { service = service_route_from_config api_config; mode = BranchMode.devbox laptop })
set_service_routes-get_example = set_service_routes-get 1 (api_config ∷ []) server (refl, tt)

subscribed : Map.get (some 1) server.connection_registry.branches ≡ some 0
unfolding Map.get Map.insert subscribe
subscribed = refl

stop_devbox-stops_example :
    resolve_http 8080
      (some 1)
      (stop_devbox (some 1) (record server { routing_table = intercepted })).1.routing_table
    ≢ branch_devbox 1 laptop 3000
stop_devbox-stops_example =
    (stop_devbox-stops (some 1) (record server { routing_table = intercepted })).0 (some 1) laptop
      8080 3000
