-- ===== src/Sidecar/Rpc.antt =====
-- crates/kube-sidecar-proxy/src/rpc.rs: the calls by which the manager changes a sidecar's routes.
-- The state is the routing table and the connection registry behind the server's locks; each handler
-- holds the table's lock over all that it does to the table, and then tells the registry.
pub mod ServiceRoutes
pub mod DevboxRoutes
pub mod Decisions
use lapdev.Base.{
  ℕ, String, Bool, true, false, not, Option, none, some, List, [], ◌∷◌, ◌==◌, nat_key,
  if◌then◌else◌, map, contains, with_item,
}
use lapdev.Base.Int.{ℤ}
use lapdev.Base.Map
use lapdev.Base.Map.{Map}
use lapdev.Sidecar.Types.{
  Uuid, AccessLevel, DevboxRouteMetadata, DevboxConnection, BranchServiceRoute, RoutingTable,
}
use lapdev.Sidecar.Routing.{
  or_else, replace_branch_routes, set_branch_devbox, set_default_devbox, remove_branch_devbox,
  clear_default_devbox,
}
use lapdev.Sidecar.Routing
use lapdev.Sidecar.Registry.{ConnectionRegistry, shutdown_branch, shutdown_branches}

-- crates/kube-rpc/src/lib.rs
pub data ProxyRouteAccessLevel : Type 0 where
  personal shared public : ProxyRouteAccessLevel

pub record DevboxRouteConfig : Type 0 where
  pub intercept_id : Uuid
  pub workload_id : Uuid
  pub auth_token : String
  pub websocket_url : String
  pub path_pattern : String
  pub branch_environment_id : Option Uuid
  pub created_at_epoch_seconds : Option ℤ
  pub expires_at_epoch_seconds : Option ℤ
  pub port_mappings : Map ℕ ℕ

pub record ProxyBranchRouteConfig : Type 0 where
  pub branch_environment_id : Uuid
  pub service_names : Map ℕ String
  pub headers : Map String String
  pub requires_auth : Bool
  pub access_level : ProxyRouteAccessLevel
  pub timeout_ms : Option ℕ
  pub devbox_route : Option DevboxRouteConfig

pub record SidecarProxyRpcServer : Type 0 where
  pub workload_id : Uuid
  pub environment_id : Uuid
  pub namespace : String
  pub routing_table : RoutingTable
  pub connection_registry : ConnectionRegistry

pub data Reply : Type 0 where
  ok : Reply
  err : String → Reply

unfoldable pub access_level_from_proxy : ProxyRouteAccessLevel → AccessLevel
access_level_from_proxy ProxyRouteAccessLevel.personal = AccessLevel.personal
access_level_from_proxy ProxyRouteAccessLevel.shared = AccessLevel.shared
access_level_from_proxy ProxyRouteAccessLevel.public = AccessLevel.public

unfoldable pub devbox_connection_from_config : DevboxRouteConfig → Uuid → DevboxConnection
devbox_connection_from_config route target_environment_id = record {
  metadata = record {
    intercept_id = route.intercept_id;
    workload_id = route.workload_id;
    auth_token = route.auth_token;
    websocket_url = route.websocket_url;
    path_pattern = route.path_pattern;
    port_mappings = route.port_mappings;
    created_at_epoch_seconds = route.created_at_epoch_seconds;
    expires_at_epoch_seconds = route.expires_at_epoch_seconds;
  };
  target_environment_id = target_environment_id;
}

abbrev pub is_empty {ℓ} : {A : Type ℓ} → List A → Bool
is_empty [] = true
is_empty (_ ∷ _) = false

unfoldable pub service_route_from_config : ProxyBranchRouteConfig → BranchServiceRoute
service_route_from_config route = record {
  service_names = route.service_names;
  headers = route.headers;
  requires_auth = route.requires_auth;
  access_level = access_level_from_proxy route.access_level;
  timeout_ms = route.timeout_ms;
}

-- The two lists that the loop of `set_service_routes` fills.
unfoldable pub updates : List ProxyBranchRouteConfig → List (Uuid × BranchServiceRoute)
updates [] = []
updates (route ∷ routes) =
    let rest = updates routes in
    if is_empty route.service_names
    then rest
    else (route.branch_environment_id, service_route_from_config route) ∷ rest

unfoldable pub devbox_overrides : List ProxyBranchRouteConfig → List (Uuid × DevboxConnection)
devbox_overrides [] = []
devbox_overrides (route ∷ routes) =
    let rest = devbox_overrides routes in
    elim route.devbox_route [
      | none ↦ rest
      | some devbox ↦
          (
            route.branch_environment_id,
            devbox_connection_from_config devbox route.branch_environment_id,
          )
          ∷ rest
    ]

unfoldable pub apply_overrides : List (Uuid × DevboxConnection) → RoutingTable → RoutingTable
apply_overrides [] t = t
apply_overrides ((branch_id, devbox) ∷ overrides) t =
    apply_overrides overrides (set_branch_devbox branch_id devbox t).1

abbrev pub branch_ids : List ProxyBranchRouteConfig → List Uuid
branch_ids [] = []
branch_ids (route ∷ routes) = route.branch_environment_id ∷ branch_ids routes

-- The loop over `previous_branches`.
unfoldable pub add_missing : List Uuid → List Uuid → List Uuid
add_missing [] branches = branches
add_missing (branch ∷ previous) branches = add_missing previous (with_item branch branches)

abbrev pub some_all : List Uuid → List (Option Uuid)
some_all [] = []
some_all (id ∷ ids) = some id ∷ some_all ids

unfoldable pub set_service_routes :
    List ProxyBranchRouteConfig → SidecarProxyRpcServer → Reply × SidecarProxyRpcServer
set_service_routes routes s =
    let previous_branches = Map.keys s.routing_table.branch_routes in
    let updated_branches = add_missing previous_branches (branch_ids routes) in
    (
      ok,
      record s {
        routing_table =
            apply_overrides (devbox_overrides routes)
              (replace_branch_routes (updates routes) s.routing_table);
        connection_registry = shutdown_branches (some_all updated_branches) s.connection_registry;
      },
    )

-- The `match` on the branch of a devbox route.
unfoldable pub attach : Option Uuid → DevboxConnection → RoutingTable → RoutingTable
attach (some branch_id) connection t = (set_branch_devbox branch_id connection t).1
attach none connection t = set_default_devbox connection t

unfoldable pub set_devbox_route :
    DevboxRouteConfig → SidecarProxyRpcServer → Reply × SidecarProxyRpcServer
set_devbox_route route s = if not (route.workload_id == s.workload_id) then (ok, s) else (
  ok,
  record s {
    routing_table =
        attach route.branch_environment_id
          (devbox_connection_from_config route
            (or_else route.branch_environment_id s.environment_id))
          s.routing_table;
    connection_registry = shutdown_branch route.branch_environment_id s.connection_registry;
  },
)

unfoldable pub detach : Option Uuid → RoutingTable → RoutingTable
detach (some branch_id) t = (remove_branch_devbox branch_id t).1
detach none t = clear_default_devbox t

unfoldable pub stop_devbox : Option Uuid → SidecarProxyRpcServer → Reply × SidecarProxyRpcServer
stop_devbox branch_environment s = (
  ok,
  record s {
    routing_table = detach branch_environment s.routing_table;
    connection_registry = shutdown_branch branch_environment s.connection_registry;
  },
)

-- The devbox override of `upsert_branch_service_route`.
unfoldable pub override : Option DevboxRouteConfig → Uuid → RoutingTable → RoutingTable
override none branch_id t = t
override (some devbox) branch_id t =
    (set_branch_devbox branch_id (devbox_connection_from_config devbox branch_id) t).1

unfoldable pub upsert_branch_service_route :
    ProxyBranchRouteConfig → SidecarProxyRpcServer → Reply × SidecarProxyRpcServer
upsert_branch_service_route route s =
    if is_empty route.service_names
    then (err "Missing service_names for branch service route update", s)
    else (
      ok,
      record s {
        routing_table = override route.devbox_route route.branch_environment_id (
            Routing.upsert_branch_service_route route.branch_environment_id
              (service_route_from_config route) s.routing_table);
        connection_registry =
            shutdown_branch (some route.branch_environment_id) s.connection_registry;
      },
    )

unfoldable pub remove_branch_service_route :
    Uuid → SidecarProxyRpcServer → Reply × SidecarProxyRpcServer
remove_branch_service_route branch_environment_id s = (
  ok,
  record s {
    routing_table = (Routing.remove_branch_service_route branch_environment_id s.routing_table).1;
    connection_registry = shutdown_branch (some branch_environment_id) s.connection_registry;
  },
)
