-- ===== src/Sidecar/Routing.antt =====
-- crates/kube-sidecar-proxy/src/config.rs: the routing table that the RPC handlers write and the
-- proxy loop reads. A method takes the table last; one that changes it returns the new table.
pub mod Resolve
pub mod Devboxes
pub mod Branches
pub mod Ports
use lapdev.Base.{
  ℕ, String, Bool, true, false, Option, none, some, List, [], ◌∷◌, ◌==◌, nat_key, if◌then◌else◌,
  find,
}
use lapdev.Base.Map
use lapdev.Base.Map.{Map, is_some}
use lapdev.Sidecar.Types.{
  Uuid, DevboxConnection, BranchServiceRoute, BranchMode, service, BranchRoute, DefaultRoute, local,
  ProxyPortRoute, RouteDecision, branch_service, branch_devbox, default_devbox, default_local,
  RoutingTable,
}

abbrev pub or_else : Option ℕ → ℕ → ℕ
or_else none d = d
or_else (some n) d = n

unfoldable pub resolve_target_port : DevboxConnection → ℕ → ℕ
resolve_target_port connection port = or_else (Map.get port connection.metadata.port_mappings) port

unfoldable pub service_name_for_port : BranchServiceRoute → ℕ → Option String
service_name_for_port route port = Map.get port route.service_names

abbrev pub target_of : Option ProxyPortRoute → ℕ → ℕ
target_of none d = d
target_of (some route) d = route.target_port

abbrev pub service_of : Option ProxyPortRoute → ℕ → ℕ
service_of none d = d
service_of (some route) d = route.service_port

unfoldable pub service_port_for_proxy : ℕ → RoutingTable → ℕ
service_port_for_proxy proxy_port t = service_of (Map.get proxy_port t.port_routes) proxy_port

unfoldable pub target_port_for_service : ℕ → RoutingTable → ℕ
target_port_for_service service_port t =
    target_of (find (λ route. route.service_port == service_port) (Map.values t.port_routes))
      service_port

unfoldable pub resolve_tcp : ℕ → RoutingTable → RouteDecision
resolve_tcp port t = elim t.default_route [
  | DefaultRoute.devbox connection ↦ default_devbox connection (resolve_target_port connection port)
  | local ↦ default_local (target_port_for_service port t)
]

-- The `match` on a branch's mode.
unfoldable pub resolve_branch : ℕ → Uuid → BranchRoute → RouteDecision
resolve_branch port branch_id route = elim route.mode [
  | BranchMode.devbox connection ↦
      branch_devbox branch_id connection (resolve_target_port connection port)
  | service ↦ branch_service route.service
]

unfoldable pub resolve_http : ℕ → Option Uuid → RoutingTable → RouteDecision
resolve_http port none t = resolve_tcp port t
resolve_http port (some branch_id) t = elim (Map.get branch_id t.branch_routes) [
  | some route ↦ resolve_branch port branch_id route
  | none ↦ resolve_tcp port t
]

-- The loop of `replace_branch_routes`: a branch that had a route keeps its mode.
unfoldable pub replace_from :
    Map Uuid BranchRoute
    → Map Uuid BranchRoute
    → List (Uuid × BranchServiceRoute)
    → Map Uuid BranchRoute
replace_from old_routes new_routes [] = new_routes
replace_from old_routes new_routes ((env_id, service_route) ∷ routes) =
    elim (Map.get env_id old_routes) [
      | some existing ↦
          replace_from (Map.remove env_id old_routes)
            (Map.insert env_id (record { service = service_route; mode = existing.mode })
              new_routes)
            routes
      | none ↦
          replace_from old_routes
            (Map.insert env_id (record { service = service_route; mode = service }) new_routes)
            routes
    ]

unfoldable pub replace_branch_routes :
    List (Uuid × BranchServiceRoute) → RoutingTable → RoutingTable
replace_branch_routes routes t = record t { branch_routes = replace_from t.branch_routes [] routes }

abbrev pub with_mode : BranchMode → BranchRoute → BranchRoute
with_mode mode route = record route { mode = mode }

unfoldable pub set_branch_devbox : Uuid → DevboxConnection → RoutingTable → Bool × RoutingTable
set_branch_devbox branch_id connection t =
    if is_some (Map.get branch_id t.branch_routes)
    then (
      true,
      record t {
        branch_routes =
            Map.modify branch_id (with_mode (BranchMode.devbox connection)) t.branch_routes;
      },
    )
    else (false, t)

abbrev pub has_devbox : BranchRoute → Bool
has_devbox route = elim route.mode [ service ↦ false | BranchMode.devbox _ ↦ true ]

abbrev pub without_devbox : BranchRoute → BranchRoute
without_devbox route = if has_devbox route then with_mode service route else route

unfoldable pub clear_branch_devboxes : RoutingTable → RoutingTable
clear_branch_devboxes t = record t { branch_routes = Map.map_values without_devbox t.branch_routes }

unfoldable pub remove_branch_devbox : Uuid → RoutingTable → Bool × RoutingTable
remove_branch_devbox branch_id t = elim (Map.get branch_id t.branch_routes) [
  | none ↦ (false, t)
  | some route ↦
      if has_devbox route
      then (
        true,
        record t { branch_routes = Map.modify branch_id (with_mode service) t.branch_routes },
      )
      else (false, t)
]

unfoldable pub upsert_branch_service_route : Uuid → BranchServiceRoute → RoutingTable → RoutingTable
upsert_branch_service_route branch_id service_route t = elim (Map.get branch_id t.branch_routes) [
  | some existing ↦ record t {
    branch_routes =
        Map.insert branch_id (record { service = service_route; mode = existing.mode })
          (Map.remove branch_id t.branch_routes);
  }
  | none ↦ record t {
    branch_routes =
        Map.insert branch_id (record { service = service_route; mode = service }) t.branch_routes;
  }
]

unfoldable pub remove_branch_service_route : Uuid → RoutingTable → Bool × RoutingTable
remove_branch_service_route branch_id t = (
  is_some (Map.get branch_id t.branch_routes),
  record t { branch_routes = Map.remove branch_id t.branch_routes },
)

-- Whether a devbox serves the branch for the given intercept.
abbrev pub intercepted_by : Uuid → BranchRoute → Bool
intercepted_by intercept_id route = elim route.mode [
  | service ↦ false
  | BranchMode.devbox connection ↦ connection.metadata.intercept_id == intercept_id
]

-- The loop of `remove_branch_devbox_by_intercept`, up to the first branch that fits.
unfoldable pub release_first : Uuid → Map Uuid BranchRoute → Option Uuid × Map Uuid BranchRoute
release_first intercept_id [] = (none, [])
release_first intercept_id ((branch_id, route) ∷ routes) =
    let (released, rest) = release_first intercept_id routes in
    if intercepted_by intercept_id route
    then (some branch_id, (branch_id, with_mode service route) ∷ routes)
    else (released, (branch_id, route) ∷ rest)

unfoldable pub remove_branch_devbox_by_intercept : Uuid → RoutingTable → Option Uuid × RoutingTable
remove_branch_devbox_by_intercept intercept_id t =
    let (released, routes) = release_first intercept_id t.branch_routes in
    (released, record t { branch_routes = routes })

unfoldable pub set_default_devbox : DevboxConnection → RoutingTable → RoutingTable
set_default_devbox connection t = record t { default_route = DefaultRoute.devbox connection }

unfoldable pub clear_default_devbox : RoutingTable → RoutingTable
clear_default_devbox t = record t { default_route = local }

unfoldable pub default_devbox_of : RoutingTable → Option DevboxConnection
default_devbox_of t = elim t.default_route [
  | DefaultRoute.devbox connection ↦ some connection
  | local ↦ none
]

unfoldable pub remove_default_devbox_by_intercept : Uuid → RoutingTable → Bool × RoutingTable
remove_default_devbox_by_intercept intercept_id t = elim t.default_route [
  | local ↦ (false, t)
  | DefaultRoute.devbox connection ↦
      if connection.metadata.intercept_id == intercept_id
      then (true, record t { default_route = local })
      else (false, t)
]

abbrev pub by_proxy_port : List ProxyPortRoute → List (ℕ × ProxyPortRoute)
by_proxy_port [] = []
by_proxy_port (route ∷ routes) = (route.proxy_port, route) ∷ by_proxy_port routes

unfoldable pub set_port_routes : List ProxyPortRoute → RoutingTable → RoutingTable
set_port_routes routes t = record t { port_routes = Map.extend (by_proxy_port routes) [] }

unfoldable pub upsert_port_route :
    ProxyPortRoute → RoutingTable → Option ProxyPortRoute × RoutingTable
upsert_port_route route t = (
  Map.get route.proxy_port t.port_routes,
  record t { port_routes = Map.insert route.proxy_port route t.port_routes },
)

unfoldable pub remove_port_route : ℕ → RoutingTable → Option ProxyPortRoute × RoutingTable
remove_port_route proxy_port t = (
  Map.get proxy_port t.port_routes,
  record t { port_routes = Map.remove proxy_port t.port_routes },
)
