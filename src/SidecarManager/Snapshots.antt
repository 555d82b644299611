-- ===== src/SidecarManager/Snapshots.antt =====
-- crates/kube-manager/src/sidecar_proxy_manager.rs: the devbox routes that the manager remembers, one
-- for each workload of an environment, to send them again to a sidecar that connects later.
use lapdev.Base.{
  Bool, false, not, Option, none, some, [], ◌∷◌, ◌==◌, nat_key, option_key, if◌then◌else◌,
}
use lapdev.Base.Map
use lapdev.Base.Map.{Map, is_some, map_some, unwrap_or, get-insert, get-remove, contains-keys}
use lapdev.Sidecar.Types.{Uuid}
use lapdev.Sidecar.Rpc.{DevboxRouteConfig, is_empty}
use lapdev.SidecarManager.{SidecarProxyManager}

abbrev pub snapshots_of : Uuid → SidecarProxyManager → Map Uuid DevboxRouteConfig
snapshots_of environment_id m = unwrap_or [] (Map.get environment_id m.devbox_route_snapshots)

unfoldable pub snapshot_devbox_routes_for_environment :
    Uuid
    → Map Uuid DevboxRouteConfig
    → SidecarProxyManager
    → Map Uuid DevboxRouteConfig × SidecarProxyManager
snapshot_devbox_routes_for_environment environment_id routes m = (
  unwrap_or [] (Map.get environment_id m.devbox_route_snapshots),
  record m { devbox_route_snapshots = Map.insert environment_id routes m.devbox_route_snapshots },
)

unfoldable pub upsert_devbox_route_snapshot :
    Uuid → DevboxRouteConfig → SidecarProxyManager → SidecarProxyManager
upsert_devbox_route_snapshot environment_id route m = record m {
  devbox_route_snapshots =
      Map.insert environment_id (Map.insert route.workload_id route (snapshots_of environment_id m))
        m.devbox_route_snapshots;
}

-- The routes of an environment are written back, and an environment without routes is dropped.
unfoldable pub with_routes :
    Uuid → Map Uuid DevboxRouteConfig → SidecarProxyManager → SidecarProxyManager
with_routes environment_id routes m = record m {
  devbox_route_snapshots =
      if is_empty routes
      then Map.remove environment_id m.devbox_route_snapshots
      else Map.insert environment_id routes m.devbox_route_snapshots;
}

abbrev pub is_of_branch : Option Uuid → DevboxRouteConfig → Bool
is_of_branch branch_environment_id route = route.branch_environment_id == branch_environment_id

unfoldable pub remove_devbox_route_snapshot :
    Uuid → Uuid → Option Uuid → SidecarProxyManager → Bool × SidecarProxyManager
remove_devbox_route_snapshot environment_id workload_id branch_environment_id m =
    elim (Map.get environment_id m.devbox_route_snapshots) [
      | none ↦ (false, m)
      | some routes ↦
          let should_remove =
            unwrap_or false
              (map_some (is_of_branch branch_environment_id) (Map.get workload_id routes)) in
          let left = if should_remove then Map.remove workload_id routes else routes in
          (should_remove, with_routes environment_id left m)
    ]

unfoldable pub devbox_route_for_workload :
    Uuid → Uuid → SidecarProxyManager → Option DevboxRouteConfig
devbox_route_for_workload environment_id workload_id m =
    elim (Map.get environment_id m.devbox_route_snapshots) [
      | none ↦ none
      | some routes ↦ Map.get workload_id routes
    ]

-- The two closures that `prune_devbox_route_snapshot` gives to `retain`.
unfoldable pub is_retained : Option Uuid → DevboxRouteConfig → Bool
is_retained (some branch_id) route = not (route.branch_environment_id == some branch_id)
is_retained none route = is_some route.branch_environment_id

unfoldable pub retain_routes : Option Uuid → Map Uuid DevboxRouteConfig → Map Uuid DevboxRouteConfig
retain_routes branch_environment_id [] = []
retain_routes branch_environment_id ((workload_id, route) ∷ routes) =
    let rest = retain_routes branch_environment_id routes in
    if is_retained branch_environment_id route then (workload_id, route) ∷ rest else rest

unfoldable pub prune_devbox_route_snapshot :
    Uuid → Option Uuid → SidecarProxyManager → SidecarProxyManager
prune_devbox_route_snapshot environment_id branch_environment_id m =
    elim (Map.get environment_id m.devbox_route_snapshots) [
      | none ↦ m
      | some routes ↦ with_routes environment_id (retain_routes branch_environment_id routes) m
    ]
