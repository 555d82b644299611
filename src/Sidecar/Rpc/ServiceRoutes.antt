-- ===== src/Sidecar/Rpc/ServiceRoutes.antt =====
-- What `set_service_routes` makes of a sidecar.
use lapdev.Base.{
  ℕ, ◌≡◌, refl, ◌∙◌, false, ◌||◌, Option, none, some, List, [], ◌∷◌, arith, if◌then◌else◌, ◌==◌,
  nat_key, nat_eq_iff, IsDistinct, contains, with_item, contains-with_item, find, option_key,
}
use lapdev.Base.Map
use lapdev.Base.Map.{
  Map, map_some, is_some, get-modify, get-insert, get-remove, get-map_values, contains-keys,
}
use lapdev.Sidecar.Types.{Uuid, DevboxConnection, BranchMode, BranchRoute, RoutingTable}
use lapdev.Sidecar.Routing.{with_mode, set_branch_devbox, replace_branch_routes}
use lapdev.Sidecar.Routing.Branches.{kept_mode, replace_branch_routes-get}
use lapdev.Sidecar.Registry.Signals
use lapdev.Sidecar.Registry.Signals.{shutdown_branches_open, shutdown_open}
use lapdev.Sidecar.Rpc.{
  ProxyBranchRouteConfig, SidecarProxyRpcServer, devbox_connection_from_config, is_empty,
  service_route_from_config, updates, devbox_overrides, apply_overrides, branch_ids, add_missing,
  some_all, set_service_routes,
}

-- The first configuration of a branch.
abbrev pub config_for : Uuid → List ProxyBranchRouteConfig → Option ProxyBranchRouteConfig
config_for id routes = find (λ route. route.branch_environment_id == id) routes

-- The mode that a branch gets: the devbox that its configuration brings, or the mode it had.
abbrev pub new_mode : ProxyBranchRouteConfig → Option BranchRoute → BranchMode
new_mode route old = elim route.devbox_route [
  | none ↦ kept_mode old
  | some devbox ↦
      BranchMode.devbox (devbox_connection_from_config devbox route.branch_environment_id)
]

-- The route that a branch gets: none where its configuration names no service.
abbrev pub new_route : ProxyBranchRouteConfig → Option BranchRoute → Option BranchRoute
new_route route old =
    if is_empty route.service_names
    then none
    else some (record { service = service_route_from_config route; mode = new_mode route old })

updates-absent :
    (id : Uuid) (routes : List ProxyBranchRouteConfig)
    → contains id (branch_ids routes) ≡ false
    → Map.get id (updates routes) ≡ none
unfolding updates Map.get
updates-absent id [] h = refl
updates-absent id (route ∷ routes) h = ground (arith, updates-absent id routes)

overrides-absent :
    (id : Uuid) (routes : List ProxyBranchRouteConfig)
    → contains id (branch_ids routes) ≡ false
    → Map.get id (devbox_overrides routes) ≡ none
unfolding devbox_overrides Map.get
overrides-absent id [] h = refl
overrides-absent id (route ∷ routes) h = ground (arith, overrides-absent id routes)

updates-IsDistinct :
    (routes : List ProxyBranchRouteConfig)
    → IsDistinct (branch_ids routes)
    → IsDistinct (Map.keys (updates routes))
unfolding updates
updates-IsDistinct [] h = tt
updates-IsDistinct (route ∷ routes) (fresh, h) = ground (
  arith,
  updates-IsDistinct routes h,
  updates-absent route.branch_environment_id routes fresh,
  contains-keys route.branch_environment_id (updates routes),
)

overrides-IsDistinct :
    (routes : List ProxyBranchRouteConfig)
    → IsDistinct (branch_ids routes)
    → IsDistinct (Map.keys (devbox_overrides routes))
unfolding devbox_overrides
overrides-IsDistinct [] h = tt
overrides-IsDistinct (route ∷ routes) (fresh, h) = ground (
  arith,
  overrides-IsDistinct routes h,
  overrides-absent route.branch_environment_id routes fresh,
  contains-keys route.branch_environment_id (devbox_overrides routes),
)

-- A branch's entry after the overrides.
abbrev pub overridden : Option DevboxConnection → BranchRoute → BranchRoute
overridden none route = route
overridden (some c) route = with_mode (BranchMode.devbox c) route

set_branch_devbox-get :
    (id j : Uuid) (c : DevboxConnection) (t : RoutingTable)
    → Map.get j (set_branch_devbox id c t).1.branch_routes ≡ (
        if id == j
        then map_some (overridden (some c)) (Map.get j t.branch_routes)
        else Map.get j t.branch_routes)
unfolding set_branch_devbox
set_branch_devbox-get id j c t =
    ground
      (arith, get-modify id j (with_mode (BranchMode.devbox c)) t.branch_routes, nat_eq_iff id j)

apply_overrides-get :
    (id : Uuid) (overrides : List (Uuid × DevboxConnection)) (t : RoutingTable)
    → IsDistinct (Map.keys overrides)
    → Map.get id (apply_overrides overrides t).branch_routes
      ≡ map_some (overridden (Map.get id overrides)) (Map.get id t.branch_routes)
unfolding apply_overrides Map.get
apply_overrides-get id [] t h = ground arith
apply_overrides-get id ((j, c) ∷ overrides) t (fresh, h) = ground (
  arith,
  apply_overrides-get id overrides (set_branch_devbox j c t).1 h,
  set_branch_devbox-get j id c t,
  contains-keys j overrides,
  nat_eq_iff j id,
)

module _ (id : Uuid) where
  -- What the two lists hold for a branch, by its configuration.
  updates-get :
      (routes : List ProxyBranchRouteConfig)
      → IsDistinct (branch_ids routes)
      → Map.get id (updates routes) ≡ elim (config_for id routes) [
        | none ↦ none
        | some route ↦
            if is_empty route.service_names then none else some (service_route_from_config route)
      ]
  unfolding updates Map.get
  updates-get [] h = refl
  updates-get (route ∷ routes) (fresh, h) = ground (
    arith,
    updates-get routes h,
    updates-absent route.branch_environment_id routes fresh,
    nat_eq_iff route.branch_environment_id id,
  )

  overrides-get :
      (routes : List ProxyBranchRouteConfig)
      → IsDistinct (branch_ids routes)
      → Map.get id (devbox_overrides routes) ≡ elim (config_for id routes) [
        | none ↦ none
        | some route ↦
            map_some
              (λ devbox. devbox_connection_from_config devbox route.branch_environment_id)
              route.devbox_route
      ]
  unfolding devbox_overrides Map.get
  overrides-get [] h = refl
  overrides-get (route ∷ routes) (fresh, h) = ground (
    arith,
    overrides-get routes h,
    overrides-absent route.branch_environment_id routes fresh,
    nat_eq_iff route.branch_environment_id id,
  )

  -- With one configuration for each branch, the branches that have a route afterwards are exactly
  -- those configured with a service. Each has the service route of its configuration, and the devbox
  -- that the configuration brings or, where it brings none, the mode that the branch had.
  pub set_service_routes-get :
      (routes : List ProxyBranchRouteConfig) (s : SidecarProxyRpcServer)
      → IsDistinct (branch_ids routes)
      → Map.get id (set_service_routes routes s).1.routing_table.branch_routes
        ≡ elim (config_for id routes) [
          | none ↦ none
          | some route ↦ new_route route (Map.get id s.routing_table.branch_routes)
        ]
  unfolding set_service_routes
  set_service_routes-get routes s h = ground (
    arith,
    apply_overrides-get id (devbox_overrides routes)
        (replace_branch_routes (updates routes) s.routing_table) (overrides-IsDistinct routes h),
    replace_branch_routes-get (updates routes) s.routing_table id (updates-IsDistinct routes h),
    updates-get routes h,
    overrides-get routes h,
  )

contains-some_all :
    (id : Uuid) (ids : List Uuid) → contains (some id) (some_all ids) ≡ contains id ids
contains-some_all id [] = refl
contains-some_all id (j ∷ ids) = ground (arith, contains-some_all id ids)

not-contains-some_all : (ids : List Uuid) → contains {K = Option Uuid} none (some_all ids) ≡ false
not-contains-some_all [] = refl
not-contains-some_all (j ∷ ids) = not-contains-some_all ids

contains-add_missing :
    (id : Uuid) (previous ids : List Uuid)
    → contains id (add_missing previous ids) ≡ (contains id previous || contains id ids)
unfolding add_missing
contains-add_missing id [] ids = refl
contains-add_missing id (j ∷ previous) ids = ground (
  arith,
  contains-add_missing id previous (with_item j ids),
  contains-with_item j id ids,
  nat_eq_iff j id,
)

-- `set_service_routes` tells a connection of a branch to shut down exactly if the branch had a route
-- or is among the configurations, and no connection of the default route.
pub set_service_routes-signals :
    (routes : List ProxyBranchRouteConfig) (s : SidecarProxyRpcServer) (c : ℕ)
    → Signals.IsValid s.connection_registry
    → ((id : Uuid)
        → Map.get (some id) s.connection_registry.branches ≡ some c
        → (set_service_routes routes s).1.connection_registry.signalled c
          ≡ (is_some (Map.get id s.routing_table.branch_routes) || contains id (branch_ids routes)))
      × (Map.get none s.connection_registry.branches ≡ some c
          → (set_service_routes routes s).1.connection_registry.signalled c ≡ false)
unfolding set_service_routes
set_service_routes-signals routes s c h =
    let previous = Map.keys s.routing_table.branch_routes in
    let listed = add_missing previous (branch_ids routes) in
    (
      λ id e. ground (
        arith,
        shutdown_branches_open (some_all listed) s.connection_registry (some id) c h e,
        contains-some_all id listed,
        contains-add_missing id previous (branch_ids routes),
        contains-keys id s.routing_table.branch_routes,
      ),
      λ e.
          shutdown_branches_open (some_all listed) s.connection_registry none c h e
          ∙ not-contains-some_all listed,
    )
