-- ===== src/Sidecar/Rpc/DevboxRoutes.antt =====
-- Attaching a devbox to a workload and stopping it.
use lapdev.Base.{
  ℕ, ◌≡◌, ◌≢◌, refl, ap, sym, true, false, Bool, Option, none, some, arith, if◌then◌else◌, ◌==◌,
  nat_key, nat_eq_iff, option_key,
}
use lapdev.Base.Map
use lapdev.Base.Map.{
  Map, map_some, is_some, get-modify, get-insert, get-remove, get-map_values, contains-keys,
}
use lapdev.Sidecar.Types.{
  Uuid, DevboxConnection, BranchMode, BranchRoute, RouteDecision, branch_devbox, default_devbox,
  RoutingTable,
}
use lapdev.Sidecar.Routing.{
  with_mode, set_branch_devbox, replace_branch_routes, set_default_devbox, remove_branch_devbox,
  clear_default_devbox, resolve_http, resolve_tcp, resolve_target_port, resolve_branch, has_devbox,
}
use lapdev.Sidecar.Routing.Resolve.{resolve_http-branch_devbox_iff}
use lapdev.Sidecar.Routing.Branches.{kept_mode}
use lapdev.Sidecar.Registry.{BranchKey}
use lapdev.Sidecar.Registry.Signals
use lapdev.Sidecar.Registry.Signals.{shutdown_branches_open, shutdown_open}
use lapdev.Sidecar.Rpc.{
  DevboxRouteConfig, ProxyBranchRouteConfig, SidecarProxyRpcServer, ok, err,
  devbox_connection_from_config, is_empty, service_route_from_config, attach, set_devbox_route,
  detach, stop_devbox, override, upsert_branch_service_route,
}
use lapdev.Sidecar.Routing
use lapdev.Sidecar.Routing.{or_else, target_port_for_service}
use lapdev.Sidecar.Routing.Devboxes.{resolve_http-set_branch_devbox, remove_branch_devbox-releases}
use lapdev.Sidecar.Routing.Branches.{upsert_branch_service_route-get}

-- The decision that sends a request to the devbox of a branch, or to the default one.
abbrev pub devbox_decision : Option Uuid → DevboxConnection → ℕ → RouteDecision
devbox_decision none c port = default_devbox c port
devbox_decision (some id) c port = branch_devbox id c port

-- Whether a route of the workload or of the branch is there for a devbox to take over.
abbrev pub is_known : Option Uuid → RoutingTable → Bool
is_known none t = true
is_known (some id) t = is_some (Map.get id t.branch_routes)

attach-resolves :
    (branch : Option Uuid) (c : DevboxConnection) (t : RoutingTable) (port : ℕ)
    → is_known branch t ≡ true
    → resolve_http port branch (attach branch c t)
      ≡ devbox_decision branch c (resolve_target_port c port)
unfolding attach
attach-resolves none c t port known = unfold set_default_devbox resolve_http resolve_tcp in refl
attach-resolves (some id) c t port known =
    ground (arith, (resolve_http-set_branch_devbox id c t).1 port (some id), nat_eq_iff id id)

-- A devbox route for another workload changes nothing. One for this workload sends the requests of
-- its branch, or of the default route, to the devbox it describes, if the branch has a route; and it
-- tells exactly the connections of that branch, or of the default route, to shut down.
pub set_devbox_route-attaches :
    (route : DevboxRouteConfig) (s : SidecarProxyRpcServer)
    → (route.workload_id ≢ s.workload_id → set_devbox_route route s ≡ (ok, s))
      × (route.workload_id ≡ s.workload_id
          → is_known route.branch_environment_id s.routing_table ≡ true
          → (port : ℕ)
          → let c =
              devbox_connection_from_config route
                (or_else route.branch_environment_id s.environment_id) in
            resolve_http port route.branch_environment_id (set_devbox_route route s).1.routing_table
            ≡ devbox_decision route.branch_environment_id c (resolve_target_port c port))
      × (route.workload_id ≡ s.workload_id
          → Signals.IsValid s.connection_registry
          → (b : BranchKey) (channel : ℕ) → Map.get b s.connection_registry.branches ≡ some channel
          → (set_devbox_route route s).1.connection_registry.signalled channel
            ≡ (route.branch_environment_id == b))
unfolding set_devbox_route
set_devbox_route-attaches route s = (
  λ other. ground arith,
  λ own known port. ground (
    arith,
    attach-resolves route.branch_environment_id
        (devbox_connection_from_config route (or_else route.branch_environment_id s.environment_id))
        s.routing_table port known,
  ),
  λ own valid b channel e.
      ground
        (arith, shutdown_open s.connection_registry valid route.branch_environment_id b channel e),
)

detach-resolves :
    (branch named : Option Uuid) (c : DevboxConnection) (t : RoutingTable) (port target : ℕ)
    → resolve_http port named (detach branch t) ≢ devbox_decision branch c target
unfolding detach
detach-resolves none none c t port target e =
    unfold clear_default_devbox resolve_http resolve_tcp in cc
detach-resolves none (some id) c t port target e =
    unfold clear_default_devbox resolve_http resolve_tcp resolve_branch in ground arith
detach-resolves (some id) named c t port target e =
    let (same, mode, _) =
      (resolve_http-branch_devbox_iff port named (detach (some id) t) id c target).0 e in
    ground (arith, (remove_branch_devbox-releases id t).0)

detach-resolves_tcp :
    (branch : Option Uuid) (c : DevboxConnection) (t : RoutingTable) (port target : ℕ)
    → resolve_tcp port (detach branch t) ≢ devbox_decision branch c target
unfolding detach
detach-resolves_tcp none c t port target e = unfold clear_default_devbox resolve_tcp in cc
detach-resolves_tcp (some id) c t port target e = unfold resolve_tcp in ground arith

-- After `stop_devbox` for a branch no request, whichever branch it names, and no plain TCP connection goes
-- to a devbox of that branch; after it for the default route none goes to a default devbox. The
-- routes of other branches are unchanged; exactly the connections of that branch, or of the default
-- route, are told to shut down.
pub stop_devbox-stops :
    (branch : Option Uuid) (s : SidecarProxyRpcServer)
    → ((named : Option Uuid) (c : DevboxConnection) (port target : ℕ)
        → resolve_http port named (stop_devbox branch s).1.routing_table
          ≢ devbox_decision branch c target)
      × ((c : DevboxConnection) (port target : ℕ)
          → resolve_tcp port (stop_devbox branch s).1.routing_table
            ≢ devbox_decision branch c target)
      × ((id : Uuid)
          → branch ≢ some id
          → Map.get id (stop_devbox branch s).1.routing_table.branch_routes
            ≡ Map.get id s.routing_table.branch_routes)
      × (Signals.IsValid s.connection_registry
          → (b : BranchKey) (channel : ℕ) → Map.get b s.connection_registry.branches ≡ some channel
          → (stop_devbox branch s).1.connection_registry.signalled channel ≡ (branch == b))
unfolding stop_devbox
stop_devbox-stops branch s = (
  λ named c port target. detach-resolves branch named c s.routing_table port target,
  λ c port target. detach-resolves_tcp branch c s.routing_table port target,
  λ id other. others branch id other,
  λ valid b channel e. shutdown_open s.connection_registry valid branch b channel e,
)
  where
    others :
        (b : Option Uuid) (id : Uuid)
        → b ≢ some id
        → Map.get id (detach b s.routing_table).branch_routes
          ≡ Map.get id s.routing_table.branch_routes
    others none id other = unfold detach clear_default_devbox in refl
    others (some j) id other =
        unfold detach in
        (remove_branch_devbox-releases j s.routing_table).2 id (λ e. other (ap some (sym e)))

-- The mode that `upsert_branch_service_route` leaves a branch in.
abbrev pub upserted_mode : ProxyBranchRouteConfig → Option BranchRoute → BranchMode
upserted_mode route old = elim route.devbox_route [
  | none ↦ kept_mode old
  | some devbox ↦
      BranchMode.devbox (devbox_connection_from_config devbox route.branch_environment_id)
]

set_branch_devbox-found :
    (id j : Uuid) (c : DevboxConnection) (t : RoutingTable)
    → Map.get j (set_branch_devbox id c t).1.branch_routes ≡ (
        if id == j
        then map_some (with_mode (BranchMode.devbox c)) (Map.get j t.branch_routes)
        else Map.get j t.branch_routes)
unfolding set_branch_devbox
set_branch_devbox-found id j c t =
    ground
      (arith, get-modify id j (with_mode (BranchMode.devbox c)) t.branch_routes, nat_eq_iff id j)

override-get :
    (devbox : Option DevboxRouteConfig) (id j : Uuid) (t : RoutingTable)
    → Map.get j (override devbox id t).branch_routes ≡ elim devbox [
      | none ↦ Map.get j t.branch_routes
      | some config ↦
          if id == j
          then map_some
              (with_mode (BranchMode.devbox (devbox_connection_from_config config id)))
              (Map.get j t.branch_routes)
          else Map.get j t.branch_routes
    ]
unfolding override
override-get none id j t = refl
override-get (some config) id j t =
    set_branch_devbox-found id j (devbox_connection_from_config config id) t

-- `upsert_branch_service_route` refuses a configuration without a service and then changes nothing.
-- Otherwise the branch has the configuration's service route, in the mode of the devbox that the
-- configuration brings or else in the mode it had, and no other branch changes.
pub upsert_branch_service_route-updates :
    (route : ProxyBranchRouteConfig) (s : SidecarProxyRpcServer)
    → (is_empty route.service_names ≡ true
        → upsert_branch_service_route route s
          ≡ (err "Missing service_names for branch service route update", s))
      × (is_empty route.service_names ≡ false
          → (id : Uuid)
          → Map.get id (upsert_branch_service_route route s).1.routing_table.branch_routes ≡ (
              if route.branch_environment_id == id
              then some (record {
                service = service_route_from_config route;
                mode = upserted_mode route (Map.get id s.routing_table.branch_routes);
              })
              else Map.get id s.routing_table.branch_routes))
unfolding upsert_branch_service_route
upsert_branch_service_route-updates route s = (
  λ empty. ground arith,
  λ named id. ground (
    arith,
    override-get route.devbox_route route.branch_environment_id id (
        Routing.upsert_branch_service_route route.branch_environment_id
          (service_route_from_config route) s.routing_table),
    (upsert_branch_service_route-get route.branch_environment_id id
        (service_route_from_config route) s.routing_table).0,
    nat_eq_iff route.branch_environment_id id,
  ),
)
