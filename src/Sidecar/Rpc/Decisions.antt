-- ===== src/Sidecar/Rpc/Decisions.antt =====
-- Where requests go after a devbox route was set.
use lapdev.Base.{
  ℕ, ◌≡◌, ◌≢◌, refl, ap, ◌∙◌, Bool, false, ◌&&◌, Option, none, some, List, [], ◌∷◌, arith,
  if◌then◌else◌, ◌==◌, nat_key, nat_eq_iff, option_key,
}
use lapdev.Base.Map
use lapdev.Base.Map.{Map, is_some}
use lapdev.Sidecar.Types.{Uuid, DevboxConnection, RoutingTable, branch_devbox, default_devbox}
use lapdev.Sidecar.Routing.{
  or_else, resolve_http, resolve_tcp, resolve_target_port, set_default_devbox,
}
use lapdev.Sidecar.Routing.Devboxes.{resolve_http-set_branch_devbox}
use lapdev.Sidecar.Rpc.{
  DevboxRouteConfig, SidecarProxyRpcServer, ok, devbox_connection_from_config, attach,
  set_devbox_route,
}

-- The port of the first mapping for a port, and else the port itself.
abbrev pub mapped_port : List (ℕ × ℕ) → ℕ → ℕ
mapped_port [] port = port
mapped_port ((from, to) ∷ mappings) port =
    let rest = mapped_port mappings port in if from == port then to else rest

-- Whether a request names a branch that has a route.
abbrev pub names_branch : Option Uuid → RoutingTable → Bool
names_branch none t = false
names_branch (some id) t = is_some (Map.get id t.branch_routes)

or_else-get :
    (mappings : List (ℕ × ℕ)) (port : ℕ)
    → or_else (Map.get port mappings) port ≡ mapped_port mappings port
unfolding Map.get
or_else-get [] port = refl
or_else-get ((from, to) ∷ mappings) port =
    ground (arith, or_else-get mappings port, nat_eq_iff from port)

resolve_target_port-mapped_port :
    (c : DevboxConnection) (port : ℕ)
    → resolve_target_port c port ≡ mapped_port c.metadata.port_mappings port
unfolding resolve_target_port
resolve_target_port-mapped_port c port = or_else-get c.metadata.port_mappings port

resolve_http-set_default_devbox :
    (c : DevboxConnection) (t : RoutingTable) (port : ℕ) (named : Option Uuid)
    → resolve_http port named (set_default_devbox c t) ≡ (
        if names_branch named t
        then resolve_http port named t
        else default_devbox c (resolve_target_port c port))
unfolding resolve_http resolve_tcp set_default_devbox
resolve_http-set_default_devbox c t port none = refl
resolve_http-set_default_devbox c t port (some id) = ground arith

resolve_http-attach :
    (b : Uuid) (c : DevboxConnection) (t : RoutingTable) (port : ℕ) (named : Option Uuid)
    → resolve_http port named (attach (some b) c t) ≡ (
        if names_branch named t && (named == some b)
        then branch_devbox b c (resolve_target_port c port)
        else resolve_http port named t)
unfolding attach
resolve_http-attach b c t port none =
    (resolve_http-set_branch_devbox b c t).1 port none ∙ ground arith
resolve_http-attach b c t port (some j) =
    ground (arith, (resolve_http-set_branch_devbox b c t).1 port (some j), nat_eq_iff j b)

set_devbox_route-attach :
    (route : DevboxRouteConfig) (s : SidecarProxyRpcServer)
    → route.workload_id ≡ s.workload_id
    → (set_devbox_route route s).1.routing_table
      ≡ attach route.branch_environment_id
          (devbox_connection_from_config route
            (or_else route.branch_environment_id s.environment_id))
          s.routing_table
unfolding set_devbox_route
set_devbox_route-attach route s own = ground (arith, nat_eq_iff route.workload_id s.workload_id)

-- A devbox route for the workload of the sidecar is taken. If it is of a branch, the requests that name
-- this branch, if it has a route, go to the devbox of the route, at the port of its first mapping for
-- their port, or at their port if it has none; all other requests go where they went before. If it is of no
-- branch, the requests that name a branch with a route go where they went before, and all others go to
-- the devbox, with their ports mapped likewise. A devbox route for another workload changes nothing.
pub set_devbox_route-decides :
    (route : DevboxRouteConfig) (s : SidecarProxyRpcServer) (port : ℕ) (named : Option Uuid)
    → ((b : Uuid)
        → route.workload_id ≡ s.workload_id
        → route.branch_environment_id ≡ some b
        → resolve_http port named (set_devbox_route route s).1.routing_table ≡ (
            if names_branch named s.routing_table && (named == some b)
            then branch_devbox b
                (devbox_connection_from_config route b)
                (mapped_port route.port_mappings port)
            else resolve_http port named s.routing_table))
      × (route.workload_id ≡ s.workload_id
          → route.branch_environment_id ≡ none
          → resolve_http port named (set_devbox_route route s).1.routing_table ≡ (
              if names_branch named s.routing_table
              then resolve_http port named s.routing_table
              else default_devbox
                  (devbox_connection_from_config route s.environment_id)
                  (mapped_port route.port_mappings port)))
      × (route.workload_id ≢ s.workload_id → set_devbox_route route s ≡ (ok, s))
unfolding attach devbox_connection_from_config
set_devbox_route-decides route s port named = (
  λ b own of_b.
      let c = devbox_connection_from_config route b in
      ap (resolve_http port named) (set_devbox_route-attach route s own)
      ∙ ap
          (λ o. resolve_http port named (
            attach o (devbox_connection_from_config route (or_else o s.environment_id))
              s.routing_table))
          of_b
      ∙ resolve_http-attach b c s.routing_table port named
      ∙ ap
          (λ p.
            if names_branch named s.routing_table && (named == some b)
            then branch_devbox b c p
            else resolve_http port named s.routing_table)
          (resolve_target_port-mapped_port c port),
  λ own unowned.
      let c = devbox_connection_from_config route s.environment_id in
      ap (resolve_http port named) (set_devbox_route-attach route s own)
      ∙ ap
          (λ o. resolve_http port named (
            attach o (devbox_connection_from_config route (or_else o s.environment_id))
              s.routing_table))
          unowned
      ∙ resolve_http-set_default_devbox c s.routing_table port named
      ∙ ap
          (λ p.
            if names_branch named s.routing_table
            then resolve_http port named s.routing_table
            else default_devbox c p)
          (resolve_target_port-mapped_port c port),
  λ other. unfold set_devbox_route in ground (arith, nat_eq_iff route.workload_id s.workload_id),
)
