-- ===== src/Sidecar/Server.antt =====
-- crates/kube-sidecar-proxy/src/server.rs: how a connection is routed. A connection reads the routing
-- table under its lock, and subscribes to the connection registry afterwards; between the two, and
-- between any two connections, the calls of Sidecar.Rpc change the table.
mod Subscriptions
pub mod Interleavings
mod Examples
use lapdev.Base.{ℕ, ◌≡◌, String, Option, none, some, List, [], ◌∷◌, nat_key, option_key}
use lapdev.Base.Map
use lapdev.Base.Map.{Map}
use lapdev.Sidecar.Types.{
  Uuid, DevboxConnection, BranchServiceRoute, RouteDecision, branch_service, branch_devbox,
  default_devbox, default_local, RoutingTable,
}
use lapdev.Sidecar.Routing.{
  service_name_for_port, service_port_for_proxy, target_port_for_service, resolve_tcp, resolve_http,
}
use lapdev.Sidecar.Registry.{BranchKey, ConnectionRegistry, subscribe}
use lapdev.Sidecar.Rpc.{
  DevboxRouteConfig, ProxyBranchRouteConfig, SidecarProxyRpcServer, set_service_routes,
  set_devbox_route, stop_devbox, upsert_branch_service_route, remove_branch_service_route,
}

-- Where a connection is relayed to.
pub data Target : Type 0 where
  to_devbox : DevboxConnection → ℕ → Target
  to_service : String → ℕ → Target
  to_local : ℕ → Target

-- What was read of a connection: an HTTP/1 request with the branch in its headers, one that cannot be
-- parsed, or no HTTP.
pub data Detected : Type 0 where
  http : Option Uuid → Detected
  unparsed : Detected
  tcp : Detected

-- The branch to subscribe for, and the target.
abbrev pub Plan : Type 0
Plan = BranchKey × Target

-- The arms of `ProtocolType::Tcp`.
unfoldable pub plan_tcp : ℕ → RouteDecision → Plan
plan_tcp service_port (branch_devbox branch_id connection target_port) =
    (some branch_id, to_devbox connection target_port)
plan_tcp service_port (default_devbox connection target_port) =
    (none, to_devbox connection target_port)
plan_tcp service_port (default_local target_port) = (none, to_local target_port)
plan_tcp service_port (branch_service _) = (none, to_local service_port)

-- The arms of `handle_http_proxy`: nothing where the branch has no service on the port.
unfoldable pub plan_http : ℕ → Option Uuid → RouteDecision → Option Plan
plan_http service_port branch_id (branch_service service) =
    elim (service_name_for_port service service_port) [
      | none ↦ none
      | some service_name ↦ some (branch_id, to_service service_name service_port)
    ]
plan_http service_port branch_id (branch_devbox branch_env_id connection target_port) =
    some (some branch_env_id, to_devbox connection target_port)
plan_http service_port branch_id (default_devbox connection target_port) =
    some (none, to_devbox connection target_port)
plan_http service_port branch_id (default_local target_port) = some (none, to_local target_port)

unfoldable pub plan_connection : ℕ → Detected → RoutingTable → Option Plan
plan_connection proxy_port (http branch_id) table =
    let service_port = service_port_for_proxy proxy_port table in
    plan_http service_port branch_id (resolve_http service_port branch_id table)
plan_connection proxy_port unparsed table =
    some (none, to_local (target_port_for_service (service_port_for_proxy proxy_port table) table))
plan_connection proxy_port tcp table =
    let service_port = service_port_for_proxy proxy_port table in
    some (plan_tcp service_port (resolve_tcp service_port table))

-- A connection that is relayed: the branch and the channel of its receiver, and its target.
pub record Relay : Type 0 where
  pub branch : BranchKey
  pub shutdown_rx : ℕ
  pub target : Target

-- The connections are numbered; some are planned and not yet subscribed, some are relayed.
pub record Server : Type 0 where
  pub sidecar : SidecarProxyRpcServer
  pub planned : Map ℕ Plan
  pub relayed : Map ℕ Relay

pub data Change : Type 0 where
  service_routes : List ProxyBranchRouteConfig → Change
  devbox_route : DevboxRouteConfig → Change
  devbox_stopped : Option Uuid → Change
  route_upserted : ProxyBranchRouteConfig → Change
  route_removed : Uuid → Change

unfoldable pub change : Change → SidecarProxyRpcServer → SidecarProxyRpcServer
change (service_routes routes) s = (set_service_routes routes s).1
change (devbox_route route) s = (set_devbox_route route s).1
change (devbox_stopped branch) s = (stop_devbox branch s).1
change (route_upserted route) s = (upsert_branch_service_route route s).1
change (route_removed branch) s = (remove_branch_service_route branch s).1

unfoldable pub start_relay : ℕ → Plan → Server → Server
start_relay id plan s =
    let subscription = subscribe plan.0 s.sidecar.connection_registry in
    record {
      sidecar = record s.sidecar { connection_registry = subscription.1 };
      planned = Map.remove id s.planned;
      relayed =
          Map.insert id (record { branch = plan.0; shutdown_rx = subscription.0; target = plan.1 })
            s.relayed;
    }

-- One step of a connection, or one call; a connection ends at any time.
pub data Step : Server → Server → Type 0 where
  planned_connection :
      (s : Server) (id proxy_port : ℕ) (detected : Detected) (plan : Plan)
      → plan_connection proxy_port detected s.sidecar.routing_table ≡ some plan
      → Step s (record s { planned = Map.insert id plan s.planned })
  subscribed_connection :
      (s : Server) (id : ℕ) (plan : Plan)
      → Map.get id s.planned ≡ some plan
      → Step s (start_relay id plan s)
  called : (s : Server) (c : Change) → Step s (record s { sidecar = change c s.sidecar })
  ended : (s : Server) (id : ℕ) → Step s (record s { relayed = Map.remove id s.relayed })

pub data Reach (s : Server) : Server → Type 0 where
  here : Reach s s
  next : {t u : Server} → Reach s t → Step t u → Reach s u
