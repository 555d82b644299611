-- ===== src/Sidecar/Types.antt =====
-- crates/kube-sidecar-proxy/src/config.rs: the records of the routing table and its decisions.
-- Handles to the endpoint, the RPC client and the tunnel of a devbox connection are left out.
use lapdev.Base.{ℕ, String, Bool, Option}
use lapdev.Base.Int.{ℤ}
use lapdev.Base.Map.{Map}

-- A `Uuid`, as its 128-bit value.
abbrev pub Uuid : Type 0
Uuid = ℕ

pub data AccessLevel : Type 0 where
  personal shared public : AccessLevel

pub record DevboxRouteMetadata : Type 0 where
  pub intercept_id : Uuid
  pub workload_id : Uuid
  pub auth_token : String
  pub websocket_url : String
  pub path_pattern : String
  pub port_mappings : Map ℕ ℕ
  pub created_at_epoch_seconds : Option ℤ
  pub expires_at_epoch_seconds : Option ℤ

pub record DevboxConnection : Type 0 where
  pub metadata : DevboxRouteMetadata
  pub target_environment_id : Uuid

pub record BranchServiceRoute : Type 0 where
  pub service_names : Map ℕ String
  pub headers : Map String String
  pub requires_auth : Bool
  pub access_level : AccessLevel
  pub timeout_ms : Option ℕ

pub data BranchMode : Type 0 where
  service : BranchMode
  devbox : DevboxConnection → BranchMode

pub record BranchRoute : Type 0 where
  pub service : BranchServiceRoute
  pub mode : BranchMode

pub data DefaultRoute : Type 0 where
  local : DefaultRoute
  devbox : DevboxConnection → DefaultRoute

pub record ProxyPortRoute : Type 0 where
  pub proxy_port : ℕ
  pub service_port : ℕ
  pub target_port : ℕ

pub data RouteDecision : Type 0 where
  branch_service : BranchServiceRoute → RouteDecision
  branch_devbox : Uuid → DevboxConnection → ℕ → RouteDecision
  default_devbox : DevboxConnection → ℕ → RouteDecision
  default_local : ℕ → RouteDecision

pub record RoutingTable : Type 0 where
  pub branch_routes : Map Uuid BranchRoute
  pub default_route : DefaultRoute
  pub port_routes : Map ℕ ProxyPortRoute
