-- ===== src/Sidecar/Server/Subscriptions.antt =====
-- What a subscription and a call leave true of the channels of a registry.
use lapdev.Base.{
  ℕ, ◌≡◌, false, some, List, [], ◌∷◌, ◌==◌, nat_key, option_key, option_same_iff, arith, Bool-cases,
  inl, inr,
}
use lapdev.Base.Map
use lapdev.Base.Map.{Map, get-insert, get-remove}
use lapdev.Sidecar.Registry.{
  BranchKey, ConnectionRegistry, subscribe, shutdown_branch, shutdown_branches,
}
use lapdev.Sidecar.Registry.Signals.{
  IsValid, subscribed_at, subscribe-IsValid, shutdown_at, shutdown_open, shutdown_keeps,
  shutdown_branch-IsValid,
}
use lapdev.Sidecar.Rpc
use lapdev.Sidecar.Rpc.{SidecarProxyRpcServer, is_empty}
use lapdev.Sidecar.Server.{
  Change, service_routes, devbox_route, devbox_stopped, route_upserted, route_removed, change,
}

-- A channel that was not signalled is still the one of its branch.
abbrev pub IsCurrent : ConnectionRegistry → BranchKey → ℕ → Type 0
IsCurrent r b c = r.signalled c ≡ false → Map.get b r.branches ≡ some c

-- What every call and every subscription leaves true.
pub record Follows (old new : ConnectionRegistry) : Type 0 where
  pub valid : IsValid old → IsValid new
  pub current : (b : BranchKey) (c : ℕ) → IsValid old → IsCurrent old b c → IsCurrent new b c

Follows-same : (r : ConnectionRegistry) → Follows r r
Follows-same r = record { valid = λ h. h; current = λ b c h i. i }

pub Follows-subscribe :
    (branch : BranchKey) (r : ConnectionRegistry) → Follows r (subscribe branch r).1
unfolding subscribe
Follows-subscribe branch r = record {
  valid = λ h. subscribe-IsValid r h branch;
  current =
      λ b c h i quiet. ground (arith, i, subscribed_at r h branch b, option_same_iff branch b);
}

Follows-shutdown_branch :
    (branch : BranchKey) (r : ConnectionRegistry) → Follows r (shutdown_branch branch r)
Follows-shutdown_branch branch r = record {
  valid = λ h. shutdown_branch-IsValid r h branch;
  current = λ b c h i quiet. elim (Bool-cases (r.signalled c)) [
    | inl told ↦ ground (arith, shutdown_keeps r h branch c told)
    | inr untold ↦
        ground (arith, i untold, shutdown_open r h branch b c (i untold), shutdown_at r h branch b)
  ];
}

Follows-shutdown_branches :
    (branches : List BranchKey) (r : ConnectionRegistry) → Follows r (shutdown_branches branches r)
unfolding shutdown_branches
Follows-shutdown_branches [] r = Follows-same r
Follows-shutdown_branches (branch ∷ branches) r =
    let first = Follows-shutdown_branch branch r in
    let rest = Follows-shutdown_branches branches (shutdown_branch branch r) in
    record {
      valid = λ h. rest.valid (first.valid h);
      current = λ b c h i. rest.current b c (first.valid h) (first.current b c h i);
    }

pub Follows-change :
    (c : Change) (s : SidecarProxyRpcServer)
    → Follows s.connection_registry (change c s).connection_registry
unfolding change Rpc.set_service_routes Rpc.set_devbox_route Rpc.stop_devbox
    Rpc.upsert_branch_service_route Rpc.remove_branch_service_route
Follows-change (service_routes routes) s = Follows-shutdown_branches _ s.connection_registry
Follows-change (devbox_route route) s = elim (Bool-cases (route.workload_id == s.workload_id)) [
  | inl own ↦
      rw (change, Rpc.set_devbox_route, own)
        (Follows-shutdown_branch route.branch_environment_id s.connection_registry)
  | inr other ↦ rw (change, Rpc.set_devbox_route, other) (Follows-same s.connection_registry)
]
Follows-change (devbox_stopped branch) s = Follows-shutdown_branch branch s.connection_registry
Follows-change (route_upserted route) s = elim (Bool-cases (is_empty route.service_names)) [
  | inl nameless ↦
      rw (change, Rpc.upsert_branch_service_route, nameless) (Follows-same s.connection_registry)
  | inr named ↦
      rw (change, Rpc.upsert_branch_service_route, named)
        (Follows-shutdown_branch (some route.branch_environment_id) s.connection_registry)
]
Follows-change (route_removed branch) s =
    Follows-shutdown_branch (some branch) s.connection_registry
