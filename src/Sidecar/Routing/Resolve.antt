-- ===== src/Sidecar/Routing/Resolve.antt =====
-- Which requests the branch routes and the default route decide.
use lapdev.Base.{ℕ, ◌≡◌, ◌↔◌, refl, Option, none, some, arith, nat_key, nat_eq_iff}
use lapdev.Base.Map
use lapdev.Base.Map.{map_some}
use lapdev.Sidecar.Types.{Uuid, DevboxConnection, BranchMode, branch_devbox, RoutingTable}
use lapdev.Sidecar.Routing.{resolve_http, resolve_tcp, resolve_branch, resolve_target_port}

-- The mode of a branch's route.
abbrev pub mode_of : Uuid → RoutingTable → Option BranchMode
mode_of id t = map_some (λ route. route.mode) (Map.get id t.branch_routes)

-- A request that names no branch, or a branch without a route, goes where a plain TCP connection goes.
pub resolve_http-eq-resolve_tcp :
    (port : ℕ) (branch : Option Uuid) (t : RoutingTable)
    → ((id : Uuid) → branch ≡ some id → Map.get id t.branch_routes ≡ none)
    → resolve_http port branch t ≡ resolve_tcp port t
unfolding resolve_http
resolve_http-eq-resolve_tcp port none t unknown = refl
resolve_http-eq-resolve_tcp port (some id) t unknown = ground (arith, unknown id refl)

-- A request goes to a branch's devbox exactly if it names the branch and the branch's route is in the
-- mode of that devbox; its port is then the one that the devbox maps the requested port to.
pub resolve_http-branch_devbox_iff :
    (port : ℕ) (branch : Option Uuid) (t : RoutingTable) (id : Uuid) (c : DevboxConnection)
    (target : ℕ)
    → (resolve_http port branch t ≡ branch_devbox id c target) ↔ (
        (branch ≡ some id)
        × (mode_of id t ≡ some (BranchMode.devbox c))
        × (target ≡ resolve_target_port c port))
unfolding resolve_http resolve_tcp resolve_branch
resolve_http-branch_devbox_iff port none t id c target = ground arith
resolve_http-branch_devbox_iff port (some j) t id c target =
    (λ e. ground (arith, nat_eq_iff j id), λ e. ground (arith, nat_eq_iff j id))
