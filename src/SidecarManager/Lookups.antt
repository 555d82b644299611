-- ===== src/SidecarManager/Lookups.antt =====
-- Which route is remembered for a workload after each operation on the remembered routes.
use lapdev.Base.{
  ◌≡◌, refl, Bool, true, false, ◌&&◌, Option, none, some, [], ◌∷◌, arith, ◌==◌, nat_key, option_key,
  nat_eq_iff, if◌then◌else◌, IsDistinct, Option-cases, Bool-cases, inl, inr,
}
use lapdev.Base.Map
use lapdev.Base.Map.{Map, is_some, map_some, unwrap_or, get-insert, get-remove, contains-keys}
use lapdev.Sidecar.Types.{Uuid}
use lapdev.Sidecar.Rpc.{DevboxRouteConfig, is_empty}
use lapdev.SidecarManager.{SidecarProxyManager}
use lapdev.SidecarManager.Snapshots.{
  snapshots_of, snapshot_devbox_routes_for_environment, upsert_devbox_route_snapshot, with_routes,
  is_of_branch, remove_devbox_route_snapshot, devbox_route_for_workload, is_retained, retain_routes,
  prune_devbox_route_snapshot,
}

pub upsert_devbox_route_snapshot-lookup :
    (e : Uuid) (route : DevboxRouteConfig) (m : SidecarProxyManager) (d w : Uuid)
    → devbox_route_for_workload d w (upsert_devbox_route_snapshot e route m)
      ≡ (if e == d && route.workload_id == w then some route else devbox_route_for_workload d w m)
unfolding upsert_devbox_route_snapshot devbox_route_for_workload Map.get
upsert_devbox_route_snapshot-lookup e route m d w =
    let longer = Map.insert route.workload_id route (snapshots_of e m) in
    ground (
      arith,
      get-insert e d longer m.devbox_route_snapshots,
      get-insert route.workload_id w route (snapshots_of e m),
      nat_eq_iff e d,
      nat_eq_iff route.workload_id w,
    )

pub snapshot_devbox_routes_for_environment-lookup :
    (e : Uuid) (routes : Map Uuid DevboxRouteConfig) (m : SidecarProxyManager) (d w : Uuid)
    → devbox_route_for_workload d w (snapshot_devbox_routes_for_environment e routes m).1
      ≡ (if e == d then Map.get w routes else devbox_route_for_workload d w m)
unfolding snapshot_devbox_routes_for_environment devbox_route_for_workload
snapshot_devbox_routes_for_environment-lookup e routes m d w =
    ground (arith, get-insert e d routes m.devbox_route_snapshots, nat_eq_iff e d)

no_routes : (w : Uuid) → Map.get {K = Uuid} {V = DevboxRouteConfig} w [] ≡ none
unfolding Map.get
no_routes w = refl

empty_routes :
    (w : Uuid) (routes : Map Uuid DevboxRouteConfig)
    → is_empty routes ≡ true
    → Map.get w routes ≡ none
unfolding Map.get
empty_routes w [] h = refl
empty_routes w (x ∷ routes) h = cc

with_routes-lookup :
    (e : Uuid) (routes : Map Uuid DevboxRouteConfig) (m : SidecarProxyManager) (d w : Uuid)
    → devbox_route_for_workload d w (with_routes e routes m)
      ≡ (if e == d then Map.get w routes else devbox_route_for_workload d w m)
unfolding with_routes devbox_route_for_workload
with_routes-lookup e routes m d w = ground (
  arith,
  get-insert e d routes m.devbox_route_snapshots,
  get-remove e d m.devbox_route_snapshots,
  empty_routes w routes,
  nat_eq_iff e d,
)

missing_route :
    (e w : Uuid) (m : SidecarProxyManager)
    → Map.get e m.devbox_route_snapshots ≡ none
    → devbox_route_for_workload e w m ≡ none
unfolding devbox_route_for_workload
missing_route e w m h = rw (h, devbox_route_for_workload) refl

found_route :
    (e w : Uuid) (m : SidecarProxyManager) (routes : Map Uuid DevboxRouteConfig)
    → Map.get e m.devbox_route_snapshots ≡ some routes
    → devbox_route_for_workload e w m ≡ Map.get w routes
unfolding devbox_route_for_workload
found_route e w m routes h = rw (h, devbox_route_for_workload) refl

-- Whether the route that is remembered for a workload is of a branch.
abbrev pub remembers : Uuid → Uuid → Option Uuid → SidecarProxyManager → Bool
remembers e w branch m = elim (devbox_route_for_workload e w m) [
  | none ↦ false
  | some route ↦ route.branch_environment_id == branch
]

pub remove_devbox_route_snapshot-answer :
    (e w : Uuid) (branch : Option Uuid) (m : SidecarProxyManager)
    → (remove_devbox_route_snapshot e w branch m).0 ≡ remembers e w branch m
unfolding remove_devbox_route_snapshot devbox_route_for_workload
remove_devbox_route_snapshot-answer e w branch m = ground arith

pub remove_devbox_route_snapshot-lookup :
    (e w : Uuid) (branch : Option Uuid) (m : SidecarProxyManager) (d v : Uuid)
    → devbox_route_for_workload d v (remove_devbox_route_snapshot e w branch m).1 ≡ (
        if e == d && w == v && remembers e w branch m
        then none
        else devbox_route_for_workload d v m)
unfolding remove_devbox_route_snapshot
remove_devbox_route_snapshot-lookup e w branch m d v =
    elim (Option-cases (Map.get e m.devbox_route_snapshots)) [
      | inl missing ↦
          rw (missing, remove_devbox_route_snapshot)
            (ground (arith, missing, missing_route e v m missing, nat_eq_iff e d))
      | inr (routes, found) ↦
          let should_remove = unwrap_or false (map_some (is_of_branch branch) (Map.get w routes)) in
          let answer : remembers e w branch m ≡ should_remove =
            ground (arith, found_route e w m routes found) in
          rw (found, remove_devbox_route_snapshot, answer)
            (elim (Bool-cases should_remove) [
              | inl removed ↦ rw removed (
                  ground (
                    arith,
                    with_routes-lookup e (Map.remove w routes) m d v,
                    get-remove w v routes,
                    found_route e v m routes found,
                    nat_eq_iff e d,
                    nat_eq_iff w v,
                  ))
              | inr kept ↦ rw kept (
                  ground (
                    arith,
                    with_routes-lookup e routes m d v,
                    found_route e v m routes found,
                    nat_eq_iff e d,
                  ))
            ])
    ]

retain_routes-get :
    (branch : Option Uuid) (w : Uuid) (routes : Map Uuid DevboxRouteConfig)
    → IsDistinct (Map.keys routes)
    → Map.get w (retain_routes branch routes) ≡ (elim (Map.get w routes) [
      | none ↦ none
      | some route ↦ if route.branch_environment_id == branch then none else some route
    ])
unfolding retain_routes Map.get is_retained
retain_routes-get none w [] h = refl
retain_routes-get (some b) w [] h = refl
retain_routes-get none w ((v, route) ∷ routes) (fresh, h) =
    ground (arith, retain_routes-get none w routes h, contains-keys v routes, nat_eq_iff v w)
retain_routes-get (some b) w ((v, route) ∷ routes) (fresh, h) =
    ground (arith, retain_routes-get (some b) w routes h, contains-keys v routes, nat_eq_iff v w)

-- What is left of a remembered route when a branch is cleared.
abbrev pub unless_of : Option Uuid → Option DevboxRouteConfig → Option DevboxRouteConfig
unless_of branch none = none
unless_of branch (some route) = if route.branch_environment_id == branch then none else some route

pub prune_devbox_route_snapshot-lookup :
    (e : Uuid) (branch : Option Uuid) (m : SidecarProxyManager) (d w : Uuid)
    → IsDistinct (Map.keys (snapshots_of e m))
    → devbox_route_for_workload d w (prune_devbox_route_snapshot e branch m) ≡ (
        if e == d
        then unless_of branch (devbox_route_for_workload e w m)
        else devbox_route_for_workload d w m)
unfolding prune_devbox_route_snapshot
prune_devbox_route_snapshot-lookup e branch m d w h =
    elim (Option-cases (Map.get e m.devbox_route_snapshots)) [
      | inl missing ↦
          rw (missing, prune_devbox_route_snapshot)
            (ground (arith, missing_route e w m missing, nat_eq_iff e d))
      | inr (routes, found) ↦
          let distinct : IsDistinct (Map.keys routes) = ground (arith, found, h) in
          rw (found, prune_devbox_route_snapshot)
            (ground (
              arith,
              with_routes-lookup e (retain_routes branch routes) m d w,
              retain_routes-get branch w routes distinct,
              found_route e w m routes found,
              nat_eq_iff e d,
            ))
    ]

pub prune_devbox_route_snapshot-sidecar_proxies :
    (e : Uuid) (branch : Option Uuid) (m : SidecarProxyManager)
    → (prune_devbox_route_snapshot e branch m).sidecar_proxies ≡ m.sidecar_proxies
unfolding prune_devbox_route_snapshot with_routes
prune_devbox_route_snapshot-sidecar_proxies e branch m = ground arith
