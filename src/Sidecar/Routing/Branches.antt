-- ===== src/Sidecar/Routing/Branches.antt =====
-- Replacing the routes of the branches, all at once or one by one.
use lapdev.Base.{
  ◌≡◌, refl, true, Option, none, some, List, [], ◌∷◌, arith, if◌then◌else◌, ◌==◌, nat_key,
  nat_eq_iff, IsDistinct,
}
use lapdev.Base.Map
use lapdev.Base.Map.{
  Map, map_some, is_some, get-modify, get-insert, get-remove, get-map_values, contains-keys,
}
use lapdev.Sidecar.Types.{Uuid, BranchServiceRoute, BranchMode, service, BranchRoute, RoutingTable}
use lapdev.Sidecar.Routing.{
  replace_from, replace_branch_routes, upsert_branch_service_route, remove_branch_service_route,
}

-- The mode that a branch keeps: that of its old route, or the service where it had none.
abbrev pub kept_mode : Option BranchRoute → BranchMode
kept_mode none = service
kept_mode (some route) = route.mode

abbrev pub updated : Option BranchRoute → BranchServiceRoute → BranchRoute
updated old service_route = record { service = service_route; mode = kept_mode old }

replace_from-get :
    (old_routes new_routes : Map Uuid BranchRoute) (routes : List (Uuid × BranchServiceRoute))
    (id : Uuid)
    → IsDistinct (Map.keys routes)
    → Map.get id (replace_from old_routes new_routes routes) ≡ elim (Map.get id routes) [
      | none ↦ Map.get id new_routes
      | some service_route ↦ some (updated (Map.get id old_routes) service_route)
    ]
unfolding replace_from Map.get
replace_from-get old_routes new_routes [] id distinct = refl
replace_from-get old_routes new_routes ((env_id, service_route) ∷ routes) id (fresh, distinct) =
    ground (
      arith,
      replace_from-get (Map.remove env_id old_routes)
          (Map.insert env_id (updated (Map.get env_id old_routes) service_route) new_routes) routes
          id distinct,
      replace_from-get old_routes (Map.insert env_id (updated none service_route) new_routes) routes
          id distinct,
      get-remove env_id id old_routes,
      get-insert env_id id (updated (Map.get env_id old_routes) service_route) new_routes,
      get-insert env_id id (updated none service_route) new_routes,
      nat_eq_iff env_id id,
      contains-keys env_id routes,
    )

-- With one entry for each branch, `replace_branch_routes` leaves exactly the branches of the new
-- list, each with its new service route, in the mode of its old route or, where it had none, of the
-- service.
pub replace_branch_routes-get :
    (routes : List (Uuid × BranchServiceRoute)) (t : RoutingTable) (id : Uuid)
    → IsDistinct (Map.keys routes)
    → Map.get id (replace_branch_routes routes t).branch_routes
      ≡ map_some (updated (Map.get id t.branch_routes)) (Map.get id routes)
unfolding replace_branch_routes Map.get
replace_branch_routes-get routes t id distinct =
    ground (arith, replace_from-get t.branch_routes [] routes id distinct)

upsert_lem :
    (id j : Uuid) (route : BranchServiceRoute) (t : RoutingTable)
    → Map.get j (upsert_branch_service_route id route t).branch_routes ≡ (
        if id == j
        then some (updated (Map.get id t.branch_routes) route)
        else Map.get j t.branch_routes)
unfolding upsert_branch_service_route
upsert_lem id j route t = ground (
  arith,
  get-insert id j (updated (Map.get id t.branch_routes) route) (Map.remove id t.branch_routes),
  get-insert id j (updated none route) t.branch_routes,
  get-remove id j t.branch_routes,
)

-- `upsert_branch_service_route` gives the branch the new service route in the mode that it had, or of
-- the service, and changes no other branch; `remove_branch_service_route` after it brings back every
-- other branch and leaves that one without a route.
pub upsert_branch_service_route-get :
    (id j : Uuid) (route : BranchServiceRoute) (t : RoutingTable)
    → (Map.get j (upsert_branch_service_route id route t).branch_routes ≡ (
        if id == j
        then some (updated (Map.get id t.branch_routes) route)
        else Map.get j t.branch_routes))
      × (Map.get j
            (remove_branch_service_route id
              (upsert_branch_service_route id route t)).1.branch_routes
          ≡ (if id == j then none else Map.get j t.branch_routes))
      × ((remove_branch_service_route id (upsert_branch_service_route id route t)).0 ≡ true)
unfolding remove_branch_service_route
upsert_branch_service_route-get id j route t =
    let after = upsert_branch_service_route id route t in
    (
      upsert_lem id j route t,
      ground (arith, get-remove id j after.branch_routes, upsert_lem id j route t),
      ground (arith, upsert_lem id id route t, nat_eq_iff id id),
    )
