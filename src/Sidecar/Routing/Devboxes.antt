-- ===== src/Sidecar/Routing/Devboxes.antt =====
-- Attaching devboxes to branches and taking them away.
use lapdev.Base.{
  ℕ, ◌≡◌, ◌≢◌, ◌↔◌, refl, true, false, ◌&&◌, Option, none, some, [], ◌∷◌, arith, if◌then◌else◌,
  ◌==◌, nat_key, nat_eq_iff, option_key, IsDistinct,
}
use lapdev.Base.Map
use lapdev.Base.Map.{
  Map, map_some, is_some, get-modify, get-insert, get-remove, get-map_values, contains-keys,
}
use lapdev.Sidecar.Types.{
  Uuid, DevboxConnection, BranchMode, service, BranchRoute, branch_devbox, RoutingTable,
}
use lapdev.Sidecar.Routing.Resolve.{mode_of}
use lapdev.Sidecar.Routing.{
  resolve_http, resolve_tcp, resolve_branch, resolve_target_port, target_port_for_service,
  with_mode, set_branch_devbox, remove_branch_devbox, clear_branch_devboxes, without_devbox,
  intercepted_by, release_first, remove_branch_devbox_by_intercept,
}

-- `set_branch_devbox` succeeds exactly for a branch that has a route. From then on the requests of
-- that branch go to the devbox, at the port that it maps theirs to; all other requests go where they went
-- before. For a branch without a route nothing changes.
pub resolve_http-set_branch_devbox :
    (id : Uuid) (c : DevboxConnection) (t : RoutingTable)
    → ((set_branch_devbox id c t).0 ≡ is_some (Map.get id t.branch_routes))
      × ((port : ℕ) (branch : Option Uuid)
          → resolve_http port branch (set_branch_devbox id c t).1 ≡ (
              if is_some (Map.get id t.branch_routes) && (branch == some id)
              then branch_devbox id c (resolve_target_port c port)
              else resolve_http port branch t))
unfolding resolve_http resolve_tcp resolve_branch set_branch_devbox target_port_for_service
resolve_http-set_branch_devbox id c t = (ground arith, decided)
  where
    decided :
        (port : ℕ) (branch : Option Uuid)
        → resolve_http port branch (set_branch_devbox id c t).1 ≡ (
            if is_some (Map.get id t.branch_routes) && (branch == some id)
            then branch_devbox id c (resolve_target_port c port)
            else resolve_http port branch t)
    decided port none = ground arith
    decided port (some j) = ground (
      arith,
      nat_eq_iff j id,
      nat_eq_iff id j,
      get-modify id j (with_mode (BranchMode.devbox c)) t.branch_routes,
    )

-- After `remove_branch_devbox` no request goes to a devbox of that branch; the answer says whether
-- there was one; the routes of the other branches are as before.
pub remove_branch_devbox-releases :
    (id : Uuid) (t : RoutingTable)
    → (mode_of id (remove_branch_devbox id t).1 ≡ map_some (λ _. service) (mode_of id t))
      × (((remove_branch_devbox id t).0 ≡ false)
          ↔ (mode_of id (remove_branch_devbox id t).1 ≡ mode_of id t))
      × ((j : Uuid)
          → j ≢ id
          → Map.get j (remove_branch_devbox id t).1.branch_routes ≡ Map.get j t.branch_routes)
unfolding remove_branch_devbox
remove_branch_devbox-releases id t = (
  ground (arith, get-modify id id (with_mode service) t.branch_routes, nat_eq_iff id id),
  (
    λ e. ground (arith, get-modify id id (with_mode service) t.branch_routes, nat_eq_iff id id),
    λ e. ground (arith, get-modify id id (with_mode service) t.branch_routes, nat_eq_iff id id),
  ),
  λ j other. ground (arith, get-modify id j (with_mode service) t.branch_routes, nat_eq_iff id j),
)

-- `clear_branch_devboxes` leaves every branch its service route and no branch a devbox.
pub mode_of-clear_branch_devboxes :
    (id : Uuid) (t : RoutingTable)
    → (mode_of id (clear_branch_devboxes t) ≡ map_some (λ _. service) (mode_of id t))
      × (map_some (λ r. r.service) (Map.get id (clear_branch_devboxes t).branch_routes)
          ≡ map_some (λ r. r.service) (Map.get id t.branch_routes))
unfolding clear_branch_devboxes
mode_of-clear_branch_devboxes id t = (
  ground (arith, get-map_values id without_devbox t.branch_routes),
  ground (arith, get-map_values id without_devbox t.branch_routes),
)

module _ (intercept_id : Uuid) where
  release_first-none :
      (routes : Map Uuid BranchRoute) (j : Uuid)
      → (release_first intercept_id routes).0 ≡ none
      → ((release_first intercept_id routes).1 ≡ routes)
        × (map_some (intercepted_by intercept_id) (Map.get j routes) ≢ some true)
  unfolding release_first Map.get
  release_first-none [] j e = (refl, λ h. cc)
  release_first-none ((k, route) ∷ routes) j e = (
    ground (arith, release_first-none routes j),
    λ h. ground (arith, release_first-none routes j),
  )

  release_first-some :
      (routes : Map Uuid BranchRoute) (id j : Uuid)
      → IsDistinct (Map.keys routes)
      → (release_first intercept_id routes).0 ≡ some id
      → (map_some (intercepted_by intercept_id) (Map.get id routes) ≡ some true)
        × (Map.get j (release_first intercept_id routes).1 ≡ (
            if id == j then map_some (with_mode service) (Map.get j routes) else Map.get j routes))
  unfolding release_first Map.get
  release_first-some [] id j distinct e = cc
  release_first-some ((k, route) ∷ routes) id j (fresh, distinct) e = ground (
    arith,
    release_first-some routes id j distinct,
    nat_eq_iff k id,
    nat_eq_iff k j,
    nat_eq_iff id j,
    contains-keys k routes,
  )

  -- `remove_branch_devbox_by_intercept` answers a branch that the intercept's devbox serves, turns that
  -- branch to its service and leaves all others; it answers none exactly if the intercept's devbox
  -- serves no branch, and then changes nothing.
  pub remove_branch_devbox_by_intercept-releases :
      (t : RoutingTable)
      → IsDistinct (Map.keys t.branch_routes)
      → ((id j : Uuid)
          → (remove_branch_devbox_by_intercept intercept_id t).0 ≡ some id
          → (map_some (intercepted_by intercept_id) (Map.get id t.branch_routes) ≡ some true)
            × (Map.get j (remove_branch_devbox_by_intercept intercept_id t).1.branch_routes ≡ (
                if id == j
                then map_some (with_mode service) (Map.get j t.branch_routes)
                else Map.get j t.branch_routes)))
        × ((remove_branch_devbox_by_intercept intercept_id t).0 ≡ none
            → ((remove_branch_devbox_by_intercept intercept_id t).1 ≡ t)
              × ((j : Uuid)
                  → map_some (intercepted_by intercept_id) (Map.get j t.branch_routes) ≢ some true))
  unfolding remove_branch_devbox_by_intercept
  remove_branch_devbox_by_intercept-releases t distinct = (
    λ id j e. release_first-some t.branch_routes id j distinct e,
    λ e. (
      rw ((release_first-none t.branch_routes 0 e).0) refl,
      λ j. (release_first-none t.branch_routes j e).1,
    ),
  )
