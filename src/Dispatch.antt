-- ===== src/Dispatch.antt =====
-- crates/api/src/kube_controller/mod.rs and crates/kube/src/server.rs: the connected managers of a
-- Kubernetes cluster, and passing the changes of routes on to one of them. A server stands for the
-- connection to a manager, with its number; without an open connection, the call fails.
pub mod Instances
mod Examples
use lapdev.Base.{
  ℕ, ◌+◌, ◌%◌, Bool, true, false, Option, none, some, List, [], ◌∷◌, ltb, ◌==◌, nat_key,
  if◌then◌else◌,
}
use lapdev.Base.Map
use lapdev.Base.Map.{Map, unwrap_or}
use lapdev.Sidecar.Types.{Uuid}
use lapdev.Sidecar.Rpc.{DevboxRouteConfig, ProxyBranchRouteConfig, is_empty}
use lapdev.SidecarManager.{u64_mod}
use lapdev.SidecarManager.Routes.{Cluster, Failure, Outcome, done, failed}
use lapdev.SidecarManager.Routes

abbrev pub Connection : Type 0
Connection = ℕ

pub record KubeController : Type 0 where
  pub kube_cluster_servers : Map Uuid (Map ℕ Connection)
  pub generation_counter : ℕ
  pub managers : Map Connection Cluster

-- `BTreeMap::insert`: the entries stand in the order of their keys.
unfoldable pub insert_in_order : ℕ → Connection → Map ℕ Connection → Map ℕ Connection
insert_in_order generation server [] = (generation, server) ∷ []
insert_in_order generation server ((other, entry) ∷ servers) =
    let rest = insert_in_order generation server servers in
    if ltb other generation
    then (other, entry) ∷ rest
    else if other == generation
    then (generation, server) ∷ servers
    else (generation, server) ∷ (other, entry) ∷ servers

-- The generation of the connection, and the controller with it.
unfoldable pub register : Uuid → Connection → KubeController → ℕ × KubeController
register cluster_id server k =
    let generation = k.generation_counter in
    let servers = unwrap_or [] (Map.get cluster_id k.kube_cluster_servers) in
    (
      generation,
      record k {
        generation_counter = (generation + 1) % u64_mod;
        kube_cluster_servers =
            Map.insert cluster_id (insert_in_order generation server servers)
              k.kube_cluster_servers;
      },
    )

unfoldable pub unregister : Uuid → Option ℕ → KubeController → KubeController
unregister cluster_id none k = k
unregister cluster_id (some generation) k = elim (Map.get cluster_id k.kube_cluster_servers) [
  | none ↦ k
  | some servers ↦
      let left = Map.remove generation servers in
      record k {
        kube_cluster_servers =
            if is_empty left
            then Map.remove cluster_id k.kube_cluster_servers
            else Map.insert cluster_id left k.kube_cluster_servers;
      }
]

pub data Answer : Type 0 where
  delivered : Answer
  no_managers : Uuid → Answer
  not_dispatched : Answer
  not_sent : Answer
  refused : Failure → Answer

abbrev pub answer_of : Outcome → Answer
answer_of done = delivered
answer_of (failed failure) = refused failure

abbrev pub Operation : Type 0
Operation = Cluster → Outcome × Cluster

-- One call of a manager.
unfoldable pub ask :
    Operation → Connection → Map Connection Cluster → Answer × Map Connection Cluster
ask operation server managers = elim (Map.get server managers) [
  | none ↦ (not_sent, managers)
  | some c ↦ let result = operation c in (answer_of result.0, Map.insert server result.1 managers)
]

abbrev pub unless_delivered :
    Answer × Map Connection Cluster
    → (Answer → Map Connection Cluster → Answer × Map Connection Cluster)
    → Answer × Map Connection Cluster
unless_delivered (delivered, managers) next = (delivered, managers)
unless_delivered (no_managers cluster_id, managers) next = next (no_managers cluster_id) managers
unless_delivered (not_dispatched, managers) next = next not_dispatched managers
unless_delivered (not_sent, managers) next = next not_sent managers
unless_delivered (refused failure, managers) next = next (refused failure) managers

-- The loop over `cluster_servers.values()`; `last_err` is the answer so far.
unfoldable pub try_each :
    Operation → Map ℕ Connection → Answer → Map Connection Cluster → Answer × Map Connection Cluster
try_each operation [] last_err managers = (last_err, managers)
try_each operation ((_, server) ∷ servers) last_err managers =
    unless_delivered (ask operation server managers) (try_each operation servers)

unfoldable pub dispatch : Uuid → Operation → KubeController → Answer × KubeController
dispatch cluster_id operation k = elim (Map.get cluster_id k.kube_cluster_servers) [
  | none ↦ (no_managers cluster_id, k)
  | some servers ↦
      let result = try_each operation servers not_dispatched k.managers in
      (result.0, record k { managers = result.1 })
]

unfoldable pub set_devbox_routes :
    Uuid → Uuid → Map Uuid DevboxRouteConfig → KubeController → Answer × KubeController
set_devbox_routes cluster_id environment_id devbox_routes =
    dispatch cluster_id (Routes.set_devbox_routes environment_id devbox_routes)

unfoldable pub set_devbox_route :
    Uuid → Uuid → DevboxRouteConfig → KubeController → Answer × KubeController
set_devbox_route cluster_id environment_id route =
    dispatch cluster_id (Routes.set_devbox_route environment_id route)

unfoldable pub remove_devbox_route :
    Uuid → Uuid → Uuid → Option Uuid → KubeController → Answer × KubeController
remove_devbox_route cluster_id environment_id workload_id branch_environment_id =
    dispatch cluster_id
      (Routes.remove_devbox_route environment_id workload_id branch_environment_id)

unfoldable pub clear_devbox_routes :
    Uuid → Uuid → Option Uuid → KubeController → Answer × KubeController
clear_devbox_routes cluster_id environment_id branch_environment_id =
    dispatch cluster_id (Routes.clear_devbox_routes environment_id branch_environment_id)

unfoldable pub update_branch_service_route :
    Uuid → Uuid → Uuid → ProxyBranchRouteConfig → KubeController → Answer × KubeController
update_branch_service_route cluster_id base_environment_id workload_id route =
    dispatch cluster_id (Routes.upsert_branch_service_route base_environment_id workload_id route)

unfoldable pub remove_branch_service_route :
    Uuid → Uuid → Uuid → Uuid → KubeController → Answer × KubeController
remove_branch_service_route cluster_id base_environment_id workload_id branch_environment_id =
    dispatch cluster_id
      (Routes.remove_branch_service_route base_environment_id workload_id branch_environment_id)
