-- ===== src/SidecarManager/Environments.antt =====
-- The operations on all workloads of an environment: every connected sidecar gets the instruction
-- meant for its workload.
use lapdev.Base.{
  ◌≡◌, refl, ap, ◌∙◌, Option, none, some, List, ◌==◌, nat_key, option_key, if◌then◌else◌,
  IsDistinct, contains, true,
}
use lapdev.Base.Map
use lapdev.Base.Map.{Map, is_some, map_some, unwrap_or, get-insert, get-remove, contains-keys}
use lapdev.Sidecar.Types.{Uuid}
use lapdev.Sidecar.Rpc
use lapdev.Sidecar.Rpc.{DevboxRouteConfig, ProxyBranchRouteConfig, SidecarProxyRpcServer, Reply}
use lapdev.SidecarManager.{
  KubeClusterRpcClient, answered, latest_clients, Client, latest_clients_for_environment,
}
use lapdev.SidecarManager.Routes.{
  Process, Cluster, done, latest, set_devbox_routes, clear_devbox_routes, devbox_routes_not_cleared,
  push_service_routes, service_routes_not_pushed,
}
use lapdev.SidecarManager.Rounds.{
  deliver_all, Connected-manager, Connected, workload_at, instructed, instruction, complaint,
  deliver_all-Connected, send_routes-deliver_all, stop_all-deliver_all,
  push_service_routes-deliver_all,
}
use lapdev.SidecarManager.Snapshots.{
  snapshots_of, snapshot_devbox_routes_for_environment, prune_devbox_route_snapshot,
  devbox_route_for_workload,
}
use lapdev.SidecarManager.Lookups.{
  unless_of, snapshot_devbox_routes_for_environment-lookup, prune_devbox_route_snapshot-lookup,
  prune_devbox_route_snapshot-sidecar_proxies,
}
use lapdev.SidecarManager.Routes.{set_service_routes_if_registered}

-- Sending the devbox routes of an environment, while each of its workloads has one latest client
-- and these lead to running processes of their own, succeeds. A sidecar whose workload has a route
-- is told to take it, one whose workload has none is told to stop the devbox of the branch that was
-- remembered for it, other processes do not change, and the manager remembers exactly the new
-- routes for the environment.
pub set_devbox_routes-Connected :
    (e : Uuid) (sent : Map Uuid DevboxRouteConfig) (c : Cluster) (clients : Map Uuid Client)
    (ends : Map Uuid Process)
    → latest e c ≡ some clients
    → IsDistinct (Map.keys clients)
    → Connected clients ends c
    → ((set_devbox_routes e sent c).0 ≡ done)
      × ((q : Process)
          → Map.get q (set_devbox_routes e sent c).1.sidecars
            ≡ instructed
                (instruction sent (snapshots_of e c.manager))
                (workload_at q ends)
                (Map.get q c.sidecars))
      × ((d w : Uuid)
          → devbox_route_for_workload d w (set_devbox_routes e sent c).1.manager
            ≡ (if e == d then Map.get w sent else devbox_route_for_workload d w c.manager))
unfolding set_devbox_routes latest_clients_for_environment snapshot_devbox_routes_for_environment
set_devbox_routes-Connected e sent c clients ends found distinct connected =
    let previous = snapshots_of e c.manager in
    let after = record c {
      manager = (snapshot_devbox_routes_for_environment e sent c.manager).1;
    } in
    let round =
      deliver_all-Connected (complaint sent) (instruction sent previous) clients ends after (
        Connected-manager clients ends c (snapshot_devbox_routes_for_environment e sent c.manager).1
          connected) in
    rw
      (
        found,
        set_devbox_routes,
        send_routes-deliver_all clients sent sent previous after distinct (λ w known. refl),
      )
      (
        round.0,
        round.3,
        λ d w.
            ap (devbox_route_for_workload d w) round.1
            ∙ snapshot_devbox_routes_for_environment-lookup e sent c.manager d w,
      )

-- Clearing a branch of an environment, or what no branch owns, while the latest clients of the
-- environment lead to running processes of their own and one route at most is remembered for each
-- workload, succeeds. Each of these processes is told to stop the devbox of that branch, no other
-- process changes, and the manager forgets exactly the environment's routes of that branch.
pub clear_devbox_routes-Connected :
    (e : Uuid) (branch : Option Uuid) (c : Cluster) (clients : Map Uuid Client)
    (ends : Map Uuid Process)
    → latest e c ≡ some clients
    → Connected clients ends c
    → IsDistinct (Map.keys (snapshots_of e c.manager))
    → ((clear_devbox_routes e branch c).0 ≡ done)
      × ((q : Process)
          → Map.get q (clear_devbox_routes e branch c).1.sidecars
            ≡ instructed (λ _. Rpc.stop_devbox branch) (workload_at q ends) (Map.get q c.sidecars))
      × ((d w : Uuid)
          → devbox_route_for_workload d w (clear_devbox_routes e branch c).1.manager ≡ (
              if e == d
              then unless_of branch (devbox_route_for_workload e w c.manager)
              else devbox_route_for_workload d w c.manager))
unfolding clear_devbox_routes latest_clients_for_environment
clear_devbox_routes-Connected e branch c clients ends found connected distinct =
    let pruned = prune_devbox_route_snapshot e branch c.manager in
    let after = record c { manager = pruned } in
    let found_after : latest e after ≡ some clients =
      ap (λ table. map_some latest_clients (Map.get e table))
        (prune_devbox_route_snapshot-sidecar_proxies e branch c.manager)
      ∙ found in
    let round =
      deliver_all-Connected devbox_routes_not_cleared (λ _. Rpc.stop_devbox branch) clients ends
        after (Connected-manager clients ends c pruned connected) in
    rw (clear_devbox_routes, found_after, stop_all-deliver_all clients branch after)
      (
        round.0,
        round.3,
        λ d w.
            ap (devbox_route_for_workload d w) round.1
            ∙ prune_devbox_route_snapshot-lookup e branch c.manager d w distinct,
      )

set_service_routes_if_registered-deliver_all :
    (e : Uuid) (c : Cluster) (clients : Map Uuid Client) (cluster_client : KubeClusterRpcClient)
    (listed : Uuid → List ProxyBranchRouteConfig)
    → latest e c ≡ some clients
    → c.manager.kube_cluster_rpc_client ≡ some cluster_client
    → ((w : Uuid)
        → contains w (Map.keys clients) ≡ true
        → cluster_client.list_branch_service_routes e w ≡ answered (listed w))
    → set_service_routes_if_registered e c
      ≡ deliver_all service_routes_not_pushed (λ w. Rpc.set_service_routes (listed w)) clients c
unfolding set_service_routes_if_registered
set_service_routes_if_registered-deliver_all e c clients cluster_client listed found known lists =
    go (latest e c) c.manager.kube_cluster_rpc_client found known
  where
    go :
        (someone : Option (Map Uuid Client)) (api : Option KubeClusterRpcClient)
        → someone ≡ some clients
        → api ≡ some cluster_client
        → (elim someone [
          | none ↦ (done, c)
          | some some_clients ↦ elim api [
            | none ↦ (done, c)
            | some some_api ↦ push_service_routes e some_api some_clients c
          ]
        ])
          ≡ deliver_all service_routes_not_pushed (λ w. Rpc.set_service_routes (listed w)) clients c
    go none api found known = cc
    go (some some_clients) none found known = cc
    go (some some_clients) (some some_api) found known =
        let same_clients : some_clients ≡ clients = cc in
        let same_api : some_api ≡ cluster_client = cc in
        rw (same_clients, same_api)
          (push_service_routes-deliver_all e cluster_client listed clients c lists)

-- Synchronising the service routes of an environment, while the API server answers for each
-- workload of the clients and these lead to sidecars of their own, succeeds: each of these sidecars is
-- given the routes that are listed for its workload, and neither another process nor the manager nor
-- a connection changes.
pub set_service_routes_if_registered-Connected :
    (e : Uuid) (c : Cluster) (clients : Map Uuid Client) (ends : Map Uuid Process)
    (cluster_client : KubeClusterRpcClient) (listed : Uuid → List ProxyBranchRouteConfig)
    → latest e c ≡ some clients
    → Connected clients ends c
    → c.manager.kube_cluster_rpc_client ≡ some cluster_client
    → ((w : Uuid)
        → contains w (Map.keys clients) ≡ true
        → cluster_client.list_branch_service_routes e w ≡ answered (listed w))
    → ((set_service_routes_if_registered e c).0 ≡ done)
      × ((q : Process)
          → Map.get q (set_service_routes_if_registered e c).1.sidecars
            ≡ instructed
                (λ w. Rpc.set_service_routes (listed w))
                (workload_at q ends)
                (Map.get q c.sidecars))
      × ((set_service_routes_if_registered e c).1.manager ≡ c.manager)
      × ((set_service_routes_if_registered e c).1.connections ≡ c.connections)
set_service_routes_if_registered-Connected e c clients ends cluster_client listed found connected
      known lists =
    let round =
      deliver_all-Connected service_routes_not_pushed (λ w. Rpc.set_service_routes (listed w))
        clients ends c connected in
    rw
      (set_service_routes_if_registered-deliver_all e c clients cluster_client listed found known
        lists)
      (round.0, round.3, round.1, round.2)
