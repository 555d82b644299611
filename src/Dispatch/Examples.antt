-- ===== src/Dispatch/Examples.antt =====
-- A cluster with two managers, of which the second serves the environment 7.
use lapdev.Base.{ℕ, ◌≡◌, refl, none, some, [], ◌∷◌, arith, nat_key, any}
use lapdev.Base.Map
use lapdev.Base.Map.{Map}
use lapdev.Sidecar.Rpc.{DevboxRouteConfig}
use lapdev.SidecarManager
use lapdev.SidecarManager.{latest_clients_for_environment}
use lapdev.SidecarManager.Routes.{Cluster}
use lapdev.SidecarManager.Routes
use lapdev.Dispatch.{KubeController, Connection, dispatch, set_devbox_route}
use lapdev.Dispatch.Instances.{accepts, is_delivered, dispatch-delivered, set_devbox_route-first}

abbrev idle : Cluster
idle = record { manager = SidecarManager.new; connections = []; sidecars = [] }

abbrev serving : Cluster
serving = record idle {
  manager = record SidecarManager.new {
    sidecar_proxies = (7, (3, (1, 20) ∷ []) ∷ []) ∷ [];
    generation_counter = 2;
  };
}

abbrev instances : Map ℕ Connection
instances = (1, 50) ∷ (2, 51) ∷ []

abbrev controller : KubeController
controller = record {
  kube_cluster_servers = (4, instances) ∷ [];
  generation_counter = 3;
  managers = (50, idle) ∷ (51, serving) ∷ [];
}

abbrev laptop : DevboxRouteConfig
laptop = record {
  intercept_id = 5;
  workload_id = 3;
  auth_token = "token";
  websocket_url = "wss://ws";
  path_pattern = "/*";
  branch_environment_id = some 1;
  created_at_epoch_seconds = none;
  expires_at_epoch_seconds = none;
  port_mappings = [];
}

set_devbox_route-first_example :
    Map.get 51 (set_devbox_route 4 7 laptop controller).1.managers ≡ some serving
unfolding Map.get latest_clients_for_environment
set_devbox_route-first_example =
    (set_devbox_route-first 4 7 laptop controller 1 50 ((2, 51) ∷ []) idle refl refl refl).1 51
      (λ e. ground arith)

dispatch-delivered_example :
    is_delivered (dispatch 4 (Routes.remove_devbox_route 7 3 none) controller).0
    ≡ any (accepts (Routes.remove_devbox_route 7 3 none) controller.managers) instances
unfolding Map.get
dispatch-delivered_example =
    dispatch-delivered 4 (Routes.remove_devbox_route 7 3 none) controller instances refl
      (refl, (refl, tt))
