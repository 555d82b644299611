-- ===== src/Sidecar/Server/Examples.antt =====
-- A request that is sent to a devbox while its branch's devbox is stopped.
use lapdev.Base.{◌≡◌, refl, true, false, none, some, [], ◌∷◌, nat_key, option_key}
use lapdev.Base.Map
use lapdev.Sidecar.Types.{AccessLevel, BranchMode, DevboxConnection, local}
use lapdev.Sidecar.Routing.{
  service_port_for_proxy, resolve_http, resolve_branch, resolve_target_port,
}
use lapdev.Sidecar.Registry.{empty, subscribe}
use lapdev.Sidecar.Registry.Signals.{empty-IsValid}
use lapdev.Sidecar.Rpc.{SidecarProxyRpcServer, stop_devbox}
use lapdev.Sidecar.Server.{to_devbox, http, plan_connection, plan_http}
use lapdev.Sidecar.Server.Interleavings.{late, stop_devbox-tells, stop_devbox-misses}

abbrev laptop : DevboxConnection
laptop = record {
  metadata = record {
    intercept_id = 5;
    workload_id = 3;
    auth_token = "token";
    websocket_url = "wss://ws";
    path_pattern = "/*";
    port_mappings = (8080, 3000) ∷ [];
    created_at_epoch_seconds = none;
    expires_at_epoch_seconds = none;
  };
  target_environment_id = 1;
}

abbrev sidecar : SidecarProxyRpcServer
sidecar = record {
  workload_id = 3;
  environment_id = 9;
  namespace = "shop";
  routing_table = record {
    branch_routes =
        (
          1,
          record {
            service = record {
              service_names = (8080, "api-branch") ∷ [];
              headers = [];
              requires_auth = true;
              access_level = AccessLevel.personal;
              timeout_ms = none;
            };
            mode = BranchMode.devbox laptop;
          },
        )
        ∷ [];
    default_route = local;
    port_routes =
        (26001, record { proxy_port = 26001; service_port = 8080; target_port = 80 }) ∷ [];
  };
  connection_registry = empty;
}

planned_for_laptop :
    plan_connection 26001 (http (some 1)) sidecar.routing_table
    ≡ some (some 1, to_devbox laptop 3000)
unfolding plan_connection plan_http service_port_for_proxy resolve_http resolve_branch
    resolve_target_port Map.get
planned_for_laptop = refl

stop_devbox-misses_example :
    (late sidecar 1 laptop 3000).sidecar.connection_registry.signalled
      (subscribe (some 1) (stop_devbox (some 1) sidecar).1.connection_registry).0
    ≡ false
stop_devbox-misses_example =
    (stop_devbox-misses sidecar 26001 1 laptop 3000 empty-IsValid planned_for_laptop).2

stop_devbox-tells_example :
    (stop_devbox (some 1) (late sidecar 1 laptop 3000).sidecar).1.connection_registry.signalled
      (subscribe (some 1) (stop_devbox (some 1) sidecar).1.connection_registry).0
    ≡ true
stop_devbox-tells_example =
    stop_devbox-tells sidecar (late sidecar 1 laptop 3000) 0
      (record {
        branch = some 1;
        shutdown_rx = (subscribe (some 1) (stop_devbox (some 1) sidecar).1.connection_registry).0;
        target = to_devbox laptop 3000;
      })
      empty-IsValid
      (stop_devbox-misses sidecar 26001 1 laptop 3000 empty-IsValid planned_for_laptop).0
      (stop_devbox-misses sidecar 26001 1 laptop 3000 empty-IsValid planned_for_laptop).1
