-- ===== src/Sidecar/Server/Interleavings.antt =====
-- Which connections are told that their route changed.
use lapdev.Base.{
  ℕ, ◌≡◌, ◌≢◌, ◌∙◌, true, false, some, [], ◌==◌, nat_key, option_key, option_same_iff, nat_eq_iff,
  arith, Bool-cases, inl, inr,
}
use lapdev.Base.Map
use lapdev.Base.Map.{Map, get-insert, get-remove}
use lapdev.Sidecar.Types.{
  Uuid, DevboxConnection, RouteDecision, branch_service, branch_devbox, default_devbox,
  default_local,
}
use lapdev.Sidecar.Registry.{BranchKey, ConnectionRegistry, subscribe}
use lapdev.Sidecar.Registry.Signals.{
  IsValid, subscribed_at, subscribe-IsValid, shutdown_open, shutdown_keeps,
}
use lapdev.Sidecar.Rpc
use lapdev.Sidecar.Routing.{service_port_for_proxy, resolve_http}
use lapdev.Sidecar.Rpc.{SidecarProxyRpcServer, is_empty}
use lapdev.Sidecar.Rpc.DevboxRoutes.{stop_devbox-stops}
use lapdev.Sidecar.Server.{
  plan_http, plan_connection, http, to_devbox, Plan, Relay, Server, devbox_stopped, change,
  start_relay, Step, planned_connection, subscribed_connection, called, ended, Reach, here, next,
}
use lapdev.Sidecar.Server.Subscriptions.{IsCurrent, Follows-subscribe, Follows-change}

-- Every relayed connection was told of a change, or has the channel that its branch has now.
record IsWatched (s : Server) : Type 0 where
  valid : IsValid s.sidecar.connection_registry
  watched :
      (id : ℕ) (relay : Relay)
      → Map.get id s.relayed ≡ some relay
      → IsCurrent s.sidecar.connection_registry relay.branch relay.shutdown_rx

subscribed-IsCurrent :
    (branch : BranchKey) (r : ConnectionRegistry)
    → IsValid r
    → IsCurrent (subscribe branch r).1 branch (subscribe branch r).0
subscribed-IsCurrent branch r h quiet =
    ground (arith, subscribed_at r h branch branch, option_same_iff branch branch)

Step-IsWatched : {s t : Server} → Step s t → IsWatched s → IsWatched t
unfolding start_relay
Step-IsWatched (planned_connection s id proxy_port detected plan e) h = record {
  valid = h.valid;
  watched = h.watched;
}
Step-IsWatched (subscribed_connection s id plan e) h =
    let r = s.sidecar.connection_registry in
    let follows = Follows-subscribe plan.0 r in
    let relay : Relay = record {
      branch = plan.0;
      shutdown_rx = (subscribe plan.0 r).0;
      target = plan.1;
    } in
    record {
      valid = follows.valid h.valid;
      watched = λ i other found. elim (Bool-cases (id == i)) [
        | inl same ↦
            let is_new : other ≡ relay = ground (arith, get-insert id i relay s.relayed) in
            rw is_new (subscribed-IsCurrent plan.0 r h.valid)
        | inr old ↦
            follows.current other.branch other.shutdown_rx h.valid
              (h.watched i other (ground (arith, get-insert id i relay s.relayed)))
      ];
    }
Step-IsWatched (called s c) h =
    let follows = Follows-change c s.sidecar in
    record {
      valid = follows.valid h.valid;
      watched = λ id relay found.
          follows.current relay.branch relay.shutdown_rx h.valid (h.watched id relay found);
    }
Step-IsWatched (ended s id) h = record {
  valid = h.valid;
  watched = λ i relay found. h.watched i relay (ground (arith, get-remove id i s.relayed));
}

-- The server as it starts.
abbrev pub started : SidecarProxyRpcServer → Server
started sidecar = record { sidecar = sidecar; planned = []; relayed = [] }

started-IsWatched :
    (sidecar : SidecarProxyRpcServer)
    → IsValid sidecar.connection_registry
    → IsWatched (started sidecar)
unfolding Map.get
started-IsWatched sidecar h = record { valid = h; watched = λ id relay found. cc }

Reach-IsWatched : {s t : Server} → Reach s t → IsWatched s → IsWatched t
Reach-IsWatched here h = h
Reach-IsWatched (next reach step) h = Step-IsWatched step (Reach-IsWatched reach h)

-- In every state that a server can reach from one without connections and with a valid registry,
-- whatever connections and calls come in which order, `stop_devbox` for the branch of a connection
-- that is relayed leaves that connection told to shut down.
pub stop_devbox-tells :
    (sidecar : SidecarProxyRpcServer) (s : Server) (id : ℕ) (relay : Relay)
    → IsValid sidecar.connection_registry
    → Reach (started sidecar) s
    → Map.get id s.relayed ≡ some relay
    → (Rpc.stop_devbox relay.branch s.sidecar).1.connection_registry.signalled relay.shutdown_rx
      ≡ true
unfolding Rpc.stop_devbox
stop_devbox-tells sidecar s id relay valid reach found =
    let h = Reach-IsWatched reach (started-IsWatched sidecar valid) in
    let r = s.sidecar.connection_registry in
    elim (Bool-cases (r.signalled relay.shutdown_rx)) [
      | inl told ↦ shutdown_keeps r h.valid relay.branch relay.shutdown_rx told
      | inr untold ↦
          shutdown_open r h.valid relay.branch relay.branch relay.shutdown_rx
            (h.watched id relay found untold)
          ∙ ground (arith, option_same_iff relay.branch relay.branch)
    ]

-- A plan for a branch's devbox comes from the decision for it.
plan_http-devbox :
    (port target : ℕ) (b : Uuid) (c : DevboxConnection) (decision : RouteDecision)
    → plan_http port (some b) decision ≡ some (some b, to_devbox c target)
    → decision ≡ branch_devbox b c target
unfolding plan_http
plan_http-devbox port target b c (branch_service service) h = ground arith
plan_http-devbox port target b c (branch_devbox j d p) h = ground arith
plan_http-devbox port target b c (default_devbox d p) h = ground arith
plan_http-devbox port target b c (default_local p) h = ground arith

-- The steps of a connection that is planned before `stop_devbox` and subscribes after it.
abbrev pub late : SidecarProxyRpcServer → Uuid → DevboxConnection → ℕ → Server
late sidecar b c target =
    let plan : Plan = (some b, to_devbox c target) in
    start_relay 0 plan (record {
      sidecar = change (devbox_stopped (some b)) sidecar;
      planned = Map.insert 0 plan [];
      relayed = [];
    })

-- A request of a branch that is planned for a devbox can stay there after `stop_devbox` for the
-- branch. From a valid registry, a state is reached in which the connection is relayed to the
-- devbox and was not told to shut down, though no request of the branch is planned for that devbox
-- any more.
pub stop_devbox-misses :
    (sidecar : SidecarProxyRpcServer) (proxy_port : ℕ) (b : Uuid) (c : DevboxConnection)
    (target : ℕ)
    → IsValid sidecar.connection_registry
    → plan_connection proxy_port (http (some b)) sidecar.routing_table
      ≡ some (some b, to_devbox c target)
    → let s = late sidecar b c target in
      let channel =
        (subscribe (some b) (Rpc.stop_devbox (some b) sidecar).1.connection_registry).0 in
      Reach (started sidecar) s
      × (Map.get 0 s.relayed
          ≡ some (record { branch = some b; shutdown_rx = channel; target = to_devbox c target }))
      × (s.sidecar.connection_registry.signalled channel ≡ false)
      × ((port other : ℕ)
          → plan_connection port (http (some b)) s.sidecar.routing_table
            ≢ some (some b, to_devbox c other))
unfolding start_relay change plan_connection
stop_devbox-misses sidecar proxy_port b c target valid planned =
    let plan : Plan = (some b, to_devbox c target) in
    let r = (Rpc.stop_devbox (some b) sidecar).1.connection_registry in
    let r_valid : IsValid r = (Follows-change (devbox_stopped (some b)) sidecar).valid valid in
    let after = subscribe-IsValid r r_valid (some b) in
    let at_b : Map.get (some b) (subscribe (some b) r).1.branches ≡ some (subscribe (some b) r).0 =
      ground (arith, subscribed_at r r_valid (some b) (some b), nat_eq_iff b b) in
    let relay : Relay = record {
      branch = some b;
      shutdown_rx = (subscribe (some b) r).0;
      target = to_devbox c target;
    } in
    let first = record (started sidecar) { planned = Map.insert 0 plan [] } in
    let second = record first { sidecar = change (devbox_stopped (some b)) sidecar } in
    (
      next
          (next
            (next here
              (planned_connection (started sidecar) 0 proxy_port (http (some b)) plan planned))
            (called first (devbox_stopped (some b))))
          (subscribed_connection second 0 plan (get-insert 0 0 plan [])),
      get-insert 0 0 relay [],
      after.open_channel (some b) (subscribe (some b) r).0 at_b,
      λ port other e.
          let table = (Rpc.stop_devbox (some b) sidecar).1.routing_table in
          let service_port = service_port_for_proxy port table in
          (stop_devbox-stops (some b) sidecar).0 (some b) c service_port other
            (plan_http-devbox service_port other b c (resolve_http service_port (some b) table) e),
    )
