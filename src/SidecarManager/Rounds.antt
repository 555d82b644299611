-- ===== src/SidecarManager/Rounds.antt =====
-- The loops over all workloads of an environment: `set_devbox_routes`, `clear_devbox_routes` and
-- `set_service_routes_if_registered` give every connected sidecar its own instruction.
use lapdev.Base.{
  ◌≡◌, refl, ap, ◌∙◌, true, false, Option, none, some, List, [], ◌∷◌, arith, ◌==◌, nat_key,
  option_key, nat_eq_iff, if◌then◌else◌, Option-cases, Bool-cases, inl, inr, contains, IsDistinct,
}
use lapdev.Base.Map
use lapdev.Base.Map.{Map, is_some, map_some, unwrap_or, get-insert, get-remove, contains-keys}
use lapdev.Sidecar.Types.{Uuid}
use lapdev.Sidecar.Rpc
use lapdev.Sidecar.Rpc.{DevboxRouteConfig, ProxyBranchRouteConfig, SidecarProxyRpcServer, Reply}
use lapdev.SidecarManager.{KubeClusterRpcClient, answered, Client, SidecarProxyManager}
use lapdev.SidecarManager.Routes.{
  Process, Cluster, Failure, Outcome, done, Handler, call, sent_or, and_then, send_routes, stop_all,
  devbox_routes_not_sent, devbox_routes_not_cleared, push_service_routes, service_routes_not_pushed,
}
use lapdev.SidecarManager.Delivery.{call-Reaches}

-- Each workload's client leads to a running process, and no two to the same.
abbrev pub Connected : Map Uuid Client → Map Uuid Process → Cluster → Type 0
Connected [] [] c = Unit
Connected ((w, client) ∷ clients) ((v, p) ∷ ends) c =
    (w ≡ v)
    × (Map.get client c.connections ≡ some p)
    × (is_some (Map.get p c.sidecars) ≡ true)
    × (contains p (Map.values ends) ≡ false)
    × Connected clients ends c
Connected _ _ c = ⊥

-- The workload that a process serves.
abbrev pub workload_at : Process → Map Uuid Process → Option Uuid
workload_at q [] = none
workload_at q ((w, p) ∷ ends) = if p == q then some w else workload_at q ends

-- A process after the instruction for its workload.
abbrev pub instructed :
    (Uuid → Handler) → Option Uuid → Option SidecarProxyRpcServer → Option SidecarProxyRpcServer
instructed handler none s = s
instructed handler (some w) s = map_some (λ state. (handler w state).1) s

-- One loop for the three.
module _ (failure : Uuid → Failure) (handler : Uuid → Handler) where
  pub deliver_all : Map Uuid Client → Cluster → Outcome × Cluster
  deliver_all [] c = (done, c)
  deliver_all ((w, client) ∷ clients) c =
      and_then (sent_or (failure w) (call client (handler w) c)) (deliver_all clients)

  Connected-insert :
      (clients : Map Uuid Client) (ends : Map Uuid Process) (c : Cluster) (p : Process)
      (s : SidecarProxyRpcServer)
      → Connected clients ends c
      → Connected clients ends (record c { sidecars = Map.insert p s c.sidecars })
  Connected-insert [] [] c p s h = tt
  Connected-insert [] (_ ∷ ends) c p s h = elim h [ ]
  Connected-insert ((w, client) ∷ clients) [] c p s h = elim h [ ]
  Connected-insert ((w, client) ∷ clients) ((v, q) ∷ ends) c p s (same, link, running, fresh, h) = (
    same,
    link,
    ground (arith, get-insert p q s c.sidecars),
    fresh,
    Connected-insert clients ends c p s h,
  )

  workload_at-fresh :
      (q : Process) (ends : Map Uuid Process)
      → contains q (Map.values ends) ≡ false
      → workload_at q ends ≡ none
  workload_at-fresh q [] h = refl
  workload_at-fresh q ((w, p) ∷ ends) h = ground (arith, workload_at-fresh q ends)

  pub deliver_all-Connected :
      (clients : Map Uuid Client) (ends : Map Uuid Process) (c : Cluster)
      → Connected clients ends c
      → ((deliver_all clients c).0 ≡ done)
        × ((deliver_all clients c).1.manager ≡ c.manager)
        × ((deliver_all clients c).1.connections ≡ c.connections)
        × ((q : Process)
            → Map.get q (deliver_all clients c).1.sidecars
              ≡ instructed handler (workload_at q ends) (Map.get q c.sidecars))
  unfolding deliver_all
  deliver_all-Connected [] [] c h = (refl, refl, refl, λ q. refl)
  deliver_all-Connected [] (_ ∷ ends) c h = elim h [ ]
  deliver_all-Connected ((w, client) ∷ clients) [] c h = elim h [ ]
  deliver_all-Connected ((w, client) ∷ clients) ((v, p) ∷ ends) c (same, link, running, fresh, h) =
      elim (Option-cases (Map.get p c.sidecars)) [
        | inl absent ↦ ground (arith, absent)
        | inr (s, found) ↦
            let after = record c { sidecars = Map.insert p (handler w s).1 c.sidecars } in
            let rest =
              deliver_all-Connected clients ends after
                (Connected-insert clients ends c p (handler w s).1 h) in
            rw (call-Reaches c client p s (handler w) link found) (
              rest.0,
              rest.1,
              rest.2,
              λ q. rest.3 q ∙ elim (Bool-cases (p == q)) [
                | inl here ↦ ground (
                  arith,
                  workload_at-fresh q ends,
                  get-insert p q (handler w s).1 c.sidecars,
                  nat_eq_iff p q,
                )
                | inr there ↦ rw there (
                    ap (instructed handler (workload_at q ends))
                      (get-insert p q (handler w s).1 c.sidecars ∙ rw there refl))
              ],
            )
      ]

-- The instruction of `set_devbox_routes` for a workload.
unfoldable pub instruction :
    Map Uuid DevboxRouteConfig → Map Uuid DevboxRouteConfig → Uuid → Handler
instruction sent previous w = elim (Map.get w sent) [
  | some route ↦ Rpc.set_devbox_route route
  | none ↦
      Rpc.stop_devbox
        (elim (Map.get w previous) [ none ↦ none | some route ↦ route.branch_environment_id ])
]

pub complaint : Map Uuid DevboxRouteConfig → Uuid → Failure
complaint sent w =
    if is_some (Map.get w sent) then devbox_routes_not_sent w else devbox_routes_not_cleared w

-- The workloads still to come are in both maps alike.
pub send_routes-deliver_all :
    (clients : Map Uuid Client) (routes sent previous : Map Uuid DevboxRouteConfig) (c : Cluster)
    → IsDistinct (Map.keys clients)
    → ((w : Uuid) → contains w (Map.keys clients) ≡ true → Map.get w routes ≡ Map.get w sent)
    → send_routes clients routes previous c
      ≡ deliver_all (complaint sent) (instruction sent previous) clients c
unfolding send_routes deliver_all complaint instruction
send_routes-deliver_all [] routes sent previous c h agree = refl
send_routes-deliver_all ((w, client) ∷ clients) routes sent previous c (fresh, h) agree =
    let here : Map.get w routes ≡ Map.get w sent = agree w (ground (arith, nat_eq_iff w w)) in
    elim (Option-cases (Map.get w sent)) [
      | inl absent ↦
          rw (send_routes, deliver_all, instruction, complaint, here, absent)
            (λ i.
              and_then
                (sent_or (devbox_routes_not_cleared w) (
                  call client
                    (Rpc.stop_devbox (elim (Map.get w previous) [
                      | none ↦ none
                      | some route ↦ route.branch_environment_id
                    ]))
                    c))
                (λ x.
                  send_routes-deliver_all clients routes sent previous x h
                    (λ v known. agree v (ground arith)) i))
      | inr (route, found) ↦
          rw (send_routes, deliver_all, instruction, complaint, here, found)
            (λ i.
              and_then
                (sent_or (devbox_routes_not_sent w) (call client (Rpc.set_devbox_route route) c))
                (λ x.
                  send_routes-deliver_all clients (Map.remove w routes) sent previous x h
                    (λ v known. ground (arith, get-remove w v routes, agree v, nat_eq_iff w v)) i))
    ]

pub stop_all-deliver_all :
    (clients : Map Uuid Client) (branch : Option Uuid) (c : Cluster)
    → stop_all clients branch c
      ≡ deliver_all devbox_routes_not_cleared (λ _. Rpc.stop_devbox branch) clients c
unfolding stop_all deliver_all
stop_all-deliver_all [] branch c = refl
stop_all-deliver_all ((w, client) ∷ clients) branch c = λ i.
    and_then (sent_or (devbox_routes_not_cleared w) (call client (Rpc.stop_devbox branch) c))
      (λ x. stop_all-deliver_all clients branch x i)

pub push_service_routes-deliver_all :
    (e : Uuid) (cluster_client : KubeClusterRpcClient) (listed : Uuid → List ProxyBranchRouteConfig)
    (clients : Map Uuid Client) (c : Cluster)
    → ((w : Uuid)
        → contains w (Map.keys clients) ≡ true
        → cluster_client.list_branch_service_routes e w ≡ answered (listed w))
    → push_service_routes e cluster_client clients c
      ≡ deliver_all service_routes_not_pushed (λ w. Rpc.set_service_routes (listed w)) clients c
unfolding push_service_routes deliver_all
push_service_routes-deliver_all e cluster_client listed [] c h = refl
push_service_routes-deliver_all e cluster_client listed ((w, client) ∷ clients) c h =
    let here = h w (ground (arith, nat_eq_iff w w)) in
    let there : (v : Uuid)
        → contains v (Map.keys clients) ≡ true
        → cluster_client.list_branch_service_routes e v ≡ answered (listed v) =
      λ v known. h v (ground arith) in
    rw (push_service_routes, deliver_all, here)
      (λ i.
        and_then
          (sent_or (service_routes_not_pushed w)
            (call client (Rpc.set_service_routes (listed w)) c))
          (λ x. push_service_routes-deliver_all e cluster_client listed clients x there i))

pub Connected-manager :
    (clients : Map Uuid Client) (ends : Map Uuid Process) (c : Cluster) (m : SidecarProxyManager)
    → Connected clients ends c
    → Connected clients ends (record c { manager = m })
Connected-manager [] [] c m h = tt
Connected-manager [] (_ ∷ ends) c m h = elim h [ ]
Connected-manager ((w, client) ∷ clients) [] c m h = elim h [ ]
Connected-manager ((w, client) ∷ clients) ((v, p) ∷ ends) c m (same, link, running, fresh, h) =
    (same, link, running, fresh, Connected-manager clients ends c m h)
