-- ===== src/SidecarManager/Tables.antt =====
-- crates/kube-manager/src/sidecar_proxy_manager.rs: what registering and removing a sidecar do to
-- the table of clients, entry by entry, and which entry is the latest.

use lapdev.Base.{
  ℕ, ◌≡◌, refl, Bool, true, false, ◌&&◌, not, Option, none, some, [], ◌∷◌, arith, leb, ◌==◌,
  nat_key, nat_eq_iff, if◌then◌else◌, IsDistinct, Option-cases, Bool-cases, inl, inr,
}
use lapdev.Base.Map
use lapdev.Base.Map.{
  Map, is_some, map_some, unwrap_or, get-insert, get-remove, contains-keys, insert-IsDistinct,
  remove-IsDistinct,
}
use lapdev.Sidecar.Types.{Uuid}
use lapdev.Sidecar.Rpc.{is_empty}
use lapdev.SidecarManager.{
  Client, SidecarProxyManager, workloads_of, register_sidecar, without_entry, remove_sidecar,
  next_back, latest_clients, latest_clients_for_environment, record_sidecar_heartbeat,
}

abbrev pub get_in : Uuid → Option (Map Uuid Client) → Option Client
get_in w none = none
get_in w (some clients) = Map.get w clients

-- What `latest_clients_for_environment` answers for a workload.
abbrev pub latest_client : Uuid → Uuid → SidecarProxyManager → Option Client
latest_client e w m = get_in w (latest_clients_for_environment e m)

abbrev pub entries_of : Uuid → Uuid → SidecarProxyManager → Map ℕ Client
entries_of e w m = unwrap_or [] (Map.get w (workloads_of e m))

empty-get {ℓ} : {V : Type ℓ} (k : ℕ) (m : Map ℕ V) → is_empty m ≡ true → Map.get k m ≡ none
unfolding Map.get
empty-get k [] h = refl
empty-get k (x ∷ m) h = cc

no_entries : (h : ℕ) → Map.get {K = ℕ} {V = Client} h [] ≡ none
unfolding Map.get
no_entries h = refl

no_entry : (v : Uuid) → Map.get {K = Uuid} {V = Map ℕ Client} v [] ≡ none
unfolding Map.get
no_entry v = refl

pub register-entries :
    (e w : Uuid) (client : Client) (m : SidecarProxyManager) (d v : Uuid) (g : ℕ)
    → Map.get g (entries_of d v (register_sidecar e w client m).1) ≡ (
        if e == d && w == v && m.generation_counter == g
        then some client
        else Map.get g (entries_of d v m))
unfolding register_sidecar
register-entries e w client m d v g =
    let workloads = workloads_of e m in
    let entries = unwrap_or [] (Map.get w workloads) in
    let longer = Map.insert m.generation_counter client entries in
    ground (
      arith,
      get-insert e d (Map.insert w longer workloads) m.sidecar_proxies,
      get-insert w v longer workloads,
      get-insert m.generation_counter g client entries,
      nat_eq_iff e d,
      nat_eq_iff w v,
    )

without_entry-get :
    (w v : Uuid) (h : ℕ) (rest : Map ℕ Client) (workloads : Map Uuid (Map ℕ Client))
    → Map.get h (unwrap_or [] (Map.get v (without_entry w rest workloads)))
      ≡ (if w == v then Map.get h rest else Map.get h (unwrap_or [] (Map.get v workloads)))
unfolding without_entry Map.get
without_entry-get w v h rest workloads =
    ground (arith, get-insert w v rest workloads, get-remove w v workloads, empty-get h rest)

pub remove-entries :
    (e w : Uuid) (g : ℕ) (m : SidecarProxyManager) (d v : Uuid) (h : ℕ)
    → Map.get h (entries_of d v (remove_sidecar e w g m))
      ≡ (if e == d && w == v && g == h then none else Map.get h (entries_of d v m))
unfolding remove_sidecar
remove-entries e w g m d v h = elim (Option-cases (Map.get e m.sidecar_proxies)) [
  | inl missing ↦
      rw (missing, remove_sidecar)
        (ground (arith, missing, no_entry v, no_entries h, nat_eq_iff e d))
  | inr (workloads, found) ↦ elim (Option-cases (Map.get w workloads)) [
    | inl missing ↦
        rw (found, missing, remove_sidecar)
          (ground (arith, found, missing, no_entries h, nat_eq_iff e d, nat_eq_iff w v))
    | inr (entries, here) ↦
        let left = without_entry w (Map.remove g entries) workloads in
        rw (found, here, remove_sidecar)
          (ground (
            arith,
            found,
            here,
            get-insert e d left m.sidecar_proxies,
            get-remove e d m.sidecar_proxies,
            without_entry-get w v h (Map.remove g entries) workloads,
            get-remove g h entries,
            empty-get v left,
            no_entry v,
            no_entries h,
            nat_eq_iff e d,
            nat_eq_iff w v,
          ))
  ]
]

-- `next_back` finds the entry of the greatest generation.
pub next_back-bound :
    (entries : Map ℕ Client) (g : ℕ)
    → is_some (Map.get g entries) ≡ true
    → (elim (next_back entries) [ none ↦ false | some (last, _) ↦ leb g last ]) ≡ true
unfolding next_back Map.get
next_back-bound [] g h = cc
next_back-bound ((k, c) ∷ entries) g h = ground (arith, next_back-bound entries g)

pub next_back-get :
    (entries : Map ℕ Client) (g : ℕ) (c : Client)
    → next_back entries ≡ some (g, c)
    → Map.get g entries ≡ some c
unfolding next_back Map.get
next_back-get [] g c h = cc
next_back-get ((k, d) ∷ entries) g c h = ground (arith, next_back-get entries g c, nat_eq_iff k g)

-- The client of the greatest generation is what the manager answers.
latest_clients-get :
    (w : Uuid) (workloads : Map Uuid (Map ℕ Client))
    → IsDistinct (Map.keys workloads)
    → Map.get w (latest_clients workloads)
      ≡ map_some (λ p. p.1) (next_back (unwrap_or [] (Map.get w workloads)))
unfolding latest_clients Map.get next_back
latest_clients-get w [] h = refl
latest_clients-get w ((v, entries) ∷ workloads) (fresh, h) =
    ground (arith, latest_clients-get w workloads h, contains-keys v workloads, nat_eq_iff v w)

no_clients :
    (w : Uuid)
    → none
      ≡ map_some
          (λ (p : ℕ × Client). p.1)
          (next_back (unwrap_or [] (Map.get {K = Uuid} {V = Map ℕ Client} w [])))
unfolding Map.get next_back
no_clients w = refl

-- The tables of workloads hold each workload once.
abbrev pub IsTable : SidecarProxyManager → Type 0
IsTable m = (e : Uuid) → IsDistinct (Map.keys (workloads_of e m))

latest_clients-get_in :
    (w : Uuid) (workloads : Option (Map Uuid (Map ℕ Client)))
    → IsDistinct (Map.keys (unwrap_or [] workloads))
    → get_in w (map_some latest_clients workloads)
      ≡ map_some (λ p. p.1) (next_back (unwrap_or [] (Map.get w (unwrap_or [] workloads))))
latest_clients-get_in w none h = no_clients w
latest_clients-get_in w (some workloads) h = latest_clients-get w workloads h

pub latest_client-next_back :
    (e w : Uuid) (m : SidecarProxyManager)
    → IsTable m
    → latest_client e w m ≡ map_some (λ p. p.1) (next_back (entries_of e w m))
unfolding latest_clients_for_environment
latest_client-next_back e w m h = latest_clients-get_in w (Map.get e m.sidecar_proxies) (h e)

pub register_sidecar-IsTable :
    (e w : Uuid) (client : Client) (m : SidecarProxyManager)
    → IsTable m
    → IsTable (register_sidecar e w client m).1
unfolding register_sidecar
register_sidecar-IsTable e w client m h d =
    let longer = Map.insert m.generation_counter client (entries_of e w m) in
    let workloads = Map.insert w longer (workloads_of e m) in
    ground (
      arith,
      get-insert e d workloads m.sidecar_proxies,
      insert-IsDistinct w longer (workloads_of e m) (h e),
      h d,
    )

without_entry-IsDistinct :
    (w : Uuid) (rest : Map ℕ Client) (workloads : Map Uuid (Map ℕ Client))
    → IsDistinct (Map.keys workloads)
    → IsDistinct (Map.keys (without_entry w rest workloads))
unfolding without_entry
without_entry-IsDistinct w rest workloads h = elim (Bool-cases (is_empty rest)) [
  | inl empty ↦ rw (empty, without_entry) (remove-IsDistinct w workloads h)
  | inr some_left ↦ rw (some_left, without_entry) (insert-IsDistinct w rest workloads h)
]

pub remove_sidecar-IsTable :
    (e w : Uuid) (g : ℕ) (m : SidecarProxyManager) → IsTable m → IsTable (remove_sidecar e w g m)
unfolding remove_sidecar
remove_sidecar-IsTable e w g m h d = elim (Option-cases (Map.get e m.sidecar_proxies)) [
  | inl missing ↦ rw (missing, remove_sidecar) (h d)
  | inr (workloads, found) ↦ elim (Option-cases (Map.get w workloads)) [
    | inl missing ↦ rw (found, missing, remove_sidecar) (h d)
    | inr (entries, here) ↦
        let left = without_entry w (Map.remove g entries) workloads in
        let distinct : IsDistinct (Map.keys workloads) = ground (arith, found, h e) in
        rw (found, here, remove_sidecar)
          (ground (
            arith,
            get-insert e d left m.sidecar_proxies,
            get-remove e d m.sidecar_proxies,
            without_entry-IsDistinct w (Map.remove g entries) workloads distinct,
            h d,
          ))
  ]
]

abbrev heartbeat_in : Uuid → Option (Map Uuid (Map ℕ Client)) → Bool
heartbeat_in w none = false
heartbeat_in w (some workloads) = elim (Map.get w workloads) [
  | none ↦ false
  | some entries ↦ not (is_empty entries)
]

next_back-is_some : (entries : Map ℕ Client) → is_some (next_back entries) ≡ not (is_empty entries)
unfolding next_back
next_back-is_some [] = refl
next_back-is_some ((k, c) ∷ entries) = ground arith

heartbeat-entries :
    (w : Uuid) (workloads : Option (Map Uuid (Map ℕ Client)))
    → heartbeat_in w workloads ≡ not (is_empty (unwrap_or [] (Map.get w (unwrap_or [] workloads))))
unfolding Map.get
heartbeat-entries w none = refl
heartbeat-entries w (some workloads) = ground arith

-- A heartbeat is accepted exactly where there is a latest client.
pub record_sidecar_heartbeat-latest_client :
    (e w : Uuid) (m : SidecarProxyManager)
    → IsTable m
    → record_sidecar_heartbeat e w m ≡ is_some (latest_client e w m)
unfolding record_sidecar_heartbeat
record_sidecar_heartbeat-latest_client e w m h = ground (
  arith,
  latest_client-next_back e w m h,
  next_back-is_some (entries_of e w m),
  heartbeat-entries w (Map.get e m.sidecar_proxies),
)
