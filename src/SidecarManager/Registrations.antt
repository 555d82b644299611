-- ===== src/SidecarManager/Registrations.antt =====
-- crates/kube-manager/src/sidecar_proxy_manager.rs: the latest client of a workload is that of the
-- connection registered last among those still open.
use Prim.Native.Nat.{suc}
use lapdev.Base.{
  ℕ, ◌+◌, ◌<◌, ◌≡◌, ◌∙◌, ap, refl, List, [], ◌∷◌, arith, nat_key, length, select, find,
  Option-cases, inl, inr,
}
use lapdev.Base.Map
use lapdev.Base.Map.{
  Map, is_some, map_some, unwrap_or, get-insert, get-remove, contains-keys, insert-IsDistinct,
  remove-IsDistinct,
}
use lapdev.Sidecar.Types.{Uuid}
use lapdev.SidecarManager.{
  Client, SidecarProxyManager, new, u64_mod, register_sidecar, remove_sidecar, next_back,
  record_sidecar_heartbeat,
}
use lapdev.SidecarManager.Tables.{
  latest_client, entries_of, IsTable, register-entries, remove-entries, next_back-bound,
  next_back-get, latest_client-next_back, record_sidecar_heartbeat-latest_client,
  register_sidecar-IsTable, remove_sidecar-IsTable,
}
use lapdev.SidecarManager.Connections.{
  Connection, Event, register, disconnect, serve, is_from, is_other, open_connections, last_client,
  client_at, Falling, find-client_at, find-bound, find-none, Falling-select, client_at-select,
}

-- The manager's table is the log, by environment, workload and generation.
record Refines (m : SidecarProxyManager) (next : ℕ) (log : List Connection) : Type 0 where
  at_generation : (e w : Uuid) (g : ℕ) → Map.get g (entries_of e w m) ≡ client_at e w g log
  falling : Falling next log
  counter : m.generation_counter ≡ next
  distinct : IsTable m

-- The table's answer is the log's.
latest_client-Refines :
    (e w : Uuid) (m : SidecarProxyManager) (next : ℕ) (log : List Connection)
    → Refines m next log
    → latest_client e w m ≡ last_client e w log
unfolding last_client
latest_client-Refines e w m next log h =
    latest_client-next_back e w m h.distinct ∙ elim (Option-cases (find (is_from e w) log)) [
      | inl nobody ↦ elim (Option-cases (next_back (entries_of e w m))) [
        | inl empty ↦ rw (nobody, empty) refl
        | inr ((g, c), some_entry) ↦ ground (
          arith,
          next_back-get (entries_of e w m) g c some_entry,
          h.at_generation e w g,
          find-none e w log g nobody,
        )
      ]
      | inr (last, found) ↦ elim (Option-cases (next_back (entries_of e w m))) [
        | inl empty ↦ ground (
          arith,
          next_back-bound (entries_of e w m) last.generation,
          h.at_generation e w last.generation,
          find-client_at e w log last found,
        )
        | inr ((g, c), some_entry) ↦
            rw (found, some_entry)
              (ground (
                arith,
                some_entry,
                next_back-get (entries_of e w m) g c some_entry,
                next_back-bound (entries_of e w m) last.generation,
                h.at_generation e w last.generation,
                h.at_generation e w g,
                find-client_at e w log last found,
                find-bound e w next log last g h.falling found,
              ))
      ]
    ]

register_sidecar-Refines :
    (e w : Uuid) (client : Client) (m : SidecarProxyManager) (next : ℕ) (log : List Connection)
    → suc next < u64_mod
    → Refines m next log
    → Refines
        (register_sidecar e w client m).1
        (suc next)
        (record { environment = e; workload = w; generation = next; client = client } ∷ log)
unfolding register_sidecar client_at
register_sidecar-Refines e w client m next log bound h = record {
  at_generation = λ d v g.
      ground (arith, register-entries e w client m d v g, h.at_generation d v g, h.counter);
  falling = (omega arith, h.falling);
  counter = ground (arith, h.counter);
  distinct = register_sidecar-IsTable e w client m h.distinct;
}

remove_sidecar-generation_counter :
    (e w : Uuid) (g : ℕ) (m : SidecarProxyManager)
    → (remove_sidecar e w g m).generation_counter ≡ m.generation_counter
unfolding remove_sidecar
remove_sidecar-generation_counter e w g m = ground arith

remove_sidecar-Refines :
    (e w : Uuid) (g : ℕ) (m : SidecarProxyManager) (next : ℕ) (log : List Connection)
    → Refines m next log
    → Refines (remove_sidecar e w g m) next (select (is_other e w g) log)
remove_sidecar-Refines e w g m next log h = record {
  at_generation = λ d v k. ground (
    arith,
    remove-entries e w g m d v k,
    h.at_generation d v k,
    client_at-select e w g d v k log,
  );
  falling = Falling-select (is_other e w g) next log h.falling;
  counter = remove_sidecar-generation_counter e w g m ∙ h.counter;
  distinct = remove_sidecar-IsTable e w g m h.distinct;
}

-- The manager and the specification, side by side.
record IsServed (events : List Event) (m : SidecarProxyManager) (next : ℕ) (log : List Connection)
    : Type 0 where
  last_next : ℕ
  refines : Refines (serve events m) last_next (open_connections events next log)

serve-Refines :
    (events : List Event) (m : SidecarProxyManager) (next : ℕ) (log : List Connection)
    → next + length events < u64_mod
    → Refines m next log
    → IsServed events m next log
unfolding serve open_connections
serve-Refines [] m next log bound h = record { last_next = next; refines = h }
serve-Refines (register e w client ∷ events) m next log bound h =
    let served =
      serve-Refines events (register_sidecar e w client m).1 (suc next)
        (record { environment = e; workload = w; generation = next; client = client } ∷ log)
        (omega arith) (register_sidecar-Refines e w client m next log (omega arith) h) in
    record { last_next = served.last_next; refines = served.refines }
serve-Refines (disconnect e w g ∷ events) m next log bound h =
    let served =
      serve-Refines events (remove_sidecar e w g m) next (select (is_other e w g) log) (omega arith)
        (remove_sidecar-Refines e w g m next log h) in
    record { last_next = served.last_next; refines = served.refines }

new-Refines : Refines new 1 []
unfolding Map.get client_at
new-Refines = record {
  at_generation = λ e w g. refl;
  falling = tt;
  counter = refl;
  distinct = λ e. tt;
}

-- After any sequence of registrations and disconnections that does not use up the 64-bit counter,
-- the manager sends to the client of the workload's connection that was registered last among those
-- still open, and to nobody if none is open.
pub serve-latest_client :
    (events : List Event) (e w : Uuid)
    → suc (length events) < u64_mod
    → latest_client e w (serve events new) ≡ last_client e w (open_connections events 1 [])
serve-latest_client events e w bound =
    let served = serve-Refines events new 1 [] (omega arith) new-Refines in
    latest_client-Refines e w (serve events new) served.last_next (open_connections events 1 [])
      served.refines

-- After such a sequence, a heartbeat of a workload is accepted exactly if one of its connections is
-- still open.
pub serve-record_sidecar_heartbeat :
    (events : List Event) (e w : Uuid)
    → suc (length events) < u64_mod
    → record_sidecar_heartbeat e w (serve events new)
      ≡ is_some (last_client e w (open_connections events 1 []))
serve-record_sidecar_heartbeat events e w bound =
    let served = serve-Refines events new 1 [] (omega arith) new-Refines in
    record_sidecar_heartbeat-latest_client e w (serve events new) served.refines.distinct
    ∙ ap is_some (serve-latest_client events e w bound)
