-- ===== src/SidecarManager/Connections.antt =====
-- What the registrations and disconnections of sidecars come to: the log of the open connections.
use Prim.Native.Nat.{suc}
use lapdev.Base.{
  ℕ, ◌<◌, ◌≤◌, ◌≡◌, refl, Bool, true, ◌&&◌, not, Option, none, some, List, [], ◌∷◌, arith, ◌==◌,
  nat_key, nat_eq_iff, if◌then◌else◌, select, find, Bool-cases, inl, inr,
}
use lapdev.Base.Map.{is_some, map_some}
use lapdev.Sidecar.Types.{Uuid}
use lapdev.SidecarManager.{Client, SidecarProxyManager, register_sidecar, remove_sidecar}

-- A connection that is open.
pub record Connection : Type 0 where
  pub environment : Uuid
  pub workload : Uuid
  pub generation : ℕ
  pub client : Client

pub data Event : Type 0 where
  register : Uuid → Uuid → Client → Event
  disconnect : Uuid → Uuid → ℕ → Event

unfoldable pub serve : List Event → SidecarProxyManager → SidecarProxyManager
serve [] m = m
serve (register e w client ∷ events) m = serve events (register_sidecar e w client m).1
serve (disconnect e w generation ∷ events) m = serve events (remove_sidecar e w generation m)

abbrev pub is_from : Uuid → Uuid → Connection → Bool
is_from e w c = c.environment == e && c.workload == w

abbrev pub is_other : Uuid → Uuid → ℕ → Connection → Bool
is_other e w generation c = not (is_from e w c && c.generation == generation)

-- The specification: the open connections, the last one first, and the next generation.
unfoldable pub open_connections : List Event → ℕ → List Connection → List Connection
open_connections [] next log = log
open_connections (register e w client ∷ events) next log =
    open_connections events (suc next)
      (record { environment = e; workload = w; generation = next; client = client } ∷ log)
open_connections (disconnect e w generation ∷ events) next log =
    open_connections events next (select (is_other e w generation) log)

unfoldable pub last_client : Uuid → Uuid → List Connection → Option Client
last_client e w log = map_some (λ c. c.client) (find (is_from e w) log)

unfoldable pub client_at : Uuid → Uuid → ℕ → List Connection → Option Client
client_at e w g [] = none
client_at e w g (c ∷ log) =
    if is_from e w c && c.generation == g then some c.client else client_at e w g log

-- The generations fall along the log.
abbrev pub Falling : ℕ → List Connection → Type 0
Falling n [] = Unit
Falling n (c ∷ log) = (c.generation < n) × Falling c.generation log

-- The log.
pub client_at-lt :
    (e w : Uuid) (g n : ℕ) (log : List Connection)
    → Falling n log
    → is_some (client_at e w g log) ≡ true
    → g < n
unfolding client_at
client_at-lt e w g n [] f h = cc
client_at-lt e w g n (c ∷ log) f h =
    ground (arith, client_at-lt e w g c.generation log f.1, nat_eq_iff c.generation g)

module _ (e w : Uuid) where
  pub find-client_at :
      (log : List Connection) (c : Connection)
      → find (is_from e w) log ≡ some c
      → client_at e w c.generation log ≡ some c.client
  unfolding client_at
  find-client_at [] c h = cc
  find-client_at (x ∷ log) c h = elim (Bool-cases (is_from e w x)) [
    | inl here ↦ ground (arith, nat_eq_iff x.generation c.generation)
    | inr there ↦ ground (arith, find-client_at log c)
  ]

  pub find-bound :
      (n : ℕ) (log : List Connection) (c : Connection) (g : ℕ)
      → Falling n log
      → find (is_from e w) log ≡ some c
      → is_some (client_at e w g log) ≡ true
      → g ≤ c.generation
  unfolding client_at
  find-bound n [] c g f h i = cc
  find-bound n (x ∷ log) c g f h i = ground (
    arith,
    find-bound c.generation log c g,
    find-bound x.generation log c g f.1,
    client_at-lt e w g x.generation log f.1,
    nat_eq_iff x.generation g,
  )

  pub find-none :
      (log : List Connection) (g : ℕ) → find (is_from e w) log ≡ none → client_at e w g log ≡ none
  unfolding client_at
  find-none [] g h = refl
  find-none (x ∷ log) g h = ground (arith, find-none log g)

pub Falling-weaken : (n k : ℕ) (log : List Connection) → n ≤ k → Falling n log → Falling k log
Falling-weaken n k [] le f = tt
Falling-weaken n k (c ∷ log) le f = (omega arith, f.1)

pub Falling-select :
    (p : Connection → Bool) (n : ℕ) (log : List Connection)
    → Falling n log
    → Falling n (select p log)
Falling-select p n [] f = tt
Falling-select p n (c ∷ log) f = elim (Bool-cases (p c)) [
  | inl kept ↦ rw kept (f.0, Falling-select p c.generation log f.1)
  | inr gone ↦ rw gone (
      Falling-weaken c.generation n (select p log) (omega arith)
        (Falling-select p c.generation log f.1))
]

pub client_at-select :
    (e w : Uuid) (g : ℕ) (d v : Uuid) (k : ℕ) (log : List Connection)
    → client_at d v k (select (is_other e w g) log)
      ≡ (if e == d && w == v && g == k then none else client_at d v k log)
unfolding client_at
client_at-select e w g d v k [] = ground arith
client_at-select e w g d v k (c ∷ log) = ground (
  arith,
  client_at-select e w g d v k log,
  nat_eq_iff e d,
  nat_eq_iff w v,
  nat_eq_iff g k,
  nat_eq_iff c.environment e,
  nat_eq_iff c.workload w,
  nat_eq_iff c.generation g,
)
