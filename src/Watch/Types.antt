-- ===== src/Watch/Types.antt =====
-- crates/kube-rpc/src/lib.rs and crates/kube-manager/src/watch_manager.rs: the kinds of resources.
use lapdev.Base.{
  ℕ, ◌≡◌, refl, ap, ◌↔◌, Bool, true, some, List, [], ◌∷◌, arith, Key, ◌==◌, nat_eq_iff, nat_key,
  get_elem?, contains,
}

pub data ResourceType : Type 0 where
  deployment : ResourceType
  stateful_set : ResourceType
  daemon_set : ResourceType
  replica_set : ResourceType
  job : ResourceType
  cron_job : ResourceType
  config_map : ResourceType
  secret : ResourceType
  service : ResourceType

abbrev ordinal : ResourceType → ℕ
ordinal deployment = 0
ordinal stateful_set = 1
ordinal daemon_set = 2
ordinal replica_set = 3
ordinal job = 4
ordinal cron_job = 5
ordinal config_map = 6
ordinal secret = 7
ordinal service = 8

abbrev same_type : ResourceType → ResourceType → Bool
same_type a b = ordinal a == ordinal b

abbrev pub watched_resource_types : List ResourceType
watched_resource_types =
    deployment ∷ stateful_set ∷ daemon_set ∷ replica_set ∷ job ∷ cron_job ∷ config_map ∷ secret
    ∷ service ∷ []

listed : (a : ResourceType) → get_elem? watched_resource_types (ordinal a) ≡ some a
listed deployment = refl
listed stateful_set = refl
listed daemon_set = refl
listed replica_set = refl
listed job = refl
listed cron_job = refl
listed config_map = refl
listed secret = refl
listed service = refl

pub same_type_iff : (a b : ResourceType) → (same_type a b ≡ true) ↔ (a ≡ b)
same_type_iff a b = ground (
  arith,
  listed a,
  listed b,
  nat_eq_iff (ordinal a) (ordinal b),
  ap (λ n. get_elem? watched_resource_types n),
)

instance abbrev pub type_key : Key ResourceType
type_key = record { same = same_type; same_iff = same_type_iff }

pub watched_type : (a : ResourceType) → contains a watched_resource_types ≡ true
watched_type deployment = refl
watched_type stateful_set = refl
watched_type daemon_set = refl
watched_type replica_set = refl
watched_type job = refl
watched_type cron_job = refl
watched_type config_map = refl
watched_type secret = refl
watched_type service = refl
