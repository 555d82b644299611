-- ===== src/Sidecar/Registry.antt =====
-- crates/kube-sidecar-proxy/src/connection_registry.rs: a shutdown channel for each branch.
-- A `watch` channel is its number; `signalled` says on which channels `true` was sent. A receiver is
-- a copy of the number. `channel_count` is how many channels were made.
pub mod Signals
use lapdev.Base.{
  ℕ, ◌+◌, Bool, true, false, Option, none, some, List, [], ◌∷◌, ◌==◌, nat_key, option_key, ◌||◌,
}
use lapdev.Base.Map
use lapdev.Base.Map.{Map}
use lapdev.Sidecar.Types.{Uuid}

abbrev pub BranchKey : Type 0
BranchKey = Option Uuid

pub record ConnectionRegistry : Type 0 where
  pub branches : Map BranchKey ℕ
  pub signalled : ℕ → Bool
  pub channel_count : ℕ

abbrev pub empty : ConnectionRegistry
empty = record { branches = []; signalled = λ _. false; channel_count = 0 }

-- The receiver, and the registry with the channel that `or_insert_with` may have made.
unfoldable pub subscribe : BranchKey → ConnectionRegistry → ℕ × ConnectionRegistry
subscribe branch r = elim (Map.get branch r.branches) [
  | some channel ↦ (channel, r)
  | none ↦ (
    r.channel_count,
    record r {
      branches = Map.insert branch r.channel_count r.branches;
      channel_count = r.channel_count + 1;
    },
  )
]

-- channel.sender.send(true)
abbrev pub send : ℕ → (ℕ → Bool) → ℕ → Bool
send channel signalled c = channel == c || signalled c

unfoldable pub shutdown_branch : BranchKey → ConnectionRegistry → ConnectionRegistry
shutdown_branch branch r = elim (Map.get branch r.branches) [
  | none ↦ r
  | some channel ↦ record r {
    branches = Map.remove branch r.branches;
    signalled = send channel r.signalled;
  }
]

unfoldable pub shutdown_branches : List BranchKey → ConnectionRegistry → ConnectionRegistry
shutdown_branches [] r = r
shutdown_branches (branch ∷ branches) r = shutdown_branches branches (shutdown_branch branch r)
