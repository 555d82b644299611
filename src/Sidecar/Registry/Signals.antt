-- ===== src/Sidecar/Registry/Signals.antt =====
-- Who is told to shut down.
use lapdev.Base.{
  ℕ, ◌<◌, ◌≡◌, ◌⊎◌, true, false, none, some, List, [], ◌∷◌, ◌==◌, nat_key, option_key,
  option_same_iff, nat_eq_iff, arith, refl, contains, if◌then◌else◌,
}
use lapdev.Base.Map
use lapdev.Base.Map.{Map, get-insert, get-remove}
use lapdev.Sidecar.Registry.{
  BranchKey, ConnectionRegistry, empty, subscribe, shutdown_branch, shutdown_branches,
}

-- The channel of a branch is open, and no other branch has it.
pub record IsValid (r : ConnectionRegistry) : Type 0 where
  pub made : (b : BranchKey) (c : ℕ) → Map.get b r.branches ≡ some c → c < r.channel_count
  pub open_channel : (b : BranchKey) (c : ℕ) → Map.get b r.branches ≡ some c → r.signalled c ≡ false
  pub own :
      (a b : BranchKey) (c : ℕ)
      → Map.get a r.branches ≡ some c
      → Map.get b r.branches ≡ some c
      → a ≡ b
  pub unmade : (c : ℕ) → r.signalled c ≡ true → c < r.channel_count

pub empty-IsValid : IsValid empty
unfolding Map.get
empty-IsValid = record {
  made = λ b c e. cc;
  open_channel = λ b c e. cc;
  own = λ a b c e f. cc;
  unmade = λ c e. cc;
}

module _ (r : ConnectionRegistry) (h : IsValid r) (branch : BranchKey) where
  pub subscribed_at :
      (b : BranchKey)
      → Map.get b (subscribe branch r).1.branches
        ≡ (if branch == b then some (subscribe branch r).0 else Map.get b r.branches)
  unfolding subscribe
  subscribed_at b =
      ground (arith, get-insert branch b r.channel_count r.branches, option_same_iff branch b)

  pub subscribe-IsValid : IsValid (subscribe branch r).1
  unfolding subscribe
  subscribe-IsValid = record {
    made = λ b c e. ground (arith, subscribed_at b, h.made b c, h.made branch c);
    open_channel = λ b c e.
        ground (arith, subscribed_at b, h.open_channel b c, h.open_channel branch c, h.unmade c);
    own = λ a b c e f. ground (
      arith,
      subscribed_at a,
      subscribed_at b,
      h.own a b c,
      h.own a branch c,
      h.own branch b c,
      h.made a c,
      h.made b c,
      option_same_iff branch a,
      option_same_iff branch b,
    );
    unmade = λ c e. ground (arith, h.unmade c);
  }

  pub shutdown_at :
      (b : BranchKey)
      → Map.get b (shutdown_branch branch r).branches
        ≡ (if branch == b then none else Map.get b r.branches)
  unfolding shutdown_branch
  shutdown_at b = ground (arith, get-remove branch b r.branches, option_same_iff branch b)

  -- The channel of the branch is signalled, and no other.
  shutdown_signals :
      (c : ℕ)
      → ((shutdown_branch branch r).signalled c ≡ true)
      → (r.signalled c ≡ true) ⊎ (Map.get branch r.branches ≡ some c)
  unfolding shutdown_branch
  shutdown_signals c e = ground (arith, nat_eq_iff c c)

  pub shutdown_open :
      (b : BranchKey) (c : ℕ)
      → Map.get b r.branches ≡ some c
      → (shutdown_branch branch r).signalled c ≡ (branch == b)
  unfolding shutdown_branch
  shutdown_open b c e =
      ground (arith, h.open_channel b c, h.own branch b c, option_same_iff branch b)

  pub shutdown_keeps :
      (c : ℕ) → r.signalled c ≡ true → (shutdown_branch branch r).signalled c ≡ true
  unfolding shutdown_branch
  shutdown_keeps c e = ground arith

  shutdown_count : (shutdown_branch branch r).channel_count ≡ r.channel_count
  unfolding shutdown_branch
  shutdown_count = ground arith

  pub shutdown_branch-IsValid : IsValid (shutdown_branch branch r)
  shutdown_branch-IsValid = record {
    made = λ b c e. ground (arith, shutdown_at b, h.made b c, shutdown_count);
    open_channel = λ b c e. ground (arith, shutdown_at b, shutdown_open b c);
    own = λ a b c e f. ground (arith, shutdown_at a, shutdown_at b, h.own a b c);
    unmade =
        λ c e. ground (arith, shutdown_signals c e, h.unmade c, h.made branch c, shutdown_count);
  }

-- What becomes of one channel, and of one branch's entry.
shutdown_branches_keep :
    (branches : List BranchKey) (r : ConnectionRegistry) (c : ℕ)
    → IsValid r
    → r.signalled c ≡ true
    → (shutdown_branches branches r).signalled c ≡ true
unfolding shutdown_branches
shutdown_branches_keep [] r c h e = e
shutdown_branches_keep (b ∷ branches) r c h e =
    shutdown_branches_keep branches (shutdown_branch b r) c (shutdown_branch-IsValid r h b)
      (shutdown_keeps r h b c e)

shutdown_branches_at :
    (branches : List BranchKey) (r : ConnectionRegistry) (b : BranchKey)
    → IsValid r
    → Map.get b (shutdown_branches branches r).branches
      ≡ (if contains b branches then none else Map.get b r.branches)
unfolding shutdown_branches
shutdown_branches_at [] r b h = refl
shutdown_branches_at (a ∷ branches) r b h = ground (
  arith,
  shutdown_branches_at branches (shutdown_branch a r) b (shutdown_branch-IsValid r h a),
  shutdown_at r h a b,
)

pub shutdown_branches_open :
    (branches : List BranchKey) (r : ConnectionRegistry) (b : BranchKey) (c : ℕ)
    → IsValid r
    → Map.get b r.branches ≡ some c
    → (shutdown_branches branches r).signalled c ≡ contains b branches
unfolding shutdown_branches
shutdown_branches_open [] r b c h e = h.open_channel b c e
shutdown_branches_open (a ∷ branches) r b c h e = ground (
  arith,
  shutdown_branches_open branches (shutdown_branch a r) b c (shutdown_branch-IsValid r h a),
  shutdown_branches_keep branches (shutdown_branch a r) c (shutdown_branch-IsValid r h a),
  shutdown_at r h a b,
  shutdown_open r h a b c e,
)

pub shutdown_branches-IsValid :
    (branches : List BranchKey) (r : ConnectionRegistry)
    → IsValid r
    → IsValid (shutdown_branches branches r)
unfolding shutdown_branches
shutdown_branches-IsValid [] r h = h
shutdown_branches-IsValid (b ∷ branches) r h =
    shutdown_branches-IsValid branches (shutdown_branch b r) (shutdown_branch-IsValid r h b)

-- A subscriber's channel is not signalled yet.
unsignalled :
    (r : ConnectionRegistry) → IsValid r → (b : BranchKey) → r.signalled (subscribe b r).0 ≡ false
unfolding subscribe
unsignalled r h b = ground (arith, h.open_channel b (subscribe b r).0, h.unmade (subscribe b r).0)

-- Who subscribed to a branch before `shutdown_branches` is told to shut down exactly if the branch is
-- among those listed; who subscribes afterwards, to that branch or to another one, gets a channel
-- that is not signalled.
pub shutdown_branches-signals :
    (branches : List BranchKey) (r : ConnectionRegistry) (b d : BranchKey)
    → IsValid r
    → ((shutdown_branches branches (subscribe b r).1).signalled (subscribe b r).0
        ≡ contains b branches)
      × ((shutdown_branches branches (subscribe b r).1).signalled
            (subscribe d (shutdown_branches branches (subscribe b r).1)).0
          ≡ false)
shutdown_branches-signals branches r b d h =
    let subscribed = subscribe-IsValid r h b in
    let after = shutdown_branches-IsValid branches _ subscribed in
    (
      shutdown_branches_open branches (subscribe b r).1 b (subscribe b r).0 subscribed
          (ground (arith, subscribed_at r h b b, option_same_iff b b)),
      unsignalled (shutdown_branches branches (subscribe b r).1) after d,
    )
