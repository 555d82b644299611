-- ===== src/Usage/Costs.antt =====
-- What is to be paid is the time that each usage has in the period.

use lapdev.Base.{
  ℕ, ◌+◌, ◌*◌, ◌%◌, ◌<◌, ◌≡◌, ◌∙◌, ap, refl, Bool, true, false, ◌&&◌, ◌||◌, Option, none, some,
  List, [], ◌∷◌, arith, ltb, leb, nat_key, if◌then◌else◌, select, find, Option-cases, Bool-cases,
  inl, inr, min, max,
}
use lapdev.Base.Int.{ℤ, pos, clamped, mul_i32, as_i32-small, mul_i32-small}
use lapdev.Usage.{
  Uuid, Time, Usage, seconds, has_id, ended, update, end_usage, is_billed, is_within, is_across,
  sum_total_cost, usize_mod, cost_between, sum_costs, get_cost,
}

-- What an ended usage costs is what its whole time costs.
abbrev pub IsSettled : Usage → Type 0
IsSettled usage = elim usage.end [
  | none ↦ Unit
  | some end ↦ usage.total_cost ≡ pos (seconds usage.start end * clamped usage.cost_per_second)
]

abbrev pub AllSettled : List Usage → Type 0
AllSettled [] = Unit
AllSettled (usage ∷ rows) = IsSettled usage × AllSettled rows

-- The specification: the seconds of a usage in a period, if it had ended now.
abbrev pub overlap : Time → Time → Time → Usage → ℕ
overlap start end now usage =
    seconds (max usage.start start)
      (min (elim usage.end [ none ↦ now | some usage_end ↦ usage_end ]) end)

abbrev pub bill : Time → Time → Time → List Usage → ℕ
bill start end now [] = 0
bill start end now (usage ∷ rows) =
    overlap start end now usage * clamped usage.cost_per_second + bill start end now rows

-- What the two queries add up to.
abbrev fixed : Time → Time → List Usage → ℕ
fixed start end [] = 0
fixed start end (usage ∷ rows) =
    (if is_within start end usage then clamped usage.total_cost else 0) + fixed start end rows

abbrev running : Time → Time → Time → List Usage → ℕ
running start end now [] = 0
running start end now (usage ∷ rows) =
    (if is_across start end usage
      then overlap start end now usage * clamped usage.cost_per_second
      else 0)
    + running start end now rows

cost_between-overlap :
    (start end now : Time) (usage : Usage)
    → cost_between start end now usage
      ≡ (overlap start end now usage * clamped usage.cost_per_second) % usize_mod
unfolding cost_between
cost_between-overlap start end now usage =
    let given_end : ℕ = elim usage.end [ none ↦ now | some usage_end ↦ usage_end ] in
    ap (λ s. (s * clamped usage.cost_per_second) % usize_mod)
      (clamp start end usage.start given_end)
  where
    clamp :
        (start end usage_start given_end : ℕ)
        → seconds
            (if ltb usage_start start then start else usage_start)
            (if ltb end given_end then end else given_end)
          ≡ seconds (max usage_start start) (min given_end end)
    clamp start end usage_start given_end =
        let first : (if ltb usage_start start then start else usage_start) ≡ max usage_start start =
          ground arith in
        let last : (if ltb end given_end then end else given_end) ≡ min given_end end =
          ground arith in
        rw (first, last) refl

mod_sums :
    (t c r : ℕ) → ((t + c % usize_mod) % usize_mod + r) % usize_mod ≡ (t + (c + r)) % usize_mod
mod_sums t c r = omega arith

sum_costs-running :
    (start end now : Time) (rows : List Usage) (total : ℕ)
    → total < usize_mod
    → sum_costs start end now (select (is_across start end) rows) total
      ≡ (total + running start end now rows) % usize_mod
unfolding sum_costs
sum_costs-running start end now [] total h = omega arith
sum_costs-running start end now (usage ∷ rows) total h =
    let cost = overlap start end now usage * clamped usage.cost_per_second in
    elim (Bool-cases (is_across start end usage)) [
      | inl counted ↦ rw counted (
          sum_costs-running start end now rows
            ((total + cost_between start end now usage) % usize_mod) (omega arith)
          ∙ ap (λ c. ((total + c) % usize_mod + running start end now rows) % usize_mod)
              (cost_between-overlap start end now usage)
          ∙ mod_sums total cost (running start end now rows))
      | inr skipped ↦ rw skipped (ground (arith, sum_costs-running start end now rows total h))
    ]

overlap_within :
    (start end s e : ℕ)
    → leb e end && leb start s ≡ true
    → seconds (max s start) (min e end) ≡ seconds s e
unfolding seconds
overlap_within start end s e h = ground arith

overlap_apart :
    (start end s e : ℕ)
    → leb e end && leb start s ≡ false
    → (ltb s end && ltb end e) || (ltb s start && ltb start e) ≡ false
    → seconds (max s start) (min e end) ≡ 0
unfolding seconds
overlap_apart start end s e h i = ground arith

overlap_later : (start end s e : ℕ) → ltb s end ≡ false → seconds (max s start) (min e end) ≡ 0
unfolding seconds
overlap_later start end s e h = ground arith

-- A row counts once, with its overlap.
row_bill :
    (start end now : Time) (usage : Usage)
    → IsSettled usage
    → (if is_within start end usage then clamped usage.total_cost else 0)
        + (if is_across start end usage
            then overlap start end now usage * clamped usage.cost_per_second
            else 0)
      ≡ overlap start end now usage * clamped usage.cost_per_second
row_bill start end now usage h = elim (Option-cases usage.end) [
  | inl still ↦ ground (arith, still, overlap_later start end usage.start now)
  | inr (e, closed) ↦
      ground (
        arith,
        closed,
        overlap_within start end usage.start e,
        overlap_apart start end usage.start e,
      )
]

AllSettled-select :
    (p : Usage → Bool) (rows : List Usage) → AllSettled rows → AllSettled (select p rows)
AllSettled-select p [] h = tt
AllSettled-select p (usage ∷ rows) (settled, h) = elim (Bool-cases (p usage)) [
  | inl kept ↦ rw kept (settled, AllSettled-select p rows h)
  | inr gone ↦ rw gone (AllSettled-select p rows h)
]

sum_total_cost-fixed :
    (start end : Time) (rows : List Usage)
    → AllSettled rows
    → sum_total_cost (select (is_within start end) rows) ≡ pos (fixed start end rows)
unfolding sum_total_cost
sum_total_cost-fixed start end [] h = refl
sum_total_cost-fixed start end (usage ∷ rows) (settled, h) = elim (Option-cases usage.end) [
  | inl still ↦ ground (arith, still, sum_total_cost-fixed start end rows h)
  | inr (e, closed) ↦ ground (arith, closed, sum_total_cost-fixed start end rows h)
]

bill-sum :
    (start end now : Time) (rows : List Usage)
    → AllSettled rows
    → running start end now rows + fixed start end rows ≡ bill start end now rows
bill-sum start end now [] h = refl
bill-sum start end now (usage ∷ rows) (settled, h) =
    ground (arith, row_bill start end now usage settled, bill-sum start end now rows h)

-- What is to be paid for a period is, modulo 2 ^ 64, the sum over the usages that are asked for of what
-- the time that the usage and the period have in common costs, a usage that goes on reaching until now;
-- so each usage is counted once, whichever of the two queries selects it. This holds if each ended
-- usage has as its total cost what its time costs.
pub get_cost-bill :
    (organization : Uuid) (user : Option Uuid) (cost_per_second : Option ℤ) (start end now : Time)
    (rows : List Usage)
    → AllSettled rows
    → get_cost organization user cost_per_second start end now rows
      ≡ bill start end now (select (is_billed organization user cost_per_second) rows) % usize_mod
unfolding get_cost
get_cost-bill organization user cost_per_second start end now rows h =
    let billed = select (is_billed organization user cost_per_second) rows in
    let settled = AllSettled-select (is_billed organization user cost_per_second) rows h in
    ground (
      arith,
      sum_total_cost-fixed start end billed settled,
      sum_costs-running start end now billed 0,
      bill-sum start end now billed settled,
    )

-- A time that is charged within 32 bits.
abbrev pub IsAffordable : Time → Usage → Type 0
IsAffordable end usage =
    (seconds usage.start end < 2147483648)
    × (seconds usage.start end * clamped usage.cost_per_second < 2147483648)
    × (clamped usage.cost_per_second < 2147483648)
    × (usage.cost_per_second ≡ pos (clamped usage.cost_per_second))

ended-IsSettled :
    (end : Time) (usage : Usage) → IsAffordable end usage → IsSettled (ended end usage)
unfolding ended
ended-IsSettled end usage (short, cheap, fits, charged) =
    ap (mul_i32 usage.cost_per_second) (as_i32-small (seconds usage.start end) short)
    ∙ ap (λ c. mul_i32 c (pos (seconds usage.start end))) charged
    ∙ mul_i32-small (clamped usage.cost_per_second) (seconds usage.start end) fits short cheap

abbrev pub AllAffordable : ℕ → Time → List Usage → Type 0
AllAffordable id end [] = Unit
AllAffordable id end (usage ∷ rows) =
    (has_id id usage ≡ true → IsAffordable end usage) × AllAffordable id end rows

update-AllSettled :
    (id : ℕ) (end : Time) (rows : List Usage)
    → AllAffordable id end rows
    → AllSettled rows
    → AllSettled (update id (ended end) rows)
unfolding update
update-AllSettled id end [] cheap h = tt
update-AllSettled id end (usage ∷ rows) (cheap, rest) (settled, h) =
    elim (Bool-cases (has_id id usage)) [
      | inl this ↦
          rw this (ended-IsSettled end usage (cheap this), update-AllSettled id end rows rest h)
      | inr other ↦ rw other (settled, update-AllSettled id end rows rest h)
    ]

-- Ending a usage leaves every ended usage with the cost of its time, if the usage's cost is not negative
-- and what is charged for it fits in 31 bits.
pub end_usage-AllSettled :
    (id : ℕ) (end : Time) (rows after : List Usage)
    → AllAffordable id end rows
    → AllSettled rows
    → end_usage id end rows ≡ some after
    → AllSettled after
unfolding end_usage
end_usage-AllSettled id end rows after cheap h e = elim (Option-cases (find (has_id id) rows)) [
  | inl missing ↦ ground (arith, missing)
  | inr (usage, found) ↦
      let same : after ≡ update id (ended end) rows = ground (arith, found) in
      rw same (update-AllSettled id end rows cheap h)
]
