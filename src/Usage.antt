-- ===== src/Usage.antt =====
-- crates/enterprise/src/usage.rs: the rows of what is used, and what an organization or a user is to
-- pay for a period. A time is its number of nanoseconds; the table is the list of its rows.
pub mod Costs
mod Examples
use Prim.Native.Nat.{suc}
use lapdev.Base.{
  ℕ, ◌+◌, ◌-◌, ◌*◌, ◌/◌, ◌%◌, String, Bool, true, false, ◌&&◌, ◌||◌, not, Option, none, some, List,
  [], ◌∷◌, ltb, leb, ◌==◌, nat_key, option_key, if◌then◌else◌, select, find,
}
use lapdev.Base.Int.{ℤ, pos, negsuc, as_i32, clamped, mul_i32}

abbrev pub Uuid : Type 0
Uuid = ℕ

abbrev pub Time : Type 0
Time = ℕ

pub record Usage : Type 0 where
  pub id : ℕ
  pub start : Time
  pub end : Option Time
  pub resource_kind : String
  pub resource_id : Uuid
  pub resource_name : String
  pub organization_id : Uuid
  pub machine_type_id : Uuid
  pub user_id : Option Uuid
  pub duration : Option ℤ
  pub cost_per_second : ℤ
  pub total_cost : ℤ

-- `(end - start).num_seconds().max(0)`
unfoldable pub seconds : Time → Time → ℕ
seconds start end = (end - start) / 1000000000

-- The id of a new row is the database's.
unfoldable pub new_usage :
    ℕ → Time → Uuid → Option Uuid → String → Uuid → String → Uuid → ℤ → List Usage → List Usage
new_usage id start org_id user_id resource_kind resource_id resource_name machine_type_id
      cost_per_second rows =
    record {
      id = id;
      start = start;
      end = none;
      resource_kind = resource_kind;
      resource_id = resource_id;
      resource_name = resource_name;
      organization_id = org_id;
      machine_type_id = machine_type_id;
      user_id = user_id;
      duration = none;
      cost_per_second = cost_per_second;
      total_cost = pos 0;
    }
    ∷ rows

abbrev pub has_id : ℕ → Usage → Bool
has_id id usage = usage.id == id

-- The columns that `end_usage` sets.
unfoldable pub ended : Time → Usage → Usage
ended end usage =
    let duration = as_i32 (seconds usage.start end) in
    record usage {
      end = some end;
      duration = some duration;
      total_cost = mul_i32 usage.cost_per_second duration;
    }

-- `update` by the primary key.
unfoldable pub update : ℕ → (Usage → Usage) → List Usage → List Usage
update id f [] = []
update id f (usage ∷ rows) =
    let rest = update id f rows in if has_id id usage then f usage ∷ rest else usage ∷ rest

-- Nothing where there is no such row.
unfoldable pub end_usage : ℕ → Time → List Usage → Option (List Usage)
end_usage id end rows = elim (find (has_id id) rows) [
  | none ↦ none
  | some usage ↦ some (update id (ended end) rows)
]

abbrev same_int : ℤ → ℤ → Bool
same_int (pos a) (pos b) = a == b
same_int (negsuc a) (negsuc b) = a == b
same_int _ _ = false

-- The filters that both queries share.
abbrev pub is_billed : Uuid → Option Uuid → Option ℤ → Usage → Bool
is_billed organization user cost_per_second usage =
    usage.organization_id == organization
    && (elim user [ none ↦ true | some id ↦ usage.user_id == some id ])
    && (elim cost_per_second [ none ↦ true | some cost ↦ same_int usage.cost_per_second cost ])

-- A usage that lies in the period; a comparison with NULL does not hold.
abbrev pub is_within : Time → Time → Usage → Bool
is_within start end usage = elim usage.end [
  | none ↦ false
  | some usage_end ↦ leb usage_end end && leb start usage.start
]

-- The `Condition::any` of `get_cost`.
abbrev pub is_across : Time → Time → Usage → Bool
is_across start end usage = elim usage.end [
  | none ↦ ltb usage.start end
  | some usage_end ↦
      (ltb usage.start end && ltb end usage_end) || (ltb usage.start start && ltb start usage_end)
]

abbrev add_int : ℤ → ℤ → ℤ
add_int (pos a) (pos b) = pos (a + b)
add_int (negsuc a) (negsuc b) = negsuc (suc (a + b))
add_int (pos a) (negsuc b) = if ltb b a then pos (a - suc b) else negsuc (b - a)
add_int (negsuc a) (pos b) = if ltb a b then pos (b - suc a) else negsuc (a - b)

-- `TotalCost.sum()`, which is NULL, and then 0, where there are no rows.
unfoldable pub sum_total_cost : List Usage → ℤ
sum_total_cost [] = pos 0
sum_total_cost (usage ∷ rows) = add_int usage.total_cost (sum_total_cost rows)

abbrev pub usize_mod : ℕ
usize_mod = 18446744073709551616

-- What a usage costs in a period, by its overlap with it.
unfoldable pub cost_between : Time → Time → Time → Usage → ℕ
cost_between start end now usage =
    let usage_start = if ltb usage.start start then start else usage.start in
    let given_end : ℕ = elim usage.end [ none ↦ now | some usage_end ↦ usage_end ] in
    let usage_end = if ltb end given_end then end else given_end in
    (seconds usage_start usage_end * clamped usage.cost_per_second) % usize_mod

unfoldable pub sum_costs : Time → Time → Time → List Usage → ℕ → ℕ
sum_costs start end now [] total_cost = total_cost
sum_costs start end now (usage ∷ rows) total_cost =
    sum_costs start end now rows ((total_cost + cost_between start end now usage) % usize_mod)

unfoldable pub get_cost : Uuid → Option Uuid → Option ℤ → Time → Time → Time → List Usage → ℕ
get_cost organization user cost_per_second start end now rows =
    let billed = select (is_billed organization user cost_per_second) rows in
    let fixed_cost = clamped (sum_total_cost (select (is_within start end) billed)) in
    let total_cost = sum_costs start end now (select (is_across start end) billed) 0 in
    (total_cost + fixed_cost) % usize_mod

-- The day begins where the time zone says, if it does.
unfoldable pub get_daily_cost :
    Option Time → Uuid → Option Uuid → Option ℤ → Time → List Usage → Option ℕ
get_daily_cost none organization user cost_per_second now rows = none
get_daily_cost (some day_start) organization user cost_per_second now rows =
    let day_end = day_start + 86400 * 1000000000 in
    some (get_cost organization user cost_per_second day_start day_end now rows)

-- `with_ymd_and_hms(year, month, 1, 0, 0, 0)` is a parameter.
unfoldable pub get_monthly_cost :
    (ℕ → ℕ → Option Time) → ℕ → ℕ → Uuid → Option Uuid → Option ℤ → Time → List Usage → Option ℕ
get_monthly_cost first_of year month organization user cost_per_second now rows =
    let next : Option Time =
      if month == 12 then first_of (year + 1) 1 else first_of year (month + 1) in
    elim (first_of year month) [
      | none ↦ none
      | some month_start ↦ elim next [
        | none ↦ none
        | some month_end ↦
            some (get_cost organization user cost_per_second month_start month_end now rows)
      ]
    ]
