-- ===== src/Usage/Examples.antt =====
-- Two usages of an organization, and the theorems at them.
use lapdev.Base.{ℕ, ◌≡◌, refl, none, some, List, [], ◌∷◌, arith, nat_key}
use lapdev.Base.Int.{pos, as_i32, mul_i32}
use lapdev.Usage.{Usage, seconds, ended, update, end_usage, get_cost}
use lapdev.Usage.Costs.{AllSettled, AllAffordable, get_cost-bill, end_usage-AllSettled}

abbrev second : ℕ
second = 1000000000

abbrev row : ℕ → ℕ → Usage
row id start = record {
  id = id;
  start = start;
  end = none;
  resource_kind = "workspace";
  resource_id = 4;
  resource_name = "shop";
  organization_id = 9;
  machine_type_id = 2;
  user_id = some 3;
  duration = none;
  cost_per_second = pos 5;
  total_cost = pos 0;
}

-- The first ran for 40 seconds, the second goes on.
abbrev rows : List Usage
rows =
    record (row 1 0) { end = some 40000000000; duration = some (pos 40); total_cost = pos 200 }
    ∷ row 2 30000000000
    ∷ []

rows-AllSettled : AllSettled rows
unfolding seconds
rows-AllSettled = (refl, (tt, tt))

-- Between the seconds 10 and 60, at the second 50: 30 seconds of the one and 20 of the other.
get_cost-bill_example : get_cost 9 none none 10000000000 60000000000 50000000000 rows ≡ 250
unfolding seconds
get_cost-bill_example =
    get_cost-bill 9 none none 10000000000 60000000000 50000000000 rows rows-AllSettled

rows-AllAffordable : AllAffordable 2 50000000000 rows
unfolding seconds
rows-AllAffordable =
    (λ other. ground arith, (λ this. (omega arith, omega arith, omega arith, refl), tt))

abbrev after : List Usage
after =
    record (row 1 0) { end = some 40000000000; duration = some (pos 40); total_cost = pos 200 }
    ∷ record (row 2 30000000000) {
      end = some 50000000000;
      duration = some (pos 20);
      total_cost = pos 100;
    }
    ∷ []

second_ended : end_usage 2 50000000000 rows ≡ some after
unfolding end_usage update ended seconds as_i32 mul_i32
second_ended = refl

end_usage-AllSettled_example : AllSettled after
end_usage-AllSettled_example =
    end_usage-AllSettled 2 50000000000 rows after rows-AllAffordable rows-AllSettled second_ended
