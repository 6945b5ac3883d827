-- ===== src/Examples/Months.antt =====
-- The savings at the sample, in a zone where all instants lie in two months.
use accountant_backend.Prelude.{
  true, any_where, ◌≡◌, ◌-◌, refl, arith, ok, pos, ◌+ℤ◌, ◌≤ℤ◌, max_ℤ, sum_by, ltb, if◌then◌else◌,
}
use accountant_backend.Calendar.{Date, date, month_length}
use accountant_backend.Calendar.Laws.{IsValid, month_index}
use accountant_backend.Domain.{Uuid, Instant, SavingsOverview}
use accountant_backend.Schema.{Database}
use accountant_backend.Ledger.Categories.{user_exists}
use accountant_backend.Savings.{process_monthly_savings, monthly_totals, first_month, change_in}
use accountant_backend.Savings.Walk.{saved}
use accountant_backend.Savings.Closed.{IsKeyed}
use accountant_backend.Savings.Stored.{Closes}
use accountant_backend.Savings.Overview.{own_amount, process_monthly_savings-Projects}
use accountant_backend.Examples.{sample, next_month_id, next_month_id_fresh}

abbrev uuid4 : Database → Uuid
uuid4 db = next_month_id db.monthly_savings

abbrev local : Instant → Date
local i = if ltb i 1500 then date 2024 1 10 else date 2024 2 20

sample_owner : user_exists sample 1 ≡ true
unfolding any_where
sample_owner = refl

local-IsValid : (i : Instant) → IsValid (local i)
unfolding month_length
local-IsValid i = record { year_in = ground arith; month_in = ground arith; day_in = ground arith }

today-IsValid : IsValid (date 2024 4 2)
unfolding month_length
today-IsValid = record { year_in = ground arith; month_in = ground arith; day_in = ground arith }

sample_months-IsKeyed : IsKeyed sample.monthly_savings
unfolding any_where
sample_months-IsKeyed = tt

process_monthly_savings-Projects_example :
    let totals = monthly_totals local sample 1 in
    let current = date 2024 4 1 in
    let first = first_month totals (local 0) in
    let n = month_index current - month_index first in
    let before = saved totals (month_index first) n (pos 0) in
    let (r, after) = process_monthly_savings uuid4 9 1 local 0 (date 2024 4 2) (pos 7) sample in
    (o : SavingsOverview) × (r ≡ ok o)
    × Closes 1 totals (month_index first) n (pos 0) sample.monthly_savings after.monthly_savings
    × (o.total_saved_minor ≡ sum_by (own_amount 1) after.monthly_savings)
    × (before +ℤ o.current_month_projection_minor
        ≡ max_ℤ (pos 0) (before +ℤ change_in totals current))
    × (pos 0 ≤ℤ before)
    × (o.goal_minor ≡ pos 7)
process_monthly_savings-Projects_example =
    process_monthly_savings-Projects uuid4 9 1 (λ db. next_month_id_fresh db.monthly_savings) local
      0 (date 2024 4 2) (pos 7) sample local-IsValid today-IsValid sample_owner
      sample_months-IsKeyed
