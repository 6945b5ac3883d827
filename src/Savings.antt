-- ===== src/Savings.antt =====
-- application/savings/services.py with infrastructure/database/repositories/savings.py. `local` is
-- the date that an instant has in the user's zone (`astimezone`, and `timezone` of the database).
-- The walk runs on fuel: the months from its first one to the current one, and one.
pub mod Walk
pub mod Closed
pub mod Stored
pub mod Overview
use accountant_backend.Prelude.{
  ℕ, ℤ, pos, zero, suc, ◌+◌, ◌-◌, ◌+ℤ◌, ◌-ℤ◌, max_ℤ, neg_ℤ, same_ℤ, sum_by, Bool, not, ◌&&◌, ◌||◌,
  Option, none, some, is_some, List, [], ◌∷◌, map, any_where, find_where, select_where,
  update_where, order_by, ltb, leb, ◌==◌, if◌then◌else◌, true, false, Exec, ok, raised, or_raise,
  raise, gets, pure, ◌>>=◌, ◌>>◌, integrity_error, runtime_error, value_error, out_of_fuel,
}
use accountant_backend.Calendar.{Date, date, date_lt, new_date, next_month}
use accountant_backend.Calendar.Laws.{month_index}
use accountant_backend.Domain.{Uuid, Instant, income, expense, MonthlySaving, SavingsOverview}
use accountant_backend.Schema.{TransactionModel, MonthlySavingModel, Database}
use accountant_backend.Events.{commit, other_row}
use accountant_backend.Ledger.Budgets.{stamp}
use accountant_backend.Ledger.Categories.{user_exists}
use accountant_backend.Ledger.Transactions.{amount_of}
use accountant_backend.Identity.Users.{set_savings_goal}

-- an item of the dictionary of `monthly_totals`: the month, its income and its expense
pub record MonthTotals : Type 0 where
  pub year : ℕ
  pub month : ℕ
  pub income_minor : ℤ
  pub expense_minor : ℤ

abbrev pub is_month : ℕ → ℕ → MonthTotals → Bool
is_month y m t = t.year == y && t.month == m

-- a row into its group
abbrev pub group_row : Date → TransactionModel → List MonthTotals → List MonthTotals
group_row d r groups =
    if any_where (is_month d.year d.month) groups
    then update_where (is_month d.year d.month)
        (λ t. record t {
          income_minor = amount_of income r +ℤ t.income_minor;
          expense_minor = amount_of expense r +ℤ t.expense_minor;
        })
        groups
    else record {
      year = d.year;
      month = d.month;
      income_minor = amount_of income r;
      expense_minor = amount_of expense r;
    }
      ∷ groups

unfoldable pub group_rows : (Instant → Date) → List TransactionModel → List MonthTotals
unfolding any_where update_where
group_rows local [] = []
group_rows local (r ∷ rows) = group_row (local r.occurred_at) r (group_rows local rows)

-- `monthly_totals`
unfoldable pub monthly_totals : (Instant → Date) → Database → Uuid → List MonthTotals
unfolding group_rows select_where
monthly_totals local db user_id =
    group_rows local (select_where (λ (r : TransactionModel). r.user_id == user_id) db.transactions)

-- `totals.get((year, month), (0, 0))`, income less expense
unfoldable pub change_in : List MonthTotals → Date → ℤ
unfolding find_where
change_in totals d = elim (find_where (is_month d.year d.month) totals) [
  | none ↦ pos 0 -ℤ pos 0
  | some t ↦ t.income_minor -ℤ t.expense_minor
]

-- `_to_domain`
abbrev pub saving_to_domain : MonthlySavingModel → MonthlySaving
saving_to_domain m = record {
  id = m.id;
  user_id = m.user_id;
  year = m.year;
  month = m.month;
  amount_minor = m.amount_minor;
  created_at = m.created_at;
  updated_at = m.updated_at;
}

-- `list_for_user`
unfoldable pub list_for_user : Database → Uuid → List MonthlySaving
unfolding select_where order_by
list_for_user db user_id = map saving_to_domain (
    order_by
      (λ (a b : MonthlySavingModel). ltb a.year b.year || a.year == b.year && leb a.month b.month)
      (select_where (λ (m : MonthlySavingModel). m.user_id == user_id) db.monthly_savings))

abbrev pub is_for : Uuid → ℕ → ℕ → MonthlySavingModel → Bool
is_for user_id y m r = r.user_id == user_id && r.year == y && r.month == m

-- `upsert_month`
unfoldable pub upsert_month : Uuid → Instant → Uuid → ℕ → ℕ → ℤ → Exec Database MonthlySaving
unfolding any_where find_where update_where commit
upsert_month id now user_id year month amount_minor db =
    elim (find_where (is_for user_id year month) db.monthly_savings) [
      | none ↦
          let model : MonthlySavingModel = record {
            id = id;
            user_id = user_id;
            year = year;
            month = month;
            amount_minor = amount_minor;
            created_at = now;
            updated_at = now;
          } in
          if any_where (λ (r : MonthlySavingModel). r.id == id) db.monthly_savings
            || not (user_exists db user_id)
            || not (leb 1 month && leb month 12)
          then (raised integrity_error, db)
          else (
            ok (saving_to_domain model),
            commit (other_row ∷ []) (record db { monthly_savings = model ∷ db.monthly_savings }),
          )
      | some model ↦
          let write = λ (r : MonthlySavingModel). record r {
            amount_minor = amount_minor;
            updated_at = stamp (not (same_ℤ model.amount_minor amount_minor)) now model.updated_at;
          } in
          (
            ok (saving_to_domain (write model)),
            commit (other_row ∷ []) (record db {
              monthly_savings =
                  update_where (λ (r : MonthlySavingModel). r.id == model.id) write
                    db.monthly_savings;
            }),
          )
    ]

-- `min(totals)`, as the first day of the month
unfoldable pub earliest : List MonthTotals → Option Date
unfolding date_lt
earliest [] = none
earliest (t ∷ ts) =
    let d = date t.year t.month 1 in
    elim (earliest ts) [ none ↦ some d | some e ↦ some (if date_lt e d then e else d) ]

-- the month that the walk begins with
unfoldable pub first_month : List MonthTotals → Date → Date
unfolding earliest date_lt
first_month totals created_local =
    let cursor = date created_local.year created_local.month 1 in
    elim (earliest totals) [ none ↦ cursor | some e ↦ if date_lt e cursor then e else cursor ]

-- `max(income - expense, -accumulated)`
abbrev pub clamp : ℤ → ℤ → ℤ
clamp accumulated change = max_ℤ change (neg_ℤ accumulated)

-- `uuid4` draws the identifier of a new row
module _ (uuid4 : Database → Uuid) (now : Instant) (user_id : Uuid) where
  -- one round of the loop
  unfoldable pub close_month : List MonthTotals → Date → ℤ → Exec Database MonthlySaving
  unfolding upsert_month change_in
  close_month totals cursor accumulated db =
      upsert_month (uuid4 db) now user_id cursor.year cursor.month
        (clamp accumulated (change_in totals cursor)) db

  -- the loop: what has accumulated when it ends
  unfoldable pub walk : ℕ → List MonthTotals → Date → Date → ℤ → Exec Database ℤ
  unfolding close_month next_month date_lt
  walk zero totals current_month cursor accumulated = raise out_of_fuel
  walk (suc fuel) totals current_month cursor accumulated = elim (date_lt cursor current_month) [
    | false ↦ pure accumulated
    | true ↦ do
      _ ← close_month totals cursor accumulated
      next ← or_raise (next_month cursor) value_error
      walk fuel totals current_month next
          (accumulated +ℤ clamp accumulated (change_in totals cursor))
  ]

  -- `ProcessMonthlySavings.execute`, where `created_local` is the local date of the registration
  unfoldable pub process_monthly_savings :
      (Instant → Date) → Instant → Date → ℤ → Exec Database SavingsOverview
  unfolding walk monthly_totals first_month change_in list_for_user
  process_monthly_savings local account_created_at today goal_minor = do
    totals ← gets (λ db. monthly_totals local db user_id)
    let cursor = first_month totals (local account_created_at)
    let current_month = date today.year today.month 1
    accumulated ←
        walk (suc (month_index current_month - month_index cursor)) totals current_month cursor
          (pos 0)
    entries ← gets (λ db. list_for_user db user_id)
    pure (record {
      total_saved_minor = sum_by (λ (e : MonthlySaving). e.amount_minor) entries;
      current_month_projection_minor = clamp accumulated (change_in totals current_month);
      entries = entries;
      goal_minor = goal_minor;
    })

-- `SetSavingsGoal.execute`
unfoldable pub set_goal : Uuid → ℤ → Exec Database ℤ
unfolding set_savings_goal
set_goal user_id goal_minor = do
  stored ← set_savings_goal user_id goal_minor
  or_raise stored runtime_error
