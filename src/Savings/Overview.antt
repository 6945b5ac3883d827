-- ===== src/Savings/Overview.antt =====
-- `ProcessMonthlySavings` as a whole: it returns, and the projection keeps the savings from going
-- below nothing.
use accountant_backend.Prelude.{
  ℤ, pos, suc, ◌-◌, ◌+ℤ◌, ◌≤ℤ◌, max_ℤ, ◌≡◌, refl, sym, ◌∙◌, ap, if◌then◌else◌, Bool, true, some,
  List, [], ◌∷◌, arith, All, any_where, update_where, select_where, sum_by, sum_by-map,
  sum_by-order_by, sum_by-select_where, ◌==◌, inl, inr, Bool-cases, Option-cases, subst, Exec, ok,
  gets, pure, ◌>>=◌, bind_ok,
}
use accountant_backend.Calendar.{Date, date, date_lt}
use accountant_backend.Calendar.Laws.{IsValid, month_index, month_length_bounds}
use accountant_backend.Domain.{Uuid, Instant, SavingsOverview, MonthlySaving}
use accountant_backend.Schema.{TransactionModel, MonthlySavingModel, Database}
use accountant_backend.Ledger.Categories.{user_exists}
use accountant_backend.Savings.{
  MonthTotals, is_month, group_rows, monthly_totals, change_in, earliest, first_month, clamp, walk,
  saving_to_domain, list_for_user, process_monthly_savings,
}
use accountant_backend.Savings.Closed.{IsKeyed}
use accountant_backend.Savings.Stored.{Closes, walk-Closes}
use accountant_backend.Savings.Walk.{saved, saved_nonneg, clamp_step, IsFresh, walk_outcome}

-- the first day of a month
abbrev pub IsFirst : Date → Type 0
IsFirst d = IsValid d × (d.day ≡ 1)

abbrev IsMonth : MonthTotals → Type 0
IsMonth t = IsValid (date t.year t.month 1)

first_of : (d : Date) → IsValid d → IsValid (date d.year d.month 1)
first_of d v = record {
  year_in = v.year_in;
  month_in = v.month_in;
  day_in = ground (arith, month_length_bounds d.year d.month);
}

All-update :
    (p : MonthTotals → Bool) (f : MonthTotals → MonthTotals) (ts : List MonthTotals)
    → ((t : MonthTotals) → IsMonth t → IsMonth (f t))
    → All IsMonth ts
    → All IsMonth (update_where p f ts)
unfolding update_where
All-update p f [] keep all = tt
All-update p f (t ∷ ts) keep all = elim (Bool-cases (p t)) [
  | inl here ↦ rw here (keep t all.0, All-update p f ts keep all.1)
  | inr other ↦ rw other (all.0, All-update p f ts keep all.1)
]

group_rows-IsMonth :
    (local : Instant → Date)
    → ((i : Instant) → IsValid (local i))
    → (rows : List TransactionModel) → All IsMonth (group_rows local rows)
unfolding group_rows
group_rows-IsMonth local valid [] = tt
group_rows-IsMonth local valid (r ∷ rows) =
    let d = local r.occurred_at in
    let groups = group_rows local rows in
    elim (Bool-cases (any_where (is_month d.year d.month) groups)) [
      | inl old ↦ rw old (All-update _ _ groups (λ t v. v) (group_rows-IsMonth local valid rows))
      | inr new ↦ rw new (first_of d (valid r.occurred_at), group_rows-IsMonth local valid rows)
    ]

earliest-IsFirst :
    (ts : List MonthTotals) (d : Date) → All IsMonth ts → earliest ts ≡ some d → IsFirst d
unfolding earliest
earliest-IsFirst [] d all h = cc
earliest-IsFirst (t ∷ ts) d all h =
    let first = date t.year t.month 1 in
    elim (Option-cases (earliest ts)) [
      | inl only ↦ let e : first ≡ d = ground arith in subst IsFirst e (all.0, refl)
      | inr (least, found) ↦ elim (Bool-cases (date_lt least first)) [
        | inl before ↦
            let e : least ≡ d = ground arith in
            subst IsFirst e (earliest-IsFirst ts least all.1 found)
        | inr after ↦ let e : first ≡ d = ground arith in subst IsFirst e (all.0, refl)
      ]
    ]

first_month-IsFirst :
    (ts : List MonthTotals) (d : Date) → All IsMonth ts → IsValid d → IsFirst (first_month ts d)
unfolding first_month
first_month-IsFirst ts d all v =
    let first = date d.year d.month 1 in
    elim (Option-cases (earliest ts)) [
      | inl empty ↦ rw (empty, first_month) (first_of d v, refl)
      | inr (least, found) ↦ elim (Bool-cases (date_lt least first)) [
        | inl before ↦ rw (found, first_month) (rw before (earliest-IsFirst ts least all found))
        | inr after ↦ rw (found, first_month) (rw after (first_of d v, refl))
      ]
    ]

abbrev overview : Uuid → List MonthTotals → Date → ℤ → ℤ → Exec Database SavingsOverview
overview user_id totals current goal accumulated = do
  entries ← gets (λ db. list_for_user db user_id)
  pure (record {
    total_saved_minor = sum_by (λ (e : MonthlySaving). e.amount_minor) entries;
    current_month_projection_minor = clamp accumulated (change_in totals current);
    entries = entries;
    goal_minor = goal;
  })

-- what a row adds to the total of a user
abbrev pub own_amount : Uuid → MonthlySavingModel → ℤ
own_amount user_id r = if r.user_id == user_id then r.amount_minor else pos 0

list_for_user-sum :
    (db : Database) (user_id : Uuid)
    → sum_by (λ (e : MonthlySaving). e.amount_minor) (list_for_user db user_id)
      ≡ sum_by (own_amount user_id) db.monthly_savings
unfolding list_for_user
list_for_user-sum db user_id =
    let amount = λ (r : MonthlySavingModel). r.amount_minor in
    sum_by-map (λ (e : MonthlySaving). e.amount_minor) saving_to_domain _
    ∙ sum_by-order_by amount _ _
    ∙ sum_by-select_where amount (λ (r : MonthlySavingModel). r.user_id == user_id)
        db.monthly_savings

module _ (uuid4 : Database → Uuid) (now : Instant) (user_id : Uuid) (fresh : IsFresh uuid4) where
  -- Where the zone's dates and today are valid, the user exists, no identifier of a closed month
  -- occurs twice and new ones are fresh, the overview comes back with the goal. Afterwards each month
  -- from the first to the one before the current has what the recursion puts aside in it, every
  -- other month of the user what it had, and the total is the sum of the user's stored months. What
  -- the recursion saves is never below nothing, and with the projection it is its next step.
  pub process_monthly_savings-Projects :
      (local : Instant → Date) (created : Instant) (today : Date) (goal : ℤ) (db : Database)
      → ((i : Instant) → IsValid (local i))
      → IsValid today
      → user_exists db user_id ≡ true
      → IsKeyed db.monthly_savings
      → let totals = monthly_totals local db user_id in
        let current = date today.year today.month 1 in
        let first = first_month totals (local created) in
        let n = month_index current - month_index first in
        let before = saved totals (month_index first) n (pos 0) in
        let (r, after) = process_monthly_savings uuid4 now user_id local created today goal db in
        (o : SavingsOverview) × (r ≡ ok o)
        × Closes user_id totals
            (month_index first)
            n
            (pos 0)
            db.monthly_savings
            after.monthly_savings
        × (o.total_saved_minor ≡ sum_by (own_amount user_id) after.monthly_savings)
        × (before +ℤ o.current_month_projection_minor
            ≡ max_ℤ (pos 0) (before +ℤ change_in totals current))
        × (pos 0 ≤ℤ before)
        × (o.goal_minor ≡ goal)
  unfolding process_monthly_savings
  process_monthly_savings-Projects local created today goal db valid valid_today owner keyed =
      let totals = monthly_totals local db user_id in
      let current = date today.year today.month 1 in
      let months =
        group_rows-IsMonth local valid
          (select_where (λ (r : TransactionModel). r.user_id == user_id) db.transactions) in
      let begin =
        first_month-IsFirst totals (local created) (unfold monthly_totals in months)
          (valid created) in
      let first = first_month totals (local created) in
      let n = month_index current - month_index first in
      let before = saved totals (month_index first) n (pos 0) in
      let walked =
        walk_outcome uuid4 now user_id fresh totals current first db (first_of today valid_today)
          refl begin.0 begin.1 owner in
      let r =
        bind_ok (walk uuid4 now user_id (suc n) totals current first (pos 0))
          (overview user_id totals current goal) db
          (ap (λ r. (r, (walk uuid4 now user_id (suc n) totals current first (pos 0) db).1))
            walked) in
      let closes =
        walk-Closes uuid4 now user_id fresh totals current first db (first_of today valid_today)
          refl begin.0 begin.1 owner keyed in
      let final = (walk uuid4 now user_id (suc n) totals current first (pos 0) db).1 in
      (
        _,
        ap (λ p. p.0) r,
        subst
            (λ d.
              Closes user_id totals (month_index first) n (pos 0) db.monthly_savings
                d.monthly_savings)
            (sym (ap (λ p. p.1) r)) closes,
        list_for_user-sum final user_id
            ∙ ap (λ d. sum_by (own_amount user_id) d.monthly_savings) (sym (ap (λ p. p.1) r)),
        clamp_step before (change_in totals current),
        saved_nonneg totals (month_index first) n (pos 0) (omega arith),
        refl,
      )
