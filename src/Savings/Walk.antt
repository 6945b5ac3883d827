-- ===== src/Savings/Walk.antt =====
-- The walk over the months: it ends, and what it accumulates is what a plain recursion saves.
use accountant_backend.Prelude.{
  ℕ, ℤ, pos, zero, suc, ◌+◌, ◌-◌, ◌/◌, ◌%◌, ◌<◌, ◌+ℤ◌, ◌-ℤ◌, ◌≤ℤ◌, max_ℤ, ltb_ℤ, ◌≡◌, ◌∙◌, refl, ap,
  Bool, true, false, some, List, arith, any_where, find_where, ◌==◌, leb, inl, inr, Bool-cases,
  Option-cases, ok, raised, Result,
}
use accountant_backend.Calendar.{Date, date, date_lt, next_month}
use accountant_backend.Calendar.Laws.{IsValid, month_index, next_month_lem, date_lt_of_month_index}
use accountant_backend.Domain.{Uuid, Instant, MonthlySaving}
use accountant_backend.Schema.{MonthlySavingModel, Database}
use accountant_backend.Ledger.Categories.{user_exists}
use accountant_backend.Savings.{
  MonthTotals, change_in, is_for, upsert_month, clamp, close_month, walk,
}

-- the first day of the month that is `i` months after year 0
abbrev pub month_at : ℕ → Date
month_at i = date (i / 12) (i % 12 + 1) 1

-- What is put aside by `n` months from the month `i` on: a month adds its income less its expense,
-- and the savings never go below nothing.
unfoldable pub saved : List MonthTotals → ℕ → ℕ → ℤ → ℤ
saved totals i zero acc = acc
saved totals i (suc n) acc =
    saved totals (i + 1) n (max_ℤ (pos 0) (acc +ℤ change_in totals (month_at i)))

pub saved_nonneg :
    (totals : List MonthTotals) (i n : ℕ) (acc : ℤ) → pos 0 ≤ℤ acc → pos 0 ≤ℤ saved totals i n acc
unfolding saved
saved_nonneg totals i zero acc h = h
saved_nonneg totals i (suc n) acc h =
    saved_nonneg totals (i + 1) n (max_ℤ (pos 0) (acc +ℤ change_in totals (month_at i)))
      (elim (Bool-cases (ltb_ℤ (pos 0) (acc +ℤ change_in totals (month_at i)))) [
        | inl positive ↦ ground (arith, positive)
        | inr not ↦ ground (arith, not)
      ])

pub clamp_step : (acc change : ℤ) → acc +ℤ clamp acc change ≡ max_ℤ (pos 0) (acc +ℤ change)
unfolding ◌+ℤ◌ ◌-ℤ◌
clamp_step acc change = ground arith

pub month_at_index : (d : Date) → IsValid d → d.day ≡ 1 → d ≡ month_at (month_index d)
month_at_index d v first =
    let y : d.year ≡ month_index d / 12 = omega (arith, v.month_in) in
    let m : d.month ≡ month_index d % 12 + 1 = omega (arith, v.month_in) in ground arith

pub saved_step :
    (totals : List MonthTotals) (cursor next : Date) (n : ℕ) (acc : ℤ)
    → cursor ≡ month_at (month_index cursor)
    → month_index next ≡ month_index cursor + 1
    → saved totals (month_index next) n (acc +ℤ clamp acc (change_in totals cursor))
      ≡ saved totals (month_index cursor) (suc n) acc
unfolding saved
saved_step totals cursor next n acc here index =
    rw (index, clamp_step acc (change_in totals cursor))
      (ap (λ d. saved totals (month_index cursor + 1) n (max_ℤ (pos 0) (acc +ℤ change_in totals d)))
        here)

-- `uuid4` draws an identifier that no month has
abbrev pub IsFresh : (Database → Uuid) → Type 0
IsFresh uuid4 =
    (db : Database)
    → any_where (λ (r : MonthlySavingModel). r.id == uuid4 db) db.monthly_savings ≡ false

abbrev pub succeeds : {A : Type 0} → Result A → Bool
succeeds r = elim r [ ok _ ↦ true | raised _ ↦ false ]

pub value_of_success : {A : Type 0} (r : Result A) → succeeds r ≡ true → (a : A) × (r ≡ ok a)
value_of_success (ok a) h = (a, refl)
value_of_success (raised e) h = cc

module _ (uuid4 : Database → Uuid) (now : Instant) (user_id : Uuid) (fresh : IsFresh uuid4) where
  pub close_month-ok :
      (totals : List MonthTotals) (cursor : Date) (acc : ℤ) (db : Database)
      → IsValid cursor
      → user_exists db user_id ≡ true
      → let (r, after) = close_month uuid4 now user_id totals cursor acc db in
        (succeeds r ≡ true) × (user_exists after user_id ≡ true)
  unfolding close_month upsert_month
  close_month-ok totals cursor acc db v owner =
      elim (Option-cases
        (find_where (is_for user_id cursor.year cursor.month) db.monthly_savings)) [
          | inl absent ↦
              (ground (arith, fresh db, v.month_in), ground (arith, fresh db, v.month_in))
          | inr (m, found) ↦ (ground arith, ground arith)
        ]

  pub walk_round :
      (fuel : ℕ) (totals : List MonthTotals) (current cursor next : Date) (acc : ℤ) (db : Database)
      (s : MonthlySaving)
      → date_lt cursor current ≡ true
      → (close_month uuid4 now user_id totals cursor acc db).0 ≡ ok s
      → next_month cursor ≡ some next
      → walk uuid4 now user_id (suc fuel) totals current cursor acc db
        ≡ walk uuid4 now user_id fuel totals current next
            (acc +ℤ clamp acc (change_in totals cursor))
            (close_month uuid4 now user_id totals cursor acc db).1
  unfolding walk
  walk_round fuel totals current cursor next acc db s before closed steps = ground arith

  -- With rounds enough, and the current month before the end of time, the walk raises nothing, and
  -- what it accumulates is what the recursion saves.
  pub walk-saved :
      (totals : List MonthTotals) (current : Date) (n fuel : ℕ) (cursor : Date) (acc : ℤ)
      (db : Database)
      → IsValid current
      → current.day ≡ 1
      → IsValid cursor
      → cursor.day ≡ 1
      → month_index current ≡ month_index cursor + n
      → n < fuel
      → user_exists db user_id ≡ true
      → (walk uuid4 now user_id fuel totals current cursor acc db).0
        ≡ ok (saved totals (month_index cursor) n acc)
  unfolding walk saved
  walk-saved totals current zero zero cursor acc db vc fc v first far room owner =
      absurd (omega arith)
  walk-saved totals current (suc n) zero cursor acc db vc fc v first far room owner =
      absurd (omega arith)
  walk-saved totals current zero (suc fuel) cursor acc db vc fc v first far room owner =
      let here : date_lt cursor current ≡ false = ground (arith, vc, v) in rw (here, walk)
  walk-saved totals current (suc n) (suc fuel) cursor acc db vc fc v first far room owner =
      let here : date_lt cursor current ≡ true =
        date_lt_of_month_index cursor current v vc (omega arith) in
      let (done, owner') = close_month-ok totals cursor acc db v owner in
      let (s, closed) = value_of_success _ done in
      let (next, steps, vn, index, first') =
        next_month_lem cursor v (omega (arith, vc.year_in, vc.month_in)) in
      let db' = (close_month uuid4 now user_id totals cursor acc db).1 in
      let here_at : cursor ≡ month_at (month_index cursor) = month_at_index cursor v first in
      let moved =
        ap (λ p. p.0) (walk_round fuel totals current cursor next acc db s here closed steps) in
      let rest =
        walk-saved totals current n fuel next (acc +ℤ clamp acc (change_in totals cursor)) db' vc fc
          vn first' (omega arith) (omega arith) owner' in
      moved ∙ rest ∙ ap ok (saved_step totals cursor next n acc here_at index)

  -- the same with the rounds that the code takes, also where the walk begins after its end
  pub walk_outcome :
      (totals : List MonthTotals) (current cursor : Date) (db : Database)
      → IsValid current
      → current.day ≡ 1
      → IsValid cursor
      → cursor.day ≡ 1
      → user_exists db user_id ≡ true
      → let n = month_index current - month_index cursor in
        (walk uuid4 now user_id (suc n) totals current cursor (pos 0) db).0
        ≡ ok (saved totals (month_index cursor) n (pos 0))
  unfolding walk saved
  walk_outcome totals current cursor db vc fc v first owner =
      elim (Bool-cases (leb (month_index cursor) (month_index current))) [
        | inl before ↦
            walk-saved totals current (month_index current - month_index cursor)
              (suc (month_index current - month_index cursor)) cursor (pos 0) db vc fc v first
              (ground arith) (omega arith) owner
        | inr after ↦
            let none_left : month_index current - month_index cursor ≡ 0 = ground arith in
            let here : date_lt cursor current ≡ false = ground (arith, vc, v) in
            rw none_left (rw (here, walk) refl)
      ]
