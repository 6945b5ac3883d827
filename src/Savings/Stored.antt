-- ===== src/Savings/Stored.antt =====
-- What the whole walk of app/application/savings/services.py leaves in the table: each month that
-- it closes with the amount that the recursion puts aside, every other month as it was.
use accountant_backend.Prelude.{
  ℕ, ℤ, pos, zero, suc, ◌+◌, ◌-◌, ◌/◌, ◌%◌, ◌<◌, ◌≤◌, ◌+ℤ◌, ◌-ℤ◌, ◌≡◌, ◌⊎◌, ◌∙◌, sym, refl, ap,
  subst, int_laws, Result, true, false, some, List, arith, leb, inl, inr, Bool-cases,
}
use accountant_backend.Calendar.{Date, date_lt}
use accountant_backend.Calendar.Laws.{IsValid, month_index, next_month_lem, date_lt_of_month_index}
use accountant_backend.Domain.{Uuid, Instant}
use accountant_backend.Schema.{MonthlySavingModel, Database}
use accountant_backend.Ledger.Categories.{user_exists}
use accountant_backend.Savings.{MonthTotals, change_in, clamp, close_month, walk}
use accountant_backend.Savings.Walk.{
  saved, month_at, month_at_index, clamp_step, value_of_success, IsFresh, close_month-ok,
  walk_round,
}
use accountant_backend.Savings.Closed.{IsKeyed, stored, same_month, close_month-Stores}

-- what the recursion puts aside in the month that is `k` after the month `i`
abbrev pub put_aside : List MonthTotals → ℕ → ℕ → ℤ → ℤ
put_aside totals i k acc = saved totals i (suc k) acc -ℤ saved totals i k acc

-- the months from `i` on, `n` of them, have what is put aside in each, the others what they had
abbrev pub Closes :
    Uuid → List MonthTotals → ℕ → ℕ → ℤ → List MonthlySavingModel → List MonthlySavingModel → Type 0
Closes u totals i n acc rows after =
    ((k : ℕ) → k < n → stored u (month_at (i + k)) after ≡ some (put_aside totals i k acc))
    × ((j : ℕ) → (j < i) ⊎ (i + n ≤ j) → stored u (month_at j) after ≡ stored u (month_at j) rows)

other_month : (i j : ℕ) → (i ≡ j → ⊥) → same_month (month_at i) (month_at j) ≡ false
other_month i j apart = elim (Bool-cases (same_month (month_at i) (month_at j))) [
  | inl same ↦
      let years : i / 12 ≡ j / 12 = ground arith in
      let months : i % 12 ≡ j % 12 = ground arith in absurd (apart (omega arith))
  | inr other ↦ other
]

less_itself : (a b : ℤ) → (a +ℤ b) -ℤ a ≡ b
less_itself a b = omega int_laws

module _ (totals : List MonthTotals) (i : ℕ) (acc : ℤ) where
  first_put_aside : put_aside totals i 0 acc ≡ clamp acc (change_in totals (month_at i))
  unfolding saved
  first_put_aside =
      let change = change_in totals (month_at i) in
      ap (λ s. s -ℤ acc) (sym (clamp_step acc change)) ∙ less_itself acc (clamp acc change)

  later_put_aside :
      (k : ℕ)
      → put_aside totals (i + 1) k (acc +ℤ clamp acc (change_in totals (month_at i)))
        ≡ put_aside totals i (suc k) acc
  unfolding saved
  later_put_aside k =
      ap (λ a. put_aside totals (i + 1) k a) (clamp_step acc (change_in totals (month_at i)))

module _ (u : Uuid) (totals : List MonthTotals) (i n : ℕ) (acc : ℤ)
    (rows mid after : List MonthlySavingModel)
    (this : stored u (month_at i) mid ≡ some (clamp acc (change_in totals (month_at i))))
    (others : (d : Date) → same_month d (month_at i) ≡ false → stored u d mid ≡ stored u d rows)
    (rest : Closes u totals
      (i + 1)
      n
      (acc +ℤ clamp acc (change_in totals (month_at i)))
      mid
      after) where
  closed_at :
      (k : ℕ) → k < suc n → stored u (month_at (i + k)) after ≡ some (put_aside totals i k acc)
  closed_at zero below =
      let here : i ≡ i + 0 = omega arith in
      subst (λ j. stored u (month_at j) after ≡ some (put_aside totals i 0 acc)) here
        (rest.1 i (inl (omega arith)) ∙ this ∙ ap some (sym (first_put_aside totals i acc)))
  closed_at (suc k) below =
      let there : i + 1 + k ≡ i + suc k = omega arith in
      subst (λ j. stored u (month_at j) after ≡ some (put_aside totals i (suc k) acc)) there
        (rest.0 k (omega arith) ∙ ap some (later_put_aside totals i acc k))

  kept_at :
      (j : ℕ) → (j < i) ⊎ (i + suc n ≤ j) → stored u (month_at j) after ≡ stored u (month_at j) rows
  kept_at j (inl before) =
      rest.1 j (inl (omega arith))
      ∙ others (month_at j) (other_month j i λ e. absurd (omega (arith, e)))
  kept_at j (inr beyond) =
      rest.1 j (inr (omega arith))
      ∙ others (month_at j) (other_month j i λ e. absurd (omega (arith, e)))

module _ (uuid4 : Database → Uuid) (now : Instant) (user_id : Uuid) (fresh : IsFresh uuid4) where
  pub walk-Closes_of_fuel :
      (totals : List MonthTotals) (current : Date) (n fuel : ℕ) (cursor : Date) (acc : ℤ)
      (db : Database)
      → IsValid current
      → current.day ≡ 1
      → IsValid cursor
      → cursor.day ≡ 1
      → month_index current ≡ month_index cursor + n
      → n < fuel
      → user_exists db user_id ≡ true
      → IsKeyed db.monthly_savings
      → Closes user_id totals
          (month_index cursor)
          n
          acc
          db.monthly_savings
          (walk uuid4 now user_id fuel totals current cursor acc db).1.monthly_savings
  unfolding walk
  walk-Closes_of_fuel totals current zero zero cursor acc db vc fc v first far room owner keyed =
      absurd (omega arith)
  walk-Closes_of_fuel totals current (suc n) zero cursor acc db vc fc v first far room owner keyed =
      absurd (omega arith)
  walk-Closes_of_fuel totals current zero (suc fuel) cursor acc db vc fc v first far room owner
        keyed =
      let here : date_lt cursor current ≡ false = ground (arith, vc, v) in
      rw (here, walk) ((λ k below. absurd (omega arith)), λ j outside. refl)
  walk-Closes_of_fuel totals current (suc n) (suc fuel) cursor acc db vc fc v first far room owner
        keyed =
      let here : date_lt cursor current ≡ true =
        date_lt_of_month_index cursor current v vc (omega arith) in
      let (done, owner') = close_month-ok uuid4 now user_id fresh totals cursor acc db v owner in
      let (s, closed) = value_of_success _ done in
      let (next, steps, vn, index, first') =
        next_month_lem cursor v (omega (arith, vc.year_in, vc.month_in)) in
      let after = (close_month uuid4 now user_id totals cursor acc db).1 in
      let (this, others, keyed') =
        close_month-Stores uuid4 now user_id fresh totals cursor acc db v owner keyed in
      let here_at : cursor ≡ month_at (month_index cursor) = month_at_index cursor v first in
      let moved =
        walk_round uuid4 now user_id fresh fuel totals current cursor next acc db s here closed
          steps in
      let rest =
        walk-Closes_of_fuel totals current n fuel next (acc +ℤ clamp acc (change_in totals cursor))
          after vc fc vn first' (omega arith) (omega arith) owner' keyed' in
      let i = month_index cursor in
      let this' =
        subst (λ d. stored user_id d after.monthly_savings ≡ some (clamp acc (change_in totals d)))
          here_at this in
      let others' =
        subst
          (λ c.
            (d : Date)
            → same_month d c ≡ false
            → stored user_id d after.monthly_savings ≡ stored user_id d db.monthly_savings)
          here_at others in
      let final =
        (walk uuid4 now user_id fuel totals current next
          (acc +ℤ clamp acc (change_in totals cursor)) after).1.monthly_savings in
      let rest' : Closes user_id totals (i + 1) n (acc +ℤ clamp acc (change_in totals (month_at i)))
          after.monthly_savings final =
        subst
          (λ c.
            Closes user_id totals (i + 1) n (acc +ℤ clamp acc (change_in totals c))
              after.monthly_savings final)
          here_at
          (subst
            (λ m.
              Closes user_id totals m n (acc +ℤ clamp acc (change_in totals cursor))
                after.monthly_savings final)
            index rest) in
      subst
        (λ (o : Result ℤ × Database).
          Closes user_id totals i (suc n) acc db.monthly_savings o.1.monthly_savings)
        (sym moved)
        (
          closed_at user_id totals i n acc db.monthly_savings after.monthly_savings final this'
              others' rest',
          kept_at user_id totals i n acc db.monthly_savings after.monthly_savings final this'
              others' rest',
        )

  -- the same with the rounds that the code takes, also where the walk begins after its end
  pub walk-Closes :
      (totals : List MonthTotals) (current cursor : Date) (db : Database)
      → IsValid current
      → current.day ≡ 1
      → IsValid cursor
      → cursor.day ≡ 1
      → user_exists db user_id ≡ true
      → IsKeyed db.monthly_savings
      → let n = month_index current - month_index cursor in
        Closes user_id totals
          (month_index cursor)
          n
          (pos 0)
          db.monthly_savings
          (walk uuid4 now user_id (suc n) totals current cursor (pos 0) db).1.monthly_savings
  unfolding walk
  walk-Closes totals current cursor db vc fc v first owner keyed =
      elim (Bool-cases (leb (month_index cursor) (month_index current))) [
        | inl before ↦
            walk-Closes_of_fuel totals current (month_index current - month_index cursor)
              (suc (month_index current - month_index cursor)) cursor (pos 0) db vc fc v first
              (ground arith) (omega arith) owner keyed
        | inr after ↦
            let none_left : month_index current - month_index cursor ≡ 0 = ground arith in
            let here : date_lt cursor current ≡ false = ground (arith, vc, v) in
            rw none_left (rw (here, walk) ((λ k below. absurd (omega arith)), λ j outside. refl))
      ]
