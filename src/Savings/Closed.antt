-- ===== src/Savings/Closed.antt =====
-- What the walk of app/application/savings/services.py leaves in the table of the closed months.
use accountant_backend.Prelude.{
  ℤ, ◌≡◌, ◌∙◌, sym, refl, ap, subst, not, same_ℤ, Bool, true, false, Option, some, List, [], ◌∷◌,
  arith, any_where, find_where, find_where_holds, update_where, ◌==◌, ◌&&◌, inl, inr, Bool-cases,
  Option-cases,
}
use mathlib.Core.Option
use accountant_backend.Calendar.{Date}
use accountant_backend.Calendar.Laws.{IsValid}
use accountant_backend.Domain.{Uuid, Instant}
use accountant_backend.Schema.{MonthlySavingModel, Database}
use accountant_backend.Ledger.Categories.{user_exists}
use accountant_backend.Ledger.Budgets.{stamp}
use accountant_backend.Savings.{MonthTotals, change_in, is_for, upsert_month, clamp, close_month}
use accountant_backend.Savings.Walk.{IsFresh}

abbrev pub has_id : Uuid → MonthlySavingModel → Bool
has_id id r = r.id == id

-- no identifier occurs twice, as the primary key keeps it
abbrev pub IsKeyed : List MonthlySavingModel → Type 0
IsKeyed [] = Unit
IsKeyed (r ∷ rows) = (any_where (has_id r.id) rows ≡ false) × IsKeyed rows

update_absent :
    (id : Uuid) (w : MonthlySavingModel → MonthlySavingModel) (rows : List MonthlySavingModel)
    → any_where (has_id id) rows ≡ false
    → update_where (has_id id) w rows ≡ rows
unfolding any_where update_where
update_absent id w [] h = refl
update_absent id w (r ∷ rows) h = ground (arith, update_absent id w rows)

not_of_find :
    (id : Uuid) (p : MonthlySavingModel → Bool) (rows : List MonthlySavingModel)
    (m : MonthlySavingModel)
    → any_where (has_id id) rows ≡ false
    → find_where p rows ≡ some m
    → has_id id m ≡ false
unfolding any_where find_where
not_of_find id p [] m h found = cc
not_of_find id p (r ∷ rows) m h found = ground (arith, not_of_find id p rows m)

module _ (w : MonthlySavingModel → MonthlySavingModel) where
  find_written :
      (p : MonthlySavingModel → Bool) (rows : List MonthlySavingModel) (m : MonthlySavingModel)
      → ((r : MonthlySavingModel) → p (w r) ≡ p r)
      → find_where p rows ≡ some m
      → find_where p (update_where (has_id m.id) w rows) ≡ some (w m)
  unfolding find_where update_where
  find_written p [] m keeps found = cc
  find_written p (r ∷ rows) m keeps found = ground (arith, keeps r, find_written p rows m keeps)

  find_other :
      (p q : MonthlySavingModel → Bool) (rows : List MonthlySavingModel) (m : MonthlySavingModel)
      → ((r : MonthlySavingModel) → q (w r) ≡ q r)
      → IsKeyed rows
      → find_where p rows ≡ some m
      → q m ≡ false
      → find_where q (update_where (has_id m.id) w rows) ≡ find_where q rows
  unfolding find_where update_where
  find_other p q [] m keeps keyed found other = cc
  find_other p q (r ∷ rows) m keeps (apart, keyed) found other = elim (Bool-cases (p r)) [
    | inl here ↦
        let e : r ≡ m = ground arith in ground (arith, keeps r, update_absent r.id w rows apart)
    | inr there ↦
        let later : find_where p rows ≡ some m = ground arith in
        let distinct = not_of_find r.id p rows m apart later in
        let unlike : has_id m.id r ≡ false = ground arith in
        ground (arith, find_other p q rows m keeps keyed later other)
  ]

  any-written :
      (p q : MonthlySavingModel → Bool) (rows : List MonthlySavingModel)
      → ((r : MonthlySavingModel) → q (w r) ≡ q r)
      → any_where q (update_where p w rows) ≡ any_where q rows
  unfolding any_where update_where
  any-written p q [] keeps = refl
  any-written p q (r ∷ rows) keeps = ground (arith, keeps r, any-written p q rows keeps)

  IsKeyed-written :
      (p : MonthlySavingModel → Bool) (rows : List MonthlySavingModel)
      → ((r : MonthlySavingModel) → (w r).id ≡ r.id)
      → IsKeyed rows
      → IsKeyed (update_where p w rows)
  unfolding update_where
  IsKeyed-written p [] keeps keyed = tt
  IsKeyed-written p (r ∷ rows) keeps (apart, keyed) =
      let same = any-written p (has_id r.id) rows (λ s. ap (λ i. i == r.id) (keeps s)) in
      elim (Bool-cases (p r)) [
        | inl here ↦ rw here (rw (keeps r) (same ∙ apart, IsKeyed-written p rows keeps keyed))
        | inr other ↦ rw other (same ∙ apart, IsKeyed-written p rows keeps keyed)
      ]

-- the amount that the table has for a user and a month
unfoldable pub stored : Uuid → Date → List MonthlySavingModel → Option ℤ
unfolding find_where
stored user_id d rows =
    Option.map (λ (r : MonthlySavingModel). r.amount_minor)
      (find_where (is_for user_id d.year d.month) rows)

abbrev pub same_month : Date → Date → Bool
same_month d e = d.year == e.year && d.month == e.month

-- the amount of one month is written, and nothing else
abbrev pub Stores : Uuid → Date → ℤ → List MonthlySavingModel → List MonthlySavingModel → Type 0
Stores u cursor a rows after =
    (stored u cursor after ≡ some a)
    × ((d : Date) → same_month d cursor ≡ false → stored u d after ≡ stored u d rows)
    × IsKeyed after

not_for :
    (u : Uuid) (d cursor : Date) (m : MonthlySavingModel)
    → is_for u cursor.year cursor.month m ≡ true
    → same_month d cursor ≡ false
    → is_for u d.year d.month m ≡ false
not_for u d cursor m mine other = ground arith

insert-Stores :
    (u : Uuid) (cursor : Date) (m : MonthlySavingModel) (rows : List MonthlySavingModel)
    → is_for u cursor.year cursor.month m ≡ true
    → any_where (has_id m.id) rows ≡ false
    → IsKeyed rows
    → Stores u cursor m.amount_minor rows (m ∷ rows)
unfolding stored find_where
insert-Stores u cursor m rows mine apart keyed =
    (rw mine refl, λ d other. rw (not_for u d cursor m mine other) refl, (apart, keyed))

write-Stores :
    (u : Uuid) (cursor : Date) (w : MonthlySavingModel → MonthlySavingModel)
    (m : MonthlySavingModel) (rows : List MonthlySavingModel)
    → ((r : MonthlySavingModel) → (w r).id ≡ r.id)
    → ((d : Date) (r : MonthlySavingModel)
        → is_for u d.year d.month (w r) ≡ is_for u d.year d.month r)
    → find_where (is_for u cursor.year cursor.month) rows ≡ some m
    → IsKeyed rows
    → Stores u cursor (w m).amount_minor rows (update_where (has_id m.id) w rows)
unfolding stored
write-Stores u cursor w m rows same_id same found keyed =
    let p = is_for u cursor.year cursor.month in
    let mine = find_where_holds p rows found in
    let amount = Option.map (λ (r : MonthlySavingModel). r.amount_minor) in
    (
      ap amount (find_written w p rows m (same cursor) found),
      λ d other. ap amount (
          find_other w p (is_for u d.year d.month) rows m (same d) keyed found
            (not_for u d cursor m mine other)),
      IsKeyed-written w (has_id m.id) rows same_id keyed,
    )

upsert_month-Stores :
    (id : Uuid) (now : Instant) (u : Uuid) (cursor : Date) (a : ℤ) (db : Database)
    → any_where (has_id id) db.monthly_savings ≡ false
    → IsValid cursor
    → user_exists db u ≡ true
    → IsKeyed db.monthly_savings
    → Stores u cursor a db.monthly_savings
        (upsert_month id now u cursor.year cursor.month a db).1.monthly_savings
unfolding upsert_month
upsert_month-Stores id now u cursor a db apart v owner keyed =
    let rows = db.monthly_savings in
    elim (Option-cases (find_where (is_for u cursor.year cursor.month) rows)) [
      | inl absent ↦
          let m : MonthlySavingModel = record {
            id = id;
            user_id = u;
            year = cursor.year;
            month = cursor.month;
            amount_minor = a;
            created_at = now;
            updated_at = now;
          } in
          let e : (upsert_month id now u cursor.year cursor.month a db).1.monthly_savings
              ≡ m ∷ rows =
            ground (arith, v.month_in) in
          subst (Stores u cursor a rows) (sym e)
            (insert-Stores u cursor m rows (ground arith) apart keyed)
      | inr (m, found) ↦
          let w = λ (r : MonthlySavingModel). record r {
            amount_minor = a;
            updated_at = stamp (not (same_ℤ m.amount_minor a)) now m.updated_at;
          } in
          let e : (upsert_month id now u cursor.year cursor.month a db).1.monthly_savings
              ≡ update_where (has_id m.id) w rows =
            ground arith in
          subst (Stores u cursor a rows) (sym e)
            (write-Stores u cursor w m rows (λ r. refl) (λ d r. refl) found keyed)
    ]

module _ (uuid4 : Database → Uuid) (now : Instant) (user_id : Uuid) (fresh : IsFresh uuid4) where
  pub close_month-Stores :
      (totals : List MonthTotals) (cursor : Date) (acc : ℤ) (db : Database)
      → IsValid cursor
      → user_exists db user_id ≡ true
      → IsKeyed db.monthly_savings
      → Stores user_id cursor
          (clamp acc (change_in totals cursor))
          db.monthly_savings
          (close_month uuid4 now user_id totals cursor acc db).1.monthly_savings
  unfolding close_month
  close_month-Stores totals cursor acc db v owner keyed =
      upsert_month-Stores (uuid4 db) now user_id cursor _ db (fresh db) v owner keyed
