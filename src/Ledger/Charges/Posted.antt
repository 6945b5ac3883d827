-- ===== src/Ledger/Charges/Posted.antt =====
-- What one subscription's turn writes: a row for every charge date that is due.
use accountant_backend.Prelude.{
  ℕ, zero, suc, ◌+◌, ◌/◌, ◌%◌, ◌≤◌, ◌<◌, min, ◌≡◌, inl, inr, true, false, Option, some, List, arith,
  Bool-cases, Option-cases, any_where, find_where, ◌==◌, pos, leb_ℤ, is_some, any_of_find,
  any_of_find_none, any-or,
}
use accountant_backend.Calendar.{Date, date, date_le, month_length}
use accountant_backend.Calendar.Laws.{
  IsValid, IsNextCharge, month_index, end_of_time, next_month_charge-IsNextCharge,
  month_index_of_date_le, same_date_iff,
}
use accountant_backend.Domain.{Uuid, Instant, Transaction, Subscription}
use accountant_backend.Schema.{TransactionModel, Database}
use accountant_backend.Ledger.Categories.{user_exists, get_category}
use accountant_backend.Ledger.Transactions.{is_charge, subscription_exists}
use accountant_backend.Ledger.Charges.{append_if, post_charge, charge_through}
use accountant_backend.Ledger.Charges.Rounds.{posted, charge_through_round, charge_through_keeps}

-- the charge date in the month that is `i` months after year 0
abbrev pub charge_in : ℕ → ℕ → Date
charge_in i b = date (i / 12) (i % 12 + 1) (min b (month_length (i / 12) (i % 12 + 1)))

-- there is a row for this charge date
abbrev pub IsCharged : Database → Uuid → Date → Type 0
IsCharged db s d = any_where (is_charge s d) db.transactions ≡ true

-- all that is due of the subscription from `d` on has its row
pub record IsPosted (s : Subscription) (through d : Date) (db : Database) : Type 0 where
  pub first : date_le d through ≡ true → IsCharged db s.id d
  pub rest :
      (i : ℕ)
      → month_index d < i
      → date_le (charge_in i s.billing_day) through ≡ true
      → IsCharged db s.id (charge_in i s.billing_day)

-- what a charge of the subscription needs: a positive amount, and rows for its foreign keys
pub record CanCharge (db : Database) (s : Subscription) : Type 0 where
  pub positive : leb_ℤ s.amount_minor (pos 0) ≡ false
  pub owner : user_exists db s.user_id ≡ true
  pub category : is_some (get_category db s.category_id) ≡ true
  pub subscription : subscription_exists db (some s.id) ≡ true

-- `uuid4` draws an identifier that no transaction has
abbrev pub IsFresh : (Database → Uuid) → Type 0
IsFresh uuid4 =
    (db : Database) → any_where (λ (r : TransactionModel). r.id == uuid4 db) db.transactions ≡ false

pub next-charge_in :
    {d : Date} {b : ℕ} {r : Option Date} (n : IsNextCharge d b r)
    → n.next ≡ charge_in (month_index d + 1) b
next-charge_in {d} {b} n =
    let y : n.next.year ≡ (month_index d + 1) / 12 = omega (arith, n.index, n.valid.month_in) in
    let m : n.next.month ≡ (month_index d + 1) % 12 + 1 =
      omega (arith, n.index, n.valid.month_in) in
    cc (y, m, n.clamped)

module _ (uuid4 : Database → Uuid) (now : Instant) (s : Subscription) where
  pub post_charge-CanCharge :
      (t : Subscription) (d : Date) (db : Database)
      → CanCharge db t
      → CanCharge (post_charge uuid4 now s d db).1 t
  unfolding post_charge
  post_charge-CanCharge t d db can = ground arith

  -- a row that is there stays
  IsCharged-post_charge :
      (t : Uuid) (e d : Date) (db : Database)
      → IsCharged db t e
      → IsCharged (post_charge uuid4 now s d db).1 t e
  unfolding post_charge
  IsCharged-post_charge t e d db h = ground arith

  post_charge-IsCharged :
      (d : Date) (db : Database)
      → IsFresh uuid4
      → CanCharge db s
      → IsCharged (post_charge uuid4 now s d db).1 s.id d
  unfolding post_charge
  post_charge-IsCharged d db fresh can =
      elim (Option-cases (find_where (is_charge s.id d) db.transactions)) [
        | inr (r, found) ↦
            ground (arith, any_of_find (is_charge s.id d) db.transactions {a = r} found)
        | inl missing ↦ ground (
          arith,
          same_date_iff d d,
          fresh db,
          any_of_find_none (is_charge s.id d) db.transactions missing,
          any-or (λ (r : TransactionModel). r.id == uuid4 db) (is_charge s.id d) db.transactions,
        )
      ]

  pub IsCharged-charge_through :
      (t : Uuid) (e : Date) (fuel : ℕ) (through d : Date) (created : List Transaction)
      (db : Database)
      → IsCharged db t e
      → IsCharged (charge_through uuid4 now fuel through s d created db).1 t e
  IsCharged-charge_through t e =
      charge_through_keeps uuid4 now s (λ db. IsCharged db t e) (IsCharged-post_charge t e)

  -- in a month after that of a date past the last due day, no charge is due
  later_not_due :
      (d through : Date) (b i : ℕ)
      → IsValid d
      → IsValid through
      → date_le d through ≡ false
      → month_index d < i
      → date_le (charge_in i b) through ≡ false
  unfolding date_le
  later_not_due d through b i vd vt past after = ground arith

  pub charge_through-IsPosted :
      (fuel : ℕ) (through d : Date) (created : List Transaction) (db : Database)
      → IsFresh uuid4
      → CanCharge db s
      → IsValid through
      → month_index through + 1 < end_of_time
      → 1 ≤ s.billing_day
      → IsValid d
      → month_index d ≤ month_index through + 1
      → month_index through + 1 < month_index d + fuel
      → IsPosted s through d (charge_through uuid4 now fuel through s d created db).1
  unfolding charge_through
  charge_through-IsPosted zero through d created db fresh can vt room hb vd near enough =
      absurd (omega arith)
  charge_through-IsPosted (suc fuel) through d created db fresh can vt room hb vd near enough =
      elim (Bool-cases (date_le d through)) [
        | inl due ↦
            let before = month_index_of_date_le d through vd vt due in
            let step = next_month_charge-IsNextCharge d s.billing_day vd hb (omega arith) in
            let made = append_if created (posted uuid4 now s d db) in
            let later = (post_charge uuid4 now s d db).1 in
            let more =
              charge_through-IsPosted fuel through step.next made later fresh
                (post_charge-CanCharge s d db can) vt room hb step.valid (omega (arith, step.index))
                (omega (arith, step.index)) in
            rw
              (charge_through_round uuid4 now s fuel through d step.next created db due
                step.returns)
              (record {
                first = λ _.
                    IsCharged-charge_through s.id d fuel through step.next made later
                      (post_charge-IsCharged d db fresh can);
                rest = λ i after h. elim (Bool-cases (i == month_index step.next)) [
                  | inl here ↦
                      let e : i ≡ month_index d + 1 = ground (arith, step.index) in
                      rw (e, ← next-charge_in step) (more.first (rw (next-charge_in step, ← e) h))
                  | inr there ↦ more.rest i (ground (arith, step.index)) h
                ];
              })
        | inr done ↦ record {
          first = λ h. cc;
          rest = λ i after h. cc (later_not_due d through s.billing_day i vd vt done after);
        }
      ]
