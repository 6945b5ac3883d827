-- ===== src/Ledger/Charges/Rounds.antt =====
-- One subscription's turn: the inner loop ends, raises nothing, and stops past the last due day.
use accountant_backend.Prelude.{
  ℕ, zero, suc, ◌+◌, ◌≤◌, ◌<◌, ◌≡◌, ◌∙◌, inl, inr, true, false, Option, none, some, raised, List,
  arith, Bool-cases, Option-cases, sym, subst, Result, ok,
}
use accountant_backend.Calendar.{Date, date_le, next_month_charge}
use accountant_backend.Calendar.Laws.{
  IsValid, month_index, end_of_time, next_month_charge-IsNextCharge, month_index_of_date_le,
}
use accountant_backend.Domain.{Uuid, Instant, Transaction, Subscription}
use accountant_backend.Schema.{Database}
use accountant_backend.Ledger.Charges.{append_if, post_charge, charge_through}

module _ (uuid4 : Database → Uuid) (now : Instant) (s : Subscription) where
  -- posting a charge raises nothing, also where a constraint refuses the row
  pub posted : Date → Database → Option Transaction
  posted d db = elim (post_charge uuid4 now s d db).0 [ ok t ↦ t | raised _ ↦ none ]

  pub post_charge_returns :
      (d : Date) (db : Database) → (post_charge uuid4 now s d db).0 ≡ ok (posted d db)
  unfolding post_charge posted
  post_charge_returns d db = ground arith

  pub subscriptions-post_charge :
      (d : Date) (db : Database) → (post_charge uuid4 now s d db).1.subscriptions ≡ db.subscriptions
  unfolding post_charge
  subscriptions-post_charge d db = ground arith

  -- one more round of the loop
  pub charge_through_round :
      (fuel : ℕ) (through d n : Date) (created : List Transaction) (db : Database)
      → date_le d through ≡ true
      → next_month_charge d s.billing_day ≡ some n
      → charge_through uuid4 now (suc fuel) through s d created db
        ≡ charge_through uuid4 now fuel through s n
            (append_if created (posted d db))
            (post_charge uuid4 now s d db).1
  unfolding charge_through
  charge_through_round fuel through d n created db due next =
      ground (arith, post_charge_returns d db)

  -- in the last month of year 9999 the loop ends with the `ValueError`
  charge_through_last :
      (fuel : ℕ) (through d : Date) (created : List Transaction) (db : Database)
      → date_le d through ≡ true
      → next_month_charge d s.billing_day ≡ none
      → (charge_through uuid4 now (suc fuel) through s d created db).1
        ≡ (post_charge uuid4 now s d db).1
  unfolding charge_through
  charge_through_last fuel through d created db due out = ground (arith, post_charge_returns d db)

  -- What each posted charge keeps, the loop keeps, however it ends.
  module _ (P : Database → Type 0)
      (keep : (d : Date) (db : Database) → P db → P (post_charge uuid4 now s d db).1) where
    pub charge_through_keeps :
        (fuel : ℕ) (through d : Date) (created : List Transaction) (db : Database)
        → P db
        → P (charge_through uuid4 now fuel through s d created db).1
    unfolding charge_through
    charge_through_keeps zero through d created db h = h
    charge_through_keeps (suc fuel) through d created db h = elim (Bool-cases (date_le d through)) [
      | inl due ↦ elim (Option-cases (next_month_charge d s.billing_day)) [
        | inl out ↦
            subst P (sym (charge_through_last fuel through d created db due out)) (keep d db h)
        | inr (n, next) ↦
            subst (λ r. P (r.1)) (sym (charge_through_round fuel through d n created db due next))
              (charge_through_keeps fuel through n (append_if created (posted d db))
                (post_charge uuid4 now s d db).1 (keep d db h))
      ]
      | inr done ↦ rw (done, charge_through) h
    ]

  -- `r`, reached from `db`, is a return with a valid date that is no longer due
  pub record Reaches (through : Date) (db : Database)
      (r : Result (Date × List Transaction) × Database) : Type 0 where
    pub stop : Date
    pub made : List Transaction
    pub returns : r.0 ≡ ok (stop, made)
    pub valid : IsValid stop
    pub past : date_le stop through ≡ false
    pub same : r.1.subscriptions ≡ db.subscriptions

  pub charge_through-Reaches :
      (fuel : ℕ) (through d : Date) (created : List Transaction) (db : Database)
      → IsValid through
      → month_index through + 1 < end_of_time
      → 1 ≤ s.billing_day
      → IsValid d
      → month_index d ≤ month_index through + 1
      → month_index through + 1 < month_index d + fuel
      → Reaches through db (charge_through uuid4 now fuel through s d created db)
  unfolding charge_through
  charge_through-Reaches zero through d created db vt room hb vd near enough = absurd (omega arith)
  charge_through-Reaches (suc fuel) through d created db vt room hb vd near enough =
      elim (Bool-cases (date_le d through)) [
        | inl due ↦
            let before = month_index_of_date_le d through vd vt due in
            let step = next_month_charge-IsNextCharge d s.billing_day vd hb (omega arith) in
            let later = (post_charge uuid4 now s d db).1 in
            let r =
              charge_through-Reaches fuel through step.next (append_if created (posted d db)) later
                vt room hb step.valid (omega (arith, step.index)) (omega (arith, step.index)) in
            rw (charge_through_round fuel through d step.next created db due step.returns) (record {
              stop = r.stop;
              made = r.made;
              returns = r.returns;
              valid = r.valid;
              past = r.past;
              same = r.same ∙ subscriptions-post_charge d db;
            })
        | inr done ↦ record {
          stop = d;
          made = created;
          returns = rw (done, charge_through);
          valid = vd;
          past = done;
          same = rw (done, charge_through);
        }
      ]
