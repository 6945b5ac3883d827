-- ===== src/Ledger/Charges/Settled.antt =====
-- The whole of `ProcessDueSubscriptions`: when it has run, nothing is due.
use accountant_backend.Prelude.{
  ◌+◌, ◌≤◌, ◌<◌, ◌≡◌, refl, sym, subst, ap, inl, inr, true, false, none, List, [], ◌∷◌, map, arith,
  Bool-cases, Option-cases, All, any_where, find_where, select_where, update_where,
  find_where_holds, select_where_keep, select_where_skip, ◌==◌, Result, ok,
}
use accountant_backend.Calendar.{Date, date_le}
use accountant_backend.Calendar.Laws.{IsValid, month_index, end_of_time, month_index_of_date_le}
use accountant_backend.Domain.{Uuid, Instant, Transaction, Subscription}
use accountant_backend.Schema.{SubscriptionModel, Database}
use accountant_backend.Ledger.Subscriptions.{
  to_subscription_domain, is_due, is_own, list_due, update_next_charge,
}
use accountant_backend.Ledger.Charges.{rounds, turn, charge_all, process_due}
use accountant_backend.Ledger.Charges.Rounds.{Reaches, charge_through-Reaches}

-- what the dates of a due subscription satisfy
pub record IsReady (through : Date) (s : Subscription) : Type 0 where
  pub dated : IsValid s.next_charge_date
  pub billed : 1 ≤ s.billing_day
  pub due : date_le s.next_charge_date through ≡ true

module _ (user_id : Uuid) (through : Date) where
  -- if the row is due, its subscription is among those still to be processed
  abbrev pub Owes : List Subscription → SubscriptionModel → Type 0
  Owes rest r =
      is_due user_id through r ≡ true → any_where (λ (s : Subscription). s.id == r.id) rest ≡ true

  Owes-cons :
      (s : Subscription) (rest : List Subscription) (rows : List SubscriptionModel)
      → All (Owes rest) rows
      → All (Owes (s ∷ rest)) rows
  unfolding any_where
  Owes-cons s rest [] h = tt
  Owes-cons s rest (r ∷ rows) h = (λ due. ground (arith, h.0 due), Owes-cons s rest rows h.1)

  Owes-select :
      (rows : List SubscriptionModel)
      → All (Owes (map to_subscription_domain (select_where (is_due user_id through) rows))) rows
  unfolding any_where
  Owes-select [] = tt
  Owes-select (r ∷ rows) = elim (Bool-cases (is_due user_id through r)) [
    | inl due ↦
        subst (λ l. All (Owes (map to_subscription_domain l)) (r ∷ rows))
          (sym (select_where_keep (is_due user_id through) r rows due))
          (
            λ _. ground arith,
            Owes-cons (to_subscription_domain r)
                (map to_subscription_domain (select_where (is_due user_id through) rows)) rows
                (Owes-select rows),
          )
    | inr rests ↦
        subst (λ l. All (Owes (map to_subscription_domain l)) (r ∷ rows))
          (sym (select_where_skip (is_due user_id through) r rows rests))
          (λ due. cc, Owes-select rows)
  ]

  select-Owes :
      (rows : List SubscriptionModel)
      → All (Owes []) rows
      → select_where (is_due user_id through) rows ≡ []
  unfolding any_where select_where
  select-Owes [] h = refl
  select-Owes (r ∷ rows) h = elim (Bool-cases (is_due user_id through r)) [
    | inl due ↦ cc (h.0 due)
    | inr rests ↦
        rw (select_where_skip (is_due user_id through) r rows rests) (select-Owes rows h.1)
  ]

  Owes-write :
      (s : Subscription) (rest : List Subscription) (stop : Date)
      → date_le stop through ≡ false
      → (rows : List SubscriptionModel) → All (Owes (s ∷ rest)) rows
      → All
          (Owes rest)
          (update_where (λ r. r.id == s.id) (λ r. record r { next_charge_date = stop }) rows)
  unfolding any_where update_where
  Owes-write s rest stop past [] h = tt
  Owes-write s rest stop past (r ∷ rows) h = (
    λ due. elim (Bool-cases (r.id == s.id)) [
      | inl same ↦ ground arith
      | inr other ↦ ground (arith, h.0)
    ],
    Owes-write s rest stop past rows h.1,
  )

  Owes-absent :
      (s : Subscription) (rest : List Subscription) (rows : List SubscriptionModel)
      → find_where (is_own user_id s.id) rows ≡ none
      → All (Owes (s ∷ rest)) rows
      → All (Owes rest) rows
  unfolding any_where find_where
  Owes-absent s rest [] absent h = tt
  Owes-absent s rest (r ∷ rows) absent h =
      (λ due. ground (arith, h.0 due), Owes-absent s rest rows (ground arith) h.1)

  Owes-update_next_charge :
      (s : Subscription) (rest : List Subscription) (stop : Date) (db : Database)
      → date_le stop through ≡ false
      → All (Owes (s ∷ rest)) db.subscriptions
      → All (Owes rest) (update_next_charge user_id s.id stop db).1.subscriptions
  unfolding update_next_charge
  Owes-update_next_charge s rest stop db past h =
      elim (Option-cases (find_where (is_own user_id s.id) db.subscriptions)) [
        | inl absent ↦
            rw (absent, update_next_charge) (Owes-absent s rest db.subscriptions absent h)
        | inr (m, found) ↦
            let e : m.id ≡ s.id =
              ground
                (arith, find_where_holds (is_own user_id s.id) db.subscriptions {a = m} found) in
            rw (found, update_next_charge) (rw e (Owes-write s rest stop past db.subscriptions h))
      ]

module _ (uuid4 : Database → Uuid) (now : Instant) (user_id : Uuid) (through : Date) where
  pub charge_all_round :
      (s : Subscription) (rest : List Subscription) (created : List Transaction) (db : Database)
      → (r : Reaches uuid4 now s through db (turn uuid4 now through s created db))
      → charge_all uuid4 now user_id through (s ∷ rest) created db
        ≡ charge_all uuid4 now user_id through rest r.made
            (update_next_charge user_id s.id r.stop (turn uuid4 now through s created db).1).1
  unfolding charge_all update_next_charge
  charge_all_round s rest created db r = ground (arith, r.returns)

  -- `r` is a return, and no row owes a charge any more
  pub record Settles (r : Result (List Transaction) × Database) : Type 0 where
    pub made : List Transaction
    pub returns : r.0 ≡ ok made
    pub owes : All (Owes user_id through []) r.1.subscriptions

  charge_all-Settles :
      (due : List Subscription) (created : List Transaction) (db : Database)
      → IsValid through
      → month_index through + 1 < end_of_time
      → All (IsReady through) due
      → All (Owes user_id through due) db.subscriptions
      → Settles (charge_all uuid4 now user_id through due created db)
  unfolding charge_all
  charge_all-Settles [] created db vt room ready owes = record {
    made = created;
    returns = refl;
    owes = owes;
  }
  charge_all-Settles (s ∷ rest) created db vt room (ready, later) owes =
      let near = month_index_of_date_le s.next_charge_date through ready.dated vt ready.due in
      let r =
        charge_through-Reaches uuid4 now s (rounds through s.next_charge_date) through
          s.next_charge_date created db vt room ready.billed ready.dated (omega arith)
          (omega arith) in
      rw (charge_all_round s rest created db r) (
        charge_all-Settles rest r.made _ vt room later
          (Owes-update_next_charge user_id through s rest r.stop _ r.past (rw r.same owes)))

  -- Where the dates of the due subscriptions are valid and the last due day is valid and lies
  -- before December 9999, the job ends, raises nothing, leaves the user nothing due, and a second
  -- run on the same day posts nothing and changes nothing.
  pub process_due-Settles :
      (db : Database)
      → IsValid through
      → month_index through + 1 < end_of_time
      → All (IsReady through) (list_due db user_id through)
      → let (r, after) = process_due uuid4 now user_id through db in
        ((made : List Transaction) × (r ≡ ok made))
        × (list_due after user_id through ≡ [])
        × (process_due uuid4 now user_id through after ≡ (ok [], after))
  unfolding process_due
  process_due-Settles db vt room ready = (
    (settled.made, settled.returns),
    none_due,
    ap (λ l. charge_all uuid4 now user_id through l [] after) none_due,
  )
    where
      settled : Settles (charge_all uuid4 now user_id through (list_due db user_id through) [] db)
      settled =
          charge_all-Settles (list_due db user_id through) [] db vt room ready
            (unfold list_due in Owes-select user_id through db.subscriptions)

      after : Database
      after = (charge_all uuid4 now user_id through (list_due db user_id through) [] db).1

      none_due : list_due after user_id through ≡ []
      none_due =
          unfold list_due in
          ap (map to_subscription_domain) (select-Owes user_id through _ settled.owes)
