-- ===== src/Ledger/Charges/Complete.antt =====
-- The whole of `ProcessDueSubscriptions`: no charge that is due is left out.
use accountant_backend.Prelude.{
  ◌+◌, ◌<◌, ◌≡◌, ◌∙◌, refl, sym, subst, inl, inr, List, [], ◌∷◌, arith, Option-cases, All,
  any_where, find_where, update_where, ◌==◌,
}
use accountant_backend.Calendar.{Date}
use accountant_backend.Calendar.Laws.{IsValid, month_index, end_of_time, month_index_of_date_le}
use accountant_backend.Domain.{Uuid, Instant, Transaction, Subscription}
use accountant_backend.Schema.{SubscriptionModel, Database}
use accountant_backend.Ledger.Subscriptions.{list_due, is_own, update_next_charge}
use accountant_backend.Ledger.Charges.{rounds, turn, charge_all, process_due}
use accountant_backend.Ledger.Charges.Rounds.{Reaches, charge_through_keeps, charge_through-Reaches}
use accountant_backend.Ledger.Charges.Posted.{
  charge_in, IsCharged, IsPosted, CanCharge, IsFresh, post_charge-CanCharge,
  IsCharged-charge_through, charge_through-IsPosted,
}
use accountant_backend.Ledger.Charges.Settled.{IsReady, charge_all_round}

any-update_where :
    (id t : Uuid) (d : Date) (rows : List SubscriptionModel)
    → any_where
        (λ r. r.id == t)
        (update_where (λ r. r.id == id) (λ r. record r { next_charge_date = d }) rows)
      ≡ any_where (λ (r : SubscriptionModel). r.id == t) rows
unfolding any_where update_where
any-update_where id t d [] = refl
any-update_where id t d (r ∷ rows) = ground (arith, any-update_where id t d rows)

module _ (uuid4 : Database → Uuid) (now : Instant) (user_id : Uuid) where
  update_next_charge-CanCharge :
      (id : Uuid) (d : Date) (t : Subscription) (db : Database)
      → CanCharge db t
      → CanCharge (update_next_charge user_id id d db).1 t
  unfolding update_next_charge
  update_next_charge-CanCharge id d t db can =
      elim (Option-cases (find_where (is_own user_id id) db.subscriptions)) [
        | inl absent ↦ rw (absent, update_next_charge) can
        | inr (m, found) ↦
            rw (found, update_next_charge)
              (record {
                positive = can.positive;
                owner = can.owner;
                category = can.category;
                subscription = any-update_where m.id t.id d db.subscriptions ∙ can.subscription;
              })
      ]

  IsCharged-update_next_charge :
      (id : Uuid) (d : Date) (t : Uuid) (e : Date) (db : Database)
      → IsCharged db t e
      → IsCharged (update_next_charge user_id id d db).1 t e
  unfolding update_next_charge
  IsCharged-update_next_charge id d t e db h = ground arith

  turn-CanCharge :
      (through : Date) (s t : Subscription) (created : List Transaction) (db : Database)
      → CanCharge db t
      → CanCharge (turn uuid4 now through s created db).1 t
  turn-CanCharge through s t created =
      charge_through_keeps uuid4 now s (λ db. CanCharge db t) (post_charge-CanCharge uuid4 now s t)
        (rounds through s.next_charge_date) through s.next_charge_date created

  -- one subscription's turn, with the update of its next charge date
  abbrev after_turn : Date → Subscription → Date → List Transaction → Database → Database
  after_turn through s stop created db =
      (update_next_charge user_id s.id stop (turn uuid4 now through s created db).1).1

  after_turn-CanCharge :
      (through : Date) (s : Subscription) (stop : Date) (created : List Transaction)
      (ts : List Subscription) (db : Database)
      → All (CanCharge db) ts
      → All (CanCharge (after_turn through s stop created db)) ts
  after_turn-CanCharge through s stop created [] db can = tt
  after_turn-CanCharge through s stop created (t ∷ ts) db (can, rest) = (
    update_next_charge-CanCharge s.id stop t _ (turn-CanCharge through s t created db can),
    after_turn-CanCharge through s stop created ts db rest,
  )

  module _ (fresh : IsFresh uuid4) (through : Date) (vt : IsValid through)
      (room : month_index through + 1 < end_of_time) where
    -- the loop of one ready subscription, with the fuel that it is given
    turn-Reaches :
        (s : Subscription) (created : List Transaction) (db : Database)
        → IsReady through s
        → Reaches uuid4 now s through db (turn uuid4 now through s created db)
    turn-Reaches s created db ready =
        let near = month_index_of_date_le s.next_charge_date through ready.dated vt ready.due in
        charge_through-Reaches uuid4 now s (rounds through s.next_charge_date) through
          s.next_charge_date created db vt room ready.billed ready.dated (omega arith) (omega arith)

    turn-IsPosted :
        (s : Subscription) (created : List Transaction) (db : Database)
        → IsReady through s
        → CanCharge db s
        → IsPosted s through s.next_charge_date (turn uuid4 now through s created db).1
    turn-IsPosted s created db ready can =
        let near = month_index_of_date_le s.next_charge_date through ready.dated vt ready.due in
        charge_through-IsPosted uuid4 now s (rounds through s.next_charge_date) through
          s.next_charge_date created db fresh can vt room ready.billed ready.dated (omega arith)
          (omega arith)

    IsCharged-charge_all :
        (t : Uuid) (e : Date) (due : List Subscription) (created : List Transaction) (db : Database)
        → All (IsReady through) due
        → IsCharged db t e
        → IsCharged (charge_all uuid4 now user_id through due created db).1 t e
    unfolding charge_all
    IsCharged-charge_all t e [] created db ready h = h
    IsCharged-charge_all t e (s ∷ rest) created db (ready, later) h =
        let r = turn-Reaches s created db ready in
        subst (λ p. IsCharged p.1 t e)
          (sym (charge_all_round uuid4 now user_id through s rest created db r))
          (IsCharged-charge_all t e rest r.made (after_turn through s r.stop created db) later (
            IsCharged-update_next_charge s.id r.stop t e (turn uuid4 now through s created db).1 (
              IsCharged-charge_through uuid4 now s t e (rounds through s.next_charge_date) through
                s.next_charge_date created db h)))

    charge_all-IsPosted :
        (due : List Subscription) (created : List Transaction) (db : Database)
        → All (IsReady through) due
        → All (CanCharge db) due
        → All
            (λ s.
              IsPosted s through s.next_charge_date
                (charge_all uuid4 now user_id through due created db).1)
            due
    unfolding charge_all
    charge_all-IsPosted [] created db ready can = tt
    charge_all-IsPosted (s ∷ rest) created db (ready, later) (can, cans) =
        let r = turn-Reaches s created db ready in
        let here = turn-IsPosted s created db ready can in
        let next = after_turn through s r.stop created db in
        let kept = λ (e : Date) (h : IsCharged (turn uuid4 now through s created db).1 s.id e).
          IsCharged-charge_all s.id e rest r.made next later (
            IsCharged-update_next_charge s.id r.stop s.id e (turn uuid4 now through s created db).1
              h) in
        subst (λ p. All (λ t. IsPosted t through t.next_charge_date p.1) (s ∷ rest))
          (sym (charge_all_round uuid4 now user_id through s rest created db r))
          (
            record {
              first = λ due. kept s.next_charge_date (here.first due);
              rest = λ i after due. kept (charge_in i s.billing_day) (here.rest i after due);
            },
            charge_all-IsPosted rest r.made next later
                (after_turn-CanCharge through s r.stop created rest db cans),
          )

    -- Where new identifiers are fresh, the due subscriptions have valid dates and meet the
    -- constraints of a charge, and the last due day is valid and lies before December 9999, the job
    -- leaves a row for the pending charge date of each due subscription and for its charge date in
    -- every later month up to the last due day.
    pub process_due-IsPosted :
        (db : Database)
        → All (IsReady through) (list_due db user_id through)
        → All (CanCharge db) (list_due db user_id through)
        → All
            (λ s.
              IsPosted s through s.next_charge_date (process_due uuid4 now user_id through db).1)
            (list_due db user_id through)
    unfolding process_due
    process_due-IsPosted db = charge_all-IsPosted (list_due db user_id through) [] db
