-- ===== src/Notifications/Usage.antt =====
-- What the budget warning counts, told by the rows of the tables.
use accountant_backend.Prelude.{
  ℤ, pos, ◌+ℤ◌, sum_by, sum_by-map, sum_by-order_by, sum_by-select_where, sum_by-congr, ◌≡◌, ◌∙◌,
  refl, arith, Bool, false, not, ◌&&◌, ◌||◌, none, some, List, [], ◌∷◌, map, Text, any_where,
  select_where, order_by, insert_by, ltb, leb, ◌==◌, if◌then◌else◌, inl, inr, Bool-cases,
}
use accountant_backend.Domain.{Uuid, Instant, expense, same_kind, Transaction, Subscription}
use accountant_backend.Schema.{TransactionModel, SubscriptionModel, Database}
use accountant_backend.Ledger.Transactions.{
  to_transaction_domain, query_for_user, is_listed, later_first,
}
use accountant_backend.Ledger.Subscriptions
use accountant_backend.Ledger.Subscriptions.{to_subscription_domain, is_active_of}
use accountant_backend.Notifications.{is_expense_in, is_charged, used_minor}

module _ (p : TransactionModel → Bool) where
  any_where-insert_by :
      (le : TransactionModel → TransactionModel → Bool) (x : TransactionModel)
      (xs : List TransactionModel)
      → any_where p (insert_by le x xs) ≡ (p x || any_where p xs)
  unfolding any_where insert_by
  any_where-insert_by le x [] = refl
  any_where-insert_by le x (y ∷ ys) = ground (arith, any_where-insert_by le x ys)

  any_where-order_by :
      (le : TransactionModel → TransactionModel → Bool) (xs : List TransactionModel)
      → any_where p (order_by le xs) ≡ any_where p xs
  unfolding any_where order_by
  any_where-order_by le [] = refl
  any_where-order_by le (x ∷ xs) =
      rw (any_where-insert_by le x (order_by le xs), any_where-order_by le xs)

  any_where-select_where :
      (q : TransactionModel → Bool) (xs : List TransactionModel)
      → any_where p (select_where q xs) ≡ any_where (λ x. q x && p x) xs
  unfolding any_where select_where
  any_where-select_where q [] = refl
  any_where-select_where q (x ∷ xs) = ground (arith, any_where-select_where q xs)

  any_where-congr :
      (q : TransactionModel → Bool) (xs : List TransactionModel)
      → ((x : TransactionModel) → p x ≡ q x)
      → any_where p xs ≡ any_where q xs
  unfolding any_where
  any_where-congr q [] h = refl
  any_where-congr q (x ∷ xs) h = rw (h x, any_where-congr q xs h)

nested_if :
    (a b : Bool) (n : ℤ)
    → (if a then if b then n else pos 0 else pos 0) ≡ (if a && b then n else pos 0)
nested_if a b n = ground arith

module _ (user_id category_id : Uuid) (start end : Instant) where
  -- an expense of the user on the category in the period
  abbrev pub is_spending : TransactionModel → Bool
  is_spending m =
      m.user_id == user_id
      && leb start m.occurred_at
      && ltb m.occurred_at end
      && same_kind m.kind expense
      && m.category_id == category_id

  -- a spending that a subscription was charged with
  abbrev pub is_charge_of : Uuid → TransactionModel → Bool
  is_charge_of id m = is_spending m && elim m.subscription_id [ none ↦ false | some s ↦ s == id ]

  -- an active subscription of the user on the category that has not been charged in the period
  abbrev pub is_planned : Database → SubscriptionModel → Bool
  is_planned db r =
      r.user_id == user_id
      && r.is_active
      && r.category_id == category_id
      && not (any_where (is_charge_of r.id) db.transactions)

  -- what has been spent, and what is still to be charged
  unfoldable pub usage : Database → ℤ
  unfolding sum_by any_where
  usage db =
      sum_by (λ m. if is_spending m then m.amount_minor else pos 0) db.transactions
      +ℤ sum_by (λ (r : SubscriptionModel). if is_planned db r then r.amount_minor else pos 0)
          db.subscriptions

  -- the same for a row that the query has let through
  abbrev is_charge_in : Uuid → TransactionModel → Bool
  is_charge_in id m =
      is_expense_in category_id (to_transaction_domain m)
      && elim m.subscription_id [ none ↦ false | some s ↦ s == id ]

  in_query :
      (m : TransactionModel)
      → (is_listed user_id start end none none m
          && is_expense_in category_id (to_transaction_domain m))
        ≡ is_spending m
  in_query m = ground arith

  spent_lem :
      (db : Database)
      → sum_by
          (λ (t : Transaction). t.amount_minor)
          (select_where (is_expense_in category_id) (query_for_user db user_id start end none none))
        ≡ sum_by (λ m. if is_spending m then m.amount_minor else pos 0) db.transactions
  unfolding query_for_user
  spent_lem db =
      let amount = λ (t : Transaction). t.amount_minor in
      let counted =
        λ (t : Transaction). if is_expense_in category_id t then t.amount_minor else pos 0 in
      sum_by-select_where amount (is_expense_in category_id) _
      ∙ sum_by-map counted to_transaction_domain _
      ∙ sum_by-order_by (λ m. counted (to_transaction_domain m)) _ _
      ∙ sum_by-select_where (λ m. counted (to_transaction_domain m))
          (is_listed user_id start end none none) db.transactions
      ∙ sum_by-congr _ _ db.transactions (λ m. rw (← in_query m) (
          nested_if (is_listed user_id start end none none m)
            (is_expense_in category_id (to_transaction_domain m)) m.amount_minor))

  -- the spendings through the steps of the query
  charged-map :
      (id : Uuid) (rows : List TransactionModel)
      → is_charged (select_where (is_expense_in category_id) (map to_transaction_domain rows)) id
        ≡ any_where (is_charge_in id) rows
  unfolding is_charged select_where any_where
  charged-map id [] = refl
  charged-map id (m ∷ rows) =
      elim (Bool-cases (is_expense_in category_id (to_transaction_domain m))) [
        | inl counted ↦ rw (counted, charged-map id rows)
        | inr passed ↦ rw (passed, charged-map id rows)
      ]

  charged_lem :
      (db : Database) (id : Uuid)
      → is_charged
          (select_where (is_expense_in category_id) (query_for_user db user_id start end none none))
          id
        ≡ any_where (is_charge_of id) db.transactions
  unfolding query_for_user
  charged_lem db id =
      charged-map id _
      ∙ any_where-order_by (is_charge_in id) later_first _
      ∙ any_where-select_where (is_charge_in id) (is_listed user_id start end none none)
          db.transactions
      ∙ any_where-congr _ _ db.transactions (λ m. ground arith)

  planned_lem :
      (name_le : Text → Text → Bool) (db : Database) (charged : Uuid → Bool)
      → ((id : Uuid) → charged id ≡ any_where (is_charge_of id) db.transactions)
      → sum_by
          (λ (s : Subscription). s.amount_minor)
          (select_where
            (λ (s : Subscription). s.category_id == category_id && not (charged s.id))
            (Subscriptions.list_active name_le db user_id))
        ≡ sum_by
            (λ (r : SubscriptionModel). if is_planned db r then r.amount_minor else pos 0)
            db.subscriptions
  unfolding Subscriptions.list_active
  planned_lem name_le db charged same =
      let wanted = λ (s : Subscription). s.category_id == category_id && not (charged s.id) in
      let amount = λ (s : Subscription). s.amount_minor in
      let counted = λ (s : Subscription). if wanted s then s.amount_minor else pos 0 in
      sum_by-select_where amount wanted _
      ∙ sum_by-map counted to_subscription_domain _
      ∙ sum_by-order_by (λ r. counted (to_subscription_domain r)) _ _
      ∙ sum_by-select_where (λ r. counted (to_subscription_domain r)) (is_active_of user_id)
          db.subscriptions
      ∙ sum_by-congr _ _ db.subscriptions (λ r. rw (same r.id) (ground arith))

  -- what the use case counts is the usage
  pub used_minor-usage :
      (name_le : Text → Text → Bool) (db : Database)
      → used_minor name_le db user_id category_id start end ≡ usage db
  unfolding used_minor usage
  used_minor-usage name_le db = rw (spent_lem db, planned_lem name_le db _ (charged_lem db))
