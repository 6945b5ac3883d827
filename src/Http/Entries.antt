-- ===== src/Http/Entries.antt =====
-- The handlers of app/presentation/http/ledger.py on transactions and subscriptions, and those of
-- app/presentation/http/savings.py.
use accountant_backend.Prelude.{
  ◌*◌, ℤ, not, ◌&&◌, Option, some, List, [], ◌∷◌, map, ltb, ◌==◌, any_where, if◌then◌else◌, Error,
  ledger, category_not_found, transaction_not_found, subscription_not_found,
}
use accountant_backend.Calendar.{Date}
use accountant_backend.Domain.{
  Uuid, Instant, TransactionKind, expense, same_kind, Transaction, User,
}
use accountant_backend.Ledger.Bookkeeping
use accountant_backend.Ledger.Subscriptions
use accountant_backend.Ledger.Charges
use accountant_backend.Savings
use accountant_backend.Schema.{Database}
use accountant_backend.Schemas.{
  Decimal, amount_as_minor, TransactionRequest, CreateSubscriptionRequest,
  UpdateSubscriptionRequest, transaction_response, subscription_response, savings_response,
  success_body, transaction_body, transactions_body, subscription_body, subscriptions_body,
  savings_body,
}
use accountant_backend.Http.Messages.{
  no_category, bad_range, kind_mismatch, no_transaction, no_subscription,
}
use accountant_backend.Http.{
  App, Chance, Task, budget_limit_task, Reply, reply, Http, return, refuse, crash, call, ◌>>=◌,
  ◌>>◌,
}
use accountant_backend.Http.Ledger.{ledger_failed, today}

abbrev pub write_transaction_failed : {A : Type 0} → Error → Http A
write_transaction_failed (ledger transaction_not_found) = refuse 404 no_transaction
write_transaction_failed e = ledger_failed no_category kind_mismatch e

abbrev pub create_transaction_failed : {A : Type 0} → Error → Http A
create_transaction_failed e = ledger_failed no_category kind_mismatch e

abbrev pub delete_transaction_failed : {A : Type 0} → Error → Http A
delete_transaction_failed (ledger transaction_not_found) = refuse 404 no_transaction
delete_transaction_failed e = crash e

abbrev pub create_subscription_failed : {A : Type 0} → Error → Http A
create_subscription_failed (ledger category_not_found) = refuse 404 no_category
create_subscription_failed e = crash e

abbrev pub update_subscription_failed : {A : Type 0} → Error → Http A
update_subscription_failed (ledger category_not_found) = refuse 404 no_category
update_subscription_failed (ledger subscription_not_found) = refuse 404 no_subscription
update_subscription_failed e = crash e

abbrev pub remove_subscription_failed : {A : Type 0} → Error → Http A
remove_subscription_failed (ledger subscription_not_found) = refuse 404 no_subscription
remove_subscription_failed e = crash e

-- `if kind == EXPENSE: background_tasks.add_task(notify_budget_limit, ...)`
abbrev pub limit_task : User → TransactionKind → Uuid → List Task
limit_task user kind category_id =
    if same_kind kind expense then budget_limit_task user.id category_id ∷ [] else []

-- the set of the categories of the expenses, as a list without repetition
unfoldable pub expense_categories : List Transaction → List Uuid
unfolding any_where
expense_categories [] = []
expense_categories (t ∷ rest) =
    let found = expense_categories rest in
    if same_kind t.kind expense && not (any_where (λ c. c == t.category_id) found)
    then t.category_id ∷ found
    else found

module _ (app : App) (chance : Chance) where
  -- `datetime.combine(occurred_on, time(hour=12), tzinfo=...)`
  abbrev noon : Date → Instant
  noon d = app.zone.combine d (12 * 3600)

  -- `list_transactions`: a moment without a time zone is `none`
  unfoldable pub list_transactions :
      Option Instant → Option Instant → Option Uuid → Option TransactionKind → User → Http Reply
  unfolding Bookkeeping.list_transactions
  list_transactions (some start) (some end) category_id kind user =
      if not (ltb start end) then refuse 422 bad_range else do
        transactions ← call (Bookkeeping.list_transactions user.id start end category_id kind) crash
        return (reply 200 (transactions_body (map transaction_response transactions)))
  list_transactions _ _ category_id kind user = refuse 422 bad_range

  -- `create_transaction`
  unfoldable pub create_transaction : TransactionRequest → User → Http Reply
  unfolding Bookkeeping.create_transaction amount_as_minor
  create_transaction payload user = do
    transaction ←
        call
          (Bookkeeping.create_transaction (chance.uuid 0) (chance.now 0) user.id payload.category_id
            payload.kind (amount_as_minor payload.amount) payload.description
            (noon payload.occurred_on))
          create_transaction_failed
    return (record (reply 201 (transaction_body (transaction_response transaction))) {
      tasks = limit_task user transaction.kind transaction.category_id;
    })

  -- `update_transaction`
  unfoldable pub update_transaction : Uuid → TransactionRequest → User → Http Reply
  unfolding Bookkeeping.update_transaction amount_as_minor
  update_transaction transaction_id payload user = do
    transaction ←
        call
          (Bookkeeping.update_transaction user.id transaction_id payload.category_id payload.kind
            (amount_as_minor payload.amount) payload.description (noon payload.occurred_on))
          write_transaction_failed
    return (record (reply 200 (transaction_body (transaction_response transaction))) {
      tasks = limit_task user transaction.kind transaction.category_id;
    })

  -- `delete_transaction`
  unfoldable pub delete_transaction : Uuid → User → Http Reply
  unfolding Bookkeeping.delete_transaction
  delete_transaction transaction_id user = do
    call (Bookkeeping.delete_transaction user.id transaction_id) delete_transaction_failed
    return (reply 200 success_body)

  -- `list_subscriptions`
  unfoldable pub list_subscriptions : User → Http Reply
  unfolding Subscriptions.list_subscriptions
  list_subscriptions user = do
    subscriptions ← call (Subscriptions.list_subscriptions app.name_le user.id) crash
    return (reply 200 (subscriptions_body (map subscription_response subscriptions)))

  -- `create_subscription`
  unfoldable pub create_subscription : CreateSubscriptionRequest → User → Http Reply
  unfolding Subscriptions.create_subscription amount_as_minor
  create_subscription payload user = do
    subscription ←
        call
          (Subscriptions.create_subscription (chance.uuid 0) (chance.now 0) user.id
            payload.category_id payload.name (amount_as_minor payload.amount)
            payload.first_charge_date)
          create_subscription_failed
    return (record (reply 201 (subscription_body (subscription_response subscription))) {
      tasks = limit_task user subscription.kind subscription.category_id;
    })

  -- `remove_subscription`
  unfoldable pub remove_subscription : Uuid → User → Http Reply
  unfolding Subscriptions.remove_subscription
  remove_subscription subscription_id user = do
    call (Subscriptions.remove_subscription user.id subscription_id) remove_subscription_failed
    return (reply 200 success_body)

  -- `update_subscription`
  unfoldable pub update_subscription : Uuid → UpdateSubscriptionRequest → User → Http Reply
  unfolding Subscriptions.update_subscription amount_as_minor
  update_subscription subscription_id payload user = do
    subscription ←
        call
          (Subscriptions.update_subscription user.id subscription_id payload.category_id
            payload.name (amount_as_minor payload.amount) payload.billing_day)
          update_subscription_failed
    return (record (reply 200 (subscription_body (subscription_response subscription))) {
      tasks = limit_task user subscription.kind subscription.category_id;
    })

  -- `process_due_subscriptions`; an identifier is drawn for each row
  unfoldable pub process_due_subscriptions : (Database → Uuid) → User → Http Reply
  unfolding Charges.process_due expense_categories
  process_due_subscriptions uuid4 user = do
    transactions ← call (Charges.process_due uuid4 (chance.now 1) user.id (today app chance)) crash
    return (record (reply 200 (transactions_body (map transaction_response transactions))) {
      tasks = map (λ c. budget_limit_task user.id c) (expense_categories transactions);
    })

  -- `process_monthly_savings`, and the end of `set_savings_goal`
  unfoldable pub process_monthly_savings : (Database → Uuid) → ℤ → User → Http Reply
  unfolding Savings.process_monthly_savings
  process_monthly_savings uuid4 goal_minor user = do
    overview ←
        call
          (Savings.process_monthly_savings uuid4 (chance.now 1) user.id app.zone.local_date
            user.created_at (today app chance) goal_minor)
          crash
    return (reply 200 (savings_body (savings_response overview)))

  -- `set_savings_goal`
  unfoldable pub set_savings_goal : (Database → Uuid) → Decimal → User → Http Reply
  unfolding Savings.set_goal process_monthly_savings amount_as_minor
  set_savings_goal uuid4 goal user = do
    goal_minor ← call (Savings.set_goal user.id (amount_as_minor goal)) crash
    process_monthly_savings uuid4 goal_minor user
