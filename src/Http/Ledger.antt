-- ===== src/Http/Ledger.antt =====
-- The handlers of app/presentation/http/ledger.py on balances, budgets and categories, for a user who
-- has the permission and a payload that its schema has let through.
use accountant_backend.Prelude.{
  Option, [], ◌∷◌, map, Text, Error, ledger, category_not_found, category_kind_mismatch,
  category_already_exists, budget_not_found, budget_already_exists,
}
use accountant_backend.Calendar.{Date, next_day}
use accountant_backend.Domain.{Uuid, Instant, TransactionKind, User}
use accountant_backend.Ledger.Categories
use accountant_backend.Ledger.Bookkeeping
use accountant_backend.Ledger.Budgets
use accountant_backend.Schemas.{
  Decimal, amount_as_minor, CreateCategoryRequest, UpdateMonthlyBudgetRequest, balance_response,
  category_response, budget_response, success_body, balance_body, category_body, categories_body,
  budget_body, budgets_body,
}
use accountant_backend.Http.Messages.{
  no_category, expense_only, no_budget_or_category, second_budget, no_budget, second_category,
}
use accountant_backend.Http.{
  App, Chance, budget_limit_task, Reply, reply, Http, return, refuse, crash, call, ◌>>=◌, ◌>>◌,
}

-- the clauses of `except`, by the sentences that the handlers have for them
abbrev pub ledger_failed : {A : Type 0} → Text → Text → Error → Http A
ledger_failed missing mismatch (ledger category_not_found) = refuse 404 missing
ledger_failed missing mismatch (ledger category_kind_mismatch) = refuse 422 mismatch
ledger_failed missing mismatch e = crash e

abbrev pub set_budget_failed : {A : Type 0} → Error → Http A
set_budget_failed e = ledger_failed no_category expense_only e

abbrev pub update_budget_failed : {A : Type 0} → Error → Http A
update_budget_failed (ledger budget_not_found) = refuse 404 no_budget_or_category
update_budget_failed (ledger budget_already_exists) = refuse 409 second_budget
update_budget_failed e = ledger_failed no_budget_or_category expense_only e

abbrev pub remove_budget_failed : {A : Type 0} → Error → Http A
remove_budget_failed (ledger budget_not_found) = refuse 404 no_budget
remove_budget_failed e = crash e

abbrev pub create_category_failed : {A : Type 0} → Error → Http A
create_category_failed (ledger category_already_exists) = refuse 409 second_category
create_category_failed e = crash e

module _ (app : App) (chance : Chance) where
  abbrev pub today : Date
  today = app.zone.local_date (chance.now 0)

  -- `datetime.combine(tomorrow, time.min, tzinfo=timezone)`
  unfoldable pub tomorrow : Instant
  unfolding next_day
  tomorrow = app.zone.combine (next_day today) 0

  -- `get_account_balance`
  unfoldable pub get_account_balance : User → Http Reply
  unfolding Bookkeeping.get_account_balance tomorrow
  get_account_balance user = do
    balance ← call (Bookkeeping.get_account_balance user tomorrow) crash
    return (reply 200 (balance_body (balance_response balance)))

  -- `set_opening_balance`
  unfoldable pub set_opening_balance : Decimal → User → Http Reply
  unfolding Bookkeeping.set_opening_balance tomorrow amount_as_minor
  set_opening_balance amount user = do
    balance ← call (Bookkeeping.set_opening_balance user.id (amount_as_minor amount) tomorrow) crash
    return (reply 200 (balance_body (balance_response balance)))

  -- `list_monthly_budgets`
  unfoldable pub list_monthly_budgets : User → Http Reply
  unfolding Budgets.list_monthly_budgets
  list_monthly_budgets user = do
    budgets ← call (Budgets.list_monthly_budgets app.name_le user.id) crash
    return (reply 200 (budgets_body (map budget_response budgets)))

  -- `set_monthly_budget`
  unfoldable pub set_monthly_budget : Uuid → Decimal → User → Http Reply
  unfolding Budgets.set_monthly_budget amount_as_minor
  set_monthly_budget category_id limit user = do
    budget ←
        call
          (Budgets.set_monthly_budget (chance.uuid 0) (chance.now 0) user.id category_id
            (amount_as_minor limit))
          set_budget_failed
    return (record (reply 200 (budget_body (budget_response budget))) {
      tasks = budget_limit_task user.id budget.category_id ∷ [];
    })

  -- `update_monthly_budget`
  unfoldable pub update_monthly_budget : Uuid → UpdateMonthlyBudgetRequest → User → Http Reply
  unfolding Budgets.update_monthly_budget amount_as_minor
  update_monthly_budget budget_id payload user = do
    budget ←
        call
          (Budgets.update_monthly_budget (chance.now 0) user.id budget_id payload.category_id
            (amount_as_minor payload.limit))
          update_budget_failed
    return (record (reply 200 (budget_body (budget_response budget))) {
      tasks = budget_limit_task user.id budget.category_id ∷ [];
    })

  -- `remove_monthly_budget`
  unfoldable pub remove_monthly_budget : Uuid → User → Http Reply
  unfolding Budgets.remove_monthly_budget
  remove_monthly_budget category_id user = do
    call (Budgets.remove_monthly_budget user.id category_id) remove_budget_failed
    return (reply 200 success_body)

  -- `list_categories`
  unfoldable pub list_categories : Option TransactionKind → User → Http Reply
  unfolding Categories.list_categories
  list_categories kind user = do
    categories ← call (Categories.list_categories app.name_le user.id kind) crash
    return (reply 200 (categories_body (map category_response categories)))

  -- `create_category`
  unfoldable pub create_category : CreateCategoryRequest → User → Http Reply
  unfolding Categories.create_category
  create_category payload user = do
    category ←
        call
          (Categories.create_category (chance.uuid 0) (chance.now 0) user.id payload.name
            payload.kind (app.services.lower payload.color))
          create_category_failed
    return (reply 201 (category_body (category_response category)))
