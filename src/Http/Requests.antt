-- ===== src/Http/Requests.antt =====
-- A request to app/presentation/http/{ledger,savings,admin}.py from the cookie to the reply: the
-- dependencies of app/presentation/dependencies/auth.py come first, then the constraints of the
-- payload, then the handler.
pub mod Guards
use accountant_backend.Prelude.{
  ℕ, Bool, true, false, not, ◌&&◌, Option, none, some, List, [], ◌∷◌, Text, codes, text_eq,
  any_where, if◌then◌else◌,
}
use accountant_backend.Domain.{Uuid, Instant, TransactionKind, User}
use accountant_backend.Schema.{Database}
use accountant_backend.Schemas.{
  Decimal, is_amount, is_money, is_goal, CreateCategoryRequest, is_create_category_request,
  TransactionRequest, is_transaction_request, CreateSubscriptionRequest,
  is_create_subscription_request, UpdateSubscriptionRequest, is_update_subscription_request,
  UpdateMonthlyBudgetRequest,
}
use accountant_backend.Http.Messages.{not_allowed}
use accountant_backend.Http.{App, Chance, Reply, Http, return, refuse, ◌>>=◌, ◌>>◌, when}
use accountant_backend.Http.Auth.{current_user}
use accountant_backend.Http.Ledger
use accountant_backend.Http.Entries
use accountant_backend.Http.Administration

-- a route with its payload
pub data Call : Type 0 where
  get_account_balance : Call
  set_opening_balance : Decimal → Call
  list_monthly_budgets : Call
  set_monthly_budget : Uuid → Decimal → Call
  update_monthly_budget : Uuid → UpdateMonthlyBudgetRequest → Call
  remove_monthly_budget : Uuid → Call
  list_categories : Option TransactionKind → Call
  create_category : CreateCategoryRequest → Call
  list_transactions : Option Instant → Option Instant → Option Uuid → Option TransactionKind → Call
  create_transaction : TransactionRequest → Call
  update_transaction : Uuid → TransactionRequest → Call
  delete_transaction : Uuid → Call
  list_subscriptions : Call
  create_subscription : CreateSubscriptionRequest → Call
  remove_subscription : Uuid → Call
  update_subscription : Uuid → UpdateSubscriptionRequest → Call
  process_due_subscriptions : (Database → Uuid) → Call
  process_monthly_savings : (Database → Uuid) → Call
  set_savings_goal : (Database → Uuid) → Decimal → Call
  list_users : Call
  get_user_finance_details : Uuid → Call
  change_user_status : Uuid → Bool → Call

unfoldable pub finance_read_self : Text
finance_read_self = codes "finance.read.self"

unfoldable pub finance_write_self : Text
finance_write_self = codes "finance.write.self"

unfoldable pub finance_read_any : Text
finance_read_any = codes "finance.read.any"

unfoldable pub users_read : Text
users_read = codes "users.read"

unfoldable pub users_manage : Text
users_manage = codes "users.manage"

-- what the routes pass to `require_permission` and `require_permissions`
unfoldable pub permissions_of : Call → List Text
permissions_of get_account_balance = finance_read_self ∷ []
permissions_of list_monthly_budgets = finance_read_self ∷ []
permissions_of (list_categories _) = finance_read_self ∷ []
permissions_of (list_transactions _ _ _ _) = finance_read_self ∷ []
permissions_of list_subscriptions = finance_read_self ∷ []
permissions_of list_users = users_read ∷ finance_read_any ∷ []
permissions_of (get_user_finance_details _) = users_read ∷ finance_read_any ∷ []
permissions_of (change_user_status _ _) = users_manage ∷ []
permissions_of _ = finance_write_self ∷ []

-- `permission in user.permissions`
unfoldable pub has_permission : User → Text → Bool
unfolding any_where text_eq
has_permission user permission = any_where (λ p. text_eq p permission) user.permissions

-- `set(permissions).issubset(user.permissions)`
unfoldable pub has_permissions : User → List Text → Bool
unfolding has_permission
has_permissions user [] = true
has_permissions user (p ∷ ps) = has_permission user p && has_permissions user ps

-- the constraints of the payload
unfoldable pub is_accepted : Call → Bool
is_accepted (set_opening_balance amount) = is_money amount
is_accepted (set_monthly_budget _ limit) = is_amount limit
is_accepted (update_monthly_budget _ p) = is_amount p.limit
is_accepted (create_category p) = is_create_category_request p
is_accepted (create_transaction p) = is_transaction_request p
is_accepted (update_transaction _ p) = is_transaction_request p
is_accepted (create_subscription p) = is_create_subscription_request p
is_accepted (update_subscription _ p) = is_update_subscription_request p
is_accepted (set_savings_goal _ goal) = is_goal goal
is_accepted _ = true

module _ (app : App) (chance : Chance) where
  -- `require_permission` and `require_permissions`
  unfoldable pub require_permissions : List Text → Option Text → Http User
  unfolding current_user has_permissions
  require_permissions permissions token = do
    user ← current_user app chance token
    when (not (has_permissions user permissions)) (refuse 403 not_allowed)
    return user

  -- the handler of a route
  unfoldable pub handle : Call → User → Http Reply
  handle get_account_balance user = Ledger.get_account_balance app chance user
  handle (set_opening_balance amount) user = Ledger.set_opening_balance app chance amount user
  handle list_monthly_budgets user = Ledger.list_monthly_budgets app chance user
  handle (set_monthly_budget c limit) user = Ledger.set_monthly_budget app chance c limit user
  handle (update_monthly_budget b p) user = Ledger.update_monthly_budget app chance b p user
  handle (remove_monthly_budget c) user = Ledger.remove_monthly_budget app chance c user
  handle (list_categories kind) user = Ledger.list_categories app chance kind user
  handle (create_category p) user = Ledger.create_category app chance p user
  handle (list_transactions start end c kind) user =
      Entries.list_transactions app chance start end c kind user
  handle (create_transaction p) user = Entries.create_transaction app chance p user
  handle (update_transaction t p) user = Entries.update_transaction app chance t p user
  handle (delete_transaction t) user = Entries.delete_transaction app chance t user
  handle list_subscriptions user = Entries.list_subscriptions app chance user
  handle (create_subscription p) user = Entries.create_subscription app chance p user
  handle (remove_subscription s) user = Entries.remove_subscription app chance s user
  handle (update_subscription s p) user = Entries.update_subscription app chance s p user
  handle (process_due_subscriptions uuid4) user =
      Entries.process_due_subscriptions app chance uuid4 user
  handle (process_monthly_savings uuid4) user =
      Entries.process_monthly_savings app chance uuid4 user.savings_goal_minor user
  handle (set_savings_goal uuid4 goal) user = Entries.set_savings_goal app chance uuid4 goal user
  handle list_users user = Administration.list_users app chance
  handle (get_user_finance_details u) user = Administration.get_user_finance_details app chance u
  handle (change_user_status u active) user =
      Administration.change_user_status app chance u active user

  -- a request with its access cookie
  unfoldable pub serve : Option Text → Call → Http Reply
  unfolding require_permissions
  serve token request = do
    user ← require_permissions (permissions_of request) token
    when (not (is_accepted request)) (refuse 422 [])
    handle request user
