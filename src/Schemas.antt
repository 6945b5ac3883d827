-- ===== src/Schemas.antt =====
-- The bodies of requests and replies: app/presentation/schemas. `Field` constraints are tests on a
-- payload; the parsing of JSON, of addresses and of dates is left to pydantic.
mod Identity
pub mod Money
mod Bookkeeping
mod Administration
unfoldable pub use Identity.*
unfoldable pub use Money.*
unfoldable pub use Bookkeeping.*
unfoldable pub use Administration.*
use accountant_backend.Prelude.{List, Text}

-- what a reply holds
pub data Body : Type 0 where
  detail_body : Text → Body
  success_body : Body
  user_body : UserResponse → Body
  balance_body : AccountBalanceResponse → Body
  category_body : CategoryResponse → Body
  categories_body : List CategoryResponse → Body
  transaction_body : TransactionResponse → Body
  transactions_body : List TransactionResponse → Body
  subscription_body : SubscriptionResponse → Body
  subscriptions_body : List SubscriptionResponse → Body
  budget_body : MonthlyBudgetResponse → Body
  budgets_body : List MonthlyBudgetResponse → Body
  savings_body : SavingsOverviewResponse → Body
  summaries_body : List AdminUserSummaryResponse → Body
  details_body : AdminUserFinanceDetailsResponse → Body
  access_body : AdminUserAccessResponse → Body
