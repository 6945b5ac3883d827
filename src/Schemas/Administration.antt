-- ===== src/Schemas/Administration.antt =====
-- app/presentation/schemas/admin.py
use accountant_backend.Prelude.{ℕ, ℤ, Bool, List, map, Text, order_by}
use accountant_backend.Domain.{Uuid, Instant, User}
use accountant_backend.Admin.Figures.{
  AdminUserSummary, AdminCategorySpending, AdminUserFinanceDetails, balance_of_totals,
}
use accountant_backend.Schemas.Identity.{text_le}
use accountant_backend.Schemas.Bookkeeping.{
  TransactionResponse, transaction_response, SubscriptionResponse, subscription_response,
}

pub record AdminUserSummaryResponse : Type 0 where
  pub id : Uuid
  pub email : Text
  pub display_name : Text
  pub is_active : Bool
  pub roles : List Text
  pub created_at : Instant
  pub current_balance_minor : ℤ
  pub total_income_minor : ℤ
  pub total_expense_minor : ℤ
  pub transaction_count : ℕ

-- `AdminUserSummaryResponse.from_domain`
abbrev pub summary_response : AdminUserSummary → AdminUserSummaryResponse
summary_response user = record {
  id = user.id;
  email = user.email;
  display_name = user.display_name;
  is_active = user.is_active;
  roles = user.roles;
  created_at = user.created_at;
  current_balance_minor = balance_of_totals user.finances;
  total_income_minor = user.finances.total_income_minor;
  total_expense_minor = user.finances.total_expense_minor;
  transaction_count = user.finances.transaction_count;
}

-- an `AdminCategorySpendingResponse` has the fields of an `AdminCategorySpending`
pub record AdminUserFinanceDetailsResponse : Type 0 where
  pub user_id : Uuid
  pub recent_transactions : List TransactionResponse
  pub category_spending : List AdminCategorySpending
  pub subscriptions : List SubscriptionResponse

-- `AdminUserFinanceDetailsResponse.from_domain`
abbrev pub details_response : AdminUserFinanceDetails → AdminUserFinanceDetailsResponse
details_response details = record {
  user_id = details.user_id;
  recent_transactions = map transaction_response details.recent_transactions;
  category_spending = details.category_spending;
  subscriptions = map subscription_response details.subscriptions;
}

pub record AdminUserAccessResponse : Type 0 where
  pub id : Uuid
  pub is_active : Bool
  pub roles : List Text

-- `AdminUserAccessResponse.from_user`
unfoldable pub access_response : User → AdminUserAccessResponse
unfolding order_by text_le
access_response user = record {
  id = user.id;
  is_active = user.is_active;
  roles = order_by text_le user.roles;
}
