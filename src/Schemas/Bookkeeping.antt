-- ===== src/Schemas/Bookkeeping.antt =====
-- app/presentation/schemas/ledger.py and app/presentation/schemas/savings.py.
use accountant_backend.Prelude.{
  ℕ, ℤ, Bool, true, false, ◌&&◌, ◌||◌, Option, List, [], ◌∷◌, map, Text, length, leb, ◌==◌, is_none,
}
use accountant_backend.Calendar.{Date}
use accountant_backend.Domain.{
  Uuid, Instant, TransactionKind, AccountBalance, current_balance_minor, Category, Transaction,
  Subscription, MonthlyBudget, MonthlySaving, SavingsOverview,
}
use accountant_backend.Schemas.Identity.{has_length}
use accountant_backend.Schemas.Money.{Decimal, is_amount}

abbrev pub is_hex : ℕ → Bool
is_hex c = (leb b'0' c && leb c b'9') || (leb b'a' c && leb c b'f') || (leb b'A' c && leb c b'F')

unfoldable pub all_hex : Text → Bool
all_hex [] = true
all_hex (c ∷ s) = is_hex c && all_hex s

-- the pattern `^#[0-9a-fA-F]{6}$`
unfoldable pub is_color : Text → Bool
unfolding all_hex
is_color [] = false
is_color (c ∷ s) = c == b'#' && length s == 6 && all_hex s

pub record CreateCategoryRequest : Type 0 where
  pub name : Text
  pub kind : TransactionKind
  pub color : Text

abbrev pub is_create_category_request : CreateCategoryRequest → Bool
is_create_category_request p = has_length 2 80 p.name && is_color p.color

pub record CategoryResponse : Type 0 where
  pub id : Uuid
  pub name : Text
  pub kind : TransactionKind
  pub color : Text
  pub is_default : Bool

-- `CategoryResponse.from_domain`
abbrev pub category_response : Category → CategoryResponse
category_response c = record {
  id = c.id;
  name = c.name;
  kind = c.kind;
  color = c.color;
  is_default = is_none c.user_id;
}

-- `CreateTransactionRequest` and `UpdateTransactionRequest`, which have the same fields
pub record TransactionRequest : Type 0 where
  pub category_id : Uuid
  pub kind : TransactionKind
  pub amount : Decimal
  pub description : Text
  pub occurred_on : Date

abbrev pub is_transaction_request : TransactionRequest → Bool
is_transaction_request p = is_amount p.amount && has_length 1 200 p.description

pub record TransactionResponse : Type 0 where
  pub id : Uuid
  pub category_id : Uuid
  pub category_name : Text
  pub category_color : Text
  pub kind : TransactionKind
  pub amount_minor : ℤ
  pub description : Text
  pub occurred_at : Instant
  pub created_at : Instant
  pub subscription_id : Option Uuid
  pub subscription_charge_date : Option Date

-- `TransactionResponse.from_domain`
abbrev pub transaction_response : Transaction → TransactionResponse
transaction_response t = record {
  id = t.id;
  category_id = t.category_id;
  category_name = t.category_name;
  category_color = t.category_color;
  kind = t.kind;
  amount_minor = t.amount_minor;
  description = t.description;
  occurred_at = t.occurred_at;
  created_at = t.created_at;
  subscription_id = t.subscription_id;
  subscription_charge_date = t.subscription_charge_date;
}

pub record AccountBalanceResponse : Type 0 where
  pub current_balance_minor : ℤ
  pub opening_balance_minor : ℤ
  pub total_income_minor : ℤ
  pub total_expense_minor : ℤ

-- `AccountBalanceResponse.from_domain`
abbrev pub balance_response : AccountBalance → AccountBalanceResponse
balance_response b = record {
  current_balance_minor = current_balance_minor b;
  opening_balance_minor = b.opening_balance_minor;
  total_income_minor = b.total_income_minor;
  total_expense_minor = b.total_expense_minor;
}

pub record CreateSubscriptionRequest : Type 0 where
  pub category_id : Uuid
  pub name : Text
  pub amount : Decimal
  pub first_charge_date : Date

abbrev pub is_create_subscription_request : CreateSubscriptionRequest → Bool
is_create_subscription_request p = has_length 2 120 p.name && is_amount p.amount

pub record UpdateSubscriptionRequest : Type 0 where
  pub category_id : Uuid
  pub name : Text
  pub amount : Decimal
  pub billing_day : ℕ

abbrev pub is_update_subscription_request : UpdateSubscriptionRequest → Bool
is_update_subscription_request p =
    has_length 2 120 p.name && is_amount p.amount && leb 1 p.billing_day && leb p.billing_day 31

pub record SubscriptionResponse : Type 0 where
  pub id : Uuid
  pub category_id : Uuid
  pub category_name : Text
  pub category_color : Text
  pub kind : TransactionKind
  pub name : Text
  pub amount_minor : ℤ
  pub billing_day : ℕ
  pub next_charge_date : Date

-- `SubscriptionResponse.from_domain`
abbrev pub subscription_response : Subscription → SubscriptionResponse
subscription_response s = record {
  id = s.id;
  category_id = s.category_id;
  category_name = s.category_name;
  category_color = s.category_color;
  kind = s.kind;
  name = s.name;
  amount_minor = s.amount_minor;
  billing_day = s.billing_day;
  next_charge_date = s.next_charge_date;
}

-- `SetMonthlyBudgetRequest` is its `limit`
pub record UpdateMonthlyBudgetRequest : Type 0 where
  pub limit : Decimal
  pub category_id : Uuid

pub record MonthlyBudgetResponse : Type 0 where
  pub id : Uuid
  pub category_id : Uuid
  pub category_name : Text
  pub category_color : Text
  pub limit_minor : ℤ

-- `MonthlyBudgetResponse.from_domain`
abbrev pub budget_response : MonthlyBudget → MonthlyBudgetResponse
budget_response b = record {
  id = b.id;
  category_id = b.category_id;
  category_name = b.category_name;
  category_color = b.category_color;
  limit_minor = b.limit_minor;
}

pub record MonthlySavingResponse : Type 0 where
  pub id : Uuid
  pub year : ℕ
  pub month : ℕ
  pub amount_minor : ℤ
  pub created_at : Instant
  pub updated_at : Instant

-- `MonthlySavingResponse.from_domain`
abbrev pub saving_response : MonthlySaving → MonthlySavingResponse
saving_response s = record {
  id = s.id;
  year = s.year;
  month = s.month;
  amount_minor = s.amount_minor;
  created_at = s.created_at;
  updated_at = s.updated_at;
}

pub record SavingsOverviewResponse : Type 0 where
  pub total_saved_minor : ℤ
  pub current_month_projection_minor : ℤ
  pub goal_minor : ℤ
  pub entries : List MonthlySavingResponse

-- `SavingsOverviewResponse.from_domain`
abbrev pub savings_response : SavingsOverview → SavingsOverviewResponse
savings_response o = record {
  total_saved_minor = o.total_saved_minor;
  current_month_projection_minor = o.current_month_projection_minor;
  goal_minor = o.goal_minor;
  entries = map saving_response o.entries;
}
