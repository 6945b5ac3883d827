-- ===== src/Domain.antt =====
-- The dataclasses of app/domain. An identifier (`UUID`) is a number, since it is only compared; an
-- instant is in microseconds, a time of day in seconds.
use accountant_backend.Prelude.{ℕ, ℤ, ◌+ℤ◌, ◌-ℤ◌, Bool, true, false, Option, List, Text}
use accountant_backend.Calendar.{Date}

abbrev pub Uuid : Type 0
Uuid = ℕ

abbrev pub Instant : Type 0
Instant = ℕ

pub data TransactionKind : Type 0 where
  income expense : TransactionKind

-- `a == b` of two kinds
abbrev pub same_kind : TransactionKind → TransactionKind → Bool
same_kind income income = true
same_kind expense expense = true
same_kind _ _ = false

pub record AccountBalance : Type 0 where
  pub total_income_minor : ℤ
  pub total_expense_minor : ℤ
  pub opening_balance_minor : ℤ

-- the property `current_balance_minor`
unfoldable pub current_balance_minor : AccountBalance → ℤ
current_balance_minor b = b.opening_balance_minor +ℤ b.total_income_minor -ℤ b.total_expense_minor

pub record Category : Type 0 where
  pub id : Uuid
  pub user_id : Option Uuid
  pub name : Text
  pub kind : TransactionKind
  pub color : Text

pub record Transaction : Type 0 where
  pub id : Uuid
  pub user_id : Uuid
  pub category_id : Uuid
  pub category_name : Text
  pub category_color : Text
  pub kind : TransactionKind
  pub amount_minor : ℤ
  pub description : Text
  pub occurred_at : Instant
  pub created_at : Instant
  pub subscription_id : Option Uuid
  pub subscription_charge_date : Option Date

pub record Subscription : Type 0 where
  pub id : Uuid
  pub user_id : Uuid
  pub category_id : Uuid
  pub category_name : Text
  pub category_color : Text
  pub kind : TransactionKind
  pub name : Text
  pub amount_minor : ℤ
  pub billing_day : ℕ
  pub next_charge_date : Date
  pub is_active : Bool
  pub created_at : Instant

pub record MonthlyBudget : Type 0 where
  pub id : Uuid
  pub user_id : Uuid
  pub category_id : Uuid
  pub category_name : Text
  pub category_color : Text
  pub limit_minor : ℤ
  pub created_at : Instant
  pub updated_at : Instant

pub record MonthlySaving : Type 0 where
  pub id : Uuid
  pub user_id : Uuid
  pub year : ℕ
  pub month : ℕ
  pub amount_minor : ℤ
  pub created_at : Instant
  pub updated_at : Instant

pub record SavingsOverview : Type 0 where
  pub total_saved_minor : ℤ
  pub current_month_projection_minor : ℤ
  pub entries : List MonthlySaving
  pub goal_minor : ℤ

pub record User : Type 0 where
  pub id : Uuid
  pub email : Text
  pub display_name : Text
  pub password_hash : Text
  pub is_active : Bool
  pub opening_balance_minor : ℤ
  pub savings_goal_minor : ℤ
  pub daily_summary_enabled : Bool
  pub daily_summary_time : ℕ
  pub budget_alerts_enabled : Bool
  pub roles : List Text
  pub permissions : List Text
  pub created_at : Instant
  pub password_changed_at : Option Instant

pub record SessionTokens : Type 0 where
  pub access_token : Text
  pub refresh_token : Text

pub record AccessTokenClaims : Type 0 where
  pub user_id : Uuid
  pub issued_at : Instant

pub record PendingEmailChange : Type 0 where
  pub user_id : Uuid
  pub new_email : Text
