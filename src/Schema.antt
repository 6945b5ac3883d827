-- ===== src/Schema.antt =====
-- The mapped classes of app/infrastructure/database/models. A table is the list of its rows, the
-- latest first; a column that the program never reads is left out. An ORM object's relationship
-- `category` is a field, filled from the row that the foreign key names when the object is
-- written: no operation changes a category row.
use accountant_backend.Prelude.{ℕ, ℤ, Bool, Option, List, Text}
use accountant_backend.Calendar.{Date}
use accountant_backend.Domain.{Uuid, Instant, TransactionKind}

pub record CategoryModel : Type 0 where
  pub id : Uuid
  pub user_id : Option Uuid
  pub name : Text
  pub kind : TransactionKind
  pub color : Text
  pub created_at : Instant

pub record SubscriptionModel : Type 0 where
  pub id : Uuid
  pub user_id : Uuid
  pub category_id : Uuid
  pub name : Text
  pub amount_minor : ℤ
  pub billing_day : ℕ
  pub next_charge_date : Date
  pub is_active : Bool
  pub created_at : Instant
  pub category : CategoryModel

pub record MonthlyBudgetModel : Type 0 where
  pub id : Uuid
  pub user_id : Uuid
  pub category_id : Uuid
  pub limit_minor : ℤ
  pub created_at : Instant
  pub updated_at : Instant
  pub category : CategoryModel

pub record TransactionModel : Type 0 where
  pub id : Uuid
  pub user_id : Uuid
  pub category_id : Uuid
  pub kind : TransactionKind
  pub amount_minor : ℤ
  pub description : Text
  pub occurred_at : Instant
  pub subscription_id : Option Uuid
  pub subscription_charge_date : Option Date
  pub created_at : Instant
  pub category : CategoryModel

pub record PermissionModel : Type 0 where
  pub id : ℕ
  pub code : Text

pub record RoleModel : Type 0 where
  pub id : ℕ
  pub name : Text
  pub permissions : List PermissionModel

pub record UserModel : Type 0 where
  pub id : Uuid
  pub email : Text
  pub display_name : Text
  pub password_hash : Text
  pub is_active : Bool
  pub opening_balance_minor : ℤ
  pub daily_summary_enabled : Bool
  pub daily_summary_time : ℕ
  pub budget_alerts_enabled : Bool
  pub savings_goal_minor : ℤ
  pub password_changed_at : Option Instant
  pub created_at : Instant
  pub roles : List RoleModel

pub record PasswordResetTokenModel : Type 0 where
  pub id : Uuid
  pub user_id : Uuid
  pub token_hash : Text
  pub expires_at : Instant
  pub used_at : Option Instant

pub record EmailChangeTokenModel : Type 0 where
  pub id : Uuid
  pub user_id : Uuid
  pub new_email : Text
  pub token_hash : Text
  pub expires_at : Instant
  pub used_at : Option Instant

pub record RefreshTokenModel : Type 0 where
  pub id : Uuid
  pub user_id : Uuid
  pub token_hash : Text
  pub expires_at : Instant
  pub revoked_at : Option Instant
  pub replaced_by : Option Uuid

pub record MonthlySavingModel : Type 0 where
  pub id : Uuid
  pub user_id : Uuid
  pub year : ℕ
  pub month : ℕ
  pub amount_minor : ℤ
  pub created_at : Instant
  pub updated_at : Instant

pub record NotificationDeliveryModel : Type 0 where
  pub id : Uuid
  pub user_id : Uuid
  pub kind : Text
  pub reference_key : Text
  pub delivered_at : Instant

-- What the listener of `after_commit` (database/events.py) asks of the cache.
pub data Invalidation : Type 0 where
  one_ledger : Uuid → Invalidation
  every_ledger : Invalidation

-- The committed rows, and the calls of the cache that the commits of the session have made, the
-- latest first.
pub record Database : Type 0 where
  pub users : List UserModel
  pub roles : List RoleModel
  pub categories : List CategoryModel
  pub subscriptions : List SubscriptionModel
  pub budgets : List MonthlyBudgetModel
  pub transactions : List TransactionModel
  pub refresh_tokens : List RefreshTokenModel
  pub password_reset_tokens : List PasswordResetTokenModel
  pub email_change_tokens : List EmailChangeTokenModel
  pub monthly_savings : List MonthlySavingModel
  pub deliveries : List NotificationDeliveryModel
  pub published : List Invalidation
