-- ===== src/Examples.antt =====
-- A small database and the services that the runs below start from.
mod Charges
mod Books
mod Accounts
mod Months
mod Limits
mod Status
mod Sites
mod Requests
mod Notices
mod Letters
mod Outages
use accountant_backend.Prelude.{
  ℕ, suc, max, ℤ, pos, true, ◌≡◌, ◌≤◌, arith, false, refl, none, some, List, [], ◌∷◌, Text, codes,
  text_eq, any_where, ◌==◌,
}
use accountant_backend.Calendar.{Date, date}
use accountant_backend.Domain.{Uuid, income, expense}
use accountant_backend.Schema.{
  CategoryModel, SubscriptionModel, TransactionModel, UserModel, RoleModel, PasswordResetTokenModel,
  RefreshTokenModel, MonthlySavingModel, Database,
}
use accountant_backend.Identity.Sessions.{Services}

abbrev pub salary : CategoryModel
salary = record {
  id = 10;
  user_id = none;
  name = codes "Salary";
  kind = income;
  color = codes "#0f0";
  created_at = 0;
}

abbrev pub music : CategoryModel
music = record {
  id = 11;
  user_id = some 1;
  name = codes "Music";
  kind = expense;
  color = codes "#f00";
  created_at = 0;
}

-- due on the last day of each month
abbrev pub streaming : SubscriptionModel
streaming = record {
  id = 20;
  user_id = 1;
  category_id = 11;
  name = codes "Streaming";
  amount_minor = pos 500;
  billing_day = 31;
  next_charge_date = date 2024 1 31;
  is_active = true;
  created_at = 0;
  category = music;
}

abbrev pub january_pay : TransactionModel
january_pay = record {
  id = 30;
  user_id = 1;
  category_id = 10;
  kind = income;
  amount_minor = pos 90000;
  description = codes "pay";
  occurred_at = 1000;
  subscription_id = none;
  subscription_charge_date = none;
  created_at = 1000;
  category = salary;
}

abbrev pub concert : TransactionModel
concert = record {
  id = 31;
  user_id = 1;
  category_id = 11;
  kind = expense;
  amount_minor = pos 4000;
  description = codes "concert";
  occurred_at = 2000;
  subscription_id = none;
  subscription_charge_date = none;
  created_at = 2000;
  category = music;
}

abbrev pub user_role : RoleModel
user_role = record { id = 1; name = codes "USER"; permissions = [] }

abbrev pub ada : UserModel
ada = record {
  id = 1;
  email = codes "ada@bank.org";
  display_name = codes "Ada";
  password_hash = codes "engine";
  is_active = true;
  opening_balance_minor = pos 0;
  daily_summary_enabled = true;
  daily_summary_time = 75600;
  budget_alerts_enabled = true;
  savings_goal_minor = pos 0;
  password_changed_at = none;
  created_at = 0;
  roles = user_role ∷ [];
}

abbrev pub session : RefreshTokenModel
session = record {
  id = 40;
  user_id = 1;
  token_hash = codes "s1";
  expires_at = 5000;
  revoked_at = none;
  replaced_by = none;
}

abbrev pub reset_link : PasswordResetTokenModel
reset_link = record {
  id = 50;
  user_id = 1;
  token_hash = codes "r1";
  expires_at = 5000;
  used_at = none;
}

abbrev pub sample : Database
sample = record {
  users = ada ∷ [];
  roles = user_role ∷ [];
  categories = salary ∷ music ∷ [];
  subscriptions = streaming ∷ [];
  budgets = [];
  transactions = concert ∷ january_pay ∷ [];
  refresh_tokens = session ∷ [];
  password_reset_tokens = reset_link ∷ [];
  email_change_tokens = [];
  monthly_savings = [];
  deliveries = [];
  published = [];
}

-- a hasher and digests that change nothing
abbrev pub plain : Services
plain = record {
  lower = λ s. s;
  hash_password = λ s. s;
  verify = text_eq;
  hash_token = λ s. s;
  create_access = λ u. codes "access";
  refresh_token_days = 30;
}

-- identifiers that no row has: one more than the largest
abbrev pub next_transaction_id : List TransactionModel → Uuid
next_transaction_id [] = 0
next_transaction_id (r ∷ rows) = suc (max r.id (next_transaction_id rows))

abbrev pub next_month_id : List MonthlySavingModel → Uuid
next_month_id [] = 0
next_month_id (r ∷ rows) = suc (max r.id (next_month_id rows))

transactions_below :
    (n : ℕ) (rows : List TransactionModel)
    → next_transaction_id rows ≤ n
    → any_where (λ (r : TransactionModel). r.id == n) rows ≡ false
unfolding any_where
transactions_below n [] h = refl
transactions_below n (r ∷ rows) h = ground (arith, transactions_below n rows)

pub next_transaction_id_fresh :
    (rows : List TransactionModel)
    → any_where (λ (r : TransactionModel). r.id == next_transaction_id rows) rows ≡ false
next_transaction_id_fresh rows = transactions_below (next_transaction_id rows) rows (omega arith)

months_below :
    (n : ℕ) (rows : List MonthlySavingModel)
    → next_month_id rows ≤ n
    → any_where (λ (r : MonthlySavingModel). r.id == n) rows ≡ false
unfolding any_where
months_below n [] h = refl
months_below n (r ∷ rows) h = ground (arith, months_below n rows)

pub next_month_id_fresh :
    (rows : List MonthlySavingModel)
    → any_where (λ (r : MonthlySavingModel). r.id == next_month_id rows) rows ≡ false
next_month_id_fresh rows = months_below (next_month_id rows) rows (omega arith)
