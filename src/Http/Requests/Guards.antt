-- ===== src/Http/Requests/Guards.antt =====
-- What a user may do without the permissions of app/presentation/dependencies/auth.py.
use accountant_backend.Prelude.{
  ◌≡◌, arith, Bool, false, Option, none, some, Text, codes, text_eq, any_where, List, [], ◌∷◌,
}
use accountant_backend.Domain.{Uuid, Instant, TransactionKind, User}
use accountant_backend.Admin.{get_current_user}
use accountant_backend.Ledger.Bookkeeping
use accountant_backend.Ledger.Budgets
use accountant_backend.Ledger.Categories
use accountant_backend.Ledger.Subscriptions
use accountant_backend.Http.Ledger
use accountant_backend.Http.Entries
use accountant_backend.Http.Administration
use accountant_backend.Http.{App, Chance, World, http_exception}
use accountant_backend.Http.Messages.{not_allowed}
use accountant_backend.Http.Auth.{current_user}
use accountant_backend.Http.Requests.{
  Call, permissions_of, finance_read_self, users_manage, users_read, finance_read_any,
  has_permission, has_permissions, require_permissions, serve, get_account_balance,
  list_monthly_budgets, list_categories, list_subscriptions, list_users, list_transactions,
  get_user_finance_details, change_user_status,
}

-- the user has not been given a permission
abbrev pub Lacks : User → Text → Type 0
Lacks user permission = any_where (λ p. text_eq p permission) user.permissions ≡ false

lacking :
    (user : User) (p : Text) (ps : List Text) → Lacks user p → has_permissions user (p ∷ ps) ≡ false
unfolding has_permissions has_permission
lacking user p ps lacks = ground arith

-- neither may write nor manage users, or there is no session
abbrev pub IsPowerless : Option User → Type 0
IsPowerless none = Unit
IsPowerless (some user) =
    Lacks user (codes "finance.write.self") × Lacks user (codes "users.manage")

-- the routes that show the books of the user, show all accounts with their books, or block an
-- account, by the permission
pub data IsGuarded : Text → Call → Type 0 where
  own_balance : IsGuarded (codes "finance.read.self") get_account_balance
  own_budgets : IsGuarded (codes "finance.read.self") list_monthly_budgets
  own_categories :
      (kind : Option TransactionKind) → IsGuarded (codes "finance.read.self") (list_categories kind)
  own_transactions :
      (start end : Option Instant) (c : Option Uuid) (kind : Option TransactionKind)
      → IsGuarded (codes "finance.read.self") (list_transactions start end c kind)
  own_subscriptions : IsGuarded (codes "finance.read.self") list_subscriptions
  all_users : IsGuarded (codes "users.read") list_users
  all_books : IsGuarded (codes "finance.read.any") list_users
  one_user : (u : Uuid) → IsGuarded (codes "users.read") (get_user_finance_details u)
  one_book : (u : Uuid) → IsGuarded (codes "finance.read.any") (get_user_finance_details u)
  activation :
      (u : Uuid) (active : Bool) → IsGuarded (codes "users.manage") (change_user_status u active)

second_lacking :
    (user : User) (p q : Text) → Lacks user q → has_permissions user (p ∷ q ∷ []) ≡ false
unfolding has_permissions has_permission
second_lacking user p q lacks = ground arith

guarded-Lacks :
    (user : User) (permission : Text) (request : Call)
    → IsGuarded permission request
    → Lacks user permission
    → has_permissions user (permissions_of request) ≡ false
unfolding permissions_of finance_read_self users_read finance_read_any users_manage
guarded-Lacks user _ _ own_balance lacks = lacking user _ _ lacks
guarded-Lacks user _ _ own_budgets lacks = lacking user _ _ lacks
guarded-Lacks user _ _ (own_categories _) lacks = lacking user _ _ lacks
guarded-Lacks user _ _ (own_transactions _ _ _ _) lacks = lacking user _ _ lacks
guarded-Lacks user _ _ own_subscriptions lacks = lacking user _ _ lacks
guarded-Lacks user _ _ all_users lacks = lacking user _ _ lacks
guarded-Lacks user _ _ all_books lacks = second_lacking user _ _ lacks
guarded-Lacks user _ _ (one_user _) lacks = lacking user _ _ lacks
guarded-Lacks user _ _ (one_book _) lacks = second_lacking user _ _ lacks
guarded-Lacks user _ _ (activation _ _) lacks = lacking user _ _ lacks

module _ (app : App) (chance : Chance) where
  refused :
      (token : Option Text) (request : Call) (w : World) (user : User)
      → get_current_user app.decode w.db token ≡ some user
      → has_permissions user (permissions_of request) ≡ false
      → serve app chance token request w ≡ (http_exception 403 not_allowed none, w)
  unfolding serve require_permissions current_user
  refused token request w user somebody lacks = ground arith

  -- A user who lacks the permission that a route wants for what it shows or manages, for the own
  -- books one, for the accounts and books of others two, is answered by the status 403, and nothing
  -- changes.
  pub serve_bars :
      (token : Option Text) (request : Call) (w : World) (user : User) (permission : Text)
      → get_current_user app.decode w.db token ≡ some user
      → IsGuarded permission request
      → Lacks user permission
      → serve app chance token request w ≡ (http_exception 403 not_allowed none, w)
  serve_bars token request w user permission somebody guarded lacks =
      refused token request w user somebody (guarded-Lacks user permission request guarded lacks)
