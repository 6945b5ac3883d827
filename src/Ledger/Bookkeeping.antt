-- ===== src/Ledger/Bookkeeping.antt =====
-- The use cases of application/ledger/transactions.py. They call the transaction repository and
-- `get_available_by_id`; the opening balance is the user row's.

pub mod Shapes
pub mod Moves
use accountant_backend.Prelude.{
  ℤ, not, Option, none, some, List, [], ◌∷◌, Text, strip, find_where, update_where, ◌==◌, Exec, ok,
  or_raise, raise_if, gets, pure, ◌>>=◌, ◌>>◌, runtime_error, ledger, category_not_found,
  category_kind_mismatch, transaction_not_found,
}
use accountant_backend.Domain.{
  Uuid, Instant, TransactionKind, same_kind, AccountBalance, Category, Transaction, User,
}
use accountant_backend.Schema.{UserModel, Database}
use accountant_backend.Events.{commit, other_row}
use accountant_backend.Ledger.Categories.{get_available_by_id}
use accountant_backend.Ledger.Transactions
use accountant_backend.Ledger.Transactions.{query_balance, query_for_user}

-- `GetAccountBalance.execute`
unfoldable pub get_account_balance : User → Instant → Exec Database AccountBalance
unfolding query_balance
get_account_balance user before = do
  totals ← gets (λ db. query_balance db user.id before)
  pure (record totals { opening_balance_minor = user.opening_balance_minor })

-- `SqlAlchemyUserRepository.set_opening_balance`
unfoldable pub store_opening_balance : Uuid → ℤ → Exec Database (Option ℤ)
unfolding find_where update_where commit
store_opening_balance user_id amount_minor db =
    elim (find_where (λ (u : UserModel). u.id == user_id) db.users) [
      | none ↦ (ok none, db)
      | some _ ↦ (
        ok (some amount_minor),
        commit (other_row ∷ []) (record db {
          users =
              update_where (λ (u : UserModel). u.id == user_id)
                (λ (u : UserModel). record u { opening_balance_minor = amount_minor }) db.users;
        }),
      )
    ]

-- `SetOpeningBalance.execute`
unfoldable pub set_opening_balance : Uuid → ℤ → Instant → Exec Database AccountBalance
unfolding store_opening_balance query_balance
set_opening_balance user_id amount_minor before = do
  stored ← store_opening_balance user_id amount_minor
  opening ← or_raise stored runtime_error
  totals ← gets (λ db. query_balance db user_id before)
  pure (record totals { opening_balance_minor = opening })

-- `ListTransactions.execute`
unfoldable pub list_transactions :
    Uuid
    → Instant
    → Instant
    → Option Uuid
    → Option TransactionKind
    → Exec Database (List Transaction)
unfolding query_for_user
list_transactions user_id start end category_id kind =
    gets (λ db. query_for_user db user_id start end category_id kind)

-- The guards that `CreateTransaction` and `UpdateTransaction` begin with.
abbrev pub category_of_kind : Uuid → Uuid → TransactionKind → Exec Database Category
category_of_kind user_id category_id kind = do
  found ← gets (λ db. get_available_by_id db user_id category_id)
  category ← or_raise found (ledger category_not_found)
  raise_if (not (same_kind category.kind kind)) (ledger category_kind_mismatch)
  pure category

-- `CreateTransaction.execute`
unfoldable pub create_transaction :
    Uuid → Instant → Uuid → Uuid → TransactionKind → ℤ → Text → Instant → Exec Database Transaction
unfolding Transactions.add get_available_by_id
create_transaction id now user_id category_id kind amount_minor description occurred_at = do
  category ← category_of_kind user_id category_id kind
  Transactions.add id now user_id category kind amount_minor (strip description) occurred_at

-- `UpdateTransaction.execute`
unfoldable pub update_transaction :
    Uuid → Uuid → Uuid → TransactionKind → ℤ → Text → Instant → Exec Database Transaction
unfolding Transactions.update get_available_by_id
update_transaction user_id transaction_id category_id kind amount_minor description occurred_at = do
  category ← category_of_kind user_id category_id kind
  written ←
      Transactions.update user_id transaction_id category kind amount_minor (strip description)
        occurred_at
  or_raise written (ledger transaction_not_found)

-- `DeleteTransaction.execute`
unfoldable pub delete_transaction : Uuid → Uuid → Exec Database (Unit {0})
unfolding Transactions.remove
delete_transaction user_id transaction_id = do
  removed ← Transactions.remove user_id transaction_id
  raise_if (not removed) (ledger transaction_not_found)
