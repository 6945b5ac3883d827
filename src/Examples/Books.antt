-- ===== src/Examples/Books.antt =====
-- The ledger's theorems at the sample.
use accountant_backend.Prelude.{
  pos, ◌+ℤ◌, ◌≡◌, refl, arith, ok, none, some, [], List, ◌∷◌, sum_by, find_where, any_where, codes,
  strip,
}
use accountant_backend.Domain.{Uuid, Instant, TransactionKind, expense, Transaction}
use accountant_backend.Schema.{TransactionModel}
use accountant_backend.Ledger.Categories.{category_to_domain}
use accountant_backend.Ledger.Transactions.{
  query_balance, query_for_user, is_own, to_transaction_domain,
}
use accountant_backend.Ledger.Transactions.Balance.{total, listing_matches_balance}
use accountant_backend.Ledger.Transactions.Validity.{
  IsValid, Call, adding, updating, removing, after_calls, after_calls-IsValid,
}
use accountant_backend.Ledger.Bookkeeping.{
  create_transaction, update_transaction, delete_transaction,
}
use accountant_backend.Ledger.Bookkeeping.Shapes.{IsRequested}
use accountant_backend.Ledger.Bookkeeping.Moves.{
  effect, create_transaction_moves, update_transaction_moves, delete_transaction_moves,
}
use accountant_backend.Ledger.Budgets.Rows
use accountant_backend.Ledger.Budgets.Validity
use accountant_backend.Ledger.Budgets.Validity.{budgets_stay-IsValid}
use accountant_backend.Examples.{sample, music, concert}

sample-IsValid : IsValid sample.transactions
unfolding any_where
sample-IsValid = (refl, refl, refl, (refl, refl, refl, tt))

abbrev calls : List Call
calls =
    adding 32 9 1 (category_to_domain music) expense (pos 250) (codes "vinyl") 3000
    ∷ updating 1 31 (category_to_domain music) expense (pos 4500) (codes "concert") 2000
    ∷ removing 1 32
    ∷ []

after_calls-IsValid_example : IsValid (after_calls calls sample).transactions
after_calls-IsValid_example = after_calls-IsValid calls sample sample-IsValid

listing_matches_balance_example :
    sum_by
        (λ (t : Transaction). t.amount_minor)
        (query_for_user sample 1 1500 2500 none (some expense))
      +ℤ total expense (query_balance sample 1 1500)
    ≡ total expense (query_balance sample 1 2500)
listing_matches_balance_example = listing_matches_balance sample 1 1500 2500 expense (ground arith)

abbrev vinyl : Transaction
vinyl = record {
  id = 32;
  user_id = 1;
  category_id = 11;
  category_name = codes "Music";
  category_color = codes "#f00";
  kind = expense;
  amount_minor = pos 250;
  description = codes "vinyl";
  occurred_at = 3000;
  created_at = 9;
  subscription_id = none;
  subscription_charge_date = none;
}

created : (create_transaction 32 9 1 11 expense (pos 250) (codes " vinyl") 3000 sample).0 ≡ ok vinyl
unfolding create_transaction strip
created = refl

create_transaction_moves_example :
    total expense (
      query_balance
        (create_transaction 32 9 1 11 expense (pos 250) (codes " vinyl") 3000 sample).1
        1
        4000)
    ≡ effect 1 4000 expense vinyl +ℤ total expense (query_balance sample 1 4000)
create_transaction_moves_example =
    create_transaction_moves 32 9 1 11 expense (pos 250) (codes " vinyl") 3000 sample vinyl created
      1 4000 expense

abbrev encore : Transaction
encore = record (to_transaction_domain concert) { amount_minor = pos 4500 }

changed :
    (update_transaction 1 31 11 expense (pos 4500) (codes "concert") 2000 sample).0 ≡ ok encore
unfolding update_transaction strip
changed = refl

update_transaction_moves_example :
    (m : TransactionModel) × (find_where (is_own 1 31) sample.transactions ≡ some m)
    × IsRequested 1 31 11 expense (pos 4500) (codes "concert") 2000 encore
    × ((v : Uuid) (before : Instant) (kind : TransactionKind)
        → total kind (
              query_balance
                (update_transaction 1 31 11 expense (pos 4500) (codes "concert") 2000 sample).1
                v
                before)
            +ℤ effect v before kind (to_transaction_domain m)
          ≡ total kind (query_balance sample v before) +ℤ effect v before kind encore)
update_transaction_moves_example =
    update_transaction_moves 1 31 11 expense (pos 4500) (codes "concert") 2000 sample encore
      sample-IsValid changed

deleted : (delete_transaction 1 31 sample).0 ≡ ok tt
unfolding delete_transaction
deleted = refl

delete_transaction_moves_example :
    (m : TransactionModel) × (find_where (is_own 1 31) sample.transactions ≡ some m)
    × ((v : Uuid) (before : Instant) (kind : TransactionKind)
        → total kind (query_balance sample v before)
          ≡ effect v before kind (to_transaction_domain m)
            +ℤ total kind (query_balance (delete_transaction 1 31 sample).1 v before))
delete_transaction_moves_example = delete_transaction_moves 1 31 sample sample-IsValid deleted

abbrev budget_calls : List Validity.Call
budget_calls =
    Validity.upserting 60 9 1 (category_to_domain music) (pos 1000)
    ∷ Validity.upserting 61 10 1 (category_to_domain music) (pos 2000)
    ∷ Validity.updating 11 1 60 (category_to_domain music) (pos 3000)
    ∷ Validity.removing 1 11
    ∷ []

budgets_stay-IsValid_example : Rows.IsValid (Validity.after_calls budget_calls sample).budgets
budgets_stay-IsValid_example = budgets_stay-IsValid budget_calls sample tt
