-- ===== src/Ledger/Transactions/Balance.antt =====
-- The two queries of the transaction repository agree, and a written row moves the balance by its
-- amount.
use accountant_backend.Prelude.{
  ℤ, pos, zero-+ℤ, +ℤ-zero, ◌+ℤ◌, sum_by, sum_by-select_where, sum_by-order_by, sum_by-map,
  sum_by-congr, sum_by-add, ◌≡◌, ◌∙◌, none, some, arith, if◌then◌else◌, ◌≤◌,
}
use accountant_backend.Domain.{
  Uuid, Instant, TransactionKind, income, expense, AccountBalance, Transaction,
}
use accountant_backend.Schema.{TransactionModel, Database}
use accountant_backend.Ledger.Transactions.{
  to_transaction_domain, amount_of, is_before, query_balance, is_listed, later_first,
  query_for_user,
}

-- the total of one kind
abbrev pub total : TransactionKind → AccountBalance → ℤ
total income b = b.total_income_minor
total expense b = b.total_expense_minor

-- what a row adds to the total of a kind
abbrev pub contribution : Uuid → Instant → TransactionKind → TransactionModel → ℤ
contribution user_id before kind m = if is_before user_id before m then amount_of kind m else pos 0

pub total-query_balance :
    (db : Database) (user_id : Uuid) (before : Instant) (kind : TransactionKind)
    → total kind (query_balance db user_id before)
      ≡ sum_by (contribution user_id before kind) db.transactions
unfolding query_balance
total-query_balance db user_id before income =
    sum_by-select_where (amount_of income) (is_before user_id before) db.transactions
total-query_balance db user_id before expense =
    sum_by-select_where (amount_of expense) (is_before user_id before) db.transactions

listed_amount : Uuid → Instant → Instant → TransactionKind → TransactionModel → ℤ
listed_amount user_id start end kind m =
    if is_listed user_id start end none (some kind) m then m.amount_minor else pos 0

sum_by-query_for_user :
    (db : Database) (user_id : Uuid) (start end : Instant) (kind : TransactionKind)
    → sum_by
        (λ (t : Transaction). t.amount_minor)
        (query_for_user db user_id start end none (some kind))
      ≡ sum_by (listed_amount user_id start end kind) db.transactions
unfolding query_for_user listed_amount
sum_by-query_for_user db user_id start end kind =
    sum_by-map (λ (t : Transaction). t.amount_minor) to_transaction_domain _
    ∙ sum_by-order_by (λ (m : TransactionModel). m.amount_minor) later_first _
    ∙ sum_by-select_where (λ (m : TransactionModel). m.amount_minor)
        (is_listed user_id start end none (some kind)) db.transactions

listed_and_before :
    (user_id : Uuid) (start end : Instant) (kind : TransactionKind) (m : TransactionModel)
    → start ≤ end
    → listed_amount user_id start end kind m +ℤ contribution user_id start kind m
      ≡ contribution user_id end kind m
unfolding listed_amount
listed_and_before user_id start end kind m h =
    ground (arith, zero-+ℤ m.amount_minor, +ℤ-zero m.amount_minor, zero-+ℤ (pos 0))

-- Where the start is not after the end, the listed transactions of a kind in a period sum up to the difference of the two balances, at
-- the end and at the start of the period.
pub listing_matches_balance :
    (db : Database) (user_id : Uuid) (start end : Instant) (kind : TransactionKind)
    → start ≤ end
    → sum_by
          (λ (t : Transaction). t.amount_minor)
          (query_for_user db user_id start end none (some kind))
        +ℤ total kind (query_balance db user_id start)
      ≡ total kind (query_balance db user_id end)
listing_matches_balance db user_id start end kind h =
    rw
      (
        sum_by-query_for_user db user_id start end kind,
        total-query_balance db user_id start kind,
        total-query_balance db user_id end kind,
      )
      (sum_by-add (listed_amount user_id start end kind) (contribution user_id start kind)
          db.transactions
        ∙ sum_by-congr _ _ db.transactions (λ m. listed_and_before user_id start end kind m h))
