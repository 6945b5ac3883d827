-- ===== src/Ledger/Bookkeeping/Moves.antt =====
-- What creating, changing and deleting a transaction does to the balances, and to nothing else.
use accountant_backend.Prelude.{
  ℤ, pos, ◌+ℤ◌, sum_by, ◌≡◌, refl, ◌&&◌, some, ◌==◌, ltb, if◌then◌else◌, find_where, Text, ok,
}
use accountant_backend.Domain.{Uuid, Instant, TransactionKind, same_kind, Transaction}
use accountant_backend.Schema.{TransactionModel, Database}
use accountant_backend.Ledger.Transactions.{to_transaction_domain, query_balance, is_own}
use accountant_backend.Ledger.Transactions.Balance.{total, contribution, total-query_balance}
use accountant_backend.Ledger.Transactions.Rows.{sum-delete, sum-update}
use accountant_backend.Ledger.Transactions.Validity.{IsValid}
use accountant_backend.Ledger.Bookkeeping.{
  create_transaction, update_transaction, delete_transaction,
}
use accountant_backend.Ledger.Bookkeeping.Shapes.{
  IsRequested, create_shape, remove_shape, update_shape,
}

-- what a transaction adds to a user's total of a kind up to a moment
abbrev pub effect : Uuid → Instant → TransactionKind → Transaction → ℤ
effect user_id before kind t =
    if t.user_id == user_id && ltb t.occurred_at before
    then (if same_kind t.kind kind then t.amount_minor else pos 0)
    else pos 0

-- Where creating a transaction returns it, it adds its effect to every total of every user, at every moment.
pub create_transaction_moves :
    (id : Uuid) (now : Instant) (u c : Uuid) (k : TransactionKind) (a : ℤ) (d : Text) (at : Instant)
    (db : Database) (t : Transaction)
    → (create_transaction id now u c k a d at db).0 ≡ ok t
    → (v : Uuid) (before : Instant) (kind : TransactionKind)
    → total kind (query_balance (create_transaction id now u c k a d at db).1 v before)
      ≡ effect v before kind t +ℤ total kind (query_balance db v before)
create_transaction_moves id now u c k a d at db t h v before kind =
    let (m, rows, same) = create_shape id now u c k a d at db t h in
    rw
      (
        total-query_balance (create_transaction id now u c k a d at db).1 v before kind,
        total-query_balance db v before kind,
        rows,
        same,
      )
      (unfold sum_by in refl)

-- Where the database keeps its constraints, deleting a transaction that the user has takes the
-- effect of that transaction out of every total of every user, at every moment.
pub delete_transaction_moves :
    (u id : Uuid) (db : Database)
    → IsValid db.transactions
    → (delete_transaction u id db).0 ≡ ok tt
    → (m : TransactionModel) × (find_where (is_own u id) db.transactions ≡ some m)
      × ((v : Uuid) (before : Instant) (kind : TransactionKind)
          → total kind (query_balance db v before)
            ≡ effect v before kind (to_transaction_domain m)
              +ℤ total kind (query_balance (delete_transaction u id db).1 v before))
delete_transaction_moves u id db valid h =
    let (m, found, rows) = remove_shape u id db h in
    (
      m,
      found,
      λ v before kind.
          rw
            (
              total-query_balance db v before kind,
              total-query_balance (delete_transaction u id db).1 v before kind,
              rows,
            )
            (sum-delete (contribution v before kind) u id db.transactions m valid found),
    )

-- Where the database keeps its constraints, changing a transaction that the user has gives back
-- that transaction with the category, kind, amount, stripped description and moment asked for, and
-- replaces its old effect by the effect of this one, in every total of every user, at every moment.
pub update_transaction_moves :
    (u id c : Uuid) (k : TransactionKind) (a : ℤ) (d : Text) (at : Instant) (db : Database)
    (t : Transaction)
    → IsValid db.transactions
    → (update_transaction u id c k a d at db).0 ≡ ok t
    → (m : TransactionModel) × (find_where (is_own u id) db.transactions ≡ some m)
      × IsRequested u id c k a d at t
      × ((v : Uuid) (before : Instant) (kind : TransactionKind)
          → total kind (query_balance (update_transaction u id c k a d at db).1 v before)
              +ℤ effect v before kind (to_transaction_domain m)
            ≡ total kind (query_balance db v before) +ℤ effect v before kind t)
update_transaction_moves u id c k a d at db t valid h =
    let (m, w, found, rows, same, requested) = update_shape u id c k a d at db t h in
    (
      m,
      found,
      requested,
      λ v before kind.
          rw
            (
              total-query_balance db v before kind,
              total-query_balance (update_transaction u id c k a d at db).1 v before kind,
              rows,
              same,
            )
            (sum-update (contribution v before kind) u id w db.transactions m valid found),
    )
