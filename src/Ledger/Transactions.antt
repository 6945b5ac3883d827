-- ===== src/Ledger/Transactions.antt =====
-- `SqlAlchemyTransactionRepository` without the cache that its two reads look into first. `id` is
-- drawn by `uuid4`; `now` is the clock of the database.
pub mod Balance
pub mod Validity
pub mod Rows
use accountant_backend.Prelude.{
  ℤ, pos, leb_ℤ, sum_by, Bool, true, false, not, ◌&&◌, ◌||◌, Option, none, some, List, [], ◌∷◌, map,
  Text, any_where, find_where, select_where, update_where, delete_where, order_by, ltb, leb, ◌==◌,
  if◌then◌else◌, Exec, ok, raised, or_raise, gets, ◌>>=◌, integrity_error,
}
use accountant_backend.Calendar.{Date, same_date}
use accountant_backend.Domain.{
  Uuid, Instant, TransactionKind, income, expense, same_kind, AccountBalance, Category, Transaction,
  Subscription,
}
use accountant_backend.Schema.{CategoryModel, SubscriptionModel, TransactionModel, Database}
use accountant_backend.Events.{commit, transaction_row}
use accountant_backend.Ledger.Categories.{user_exists, get_category}

abbrev pub to_transaction_domain : TransactionModel → Transaction
to_transaction_domain m = record {
  id = m.id;
  user_id = m.user_id;
  category_id = m.category_id;
  category_name = m.category.name;
  category_color = m.category.color;
  kind = m.kind;
  amount_minor = m.amount_minor;
  description = m.description;
  occurred_at = m.occurred_at;
  created_at = m.created_at;
  subscription_id = m.subscription_id;
  subscription_charge_date = m.subscription_charge_date;
}

-- `amount if kind == wanted else 0`
abbrev pub amount_of : TransactionKind → TransactionModel → ℤ
amount_of wanted m = if same_kind m.kind wanted then m.amount_minor else pos 0

-- the `WHERE` of the balance
abbrev pub is_before : Uuid → Instant → TransactionModel → Bool
is_before user_id before m = m.user_id == user_id && ltb m.occurred_at before

-- `_query_balance`
unfoldable pub query_balance : Database → Uuid → Instant → AccountBalance
unfolding select_where sum_by
query_balance db user_id before =
    let rows = select_where (is_before user_id before) db.transactions in
    record {
      total_income_minor = sum_by (amount_of income) rows;
      total_expense_minor = sum_by (amount_of expense) rows;
      opening_balance_minor = pos 0;
    }

-- the `WHERE` of the list, with its two optional parts
abbrev pub is_listed :
    Uuid → Instant → Instant → Option Uuid → Option TransactionKind → TransactionModel → Bool
is_listed user_id start end category_id kind m =
    m.user_id == user_id
    && leb start m.occurred_at
    && ltb m.occurred_at end
    && elim category_id [ none ↦ true | some c ↦ m.category_id == c ]
    && elim kind [ none ↦ true | some k ↦ same_kind m.kind k ]

abbrev pub later_first : TransactionModel → TransactionModel → Bool
later_first a b = leb b.occurred_at a.occurred_at

-- `_query_for_user`
unfoldable pub query_for_user :
    Database → Uuid → Instant → Instant → Option Uuid → Option TransactionKind → List Transaction
unfolding select_where order_by
query_for_user db user_id start end category_id kind = map to_transaction_domain (
    order_by later_first
      (select_where (is_listed user_id start end category_id kind) db.transactions))

-- `TransactionModel.subscription_id == s and TransactionModel.subscription_charge_date == d`
abbrev pub is_charge : Uuid → Date → TransactionModel → Bool
is_charge s d m = elim m.subscription_id [
  | none ↦ false
  | some t ↦ elim m.subscription_charge_date [ none ↦ false | some e ↦ t == s && same_date e d ]
]

-- the rows that `uq_transactions_subscription_charge` lets no second one join
abbrev pub charge_clash : Option Uuid → Option Date → TransactionModel → Bool
charge_clash (some s) (some d) m = is_charge s d m
charge_clash _ _ m = false

abbrev pub subscription_exists : Database → Option Uuid → Bool
subscription_exists db none = true
subscription_exists db (some s) = any_where (λ (r : SubscriptionModel). r.id == s) db.subscriptions

-- The constraints of `transactions` for a new row, but for the foreign key of the category.
unfoldable pub transaction_refused : Database → TransactionModel → Bool
unfolding any_where same_date
transaction_refused db m =
    leb_ℤ m.amount_minor (pos 0)
    || any_where (λ r. r.id == m.id || charge_clash m.subscription_id m.subscription_charge_date r)
        db.transactions
    || not (user_exists db m.user_id)
    || not (subscription_exists db m.subscription_id)

-- `session.add(model); session.commit()`, with the row's category loaded
unfoldable pub insert_row : TransactionModel → Exec Database Transaction
unfolding transaction_refused commit
insert_row m db = if transaction_refused db m then (raised integrity_error, db) else (
  ok (to_transaction_domain m),
  commit (transaction_row m.user_id ∷ []) (record db { transactions = m ∷ db.transactions }),
)

-- `add`
unfoldable pub add :
    Uuid
    → Instant
    → Uuid
    → Category
    → TransactionKind
    → ℤ
    → Text
    → Instant
    → Exec Database Transaction
unfolding insert_row find_where
add id now user_id category kind amount_minor description occurred_at = do
  row ← gets (λ db. get_category db category.id)
  loaded ← or_raise row integrity_error
  insert_row (record {
    id = id;
    user_id = user_id;
    category_id = category.id;
    kind = kind;
    amount_minor = amount_minor;
    description = description;
    occurred_at = occurred_at;
    subscription_id = none;
    subscription_charge_date = none;
    created_at = now;
    category = loaded;
  })

-- the `WHERE` of `update` and `remove`
abbrev pub is_own : Uuid → Uuid → TransactionModel → Bool
is_own user_id transaction_id m = m.id == transaction_id && m.user_id == user_id

-- the columns that `update` writes
abbrev pub rewrite :
    Category
    → TransactionKind
    → ℤ
    → Text
    → Instant
    → CategoryModel
    → TransactionModel
    → TransactionModel
rewrite category kind amount_minor description occurred_at loaded r = record r {
  category_id = category.id;
  kind = kind;
  amount_minor = amount_minor;
  description = description;
  occurred_at = occurred_at;
  category = loaded;
}

-- `update`
unfoldable pub update :
    Uuid
    → Uuid
    → Category
    → TransactionKind
    → ℤ
    → Text
    → Instant
    → Exec Database (Option Transaction)
unfolding find_where update_where commit
update user_id transaction_id category kind amount_minor description occurred_at db =
    elim (find_where (is_own user_id transaction_id) db.transactions) [
      | none ↦ (ok none, db)
      | some model ↦ elim (get_category db category.id) [
        | none ↦ (raised integrity_error, db)
        | some loaded ↦
            let write = rewrite category kind amount_minor description occurred_at loaded in
            if leb_ℤ amount_minor (pos 0) then (raised integrity_error, db) else (
              ok (some (to_transaction_domain (write model))),
              commit (transaction_row model.user_id ∷ []) (record db {
                transactions =
                    update_where (λ (r : TransactionModel). r.id == model.id) write db.transactions;
              }),
            )
      ]
    ]

-- `remove`
unfoldable pub remove : Uuid → Uuid → Exec Database Bool
unfolding find_where select_where commit
remove user_id transaction_id db =
    elim (find_where (is_own user_id transaction_id) db.transactions) [
      | none ↦ (ok false, db)
      | some model ↦ (
        ok true,
        commit (transaction_row model.user_id ∷ []) (record db {
          transactions = delete_where (λ (r : TransactionModel). r.id == model.id) db.transactions;
        }),
      )
    ]

-- the row that `add_subscription_charge` writes
abbrev pub charge_row :
    Uuid → Instant → Subscription → Date → Instant → CategoryModel → TransactionModel
charge_row id now s charge_date occurred_at loaded = record {
  id = id;
  user_id = s.user_id;
  category_id = s.category_id;
  kind = s.kind;
  amount_minor = s.amount_minor;
  description = s.name;
  occurred_at = occurred_at;
  subscription_id = some s.id;
  subscription_charge_date = some charge_date;
  created_at = now;
  category = loaded;
}

-- `except IntegrityError: rollback; return None`
abbrev pub or_none : {A : Type 0} → Exec Database A → Exec Database (Option A)
or_none m db =
    let (r, db') = m db in elim r [ ok a ↦ (ok (some a), db') | raised _ ↦ (ok none, db) ]

-- `add_subscription_charge`
unfoldable pub add_subscription_charge :
    Uuid → Instant → Subscription → Date → Instant → Exec Database (Option Transaction)
unfolding insert_row find_where
add_subscription_charge id now s charge_date occurred_at db =
    elim (find_where (is_charge s.id charge_date) db.transactions) [
      | some _ ↦ (ok none, db)
      | none ↦ elim (get_category db s.category_id) [
        | none ↦ (ok none, db)
        | some loaded ↦ or_none (insert_row (charge_row id now s charge_date occurred_at loaded)) db
      ]
    ]
