-- ===== src/Ledger/Transactions/Validity.antt =====
-- The constraints that the database keeps on the table of transactions, as an invariant.
use accountant_backend.Prelude.{
  ℤ, pos, leb_ℤ, ◌≡◌, refl, Bool, false, Option, none, some, List, [], ◌∷◌, arith, ◌==◌, any_where,
  any-or, find_where, select_where, update_where, delete_where, Bool-cases, Option-cases, inl, inr,
  Text,
}
use accountant_backend.Calendar.{Date}
use accountant_backend.Domain.{Uuid, Instant, TransactionKind, Category, Subscription}
use accountant_backend.Schema.{TransactionModel, CategoryModel, Database}
use accountant_backend.Ledger.Categories.{get_category}
use accountant_backend.Ledger.Transactions.{
  is_own, is_charge, charge_clash, rewrite, insert_row, add, update, remove,
  add_subscription_charge,
}

abbrev pub has_id : Uuid → TransactionModel → Bool
has_id id r = r.id == id

-- No identifier and no charge of a subscription on a day occurs twice; every amount is positive.
abbrev pub IsValid : List TransactionModel → Type 0
IsValid [] = Unit
IsValid (m ∷ ms) =
    (any_where (has_id m.id) ms ≡ false)
    × (any_where (charge_clash m.subscription_id m.subscription_charge_date) ms ≡ false)
    × (leb_ℤ m.amount_minor (pos 0) ≡ false)
    × IsValid ms

insert_row-IsValid :
    (m : TransactionModel) (db : Database)
    → IsValid db.transactions
    → IsValid (insert_row m db).1.transactions
unfolding insert_row
insert_row-IsValid m db h = ground (
  arith,
  any-or (has_id m.id) (charge_clash m.subscription_id m.subscription_charge_date) db.transactions,
)

any-delete_where :
    (p q : TransactionModel → Bool) (rows : List TransactionModel)
    → any_where p rows ≡ false
    → any_where p (delete_where q rows) ≡ false
unfolding any_where select_where
any-delete_where p q [] h = refl
any-delete_where p q (r ∷ rows) h = ground (arith, any-delete_where p q rows)

delete_where-IsValid :
    (q : TransactionModel → Bool) (rows : List TransactionModel)
    → IsValid rows
    → IsValid (delete_where q rows)
unfolding select_where
delete_where-IsValid q [] h = tt
delete_where-IsValid q (r ∷ rows) (id, charge, amount, rest) = elim (Bool-cases (q r)) [
  | inl gone ↦ rw (gone, select_where) (delete_where-IsValid q rows rest)
  | inr kept ↦
      rw (kept, select_where)
        (
          any-delete_where (has_id r.id) q rows id,
          any-delete_where (charge_clash r.subscription_id r.subscription_charge_date) q rows
              charge,
          amount,
          delete_where-IsValid q rows rest,
        )
]

any-update_where :
    (p q : TransactionModel → Bool) (f : TransactionModel → TransactionModel)
    (rows : List TransactionModel)
    → ((r : TransactionModel) → p (f r) ≡ p r)
    → any_where p (update_where q f rows) ≡ any_where p rows
unfolding any_where update_where
any-update_where p q f [] same = refl
any-update_where p q f (r ∷ rows) same = ground (arith, same r, any-update_where p q f rows same)

clash-rewrite :
    (s : Option Uuid) (d : Option Date) (category : Category) (kind : TransactionKind) (amount : ℤ)
    (description : Text) (occurred_at : Instant) (loaded : CategoryModel) (r : TransactionModel)
    → charge_clash s d (rewrite category kind amount description occurred_at loaded r)
      ≡ charge_clash s d r
clash-rewrite (some s) (some d) category kind amount description occurred_at loaded r = refl
clash-rewrite (some s) none category kind amount description occurred_at loaded r = refl
clash-rewrite none d category kind amount description occurred_at loaded r = refl

-- Rewriting keeps the identifier and the charge, so it keeps the constraints.
rewrite-IsValid :
    (category : Category) (kind : TransactionKind) (amount : ℤ) (description : Text)
    (occurred_at : Instant) (loaded : CategoryModel) (q : TransactionModel → Bool)
    (rows : List TransactionModel)
    → leb_ℤ amount (pos 0) ≡ false
    → IsValid rows
    → IsValid (update_where q (rewrite category kind amount description occurred_at loaded) rows)
unfolding update_where
rewrite-IsValid category kind amount description occurred_at loaded q [] positive h = tt
rewrite-IsValid category kind amount description occurred_at loaded q (r ∷ rows) positive h =
    let f = rewrite category kind amount description occurred_at loaded in
    ground (
      arith,
      rewrite-IsValid category kind amount description occurred_at loaded q rows positive,
      any-update_where (has_id r.id) q f rows (λ _. refl),
      any-update_where (charge_clash r.subscription_id r.subscription_charge_date) q f rows (
          clash-rewrite r.subscription_id r.subscription_charge_date category kind amount
            description occurred_at loaded),
    )

any-never : (rows : List TransactionModel) → any_where (charge_clash none none) rows ≡ false
unfolding any_where
any-never [] = refl
any-never (r ∷ rows) = any-never rows

-- every call that writes the table
pub data Call : Type 0 where
  adding : Uuid → Instant → Uuid → Category → TransactionKind → ℤ → Text → Instant → Call
  updating : Uuid → Uuid → Category → TransactionKind → ℤ → Text → Instant → Call
  removing : Uuid → Uuid → Call
  charging : Uuid → Instant → Subscription → Date → Instant → Call

pub after_call : Call → Database → Database
after_call (adding id now u c k a d t) db = (add id now u c k a d t db).1
after_call (updating u id c k a d t) db = (update u id c k a d t db).1
after_call (removing u id) db = (remove u id db).1
after_call (charging id now s d t) db = (add_subscription_charge id now s d t db).1

pub after_calls : List Call → Database → Database
after_calls [] db = db
after_calls (c ∷ rest) db = after_calls rest (after_call c db)

add-IsValid :
    (id : Uuid) (now : Instant) (u : Uuid) (c : Category) (k : TransactionKind) (a : ℤ) (d : Text)
    (t : Instant) (db : Database)
    → IsValid db.transactions
    → IsValid (add id now u c k a d t db).1.transactions
unfolding add
add-IsValid id now u c k a d t db h =
    ground (
      arith,
      any-or (has_id id) (charge_clash none none) db.transactions,
      any-never db.transactions,
    )

update-IsValid :
    (u id : Uuid) (c : Category) (k : TransactionKind) (a : ℤ) (d : Text) (t : Instant)
    (db : Database)
    → IsValid db.transactions
    → IsValid (update u id c k a d t db).1.transactions
unfolding update
update-IsValid u id c k a d t db h =
    elim (Option-cases (find_where (is_own u id) db.transactions)) [
      | inl absent ↦ rw (absent, update) h
      | inr (m, found) ↦ elim (Option-cases (get_category db c.id)) [
        | inl dangling ↦ rw (found, update) (rw dangling h)
        | inr (loaded, known) ↦ elim (Bool-cases (leb_ℤ a (pos 0))) [
          | inl refused ↦ rw (found, update) (rw known (rw refused h))
          | inr positive ↦
              rw (found, update)
                (rw known (
                  rw positive
                    (rewrite-IsValid c k a d t loaded (has_id m.id) db.transactions positive h)))
        ]
      ]
    ]

remove-IsValid :
    (u id : Uuid) (db : Database)
    → IsValid db.transactions
    → IsValid (remove u id db).1.transactions
unfolding remove
remove-IsValid u id db h = elim (Option-cases (find_where (is_own u id) db.transactions)) [
  | inl absent ↦ rw (absent, remove) h
  | inr (m, found) ↦ rw (found, remove) (delete_where-IsValid (has_id m.id) db.transactions h)
]

charge-IsValid :
    (id : Uuid) (now : Instant) (s : Subscription) (d : Date) (t : Instant) (db : Database)
    → IsValid db.transactions
    → IsValid (add_subscription_charge id now s d t db).1.transactions
unfolding add_subscription_charge
charge-IsValid id now s d t db h =
    ground (arith, any-or (has_id id) (is_charge s.id d) db.transactions)

-- Where no identifier occurs twice in the table of transactions, no subscription is charged twice
-- for one day and every amount is positive, this stays so whatever calls write the table, in
-- whatever order and with whatever arguments.
pub after_calls-IsValid :
    (calls : List Call) (db : Database)
    → IsValid db.transactions
    → IsValid (after_calls calls db).transactions
unfolding after_calls after_call
after_calls-IsValid [] db h = h
after_calls-IsValid (adding id now u c k a d t ∷ rest) db h =
    after_calls-IsValid rest (add id now u c k a d t db).1 (add-IsValid id now u c k a d t db h)
after_calls-IsValid (updating u id c k a d t ∷ rest) db h =
    after_calls-IsValid rest (update u id c k a d t db).1 (update-IsValid u id c k a d t db h)
after_calls-IsValid (removing u id ∷ rest) db h =
    after_calls-IsValid rest (remove u id db).1 (remove-IsValid u id db h)
after_calls-IsValid (charging id now s d t ∷ rest) db h =
    after_calls-IsValid rest (add_subscription_charge id now s d t db).1
      (charge-IsValid id now s d t db h)
