-- ===== src/Ledger/Bookkeeping/Shapes.antt =====
-- Which row a call of the use cases of transactions writes, where it succeeds.
use accountant_backend.Prelude.{
  ℤ, pos, ◌≡◌, ◌∙◌, sym, ap, refl, subst, none, some, List, ◌∷◌, ◌==◌, ◌&&◌, arith, find_where,
  find_where_holds, update_where, delete_where, Bool-cases, Option-cases, inl, inr, ◌⊎◌, Text,
  strip, ok, raised, Error, Exec, ledger, category_not_found, category_kind_mismatch, bind_ok,
  bind_raised, raised-ne-ok, or_raise, transaction_not_found, ◌>>=◌, leb_ℤ,
}
use accountant_backend.Domain.{Uuid, Instant, TransactionKind, same_kind, Transaction, Category}
use accountant_backend.Schema.{CategoryModel, TransactionModel, Database}
use accountant_backend.Ledger.Categories.{is_available, get_category, get_available_by_id}
use accountant_backend.Ledger.Transactions
use accountant_backend.Ledger.Transactions.{
  to_transaction_domain, query_balance, insert_row, is_own, rewrite,
}
use accountant_backend.Ledger.Transactions.Validity.{has_id}
use accountant_backend.Ledger.Bookkeeping.{
  category_of_kind, create_transaction, update_transaction, delete_transaction,
}

insert_row_shape :
    (m : TransactionModel) (db : Database) (t : Transaction)
    → (insert_row m db).0 ≡ ok t
    → ((insert_row m db).1.transactions ≡ m ∷ db.transactions) × (t ≡ to_transaction_domain m)
unfolding insert_row
insert_row_shape m db t h = ground arith

add_shape :
    (id : Uuid) (now : Instant) (u : Uuid) (c : Category) (k : TransactionKind) (a : ℤ) (d : Text)
    (at : Instant) (db : Database) (t : Transaction)
    → (Transactions.add id now u c k a d at db).0 ≡ ok t
    → (m : TransactionModel) × ((Transactions.add id now u c k a d at db).1.transactions
        ≡ m ∷ db.transactions)
      × (t ≡ to_transaction_domain m)
unfolding Transactions.add
add_shape id now u c k a d at db t h = elim (Option-cases (get_category db c.id)) [
  | inl absent ↦ absurd (ground arith)
  | inr (loaded, known) ↦ (
    record {
      id = id;
      user_id = u;
      category_id = c.id;
      kind = k;
      amount_minor = a;
      description = d;
      occurred_at = at;
      subscription_id = none;
      subscription_charge_date = none;
      created_at = now;
      category = loaded;
    },
    ground arith,
    ground arith,
  )
]

available-id :
    (db : Database) (u c : Uuid) (category : Category)
    → get_available_by_id db u c ≡ some category
    → category.id ≡ c
unfolding get_available_by_id
available-id db u c category found =
    elim (Option-cases
      (find_where (λ (r : CategoryModel). r.id == c && is_available u r) db.categories)) [
        | inl absent ↦ absurd (ground arith)
        | inr (m, there) ↦
            let named =
              find_where_holds (λ (r : CategoryModel). r.id == c && is_available u r) db.categories
                there in
            ground arith
      ]

found_own :
    (u id : Uuid) (rows : List TransactionModel) (m : TransactionModel)
    → find_where (is_own u id) rows ≡ some m
    → (m.id ≡ id) × (m.user_id ≡ u)
found_own u id rows m found =
    let own = find_where_holds (is_own u id) rows found in (ground arith, ground arith)

-- the guards raise, or find the category that was asked for; they write nothing
pub category_of_kind-cases :
    (u c : Uuid) (k : TransactionKind) (db : Database)
    → ((e : Error) × (category_of_kind u c k db ≡ (raised e, db)))
      ⊎ ((category : Category) × (category_of_kind u c k db ≡ (ok category, db))
          × (category.id ≡ c))
category_of_kind-cases u c k db = elim (Option-cases (get_available_by_id db u c)) [
  | inl absent ↦ inl (ledger category_not_found, rw absent)
  | inr (category, found) ↦ elim (Bool-cases (same_kind category.kind k)) [
    | inl same ↦ inr (category, rw (found) (rw same), available-id db u c category found)
    | inr other ↦ inl (ledger category_kind_mismatch, rw (found) (rw other))
  ]
]

abbrev adding :
    Uuid
    → Instant
    → Uuid
    → TransactionKind
    → ℤ
    → Text
    → Instant
    → Category
    → Exec Database Transaction
adding id now u k a d at category = Transactions.add id now u category k a (strip d) at

pub create_shape :
    (id : Uuid) (now : Instant) (u c : Uuid) (k : TransactionKind) (a : ℤ) (d : Text) (at : Instant)
    (db : Database) (t : Transaction)
    → (create_transaction id now u c k a d at db).0 ≡ ok t
    → (m : TransactionModel) × ((create_transaction id now u c k a d at db).1.transactions
        ≡ m ∷ db.transactions)
      × (t ≡ to_transaction_domain m)
unfolding create_transaction
create_shape id now u c k a d at db t h = elim (category_of_kind-cases u c k db) [
  | inl (e, refused) ↦
      let r = bind_raised (category_of_kind u c k) (adding id now u k a d at) db refused in
      absurd (raised-ne-ok (ap (λ p. p.0) (sym r) ∙ h))
  | inr (category, passed, named) ↦
      let r = bind_ok (category_of_kind u c k) (adding id now u k a d at) db passed in
      let (m, rows, same) =
        add_shape id now u category k a (strip d) at db t (ap (λ p. p.0) (sym r) ∙ h) in
      (m, ap (λ p. p.1.transactions) r ∙ rows, same)
]

pub remove_shape :
    (u id : Uuid) (db : Database)
    → (delete_transaction u id db).0 ≡ ok tt
    → (m : TransactionModel) × (find_where (is_own u id) db.transactions ≡ some m)
      × ((delete_transaction u id db).1.transactions ≡ delete_where (has_id m.id) db.transactions)
unfolding delete_transaction Transactions.remove
remove_shape u id db h = elim (Option-cases (find_where (is_own u id) db.transactions)) [
  | inl absent ↦ absurd (ground arith)
  | inr (m, found) ↦ (m, found, ground arith)
]

abbrev writing :
    Uuid → Uuid → TransactionKind → ℤ → Text → Instant → Category → Exec Database Transaction
writing u id k a d at category = Transactions.update u id category k a (strip d) at >>= λ written.
    or_raise written (ledger transaction_not_found)

-- the transaction with the values that a change asks for, the description stripped
abbrev pub IsRequested :
    Uuid → Uuid → Uuid → TransactionKind → ℤ → Text → Instant → Transaction → Type 0
IsRequested u id c k a d at t =
    (t.user_id ≡ u)
    × (t.id ≡ id)
    × (t.category_id ≡ c)
    × (t.kind ≡ k)
    × (t.amount_minor ≡ a)
    × (t.description ≡ strip d)
    × (t.occurred_at ≡ at)

write_shape :
    (u id : Uuid) (c : Category) (k : TransactionKind) (a : ℤ) (d : Text) (at : Instant)
    (db : Database) (t : Transaction)
    → (writing u id k a d at c db).0 ≡ ok t
    → (m : TransactionModel) × (w : TransactionModel → TransactionModel) × (find_where
          (is_own u id)
          db.transactions
        ≡ some m)
      × ((writing u id k a d at c db).1.transactions ≡ update_where (has_id m.id) w db.transactions)
      × (t ≡ to_transaction_domain (w m))
      × IsRequested u id c.id k a d at t
unfolding Transactions.update
write_shape u id c k a d at db t h =
    elim (Option-cases (find_where (is_own u id) db.transactions)) [
      | inl absent ↦ absurd (ground arith)
      | inr (m, found) ↦ elim (Option-cases (get_category db c.id)) [
        | inl dangling ↦ absurd (ground arith)
        | inr (loaded, known) ↦ elim (Bool-cases (leb_ℤ a (pos 0))) [
          | inl refused ↦ absurd (ground arith)
          | inr positive ↦
              let (same_id, same_user) = found_own u id db.transactions m found in
              let written : t ≡ to_transaction_domain (rewrite c k a (strip d) at loaded m) =
                ground arith in
              (
                m,
                rewrite c k a (strip d) at loaded,
                found,
                ground arith,
                written,
                rw written (same_user, same_id, refl, refl, refl, refl, refl),
              )
        ]
      ]
    ]

pub update_shape :
    (u id c : Uuid) (k : TransactionKind) (a : ℤ) (d : Text) (at : Instant) (db : Database)
    (t : Transaction)
    → (update_transaction u id c k a d at db).0 ≡ ok t
    → (m : TransactionModel) × (w : TransactionModel → TransactionModel) × (find_where
          (is_own u id)
          db.transactions
        ≡ some m)
      × ((update_transaction u id c k a d at db).1.transactions
          ≡ update_where (has_id m.id) w db.transactions)
      × (t ≡ to_transaction_domain (w m))
      × IsRequested u id c k a d at t
unfolding update_transaction
update_shape u id c k a d at db t h = elim (category_of_kind-cases u c k db) [
  | inl (e, refused) ↦
      let r = bind_raised (category_of_kind u c k) (writing u id k a d at) db refused in
      absurd (raised-ne-ok (ap (λ p. p.0) (sym r) ∙ h))
  | inr (category, passed, named) ↦
      let r = bind_ok (category_of_kind u c k) (writing u id k a d at) db passed in
      let (m, w, found, rows, same, requested) =
        write_shape u id category k a d at db t (ap (λ p. p.0) (sym r) ∙ h) in
      (
        m,
        w,
        found,
        ap (λ p. p.1.transactions) r ∙ rows,
        same,
        subst (λ x. IsRequested u id x k a d at t) named requested,
      )
]
