-- ===== src/Ledger/Budgets/Validity.antt =====
-- Every operation keeps the constraints of the table of budgets.
use accountant_backend.Prelude.{
  ℤ, pos, leb_ℤ, ◌≡◌, refl, false, not, ◌||◌, ◌&&◌, List, [], ◌∷◌, arith, any_where, find_where,
  Bool-cases, Option-cases, inl, inr, any_of_find_none,
}
use accountant_backend.Domain.{Uuid, Instant, Category}
use accountant_backend.Schema.{Database}
use accountant_backend.Ledger.Categories.{user_exists, get_category}
use accountant_backend.Ledger.Budgets.{is_for, is_own, upsert, update, remove}
use accountant_backend.Ledger.Budgets.Rows.{
  has_id, IsValid, delete_where-IsValid, write-IsValid, find-has_id, own_pair,
}

-- every call that writes the table
pub data Call : Type 0 where
  upserting : Uuid → Instant → Uuid → Category → ℤ → Call
  updating : Instant → Uuid → Uuid → Category → ℤ → Call
  removing : Uuid → Uuid → Call

unfoldable pub after_call : Call → Database → Database
unfolding upsert update remove
after_call (upserting id now u c limit) db = (upsert id now u c limit db).1
after_call (updating now u id c limit) db = (update now u id c limit db).1
after_call (removing u c) db = (remove u c db).1

unfoldable pub after_calls : List Call → Database → Database
unfolding after_call
after_calls [] db = db
after_calls (c ∷ rest) db = after_calls rest (after_call c db)

upsert-IsValid :
    (id : Uuid) (now : Instant) (u : Uuid) (c : Category) (limit : ℤ) (db : Database)
    → IsValid db.budgets
    → IsValid (upsert id now u c limit db).1.budgets
unfolding upsert
upsert-IsValid id now u c limit db v = elim (Option-cases (get_category db c.id)) [
  | inl dangling ↦ rw (dangling, upsert) v
  | inr (loaded, known) ↦ elim (Bool-cases (leb_ℤ limit (pos 0))) [
    | inl refused ↦ rw (known, upsert) (rw refused v)
    | inr positive ↦ elim (Option-cases (find_where (is_for u c.id) db.budgets)) [
      | inl fresh ↦
          let none_has = any_of_find_none (is_for u c.id) db.budgets fresh in
          elim (Bool-cases (any_where (has_id id) db.budgets || not (user_exists db u))) [
            | inl refused ↦ rw (known, upsert) (rw positive (rw fresh (rw refused v)))
            | inr free ↦
                let unused : any_where (has_id id) db.budgets ≡ false = ground arith in
                rw (known, upsert)
                  (rw positive (rw fresh (rw free (unused, none_has, positive, v))))
          ]
      | inr (m, found) ↦
          let own = find-has_id (is_for u c.id) db.budgets m v found in
          rw (known, upsert)
            (rw positive (
              rw found (
                write-IsValid _ m.category_id m ((λ r. refl), refl, refl, positive) db.budgets v own
                  (own_pair db.budgets m v own))))
    ]
  ]
]

update-IsValid :
    (now : Instant) (u id : Uuid) (c : Category) (limit : ℤ) (db : Database)
    → IsValid db.budgets
    → IsValid (update now u id c limit db).1.budgets
unfolding update
update-IsValid now u id c limit db v = elim (Option-cases (find_where (is_own u id) db.budgets)) [
  | inl absent ↦ rw (absent, update) v
  | inr (m, found) ↦ elim (Option-cases (get_category db c.id)) [
    | inl dangling ↦ rw (found, update) (rw dangling v)
    | inr (loaded, known) ↦ elim (Bool-cases (leb_ℤ limit (pos 0))) [
      | inl refused ↦ rw (found, update) (rw known (rw refused v))
      | inr positive ↦
          elim (Bool-cases
            (any_where (λ r. not (has_id m.id r) && is_for m.user_id c.id r) db.budgets)) [
              | inl taken ↦ rw (found, update) (rw known (rw positive (rw taken v)))
              | inr free ↦
                  rw (found, update)
                    (rw known (
                      rw positive (
                        rw free (
                          write-IsValid _ c.id m ((λ r. refl), refl, refl, positive) db.budgets v
                            (find-has_id (is_own u id) db.budgets m v found) free))))
            ]
    ]
  ]
]

remove-IsValid :
    (u c : Uuid) (db : Database) → IsValid db.budgets → IsValid (remove u c db).1.budgets
unfolding remove
remove-IsValid u c db v = elim (Option-cases (find_where (is_for u c) db.budgets)) [
  | inl absent ↦ rw (absent, remove) v
  | inr (m, found) ↦ rw (found, remove) (delete_where-IsValid (has_id m.id) db.budgets v)
]

-- Where no user has two budgets of one category, no identifier occurs twice and every limit is
-- positive, this stays so whatever calls write the table of budgets, in whatever order and with
-- whatever arguments.
pub budgets_stay-IsValid :
    (calls : List Call) (db : Database)
    → IsValid db.budgets
    → IsValid (after_calls calls db).budgets
unfolding after_calls after_call
budgets_stay-IsValid [] db v = v
budgets_stay-IsValid (upserting id now u c limit ∷ rest) db v =
    budgets_stay-IsValid rest (upsert id now u c limit db).1 (upsert-IsValid id now u c limit db v)
budgets_stay-IsValid (updating now u id c limit ∷ rest) db v =
    budgets_stay-IsValid rest (update now u id c limit db).1 (update-IsValid now u id c limit db v)
budgets_stay-IsValid (removing u c ∷ rest) db v =
    budgets_stay-IsValid rest (remove u c db).1 (remove-IsValid u c db v)
