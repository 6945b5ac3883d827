-- ===== src/Ledger/Budgets/Rows.antt =====
-- The constraints that the database keeps on the table of budgets, and rows that are written.
use accountant_backend.Prelude.{
  pos, leb_ℤ, ◌≡◌, ◌∙◌, refl, Bool, false, not, ◌&&◌, some, List, [], ◌∷◌, arith, ◌==◌, any_where,
  find_where, select_where, update_where, delete_where, Bool-cases, inl, inr,
}
use accountant_backend.Domain.{Uuid}
use accountant_backend.Schema.{MonthlyBudgetModel}
use accountant_backend.Ledger.Budgets.{is_for}

abbrev pub has_id : Uuid → MonthlyBudgetModel → Bool
has_id id r = r.id == id

-- No identifier occurs twice, no user has two budgets of one category, every limit is positive.
abbrev pub IsValid : List MonthlyBudgetModel → Type 0
IsValid [] = Unit
IsValid (m ∷ ms) =
    (any_where (has_id m.id) ms ≡ false)
    × (any_where (is_for m.user_id m.category_id) ms ≡ false)
    × (leb_ℤ m.limit_minor (pos 0) ≡ false)
    × IsValid ms

any-delete_where :
    (p q : MonthlyBudgetModel → Bool) (rows : List MonthlyBudgetModel)
    → any_where p rows ≡ false
    → any_where p (delete_where q rows) ≡ false
unfolding any_where select_where
any-delete_where p q [] h = refl
any-delete_where p q (r ∷ rows) h = ground (arith, any-delete_where p q rows)

pub delete_where-IsValid :
    (q : MonthlyBudgetModel → Bool) (rows : List MonthlyBudgetModel)
    → IsValid rows
    → IsValid (delete_where q rows)
unfolding select_where
delete_where-IsValid q [] h = tt
delete_where-IsValid q (r ∷ rows) (id, pair, limit, rest) = elim (Bool-cases (q r)) [
  | inl gone ↦ rw (gone, select_where) (delete_where-IsValid q rows rest)
  | inr kept ↦
      rw (kept, select_where)
        (
          any-delete_where (has_id r.id) q rows id,
          any-delete_where (is_for r.user_id r.category_id) q rows pair,
          limit,
          delete_where-IsValid q rows rest,
        )
]

-- what an operation writes: no identifier, and into the row `m` a category and a positive limit
abbrev pub Writes : (MonthlyBudgetModel → MonthlyBudgetModel) → Uuid → MonthlyBudgetModel → Type 0
Writes w c m =
    ((r : MonthlyBudgetModel) → (w r).id ≡ r.id)
    × ((w m).user_id ≡ m.user_id)
    × ((w m).category_id ≡ c)
    × (leb_ℤ (w m).limit_minor (pos 0) ≡ false)

module _ (w : MonthlyBudgetModel → MonthlyBudgetModel) (c : Uuid) (m : MonthlyBudgetModel)
    (writes : Writes w c m) where
  update_absent :
      (rows : List MonthlyBudgetModel)
      → any_where (has_id m.id) rows ≡ false
      → update_where (has_id m.id) w rows ≡ rows
  unfolding any_where update_where
  update_absent [] h = refl
  update_absent (r ∷ rows) h = ground (arith, update_absent rows)

  same_ids :
      (id : Uuid) (rows : List MonthlyBudgetModel)
      → any_where (has_id id) (update_where (has_id m.id) w rows) ≡ any_where (has_id id) rows
  unfolding any_where update_where
  same_ids id [] = refl
  same_ids id (r ∷ rows) = ground (arith, writes.0 r, same_ids id rows)

  other_pairs :
      (u k : Uuid) (rows : List MonthlyBudgetModel)
      → IsValid rows
      → find_where (has_id m.id) rows ≡ some m
      → any_where (is_for u k) rows ≡ false
      → is_for u k (w m) ≡ false
      → any_where (is_for u k) (update_where (has_id m.id) w rows) ≡ false
  unfolding any_where update_where find_where
  other_pairs u k [] v found none_has apart = refl
  other_pairs u k (r ∷ rows) (fresh, _, _, rest) found none_has apart =
      elim (Bool-cases (has_id m.id r)) [
        | inl here ↦ let e : r ≡ m = ground arith in ground (arith, update_absent rows)
        | inr there ↦ ground (arith, other_pairs u k rows rest)
      ]

  free_pair :
      (u k : Uuid) (rows : List MonthlyBudgetModel)
      → any_where (has_id m.id) rows ≡ false
      → any_where (λ r. not (has_id m.id r) && is_for u k r) rows ≡ false
      → any_where (is_for u k) rows ≡ false
  unfolding any_where
  free_pair u k [] fresh guard = refl
  free_pair u k (r ∷ rows) fresh guard = ground (arith, free_pair u k rows)

  -- Writing the row of an identifier keeps the constraints, if no other row has the new pair.
  pub write-IsValid :
      (rows : List MonthlyBudgetModel)
      → IsValid rows
      → find_where (has_id m.id) rows ≡ some m
      → any_where (λ r. not (has_id m.id r) && is_for m.user_id c r) rows ≡ false
      → IsValid (update_where (has_id m.id) w rows)
  unfolding any_where update_where find_where
  write-IsValid [] v found guard = tt
  write-IsValid (r ∷ rows) (fresh, pair, limit, rest) found guard =
      elim (Bool-cases (has_id m.id r)) [
        | inl here ↦
            let e : r ≡ m = ground arith in
            let gone : any_where (has_id m.id) rows ≡ false = ground arith in
            let free : any_where (is_for m.user_id c) rows ≡ false =
              ground (arith, free_pair m.user_id c rows) in
            let (same_id, same_user, same_category, positive) = writes in
            rw here (
              rw e (
                rw (same_id m, same_user, same_category, update_absent rows gone)
                  (gone, free, positive, rest)))
        | inr there ↦
            let found' : find_where (has_id m.id) rows ≡ some m = ground arith in
            let apart : is_for r.user_id r.category_id (w m) ≡ false = ground arith in
            rw there (
              same_ids r.id rows ∙ fresh,
              other_pairs r.user_id r.category_id rows rest found' pair apart,
              limit,
              write-IsValid rows rest found' (ground arith),
            )
      ]

absent_apart :
    (p q : MonthlyBudgetModel → Bool) (rows : List MonthlyBudgetModel) (m : MonthlyBudgetModel)
    → any_where p rows ≡ false
    → find_where q rows ≡ some m
    → p m ≡ false
unfolding any_where find_where
absent_apart p q [] m none_has found = cc
absent_apart p q (r ∷ rows) m none_has found = ground (arith, absent_apart p q rows m)

-- a row that any test finds is found by its identifier
pub find-has_id :
    (p : MonthlyBudgetModel → Bool) (rows : List MonthlyBudgetModel) (m : MonthlyBudgetModel)
    → IsValid rows
    → find_where p rows ≡ some m
    → find_where (has_id m.id) rows ≡ some m
unfolding find_where
find-has_id p [] m v found = cc
find-has_id p (r ∷ rows) m (fresh, _, _, rest) found = elim (Bool-cases (p r)) [
  | inl here ↦ ground arith
  | inr later ↦
      let found' : find_where p rows ≡ some m = ground arith in
      let apart = absent_apart (has_id r.id) p rows m fresh found' in
      ground (arith, find-has_id p rows m rest found')
]

any-and :
    (p q : MonthlyBudgetModel → Bool) (rows : List MonthlyBudgetModel)
    → any_where q rows ≡ false
    → any_where (λ r. p r && q r) rows ≡ false
unfolding any_where
any-and p q [] h = refl
any-and p q (r ∷ rows) h = ground (arith, any-and p q rows)

-- no other row has the pair of a row
pub own_pair :
    (rows : List MonthlyBudgetModel) (m : MonthlyBudgetModel)
    → IsValid rows
    → find_where (has_id m.id) rows ≡ some m
    → any_where (λ r. not (has_id m.id r) && is_for m.user_id m.category_id r) rows ≡ false
unfolding find_where any_where
own_pair [] m v found = refl
own_pair (r ∷ rows) m (fresh, pair, _, rest) found = elim (Bool-cases (has_id m.id r)) [
  | inl here ↦
      let e : r ≡ m = ground arith in
      let tail : any_where (is_for m.user_id m.category_id) rows ≡ false = ground arith in
      ground (arith, any-and (λ r. not (has_id m.id r)) (is_for m.user_id m.category_id) rows)
  | inr there ↦
      let found' : find_where (has_id m.id) rows ≡ some m = ground arith in
      let apart = absent_apart (is_for r.user_id r.category_id) (has_id m.id) rows m pair found' in
      ground (arith, own_pair rows m rest found')
]
