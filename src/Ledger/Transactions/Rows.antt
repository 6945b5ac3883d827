-- ===== src/Ledger/Transactions/Rows.antt =====
-- Sums over the table when the one row with an identifier is deleted or written.
use accountant_backend.Prelude.{
  ℤ, pos_part, neg_part, ap, subst, ◌+ℤ◌, int_laws, sum_by, ◌≡◌, refl, Bool, true, false, some,
  List, [], ◌∷◌, arith, any_where, find_where, select_where, update_where, delete_where, Bool-cases,
  inl, inr,
}
use accountant_backend.Domain.{Uuid}
use accountant_backend.Schema.{TransactionModel}
use accountant_backend.Ledger.Transactions.{is_own}
use accountant_backend.Ledger.Transactions.Validity.{IsValid, has_id}

delete_absent :
    (id : Uuid) (rows : List TransactionModel)
    → any_where (has_id id) rows ≡ false
    → delete_where (has_id id) rows ≡ rows
unfolding any_where select_where
delete_absent id [] h = refl
delete_absent id (r ∷ rows) h = ground (arith, delete_absent id rows)

update_absent :
    (id : Uuid) (w : TransactionModel → TransactionModel) (rows : List TransactionModel)
    → any_where (has_id id) rows ≡ false
    → update_where (has_id id) w rows ≡ rows
unfolding any_where update_where
update_absent id w [] h = refl
update_absent id w (r ∷ rows) h = ground (arith, update_absent id w rows)

not_of_find :
    (p q : TransactionModel → Bool) (rows : List TransactionModel) {m : TransactionModel}
    → any_where p rows ≡ false
    → find_where q rows ≡ some m
    → p m ≡ false
unfolding any_where find_where
not_of_find p q [] h found = cc
not_of_find p q (r ∷ rows) {m = m} h found = ground (arith, not_of_find p q rows {m = m})

regroup : (a b c d e : ℤ) → b +ℤ c ≡ d +ℤ e → a +ℤ b +ℤ c ≡ a +ℤ d +ℤ e
regroup a b c d e h = omega (int_laws, ap pos_part h, ap neg_part h)

module _ (f : TransactionModel → ℤ) (u id : Uuid) where
  pub sum-delete :
      (rows : List TransactionModel) (m : TransactionModel)
      → IsValid rows
      → find_where (is_own u id) rows ≡ some m
      → sum_by f rows ≡ f m +ℤ sum_by f (delete_where (has_id m.id) rows)
  unfolding sum_by find_where select_where
  sum-delete [] m v found = cc
  sum-delete (r ∷ rows) m (fresh, _, _, rest) found = elim (Bool-cases (is_own u id r)) [
    | inl here ↦ let e : r ≡ m = ground arith in ground (arith, delete_absent r.id rows fresh)
    | inr there ↦
        let later : find_where (is_own u id) rows ≡ some m = ground arith in
        let apart = not_of_find (has_id r.id) (is_own u id) rows {m = m} fresh later in
        let other : has_id m.id r ≡ false = ground arith in
        rw other (rw (sum-delete rows m rest later) (omega int_laws))
  ]

  pub sum-update :
      (w : TransactionModel → TransactionModel) (rows : List TransactionModel)
      (m : TransactionModel)
      → IsValid rows
      → find_where (is_own u id) rows ≡ some m
      → sum_by f (update_where (has_id m.id) w rows) +ℤ f m ≡ sum_by f rows +ℤ f (w m)
  unfolding sum_by find_where update_where
  sum-update w [] m v found = cc
  sum-update w (r ∷ rows) m (fresh, _, _, rest) found = elim (Bool-cases (is_own u id r)) [
    | inl here ↦
        let e : r ≡ m = ground arith in
        let self : has_id r.id r ≡ true = ground arith in
        subst
          (λ n.
            sum_by f (update_where (has_id n.id) w (r ∷ rows)) +ℤ f n
            ≡ sum_by f (r ∷ rows) +ℤ f (w n))
          e (rw self (rw (update_absent r.id w rows fresh) (omega int_laws)))
    | inr there ↦
        let later : find_where (is_own u id) rows ≡ some m = ground arith in
        let apart = not_of_find (has_id r.id) (is_own u id) rows {m = m} fresh later in
        let other : has_id m.id r ≡ false = ground arith in
        let ih = sum-update w rows m rest later in
        rw other (regroup (f r) _ (f m) (sum_by f rows) (f (w m)) ih)
  ]
