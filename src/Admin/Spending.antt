-- ===== src/Admin/Spending.antt =====
-- The spending by category that an administrator reads is the user's expense.
use accountant_backend.Prelude.{
  ◌≡◌, refl, ap, ◌∙◌, sym, ℤ, pos, ◌+ℤ◌, int_laws, sum_by, sum_by-select_where, sum_by-order_by,
  sum_by-congr, arith, ◌==◌, if◌then◌else◌, Bool-cases, inl, inr, List, [], ◌∷◌, select_where,
  leb_ℤ,
}
use accountant_backend.Domain.{Uuid, Instant, expense}
use accountant_backend.Schema.{TransactionModel, Database}
use accountant_backend.Ledger.Transactions.{amount_of, is_before, query_balance}
use accountant_backend.Admin.Figures.{
  AdminCategorySpending, add_spending, group_spending, is_spent, list_category_spending, get_totals,
}

abbrev pub spent : AdminCategorySpending → ℤ
spent s = s.total_expense_minor

abbrev amount : TransactionModel → ℤ
amount m = m.amount_minor

sum_by-add_spending :
    (m : TransactionModel) (groups : List AdminCategorySpending)
    → sum_by spent (add_spending m groups) ≡ m.amount_minor +ℤ sum_by spent groups
unfolding sum_by add_spending
sum_by-add_spending m [] = refl
sum_by-add_spending m (s ∷ groups) = elim (Bool-cases (s.category_id == m.category.id)) [
  | inl same ↦ rw same (omega int_laws)
  | inr other ↦ rw other (rw (sum_by-add_spending m groups) (omega int_laws))
]

sum_by-group_spending :
    (rows : List TransactionModel) → sum_by spent (group_spending rows) ≡ sum_by amount rows
unfolding sum_by group_spending
sum_by-group_spending [] = refl
sum_by-group_spending (m ∷ rows) =
    sum_by-add_spending m (group_spending rows)
    ∙ ap (λ t. m.amount_minor +ℤ t) (sum_by-group_spending rows)

expense_summand :
    (user_id : Uuid) (before : Instant) (m : TransactionModel)
    → (if is_spent user_id before m then amount m else pos 0)
      ≡ (if is_before user_id before m then amount_of expense m else pos 0)
expense_summand user_id before m = ground arith

-- The amounts that `list_category_spending` gives for the categories sum up to the expense of the user's totals
-- before that moment, and this is the expense of the user's own balance.
pub list_category_spending-Sums :
    (db : Database) (user_id : Uuid) (before : Instant)
    → (sum_by spent (list_category_spending db user_id before)
        ≡ (get_totals db user_id before).total_expense_minor)
      × (sum_by spent (list_category_spending db user_id before)
          ≡ (query_balance db user_id before).total_expense_minor)
unfolding list_category_spending get_totals query_balance
list_category_spending-Sums db user_id before =
    let total =
      sum_by-order_by spent
        (λ (a b : AdminCategorySpending). leb_ℤ b.total_expense_minor a.total_expense_minor)
        (group_spending (select_where (is_spent user_id before) db.transactions))
      ∙ sum_by-group_spending (select_where (is_spent user_id before) db.transactions)
      ∙ sum_by-select_where amount (is_spent user_id before) db.transactions
      ∙ sum_by-congr (λ m. if is_spent user_id before m then amount m else pos 0)
          (λ m. if is_before user_id before m then amount_of expense m else pos 0) db.transactions
          (expense_summand user_id before)
      ∙ sym (sum_by-select_where (amount_of expense) (is_before user_id before) db.transactions) in
    (total, total)
