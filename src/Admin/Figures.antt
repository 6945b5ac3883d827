-- ===== src/Admin/Figures.antt =====
-- The figures that an administrator reads: the dataclasses of app/domain/admin/models.py,
-- `SqlAlchemyAdminFinanceReader`, and the two listings of app/application/admin/services.py.
-- `text_le` is the order of Python's strings, `name_le` the collation of the database.
use accountant_backend.Prelude.{
  ℕ, zero, suc, ℤ, pos, ◌+ℤ◌, ◌-ℤ◌, leb_ℤ, sum_by, Bool, ◌&&◌, List, [], ◌∷◌, map, Text, length,
  select_where, order_by, ◌==◌, if◌then◌else◌, Exec, gets, raise_if, ◌>>=◌, ◌>>◌, is_none, admin,
  admin_user_not_found, ltb,
}
use accountant_backend.Domain.{
  Uuid, Instant, income, expense, same_kind, Transaction, Subscription, User,
}
use accountant_backend.Schema.{TransactionModel, Database}
use accountant_backend.Ledger.Transactions.{
  to_transaction_domain, amount_of, is_before, later_first,
}
use accountant_backend.Ledger.Subscriptions
use accountant_backend.Identity.Users.{list_all, get_by_id}

pub record UserFinanceTotals : Type 0 where
  pub total_income_minor : ℤ
  pub total_expense_minor : ℤ
  pub transaction_count : ℕ
  pub opening_balance_minor : ℤ

-- the property `current_balance_minor` of the totals
unfoldable pub balance_of_totals : UserFinanceTotals → ℤ
balance_of_totals t = t.opening_balance_minor +ℤ t.total_income_minor -ℤ t.total_expense_minor

pub record AdminUserSummary : Type 0 where
  pub id : Uuid
  pub email : Text
  pub display_name : Text
  pub is_active : Bool
  pub roles : List Text
  pub created_at : Instant
  pub finances : UserFinanceTotals

pub record AdminCategorySpending : Type 0 where
  pub category_id : Uuid
  pub category_name : Text
  pub category_color : Text
  pub total_expense_minor : ℤ

pub record AdminUserFinanceDetails : Type 0 where
  pub user_id : Uuid
  pub recent_transactions : List Transaction
  pub category_spending : List AdminCategorySpending
  pub subscriptions : List Subscription

-- `get_totals`
unfoldable pub get_totals : Database → Uuid → Instant → UserFinanceTotals
unfolding select_where sum_by
get_totals db user_id before =
    let rows = select_where (is_before user_id before) db.transactions in
    record {
      total_income_minor = sum_by (amount_of income) rows;
      total_expense_minor = sum_by (amount_of expense) rows;
      transaction_count = length rows;
      opening_balance_minor = pos 0;
    }

-- `LIMIT n`
unfoldable pub take {ℓ} : {A : Type ℓ} → ℕ → List A → List A
take n [] = []
take zero (x ∷ xs) = []
take (suc n) (x ∷ xs) = x ∷ take n xs

-- `list_recent_transactions`
unfoldable pub list_recent_transactions : Database → Uuid → Instant → ℕ → List Transaction
unfolding take order_by select_where
list_recent_transactions db user_id before limit =
    map to_transaction_domain
      (take limit (order_by later_first (select_where (is_before user_id before) db.transactions)))

-- `GROUP BY CategoryModel.id`, on which the name and the color depend
unfoldable pub add_spending :
    TransactionModel → List AdminCategorySpending → List AdminCategorySpending
add_spending m [] =
    record {
      category_id = m.category.id;
      category_name = m.category.name;
      category_color = m.category.color;
      total_expense_minor = m.amount_minor;
    }
    ∷ []
add_spending m (s ∷ groups) =
    let rest = add_spending m groups in
    if s.category_id == m.category.id
    then record s { total_expense_minor = m.amount_minor +ℤ s.total_expense_minor } ∷ groups
    else s ∷ rest

unfoldable pub group_spending : List TransactionModel → List AdminCategorySpending
unfolding add_spending
group_spending [] = []
group_spending (m ∷ rows) = add_spending m (group_spending rows)

abbrev pub is_spent : Uuid → Instant → TransactionModel → Bool
is_spent user_id before m =
    m.user_id == user_id && same_kind m.kind expense && ltb m.occurred_at before

-- `list_category_spending`
unfoldable pub list_category_spending : Database → Uuid → Instant → List AdminCategorySpending
unfolding order_by group_spending select_where
list_category_spending db user_id before =
    order_by (λ (a b : AdminCategorySpending). leb_ℤ b.total_expense_minor a.total_expense_minor)
      (group_spending (select_where (is_spent user_id before) db.transactions))

module _ (text_le : Text → Text → Bool) where
  -- an item of `ListAdminUserSummaries.execute`
  abbrev pub summarise : Database → Instant → User → AdminUserSummary
  summarise db before user = record {
    id = user.id;
    email = user.email;
    display_name = user.display_name;
    is_active = user.is_active;
    roles = order_by text_le user.roles;
    created_at = user.created_at;
    finances = record (get_totals db user.id before) {
      opening_balance_minor = user.opening_balance_minor;
    };
  }

  -- `ListAdminUserSummaries.execute`
  unfoldable pub list_user_summaries : Instant → Exec Database (List AdminUserSummary)
  unfolding list_all get_totals order_by
  list_user_summaries before = gets (λ db. map (summarise db before) (list_all db))

-- `GetAdminUserFinanceDetails.execute`; `list_active_subscriptions` is the query of the subscription
-- repository
unfoldable pub get_finance_details :
    (Text → Text → Bool) → Uuid → Instant → Exec Database AdminUserFinanceDetails
unfolding get_by_id list_recent_transactions list_category_spending
get_finance_details name_le user_id before = do
  found ← gets (λ db. get_by_id db user_id)
  raise_if (is_none found) (admin admin_user_not_found)
  gets λ (db : Database). record {
    user_id = user_id;
    recent_transactions = list_recent_transactions db user_id before 20;
    category_spending = list_category_spending db user_id before;
    subscriptions = Subscriptions.list_active name_le db user_id;
  }
