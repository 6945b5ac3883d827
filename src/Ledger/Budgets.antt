-- ===== src/Ledger/Budgets.antt =====
-- `SqlAlchemyBudgetRepository` and application/ledger/budgets.py.
pub mod Rows
pub mod Validity
use accountant_backend.Prelude.{
  ℤ, pos, leb_ℤ, same_ℤ, Bool, false, true, not, ◌&&◌, ◌||◌, Option, none, some, List, [], ◌∷◌, map,
  Text, any_where, find_where, select_where, update_where, delete_where, order_by, ◌==◌,
  if◌then◌else◌, Exec, ok, raised, or_raise, raise_if, gets, pure, ◌>>=◌, ◌>>◌, integrity_error,
  ledger, category_not_found, category_kind_mismatch, budget_not_found, budget_already_exists,
}
use accountant_backend.Domain.{Uuid, Instant, expense, same_kind, Category, MonthlyBudget}
use accountant_backend.Schema.{MonthlyBudgetModel, Database}
use accountant_backend.Events.{commit, other_row}
use accountant_backend.Ledger.Categories.{user_exists, get_category, get_available_by_id}

-- `_budget_to_domain`
abbrev pub budget_to_domain : MonthlyBudgetModel → MonthlyBudget
budget_to_domain m = record {
  id = m.id;
  user_id = m.user_id;
  category_id = m.category_id;
  category_name = m.category.name;
  category_color = m.category.color;
  limit_minor = m.limit_minor;
  created_at = m.created_at;
  updated_at = m.updated_at;
}

unfoldable pub list_for_user : (Text → Text → Bool) → Database → Uuid → List MonthlyBudget
unfolding select_where order_by
list_for_user name_le db user_id = map budget_to_domain (
    order_by (λ (a b : MonthlyBudgetModel). name_le a.category.name b.category.name)
      (select_where (λ (m : MonthlyBudgetModel). m.user_id == user_id) db.budgets))

-- `onupdate=func.now()`: the clock, if the flush has a change to write
abbrev pub stamp : Bool → Instant → Instant → Instant
stamp changed now old = if changed then now else old

-- the pair that `uq_monthly_budgets_user_category` keeps unique
abbrev pub is_for : Uuid → Uuid → MonthlyBudgetModel → Bool
is_for user_id category_id m = m.user_id == user_id && m.category_id == category_id

-- `upsert`; a refused commit is raised as it is
unfoldable pub upsert : Uuid → Instant → Uuid → Category → ℤ → Exec Database MonthlyBudget
unfolding any_where find_where update_where commit
upsert id now user_id category limit_minor db = elim (get_category db category.id) [
  | none ↦ (raised integrity_error, db)
  | some loaded ↦
      if leb_ℤ limit_minor (pos 0)
      then (raised integrity_error, db)
      else elim (find_where (is_for user_id category.id) db.budgets) [
        | none ↦
            let model : MonthlyBudgetModel = record {
              id = id;
              user_id = user_id;
              category_id = category.id;
              limit_minor = limit_minor;
              created_at = now;
              updated_at = now;
              category = loaded;
            } in
            if any_where (λ (r : MonthlyBudgetModel). r.id == id) db.budgets
              || not (user_exists db user_id)
            then (raised integrity_error, db)
            else (
              ok (budget_to_domain model),
              commit (other_row ∷ []) (record db { budgets = model ∷ db.budgets }),
            )
        | some model ↦
            let write = λ (r : MonthlyBudgetModel). record r {
              limit_minor = limit_minor;
              updated_at = stamp (not (same_ℤ model.limit_minor limit_minor)) now model.updated_at;
              category = loaded;
            } in
            (
              ok (budget_to_domain (write model)),
              commit (other_row ∷ []) (record db {
                budgets =
                    update_where (λ (r : MonthlyBudgetModel). r.id == model.id) write db.budgets;
              }),
            )
      ]
]

abbrev pub is_own : Uuid → Uuid → MonthlyBudgetModel → Bool
is_own user_id budget_id m = m.id == budget_id && m.user_id == user_id

-- `update`: any refused commit becomes `BudgetAlreadyExistsError`
unfoldable pub update : Instant → Uuid → Uuid → Category → ℤ → Exec Database (Option MonthlyBudget)
unfolding any_where find_where update_where commit
update now user_id budget_id category limit_minor db =
    elim (find_where (is_own user_id budget_id) db.budgets) [
      | none ↦ (ok none, db)
      | some model ↦ elim (get_category db category.id) [
        | none ↦ (raised (ledger budget_already_exists), db)
        | some loaded ↦
            let write = λ (r : MonthlyBudgetModel). record r {
              category_id = category.id;
              limit_minor = limit_minor;
              updated_at =
                  stamp
                    (not (model.category_id == category.id && same_ℤ model.limit_minor limit_minor))
                    now model.updated_at;
              category = loaded;
            } in
            if leb_ℤ limit_minor (pos 0)
              || any_where
                  (λ (r : MonthlyBudgetModel).
                    not (r.id == model.id) && is_for model.user_id category.id r)
                  db.budgets
            then (raised (ledger budget_already_exists), db)
            else (
              ok (some (budget_to_domain (write model))),
              commit (other_row ∷ []) (record db {
                budgets =
                    update_where (λ (r : MonthlyBudgetModel). r.id == model.id) write db.budgets;
              }),
            )
      ]
    ]

-- `remove`
unfoldable pub remove : Uuid → Uuid → Exec Database Bool
unfolding find_where select_where commit
remove user_id category_id db = elim (find_where (is_for user_id category_id) db.budgets) [
  | none ↦ (ok false, db)
  | some model ↦ (
    ok true,
    commit (other_row ∷ []) (record db {
      budgets = delete_where (λ (r : MonthlyBudgetModel). r.id == model.id) db.budgets;
    }),
  )
]

-- The guards that `SetMonthlyBudget` and `UpdateMonthlyBudget` begin with.
abbrev pub expense_category : Uuid → Uuid → Exec Database Category
expense_category user_id category_id = do
  found ← gets (λ db. get_available_by_id db user_id category_id)
  category ← or_raise found (ledger category_not_found)
  raise_if (not (same_kind category.kind expense)) (ledger category_kind_mismatch)
  pure category

-- `SetMonthlyBudget.execute`
unfoldable pub set_monthly_budget : Uuid → Instant → Uuid → Uuid → ℤ → Exec Database MonthlyBudget
unfolding upsert get_available_by_id
set_monthly_budget id now user_id category_id limit_minor = do
  category ← expense_category user_id category_id
  upsert id now user_id category limit_minor

-- `RemoveMonthlyBudget.execute`
unfoldable pub remove_monthly_budget : Uuid → Uuid → Exec Database (Unit {0})
unfolding remove
remove_monthly_budget user_id category_id = do
  removed ← remove user_id category_id
  raise_if (not removed) (ledger budget_not_found)

-- `UpdateMonthlyBudget.execute`
unfoldable pub update_monthly_budget :
    Instant → Uuid → Uuid → Uuid → ℤ → Exec Database MonthlyBudget
unfolding update get_available_by_id
update_monthly_budget now user_id budget_id category_id limit_minor = do
  category ← expense_category user_id category_id
  written ← update now user_id budget_id category limit_minor
  or_raise written (ledger budget_not_found)

-- `ListMonthlyBudgets.execute`
unfoldable pub list_monthly_budgets :
    (Text → Text → Bool) → Uuid → Exec Database (List MonthlyBudget)
unfolding list_for_user
list_monthly_budgets name_le user_id = gets (λ db. list_for_user name_le db user_id)
