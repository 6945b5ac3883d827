-- ===== src/Ledger/Categories.antt =====
-- `SqlAlchemyCategoryRepository` and application/ledger/categories.py. Which of two names comes
-- first is the collation of the database, a parameter.
use accountant_backend.Prelude.{
  Bool, true, false, not, ◌&&◌, ◌||◌, Option, none, some, List, [], ◌∷◌, map, Text, text_eq, strip,
  any_where, find_where, select_where, order_by, is_some, ◌==◌, if◌then◌else◌, same_option, Exec,
  ok, raised, gets, ledger, category_already_exists,
}
use mathlib.Core.Option
use accountant_backend.Domain.{Uuid, Instant, TransactionKind, same_kind, Category}
use accountant_backend.Schema.{CategoryModel, UserModel, Database}
use accountant_backend.Events.{commit, category_row}

-- `_category_to_domain`
abbrev pub category_to_domain : CategoryModel → Category
category_to_domain m = record {
  id = m.id;
  user_id = m.user_id;
  name = m.name;
  kind = m.kind;
  color = m.color;
}

-- `or_(CategoryModel.user_id.is_(None), CategoryModel.user_id == user_id)`
abbrev pub is_available : Uuid → CategoryModel → Bool
is_available user_id m = elim m.user_id [ none ↦ true | some owner ↦ owner == user_id ]

-- the foreign keys of the tables
abbrev pub user_exists : Database → Uuid → Bool
user_exists db user_id = any_where (λ (u : UserModel). u.id == user_id) db.users

-- `session.get(CategoryModel, id)`
abbrev pub get_category : Database → Uuid → Option CategoryModel
get_category db id = find_where (λ (c : CategoryModel). c.id == id) db.categories

-- The constraints of `categories`: the primary key, `uq_categories_user_name_kind` (where a null
-- user id equals no other) and the foreign key.
unfoldable pub category_refused : Database → CategoryModel → Bool
unfolding any_where
category_refused db m =
    any_where
      (λ (c : CategoryModel).
        c.id == m.id
        || is_some m.user_id
          && same_option c.user_id m.user_id
          && text_eq c.name m.name
          && same_kind c.kind m.kind)
      db.categories
    || elim m.user_id [ none ↦ false | some owner ↦ not (user_exists db owner) ]

module _ (name_le : Text → Text → Bool) where
  unfoldable pub list_available : Database → Uuid → Option TransactionKind → List Category
  unfolding select_where order_by
  list_available db user_id kind =
      let owned = select_where (is_available user_id) db.categories in
      let wanted : List CategoryModel = elim kind [
        | none ↦ owned
        | some k ↦ select_where (λ (m : CategoryModel). same_kind m.kind k) owned
      ] in
      map category_to_domain (order_by (λ (a b : CategoryModel). name_le a.name b.name) wanted)

-- `get_available_by_id`
unfoldable pub get_available_by_id : Database → Uuid → Uuid → Option Category
unfolding find_where
get_available_by_id db user_id category_id = Option.map category_to_domain (
    find_where (λ (m : CategoryModel). m.id == category_id && is_available user_id m) db.categories)

-- `add`; `id` is drawn by `uuid4` and `now` is the clock of the database
unfoldable pub add : Uuid → Instant → Uuid → Text → TransactionKind → Text → Exec Database Category
unfolding category_refused commit
add id now user_id name kind color db =
    let model : CategoryModel = record {
      id = id;
      user_id = some user_id;
      name = name;
      kind = kind;
      color = color;
      created_at = now;
    } in
    if category_refused db model then (raised (ledger category_already_exists), db) else (
      ok (category_to_domain model),
      commit (category_row (some user_id) ∷ []) (record db { categories = model ∷ db.categories }),
    )

-- `CreateCategory.execute`
unfoldable pub create_category :
    Uuid → Instant → Uuid → Text → TransactionKind → Text → Exec Database Category
unfolding add strip
create_category id now user_id name kind color = add id now user_id (strip name) kind color

-- `ListCategories.execute`
unfoldable pub list_categories :
    (Text → Text → Bool) → Uuid → Option TransactionKind → Exec Database (List Category)
unfolding list_available
list_categories name_le user_id kind = gets (λ db. list_available name_le db user_id kind)
