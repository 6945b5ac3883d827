-- ===== src/Identity/Users.antt =====
-- `SqlAlchemyUserRepository`. The width of a column is not modelled. A `frozenset` is a list
-- without repetition, and `created_at DESC` puts the latest row first.
use accountant_backend.Prelude.{
  ℕ, ℤ, pos, true, ◌*◌, ◌/◌, Bool, not, ◌&&◌, ◌||◌, Option, none, some, List, [], ◌∷◌, ◌++◌, map,
  Text, codes, text_eq, any_where, find_where, select_where, update_where, order_by, leb, ◌==◌,
  if◌then◌else◌, Exec, ok, raised, identity, email_already_registered, runtime_error,
}
use mathlib.Core.Option
use accountant_backend.Domain.{Uuid, Instant, User}
use accountant_backend.Schema.{PermissionModel, RoleModel, UserModel, Database}
use accountant_backend.Events.{commit, other_row}

-- `{x for x in xs}`
unfoldable pub as_set : List Text → List Text
unfolding any_where text_eq
as_set [] = []
as_set (x ∷ xs) =
    let rest = as_set xs in if any_where (λ y. text_eq y x) rest then rest else x ∷ rest

abbrev codes_of : List PermissionModel → List Text
codes_of ps = map (λ (p : PermissionModel). p.code) ps

unfoldable pub permission_codes : List RoleModel → List Text
permission_codes [] = []
permission_codes (r ∷ rs) = codes_of r.permissions ++ permission_codes rs

-- `_to_domain`
unfoldable pub user_to_domain : UserModel → User
unfolding as_set permission_codes
user_to_domain m = record {
  id = m.id;
  email = m.email;
  display_name = m.display_name;
  password_hash = m.password_hash;
  is_active = m.is_active;
  opening_balance_minor = m.opening_balance_minor;
  savings_goal_minor = m.savings_goal_minor;
  daily_summary_enabled = m.daily_summary_enabled;
  daily_summary_time = m.daily_summary_time;
  budget_alerts_enabled = m.budget_alerts_enabled;
  roles = as_set (map (λ (r : RoleModel). r.name) m.roles);
  permissions = as_set (permission_codes m.roles);
  created_at = m.created_at;
  password_changed_at = m.password_changed_at;
}

abbrev pub has_id : Uuid → UserModel → Bool
has_id user_id u = u.id == user_id

abbrev pub has_email : Text → UserModel → Bool
has_email email u = text_eq u.email email

-- `list_active`, in the collation of the database
unfoldable pub list_active : (Text → Text → Bool) → Database → List User
unfolding select_where order_by
list_active email_le db = map user_to_domain (
    order_by (λ (a b : UserModel). email_le a.email b.email)
      (select_where (λ (u : UserModel). u.is_active) db.users))

-- `list_all`
unfoldable pub list_all : Database → List User
unfolding order_by
list_all db =
    map user_to_domain (order_by (λ (a b : UserModel). leb b.created_at a.created_at) db.users)

-- `get_by_email`
unfoldable pub get_by_email : Database → Text → Option User
unfolding find_where text_eq
get_by_email db email = Option.map user_to_domain (find_where (has_email email) db.users)

-- `get_by_id`
unfoldable pub get_by_id : Database → Uuid → Option User
unfolding find_where
get_by_id db user_id = Option.map user_to_domain (find_where (has_id user_id) db.users)

-- `time(21, 0)`, in seconds
abbrev pub default_summary_time : ℕ
default_summary_time = 21 * 3600

-- the row that `add` writes, with the defaults of the columns
abbrev pub new_user : Uuid → Instant → Text → Text → Text → RoleModel → UserModel
new_user id now email display_name password_hash role = record {
  id = id;
  email = email;
  display_name = display_name;
  password_hash = password_hash;
  is_active = true;
  opening_balance_minor = pos 0;
  daily_summary_enabled = true;
  daily_summary_time = default_summary_time;
  budget_alerts_enabled = true;
  savings_goal_minor = pos 0;
  password_changed_at = none;
  created_at = now;
  roles = role ∷ [];
}

-- `add`
unfoldable pub add : Uuid → Instant → Text → Text → Text → Exec Database User
unfolding any_where find_where text_eq commit
add id now email display_name password_hash db =
    elim (find_where (λ (r : RoleModel). text_eq r.name (codes "USER")) db.roles) [
      | none ↦ (raised runtime_error, db)
      | some user_role ↦
          let model = new_user id now email display_name password_hash user_role in
          if any_where (λ u. has_id id u || has_email email u) db.users
          then (raised (identity email_already_registered), db)
          else (
            ok (user_to_domain model),
            commit (other_row ∷ []) (record db { users = model ∷ db.users }),
          )
    ]

-- `session.get`, the new columns, `commit`, and the row read again
unfoldable pub write_user : Uuid → (UserModel → UserModel) → Exec Database (Option User)
unfolding find_where update_where commit
write_user user_id write db = elim (find_where (has_id user_id) db.users) [
  | none ↦ (ok none, db)
  | some model ↦ (
    ok (some (user_to_domain (write model))),
    commit (other_row ∷ []) (record db { users = update_where (has_id user_id) write db.users }),
  )
]

-- `update_settings`
unfoldable pub update_settings : Uuid → Text → Bool → ℕ → Bool → Exec Database (Option User)
unfolding write_user
update_settings user_id display_name daily_summary_enabled daily_summary_time
      budget_alerts_enabled =
    write_user user_id λ u. record u {
      display_name = display_name;
      daily_summary_enabled = daily_summary_enabled;
      daily_summary_time = daily_summary_time;
      budget_alerts_enabled = budget_alerts_enabled;
    }

-- `.replace(microsecond=0)`
abbrev pub whole_second : Instant → Instant
whole_second t = t / 1000000 * 1000000

-- `update_password`
unfoldable pub update_password : Instant → Uuid → Text → Exec Database (Option User)
unfolding write_user
update_password now user_id password_hash =
    write_user user_id
      λ u. record u { password_hash = password_hash; password_changed_at = some (whole_second now) }

-- `update_email`
unfoldable pub update_email : Uuid → Text → Exec Database (Option User)
unfolding write_user any_where text_eq
update_email user_id email db =
    if any_where (has_id user_id) db.users
      && any_where (λ u. not (has_id user_id u) && has_email email u) db.users
    then (raised (identity email_already_registered), db)
    else write_user user_id (λ u. record u { email = email }) db

-- `set_savings_goal`
unfoldable pub set_savings_goal : Uuid → ℤ → Exec Database (Option ℤ)
unfolding find_where update_where commit
set_savings_goal user_id amount_minor db = elim (find_where (has_id user_id) db.users) [
  | none ↦ (ok none, db)
  | some _ ↦ (
    ok (some amount_minor),
    commit (other_row ∷ []) (record db {
      users =
          update_where (has_id user_id) (λ u. record u { savings_goal_minor = amount_minor })
            db.users;
    }),
  )
]
