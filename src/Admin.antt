-- ===== src/Admin.antt =====
-- `ChangeAdminUserStatus` of app/application/admin/services.py with
-- `SqlAlchemyAdminUserManager`, and `get_current_user` of app/presentation/dependencies/auth.py.
pub mod Status
pub mod Figures
pub mod Spending
use accountant_backend.Prelude.{
  Bool, false, not, ◌&&◌, ◌||◌, Option, none, some, Text, ltb, ◌==◌, find_where, update_where,
  if◌then◌else◌, Exec, ok, or_raise, raise_if, ◌>>=◌, ◌>>◌, admin, cannot_deactivate_self,
  admin_user_not_found,
}
use accountant_backend.Domain.{Uuid, User, AccessTokenClaims}
use accountant_backend.Schema.{UserModel, Database}
use accountant_backend.Identity.Users.{get_by_id, write_user}

-- `set_active`
unfoldable pub set_active : Uuid → Bool → Exec Database (Option User)
unfolding write_user
set_active user_id is_active = write_user user_id λ u. record u { is_active = is_active }

-- `ChangeAdminUserStatus.execute`
unfoldable pub change_user_status : Uuid → Uuid → Bool → Exec Database User
unfolding set_active
change_user_status actor_id target_user_id is_active = do
  raise_if (actor_id == target_user_id && not is_active) (admin cannot_deactivate_self)
  found ← set_active target_user_id is_active
  or_raise found (admin admin_user_not_found)

-- `issued_at < password_changed_at`, where the password has changed
abbrev pub is_outdated : AccessTokenClaims → User → Bool
is_outdated claims user = elim user.password_changed_at [
  | none ↦ false
  | some changed ↦ ltb claims.issued_at changed
]

-- `get_current_user`: `none` is the status 401. `decode` is the one of the token service, and is
-- `none` where that raises.
unfoldable pub get_current_user :
    (Text → Option AccessTokenClaims) → Database → Option Text → Option User
unfolding get_by_id
get_current_user decode db none = none
get_current_user decode db (some token) = elim (decode token) [
  | none ↦ none
  | some claims ↦ elim (get_by_id db claims.user_id) [
    | none ↦ none
    | some user ↦ if not user.is_active || is_outdated claims user then none else some user
  ]
]
