-- ===== src/Examples/Status.antt =====
-- An account that is deactivated, and one whose password changes.
use accountant_backend.Prelude.{
  false, ◌==◌, if◌then◌else◌, ◌≡◌, ◌≢◌, refl, arith, ok, none, some, Option, [], ◌∷◌, Text, codes,
  text_eq,
}
use accountant_backend.Domain.{User, AccessTokenClaims}
use accountant_backend.Schema.{UserModel, Database}
use accountant_backend.Identity.Users.{user_to_domain, new_user}
use accountant_backend.Identity.Sessions.{login_user, change_password}
use accountant_backend.Admin.{change_user_status, get_current_user}
use accountant_backend.Admin.Status.{deactivated_login, deactivated_session, outdated_session}
use accountant_backend.Examples.{sample, plain, user_role, ada}

abbrev grace_row : UserModel
grace_row = new_user 2 300 (codes "grace@bank.org") (codes "Grace") (codes "bug") user_role

abbrev two : Database
two = record sample { users = grace_row ∷ ada ∷ [] }

-- the owner and the moment of the tokens `g` and `a`
abbrev decode : Text → Option AccessTokenClaims
decode [] = none
decode (c ∷ _) =
    if c == 103
    then some (record { user_id = 2; issued_at = 400 })
    else if c == 97
    then some (record { user_id = 1; issued_at = 400 })
    else none

abbrev barred_ada : User
barred_ada = user_to_domain (record ada { is_active = false })

deactivated : (change_user_status 2 1 false two).0 ≡ ok barred_ada
unfolding change_user_status user_to_domain
deactivated = refl

grace_logs_in :
    (login_user plain (codes "grace@bank.org") (codes "bug") (change_user_status 2 1 false two).1).0
    ≡ ok (user_to_domain grace_row)
unfolding login_user change_user_status text_eq user_to_domain
grace_logs_in = refl

deactivated_login_example : (user_to_domain grace_row).id ≢ 1
deactivated_login_example =
    deactivated_login 2 1 two barred_ada plain (codes "grace@bank.org") (codes "bug")
      (user_to_domain grace_row) deactivated grace_logs_in

grace_is_current :
    get_current_user decode (change_user_status 2 1 false two).1 (some (codes "g"))
    ≡ some (user_to_domain grace_row)
unfolding get_current_user change_user_status user_to_domain
grace_is_current = refl

deactivated_session_example : (user_to_domain grace_row).id ≢ 1
deactivated_session_example =
    deactivated_session 2 1 two barred_ada decode (some (codes "g")) (user_to_domain grace_row)
      deactivated grace_is_current

abbrev new_ada : User
new_ada =
    user_to_domain (record ada { password_hash = codes "loom"; password_changed_at = some 2000000 })

changed :
    (change_password plain 1 (codes "engine") (codes "loom") 2000001 2000002 two).0 ≡ ok new_ada
unfolding change_password text_eq user_to_domain
changed = refl

outdated_session_example :
    get_current_user decode
      (change_password plain 1 (codes "engine") (codes "loom") 2000001 2000002 two).1
      (some (codes "a"))
    ≡ none
outdated_session_example =
    outdated_session plain 1 (codes "engine") (codes "loom") 2000001 2000002 two new_ada decode
      (codes "a") (record { user_id = 1; issued_at = 400 }) changed refl refl (omega arith)
