-- ===== src/Admin/Status.antt =====
-- Who is out once an account is deactivated or its password has changed.
use accountant_backend.Prelude.{
  ◌≡◌, ◌≢◌, ◌<◌, refl, Bool, true, false, not, ◌&&◌, ◌||◌, Option, none, some, List, [], ◌∷◌, arith,
  Text, strip, if◌then◌else◌, any_where, find_where, update_where, inl, inr, Option-cases,
  Bool-cases, ok, ap, sym, ◌∙◌,
}
use accountant_backend.Domain.{Uuid, Instant, User, AccessTokenClaims}
use accountant_backend.Schema.{UserModel, Database}
use accountant_backend.Identity.Users.{
  has_id, has_email, user_to_domain, get_by_id, get_by_email, write_user, update_password,
  whole_second,
}
use accountant_backend.Identity.Sessions.{Services, login_user, change_password}
use accountant_backend.Identity.Tokens.{revoke_all_for_user}
use accountant_backend.Identity.Access.{find-update_where}
use accountant_backend.Admin.{set_active, change_user_status, is_outdated, get_current_user}

-- no active row has the identifier
abbrev pub IsBarred : Uuid → Database → Type 0
IsBarred t db = any_where (λ (u : UserModel). has_id t u && u.is_active) db.users ≡ false

barred-write :
    (t : Uuid) (rows : List UserModel)
    → any_where
        (λ (u : UserModel). has_id t u && u.is_active)
        (update_where (has_id t) (λ (u : UserModel). record u { is_active = false }) rows)
      ≡ false
unfolding any_where update_where
barred-write t [] = refl
barred-write t (r ∷ rows) = ground (arith, barred-write t rows)

change_user_status-IsBarred :
    (actor t : Uuid) (db : Database) (user : User)
    → (change_user_status actor t false db).0 ≡ ok user
    → IsBarred t (change_user_status actor t false db).1
unfolding change_user_status set_active write_user
change_user_status-IsBarred actor t db user done =
    elim (Option-cases (find_where (has_id t) db.users)) [
      | inl absent ↦ absurd (ground arith)
      | inr (m, found) ↦ ground (arith, barred-write t db.users)
    ]

inactive_of_barred :
    (t : Uuid) (p : UserModel → Bool) (rows : List UserModel) (m : UserModel)
    → any_where (λ (u : UserModel). has_id t u && u.is_active) rows ≡ false
    → find_where p rows ≡ some m
    → m.is_active ≡ true
    → m.id ≢ t
unfolding any_where find_where
inactive_of_barred t p [] m barred found active = λ e. cc
inactive_of_barred t p (r ∷ rows) m barred found active =
    λ e. ground (arith, inactive_of_barred t p rows m)

login-active :
    (services : Services) (email password : Text) (db : Database) (v : User)
    → (login_user services email password db).0 ≡ ok v
    → (m : UserModel) × (find_where (has_email (services.lower (strip email))) db.users ≡ some m)
      × (v ≡ user_to_domain m)
      × (m.is_active ≡ true)
unfolding login_user get_by_email user_to_domain
login-active services email password db v done =
    elim (Option-cases (find_where (has_email (services.lower (strip email))) db.users)) [
      | inl absent ↦ absurd (ground arith)
      | inr (m, found) ↦ (m, found, ground arith, ground arith)
    ]

-- Once an administrator has deactivated an account, no login returns it.
pub deactivated_login :
    (actor t : Uuid) (db : Database) (user : User) (services : Services) (email password : Text)
    (v : User)
    → (change_user_status actor t false db).0 ≡ ok user
    → (login_user services email password (change_user_status actor t false db).1).0 ≡ ok v
    → v.id ≢ t
unfolding user_to_domain
deactivated_login actor t db user services email password v done logged = λ e.
    let after = (change_user_status actor t false db).1 in
    let (m, found, same, active) = login-active services email password after v logged in
    inactive_of_barred t (has_email (services.lower (strip email))) after.users m
      (change_user_status-IsBarred actor t db user done) found active
      (ap (λ u. u.id) (sym same) ∙ e)

-- the checks once the token is decoded
abbrev gate : AccessTokenClaims → Option User → Option User
gate claims none = none
gate claims (some user) = if not user.is_active || is_outdated claims user then none else some user

get_current_user-gate :
    (decode : Text → Option AccessTokenClaims) (token : Text) (db : Database)
    (claims : AccessTokenClaims)
    → decode token ≡ some claims
    → get_current_user decode db (some token) ≡ gate claims (get_by_id db claims.user_id)
unfolding get_current_user
get_current_user-gate decode token db claims valid =
    elim (Option-cases (get_by_id db claims.user_id)) [
      | inl absent ↦ rw (valid, get_current_user) (rw absent refl)
      | inr (user, found) ↦ rw (valid, get_current_user) (rw found refl)
    ]

gate_admits :
    (claims : AccessTokenClaims) (o : Option User) (v : User)
    → gate claims o ≡ some v
    → (o ≡ some v) × (v.is_active ≡ true)
gate_admits claims none v h = cc
gate_admits claims (some user) v h =
    elim (Bool-cases (not user.is_active || is_outdated claims user)) [
      | inl refused ↦ absurd (ground arith)
      | inr admitted ↦ let e : user ≡ v = ground arith in (ap some e, rw (← e) (ground arith))
    ]

session-active :
    (decode : Text → Option AccessTokenClaims) (token : Option Text) (db : Database) (v : User)
    → get_current_user decode db token ≡ some v
    → (claims : AccessTokenClaims) × (m : UserModel) × (find_where (has_id claims.user_id) db.users
        ≡ some m)
      × (v ≡ user_to_domain m)
      × (m.is_active ≡ true)
unfolding get_current_user get_by_id user_to_domain
session-active decode none db v h = cc
session-active decode (some token) db v h = elim (Option-cases (decode token)) [
  | inl invalid ↦ absurd (ground arith)
  | inr (claims, valid) ↦
      let (found, active) =
        gate_admits claims (get_by_id db claims.user_id) v
          (sym (get_current_user-gate decode token db claims valid) ∙ h) in
      elim (Option-cases (find_where (has_id claims.user_id) db.users)) [
        | inl absent ↦ absurd (ground arith)
        | inr (m, row) ↦
            let same : v ≡ user_to_domain m = ground arith in
            (claims, m, row, same, ap (λ u. u.is_active) (sym same) ∙ active)
      ]
]

-- Once an administrator has deactivated an account, no access token stands for it.
pub deactivated_session :
    (actor t : Uuid) (db : Database) (user : User) (decode : Text → Option AccessTokenClaims)
    (token : Option Text) (v : User)
    → (change_user_status actor t false db).0 ≡ ok user
    → get_current_user decode (change_user_status actor t false db).1 token ≡ some v
    → v.id ≢ t
unfolding user_to_domain
deactivated_session actor t db user decode token v done current = λ e.
    let after = (change_user_status actor t false db).1 in
    let (claims, m, found, same, active) = session-active decode token after v current in
    inactive_of_barred t (has_id claims.user_id) after.users m
      (change_user_status-IsBarred actor t db user done) found active
      (ap (λ u. u.id) (sym same) ∙ e)

outdated_gate :
    (claims : AccessTokenClaims) (w : User) (changed : Instant)
    → w.password_changed_at ≡ some (whole_second changed)
    → claims.issued_at < whole_second changed
    → gate claims (some w) ≡ none
outdated_gate claims w changed marked before = ground arith

changed_at :
    (services : Services) (u : Uuid) (current new : Text) (changed ended : Instant) (db : Database)
    (user : User)
    → (change_password services u current new changed ended db).0 ≡ ok user
    → (w : User) × (get_by_id (change_password services u current new changed ended db).1 u
        ≡ some w)
      × (w.password_changed_at ≡ some (whole_second changed))
unfolding change_password update_password write_user get_by_id revoke_all_for_user user_to_domain
changed_at services u current new changed ended db user done =
    let write = λ (r : UserModel). record r {
      password_hash = services.hash_password new;
      password_changed_at = some (whole_second changed);
    } in
    elim (Option-cases (find_where (has_id u) db.users)) [
      | inl absent ↦ absurd (ground arith)
      | inr (m, found) ↦ elim (Bool-cases (services.verify current m.password_hash)) [
        | inr wrong ↦ absurd (ground arith)
        | inl right ↦ elim (Bool-cases (services.verify new m.password_hash)) [
          | inl unchanged ↦ absurd (ground arith)
          | inr differs ↦
              let written = find-update_where u write db.users m (λ r. refl) found in
              (user_to_domain (write m), ground arith, refl)
        ]
      ]
    ]

-- Once a change of password has returned the account, an access token of the account that was
-- issued before the second of the change stands for nobody.
pub outdated_session :
    (services : Services) (u : Uuid) (current new : Text) (changed ended : Instant) (db : Database)
    (user : User) (decode : Text → Option AccessTokenClaims) (token : Text)
    (claims : AccessTokenClaims)
    → (change_password services u current new changed ended db).0 ≡ ok user
    → decode token ≡ some claims
    → claims.user_id ≡ u
    → claims.issued_at < whole_second changed
    → get_current_user decode
        (change_password services u current new changed ended db).1
        (some token)
      ≡ none
outdated_session services u current new changed ended db user decode token claims done valid own
      before =
    let after = (change_password services u current new changed ended db).1 in
    let (w, found, marked) = changed_at services u current new changed ended db user done in
    get_current_user-gate decode token after claims valid
    ∙ rw (own, found) (outdated_gate claims w changed marked before)
