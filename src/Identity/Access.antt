-- ===== src/Identity/Access.antt =====
-- What the use cases do to who gets in: a registered password logs in, a changed one ends the
-- sessions, and a refused call writes nothing.
use accountant_backend.Prelude.{
  ◌≡◌, refl, true, false, ◌||◌, ◌&&◌, none, some, is_some, is_none, List, [], ◌∷◌, arith, Text,
  strip, text_eq_refl, any_where, find_where, update_where, ◌==◌, inl, inr, ◌⊎◌, Bool-cases,
  Option-cases, ok, raised, Error, identity, invalid_credentials, password_unchanged,
  invalid_password_reset_token, leb, ltb, ◌<◌, ◌≢◌,
}
use accountant_backend.Domain.{Uuid, Instant, User}
use accountant_backend.Schema.{RefreshTokenModel, PasswordResetTokenModel, UserModel, Database}
use accountant_backend.Identity.Users.{
  user_to_domain, has_id, get_by_id, get_by_email, add, update_password, whole_second, write_user,
}
use accountant_backend.Identity.Tokens.{
  has_hash, is_dead, has_reset_hash, consume_reset, rotate, revoke_all_for_user,
}
use accountant_backend.Identity.Sessions.{
  Services, register_user, login_user, change_password, reset_password,
}

-- every token of the user is revoked
abbrev pub IsLockedOut : Uuid → Database → Type 0
IsLockedOut u db =
    any_where (λ (r : RefreshTokenModel). r.user_id == u && is_none r.revoked_at) db.refresh_tokens
    ≡ false

ended :
    (u : Uuid) (now : Instant) (rows : List RefreshTokenModel)
    → any_where
        (λ (r : RefreshTokenModel). r.user_id == u && is_none r.revoked_at)
        (update_where
          (λ (r : RefreshTokenModel). r.user_id == u && is_none r.revoked_at)
          (λ r. record r { revoked_at = some now })
          rows)
      ≡ false
unfolding any_where update_where
ended u now [] = refl
ended u now (r ∷ rows) = ground (arith, ended u now rows)

-- every token of the user is revoked or, at that moment, expired
abbrev pub IsBarred : Uuid → Instant → Database → Type 0
IsBarred u now db =
    any_where
      (λ (r : RefreshTokenModel). r.user_id == u && is_none r.revoked_at && ltb now r.expires_at)
      db.refresh_tokens
    ≡ false

dead_of_found :
    (u : Uuid) (now : Instant) (h : Text) (rows : List RefreshTokenModel) (m : RefreshTokenModel)
    → find_where (has_hash h) rows ≡ some m
    → m.user_id ≡ u
    → any_where
        (λ (r : RefreshTokenModel). r.user_id == u && is_none r.revoked_at && ltb now r.expires_at)
        rows
      ≡ false
    → is_dead now m ≡ true
unfolding find_where any_where
dead_of_found u now h [] m found own none_alive = cc
dead_of_found u now h (r ∷ rows) m found own none_alive =
    ground (arith, dead_of_found u now h rows m)

-- Where every refresh token of a user is revoked or, by then, expired, no rotation succeeds for
-- that user, whatever digest is presented.
pub rotate-IsBarred :
    (u id : Uuid) (h g : Text) (e now : Instant) (db : Database)
    → IsBarred u now db
    → (rotate id h g e now db).0 ≢ ok (some u)
unfolding rotate
rotate-IsBarred u id h g e now db barred done =
    elim (Option-cases (find_where (has_hash h) db.refresh_tokens)) [
      | inl absent ↦ absurd (ground arith)
      | inr (m, found) ↦ absurd (ground (arith, dead_of_found u now h db.refresh_tokens m))
    ]

pub find-update_where :
    (u : Uuid) (w : UserModel → UserModel) (rows : List UserModel) (m : UserModel)
    → ((r : UserModel) → has_id u (w r) ≡ has_id u r)
    → find_where (has_id u) rows ≡ some m
    → find_where (has_id u) (update_where (has_id u) w rows) ≡ some (w m)
unfolding find_where update_where
find-update_where u w [] m same found = cc
find-update_where u w (r ∷ rows) m same found =
    ground (arith, same r, find-update_where u w rows m same)

module _ (services : Services) where
  -- A change of password either raises, and then writes nothing, or it returns the account: the
  -- current password was right, the account has the hash of the new one, and every refresh token of
  -- the user is revoked.
  pub change_password_outcome :
      (u : Uuid) (current new : Text) (changed ended : Instant) (db : Database)
      → let (r, after) = change_password services u current new changed ended db in
        ((e : Error) × (r ≡ raised e) × (after ≡ db))
        ⊎ ((old user : User) × (r ≡ ok user)
            × (get_by_id db u ≡ some old)
            × (services.verify current old.password_hash ≡ true)
            × (get_by_id after u ≡ some user)
            × (user.password_hash ≡ services.hash_password new)
            × IsLockedOut u after)
  unfolding change_password update_password write_user get_by_id revoke_all_for_user user_to_domain
  change_password_outcome u current new changed ended_at db =
      let write = λ (r : UserModel). record r {
        password_hash = services.hash_password new;
        password_changed_at = some (whole_second changed);
      } in
      elim (Option-cases (find_where (has_id u) db.users)) [
        | inl absent ↦ inl (identity invalid_credentials, ground arith, ground arith)
        | inr (m, found) ↦ elim (Bool-cases (services.verify current m.password_hash)) [
          | inr wrong ↦ inl (identity invalid_credentials, ground arith, ground arith)
          | inl right ↦ elim (Bool-cases (services.verify new m.password_hash)) [
            | inl unchanged ↦ inl (identity password_unchanged, ground arith, ground arith)
            | inr differs ↦
                let written = find-update_where u write db.users m (λ r. refl) found in
                inr (
                  user_to_domain m,
                  user_to_domain (write m),
                  ground arith,
                  ground arith,
                  right,
                  ground arith,
                  refl,
                  ground (arith, ended u ended_at db.refresh_tokens),
                )
          ]
        ]
      ]

  -- Where the hasher accepts a password for its hash, an account that has just been registered can be logged in to with the same address and
  -- password, and it is the account that registering returned.
  pub register_then_login :
      (id : Uuid) (now : Instant) (email name password : Text) (db : Database) (user : User)
      → services.verify password (services.hash_password password) ≡ true
      → (register_user services id now email name password db).0 ≡ ok user
      → let after = (register_user services id now email name password db).1 in
        login_user services email password after ≡ (ok user, after)
  unfolding register_user login_user add get_by_email user_to_domain find_where
  register_then_login id now email name password db user h done =
      ground (arith, text_eq_refl (services.lower (strip email)))

  -- A reset of a password either raises, and then the accounts and the sessions are as before, or
  -- it returns the account: the digest was the one of a token neither used nor expired, its owner
  -- is active and has the hash of the new password, and every refresh token of the owner is revoked.
  pub reset_password_outcome :
      (token new : Text) (now changed : Instant) (db : Database)
      → let (r, after) = reset_password services token new now changed db in
        ((e : Error) × (r ≡ raised e)
          × (after.users ≡ db.users)
          × (after.refresh_tokens ≡ db.refresh_tokens))
        ⊎ ((spent : PasswordResetTokenModel) × (user : User) × (r ≡ ok user)
            × (find_where (has_reset_hash (services.hash_token token)) db.password_reset_tokens
                ≡ some spent)
            × (spent.used_at ≡ none)
            × (now < spent.expires_at)
            × (user.is_active ≡ true)
            × (get_by_id after spent.user_id ≡ some user)
            × (user.password_hash ≡ services.hash_password new)
            × IsLockedOut spent.user_id after)
  unfolding reset_password update_password write_user get_by_id revoke_all_for_user user_to_domain
      consume_reset
  reset_password_outcome token new now changed db =
      let write = λ (r : UserModel). record r {
        password_hash = services.hash_password new;
        password_changed_at = some (whole_second changed);
      } in
      let refused = identity invalid_password_reset_token in
      elim (Option-cases
        (find_where (has_reset_hash (services.hash_token token)) db.password_reset_tokens)) [
          | inl unknown ↦ inl (refused, ground arith, ground arith, ground arith)
          | inr (t, known) ↦ elim (Bool-cases (is_some t.used_at || leb t.expires_at now)) [
            | inl stale ↦ inl (refused, ground arith, ground arith, ground arith)
            | inr good ↦ elim (Option-cases (find_where (has_id t.user_id) db.users)) [
              | inl absent ↦ inl (refused, ground arith, ground arith, ground arith)
              | inr (m, found) ↦ elim (Bool-cases m.is_active) [
                | inr barred ↦ inl (refused, ground arith, ground arith, ground arith)
                | inl active ↦
                    let written = find-update_where t.user_id write db.users m (λ r. refl) found in
                    inr (
                      t,
                      user_to_domain (write m),
                      ground arith,
                      known,
                      ground arith,
                      ground arith,
                      active,
                      ground arith,
                      refl,
                      ground (arith, ended t.user_id now db.refresh_tokens),
                    )
              ]
            ]
          ]
        ]
