-- ===== src/Identity/Mails/Reset.antt =====
-- A forgotten password from the request to the new password.
use accountant_backend.Prelude.{
  ◌≡◌, ◌<◌, ◌+◌, refl, arith, ap, ◌∙◌, Bool, true, none, some, ◌∷◌, Text, strip, text_eq_refl, ok,
  find_where,
}
use accountant_backend.Domain.{Uuid, Instant, User}
use mathlib.Core.Option
use accountant_backend.Schema.{PasswordResetTokenModel, UserModel, Database}
use accountant_backend.Settings.{Settings}
use accountant_backend.Mail.{Mail, Postal, send}
use accountant_backend.Identity.Users.{
  get_by_email, get_by_id, has_id, has_email, user_to_domain, update_password, write_user,
  whole_second,
}
use accountant_backend.Identity.Tokens.{
  replace_reset, consume_reset, has_reset_hash, revoke_all_for_user,
}
use accountant_backend.Identity.Sessions.{Services, reset_password}
use accountant_backend.Identity.Mails.{request_password_reset, reset_mail, minutes}

module _ (services : Services) (settings : Settings) (accepts : Mail → Bool) where
  -- what a request for an account that it finds leaves behind
  mailed :
      (id : Uuid) (token : Text) (now : Instant) (email : Text) (s : Postal) (user : User)
      → get_by_email s.db (services.lower (strip email)) ≡ some user
      → let (r, after) = request_password_reset services settings accepts id token now email s in
        r ≡ ok true
        → (user.is_active ≡ true)
          × (after.outbox ≡ reset_mail settings user token ∷ s.outbox)
          × (after.db.users ≡ s.db.users)
          × (find_where (has_reset_hash (services.hash_token token)) after.db.password_reset_tokens
              ≡ some (record {
                id = id;
                user_id = user.id;
                token_hash = services.hash_token token;
                expires_at = now + minutes settings.password_reset_token_minutes;
                used_at = none;
              }))
  unfolding request_password_reset send replace_reset find_where
  mailed id token now email s user found done =
      ground (arith, text_eq_refl (services.hash_token token))

  accepted :
      (token new : Text) (now changed : Instant) (db : Database) (row : PasswordResetTokenModel)
      (m : UserModel)
      → find_where (has_reset_hash (services.hash_token token)) db.password_reset_tokens ≡ some row
      → row.used_at ≡ none
      → now < row.expires_at
      → find_where (has_id row.user_id) db.users ≡ some m
      → m.is_active ≡ true
      → (user : User) × ((reset_password services token new now changed db).0 ≡ ok user)
        × (user.id ≡ m.id)
        × (user.password_hash ≡ services.hash_password new)
  unfolding reset_password consume_reset get_by_id update_password write_user revoke_all_for_user
      user_to_domain
  accepted token new now changed db row m known unused alive owner active = (
    user_to_domain (record m {
      password_hash = services.hash_password new;
      password_changed_at = some (whole_second changed);
    }),
    ground arith,
    refl,
    refl,
  )

  -- Where a request finds an account and returns true, the account is active and its address has been sent the mail with the token; and if the
  -- account is still the first of its identifier, the token sets a new password before it expires.
  pub mailed_reset :
      (id : Uuid) (token new : Text) (now later changed : Instant) (email : Text) (s : Postal)
      (m : UserModel)
      → find_where (has_email (services.lower (strip email))) s.db.users ≡ some m
      → find_where (has_id m.id) s.db.users ≡ some m
      → later < now + minutes settings.password_reset_token_minutes
      → let (r, after) = request_password_reset services settings accepts id token now email s in
        r ≡ ok true
        → (m.is_active ≡ true)
          × (after.outbox ≡ reset_mail settings (user_to_domain m) token ∷ s.outbox)
          × ((user : User) × ((reset_password services token new later changed after.db).0
                ≡ ok user)
              × (user.id ≡ m.id)
              × (user.password_hash ≡ services.hash_password new))
  unfolding get_by_email user_to_domain
  mailed_reset id token new now later changed email s m found own soon done =
      let (active, outbox, users, row) =
        mailed id token now email s (user_to_domain m) (ap (Option.map user_to_domain) found)
          done in
      let after = (request_password_reset services settings accepts id token now email s).1 in
      (
        active,
        outbox,
        accepted token new later changed after.db _ m row refl soon
            (ap (find_where (has_id m.id)) users ∙ own) active,
      )
