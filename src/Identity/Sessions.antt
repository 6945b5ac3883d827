-- ===== src/Identity/Sessions.antt =====
-- The use cases of application/identity that send no mail. The passwords' hasher, the tokens'
-- digest, the signing of access tokens and `str.lower` are parameters; a random token is an
-- argument, and so is each moment.
use accountant_backend.Prelude.{
  ℕ, Bool, not, is_some, Text, strip, ◌+◌, ◌*◌, Exec, or_raise, raise_if, gets, pure, ◌>>=◌, ◌>>◌,
  identity, email_already_registered, invalid_credentials, inactive_user, invalid_refresh_token,
  password_unchanged, invalid_password_reset_token, invalid_email_change_token, runtime_error,
}
use accountant_backend.Domain.{Uuid, Instant, User, SessionTokens}
use accountant_backend.Schema.{Database}
use accountant_backend.Identity.Users.{
  get_by_email, get_by_id, add, update_settings, update_password, update_email,
}
use accountant_backend.Identity.Tokens.{
  add_refresh, rotate, revoke, revoke_all_for_user, consume_reset, consume_change,
}

-- `timedelta(days=n)`
abbrev pub days : ℕ → ℕ
days n = n * 86400000000

-- what the use cases are given: `hash` and `verify` of the hasher, `lower`, the digest of a token
pub record Services : Type 0 where
  pub lower : Text → Text
  pub hash_password : Text → Text
  pub verify : Text → Text → Bool
  pub hash_token : Text → Text
  pub create_access : Uuid → Text
  pub refresh_token_days : ℕ

module _ (services : Services) where
  -- `RegisterUser.execute`
  unfoldable pub register_user : Uuid → Instant → Text → Text → Text → Exec Database User
  unfolding get_by_email add strip
  register_user id now email display_name password = do
    taken ← gets (λ db. get_by_email db (services.lower (strip email)))
    raise_if (is_some taken) (identity email_already_registered)
    add id now (services.lower (strip email)) (strip display_name) (services.hash_password password)

  -- `LoginUser.execute`
  unfoldable pub login_user : Text → Text → Exec Database User
  unfolding get_by_email strip
  login_user email password = do
    found ← gets (λ db. get_by_email db (services.lower (strip email)))
    user ← or_raise found (identity invalid_credentials)
    raise_if (not (services.verify password user.password_hash)) (identity invalid_credentials)
    raise_if (not user.is_active) (identity inactive_user)
    pure user

  -- `IssueSession.execute`
  unfoldable pub issue_session : Uuid → Text → Instant → User → Exec Database SessionTokens
  unfolding add_refresh
  issue_session id refresh_token now user = do
    add_refresh id user.id (services.hash_token refresh_token)
        (now + days services.refresh_token_days)
    pure (record { access_token = services.create_access user.id; refresh_token = refresh_token })

  -- `RefreshSession.execute`
  unfoldable pub refresh_session : Uuid → Text → Instant → Text → Exec Database SessionTokens
  unfolding rotate get_by_id
  refresh_session id replacement now current_refresh_token = do
    rotated ←
        rotate id (services.hash_token current_refresh_token) (services.hash_token replacement)
          (now + days services.refresh_token_days) now
    user_id ← or_raise rotated (identity invalid_refresh_token)
    found ← gets (λ db. get_by_id db user_id)
    user ← or_raise found (identity invalid_refresh_token)
    raise_if (not user.is_active) (identity inactive_user)
    pure (record { access_token = services.create_access user.id; refresh_token = replacement })

  -- `RevokeSession.execute`
  unfoldable pub revoke_session : Text → Instant → Exec Database (Unit {0})
  unfolding revoke
  revoke_session refresh_token now = revoke (services.hash_token refresh_token) now

  -- `ChangePassword.execute`; `changed` and `ended` are the two moments at which it reads the clock
  unfoldable pub change_password : Uuid → Text → Text → Instant → Instant → Exec Database User
  unfolding get_by_id update_password revoke_all_for_user
  change_password user_id current_password new_password changed ended = do
    found ← gets (λ db. get_by_id db user_id)
    user ← or_raise found (identity invalid_credentials)
    raise_if (not (services.verify current_password user.password_hash))
        (identity invalid_credentials)
    raise_if (services.verify new_password user.password_hash) (identity password_unchanged)
    written ← update_password changed user_id (services.hash_password new_password)
    updated ← or_raise written runtime_error
    revoke_all_for_user user_id ended
    pure updated

  -- `ResetPassword.execute`; `changed` is the moment at which the repository reads the clock
  unfoldable pub reset_password : Text → Text → Instant → Instant → Exec Database User
  unfolding consume_reset get_by_id update_password revoke_all_for_user
  reset_password token new_password now changed = do
    spent ← consume_reset (services.hash_token token) now
    user_id ← or_raise spent (identity invalid_password_reset_token)
    found ← gets (λ db. get_by_id db user_id)
    user ← or_raise found (identity invalid_password_reset_token)
    raise_if (not user.is_active) (identity invalid_password_reset_token)
    written ← update_password changed user_id (services.hash_password new_password)
    updated ← or_raise written runtime_error
    revoke_all_for_user user_id now
    pure updated

  -- `ConfirmEmailChange.execute`
  unfoldable pub confirm_email_change : Text → Instant → Exec Database (User × Text)
  unfolding consume_change get_by_id get_by_email update_email
  confirm_email_change token now = do
    spent ← consume_change (services.hash_token token) now
    pending ← or_raise spent (identity invalid_email_change_token)
    found ← gets (λ db. get_by_id db pending.user_id)
    user ← or_raise found (identity invalid_email_change_token)
    raise_if (not user.is_active) (identity invalid_email_change_token)
    taken ← gets (λ db. get_by_email db pending.new_email)
    raise_if (is_some taken) (identity email_already_registered)
    written ← update_email pending.user_id pending.new_email
    updated ← or_raise written runtime_error
    pure (updated, user.email)

-- `UpdateUserSettings.execute`
unfoldable pub update_user_settings : Uuid → Text → Bool → ℕ → Bool → Exec Database User
unfolding update_settings strip
update_user_settings user_id display_name daily_summary_enabled daily_summary_time
      budget_alerts_enabled =
    do
      written ←
          update_settings user_id (strip display_name) daily_summary_enabled daily_summary_time
            budget_alerts_enabled
      or_raise written runtime_error
