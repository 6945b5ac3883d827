-- ===== src/Http/Credentials.antt =====
-- The handlers of app/presentation/http/auth.py on passwords, addresses and settings.
pub mod Silent
use accountant_backend.Prelude.{
  ℕ, ◌*◌, Bool, not, Option, none, some, List, [], ◌∷◌, ◌++◌, Text, codes, strip, uuid_text, Error,
  identity, email_already_registered, invalid_credentials, inactive_user, invalid_refresh_token,
  password_unchanged, invalid_password_reset_token, invalid_email_change_token, email_unchanged,
  unreachable_email, ok, raised,
}
use accountant_backend.Domain.{Uuid, User, SessionTokens}
use accountant_backend.Settings.{Settings, Request, mail_enabled, client_address}
use accountant_backend.Identity.Sessions
use accountant_backend.Identity.Sessions.{
  Services, register_user, login_user, refresh_session, revoke_session, update_user_settings,
}
use accountant_backend.Identity.Mails.{request_email_change}
use accountant_backend.Admin
use accountant_backend.Schemas.{
  RegisterRequest, LoginRequest, ResetPasswordRequest, ChangeEmailRequest, ChangePasswordRequest,
  UpdateUserSettingsRequest, user_response, user_body, detail_body, success_body,
}
use accountant_backend.Http.Messages.{
  too_many_logins, too_many_registrations, too_many_password_attempts, too_many_reset_requests,
  too_many_email_changes, already_registered, wrong_credentials, disabled_account, not_refreshed,
  log_in_again, stale_reset_link, wrong_password, same_password, no_mail, same_address,
  unreachable_domain, stale_change_link, taken_meanwhile, not_logged_in, reset_requested,
  reset_completed, change_requested,
}
use accountant_backend.Http.{
  App, Chance, World, CookieChange, set_cookie, delete_cookie, password_reset_task,
  change_warning_task, change_notice_task, Reply, reply, Http, return, refuse, crash, call,
  call_postal, handled, ◌>>=◌, ◌>>◌, enforce, peek, record_attempt, reset, when,
}
use accountant_backend.Http.Auth.{
  services, issue_session, check_quota, reset_request_ip, reset_request_email, reset_submit_ip,
  email_change_ip, email_confirm_ip, password_user, email_change_user,
}

module _ (app : App) (chance : Chance) where
  abbrev settings : Settings
  settings = app.settings

  -- `forgot_password`
  unfoldable pub forgot_password : Text → Request → Http Reply
  unfolding check_quota client_address strip reset_request_ip reset_request_email
  forgot_password payload_email request = do
    let email = app.services.lower (strip payload_email)
    let address_key = reset_request_ip (client_address app.addresses settings request)
    let email_key = reset_request_email email
    when settings.rate_limit_enabled do
      check_quota app chance address_key settings.password_reset_ip_max_attempts
          settings.password_reset_window_seconds (chance.tick 0) too_many_reset_requests
      check_quota app chance email_key settings.password_reset_max_attempts
          settings.password_reset_window_seconds (chance.tick 1) too_many_reset_requests
      record_attempt address_key settings.password_reset_window_seconds (chance.tick 2)
      record_attempt email_key settings.password_reset_window_seconds (chance.tick 3)
    return (record (reply 202 (detail_body reset_requested)) {
      tasks = password_reset_task email ∷ [];
    })

  -- the clauses of `except` in `reset_password`
  abbrev pub reset_failed : {A : Type 0} → Text → Error → Http A
  reset_failed address_key (identity invalid_password_reset_token) = do
    when settings.rate_limit_enabled
        (record_attempt address_key settings.login_window_seconds (chance.tick 1))
    refuse 400 stale_reset_link
  reset_failed address_key e = crash e

  -- `reset_password`
  unfoldable pub reset_password : ResetPasswordRequest → Request → Http Reply
  unfolding check_quota Sessions.reset_password client_address reset_submit_ip
  reset_password payload request = do
    let address_key = reset_submit_ip (client_address app.addresses settings request)
    when settings.rate_limit_enabled (
        check_quota app chance address_key settings.login_ip_max_attempts
          settings.login_window_seconds (chance.tick 0) too_many_reset_requests)
    call
        (Sessions.reset_password (services app chance) payload.token payload.new_password
          (chance.now 0) (chance.now 1))
        (reset_failed address_key)
    return (reply 200 (detail_body reset_completed))

  -- `me`
  unfoldable pub me : User → Http Reply
  unfolding user_response
  me user = return (reply 200 (user_body (user_response user)))

  -- `update_me`
  unfoldable pub update_me : UpdateUserSettingsRequest → User → Http Reply
  unfolding update_user_settings user_response
  update_me payload user = do
    updated_user ←
        call
          (update_user_settings user.id payload.display_name payload.daily_summary_enabled
            payload.daily_summary_time payload.budget_alerts_enabled)
          crash
    return (reply 200 (user_body (user_response updated_user)))

  -- the clauses of `except` in `change_password`
  abbrev pub change_password_failed : {A : Type 0} → Text → Error → Http A
  change_password_failed password_key (identity invalid_credentials) = do
    when settings.rate_limit_enabled
        (record_attempt password_key settings.login_window_seconds (chance.tick 1))
    refuse 422 wrong_password
  change_password_failed password_key (identity password_unchanged) = refuse 422 same_password
  change_password_failed password_key e = crash e

  -- `change_password`
  unfoldable pub change_password : ChangePasswordRequest → User → Http Reply
  unfolding check_quota Sessions.change_password issue_session user_response password_user
  change_password payload user = do
    let password_key = password_user user.id
    when settings.rate_limit_enabled (
        check_quota app chance password_key settings.login_max_attempts
          settings.login_window_seconds (chance.tick 0) too_many_password_attempts)
    updated_user ←
        call
          (Sessions.change_password (services app chance) user.id payload.current_password
            payload.new_password (chance.now 0) (chance.now 2))
          (change_password_failed password_key)
    when settings.rate_limit_enabled (reset password_key)
    cookies ← issue_session app chance updated_user
    return (record (reply 200 (user_body (user_response updated_user))) { cookies = cookies })

  -- `limiter.record` on both keys of `change_email`
  abbrev count_change : Text → Text → Http (Unit {0})
  count_change address_key user_key = when settings.rate_limit_enabled do
    record_attempt address_key settings.email_change_window_seconds (chance.tick 2)
    record_attempt user_key settings.email_change_window_seconds (chance.tick 3)

  -- the clauses of `except` in `change_email`
  abbrev pub change_email_failed : {A : Type 0} → Text → Text → Error → Http A
  change_email_failed address_key user_key (identity invalid_credentials) = do
    count_change address_key user_key
    refuse 422 wrong_password
  change_email_failed address_key user_key (identity email_unchanged) = refuse 422 same_address
  change_email_failed address_key user_key (identity unreachable_email) =
      refuse 422 unreachable_domain
  change_email_failed address_key user_key (identity email_already_registered) =
      refuse 409 already_registered
  change_email_failed address_key user_key e = crash e

  -- `change_email` once mail is enabled
  abbrev request_change : ChangeEmailRequest → Request → User → Http Reply
  request_change payload request user = do
    let user_key = email_change_user user.id
    let address_key = email_change_ip (client_address app.addresses settings request)
    when settings.rate_limit_enabled do
      check_quota app chance address_key settings.email_change_max_attempts
          settings.email_change_window_seconds (chance.tick 0) too_many_email_changes
      check_quota app chance user_key settings.email_change_max_attempts
          settings.email_change_window_seconds (chance.tick 1) too_many_email_changes
    new_email ←
        call_postal
          (request_email_change (services app chance) settings app.accepts (chance.uuid 0)
            (chance.secret 0) (chance.now 0) user payload.new_email payload.current_password)
          (change_email_failed address_key user_key)
    count_change address_key user_key
    return (record (reply 202 (detail_body change_requested)) {
      tasks = change_warning_task user new_email ∷ [];
    })

  -- `change_email`
  unfoldable pub change_email : ChangeEmailRequest → Request → User → Http Reply
  unfolding check_quota request_email_change client_address email_change_user email_change_ip
      mail_enabled
  change_email payload request user = do
    when (not (mail_enabled settings)) (refuse 503 no_mail)
    request_change payload request user

  -- the clauses of `except` in `confirm_email_change`
  abbrev pub confirm_failed : {A : Type 0} → Text → Error → Http A
  confirm_failed address_key (identity invalid_email_change_token) = do
    when settings.rate_limit_enabled
        (record_attempt address_key settings.login_window_seconds (chance.tick 1))
    refuse 400 stale_change_link
  confirm_failed address_key (identity email_already_registered) = refuse 409 taken_meanwhile
  confirm_failed address_key e = crash e

  -- `confirm_email_change`
  unfoldable pub confirm_email_change : Text → Request → Http Reply
  unfolding check_quota Sessions.confirm_email_change user_response client_address email_confirm_ip
  confirm_email_change token request = do
    let address_key = email_confirm_ip (client_address app.addresses settings request)
    when settings.rate_limit_enabled (
        check_quota app chance address_key settings.login_ip_max_attempts
          settings.login_window_seconds (chance.tick 0) too_many_email_changes)
    confirmed ←
        call (Sessions.confirm_email_change (services app chance) token (chance.now 0))
          (confirm_failed address_key)
    return (record (reply 200 (user_body (user_response confirmed.0))) {
      tasks = change_notice_task confirmed.0 confirmed.1 ∷ [];
    })
