-- ===== src/Http/Auth.antt =====
-- The handlers of app/presentation/http/auth.py, each on a payload that its schema has let through.
pub mod Locked
pub mod Opened
pub mod Ended
use accountant_backend.Prelude.{
  ℕ, ◌*◌, Bool, not, Option, none, some, List, [], ◌∷◌, ◌++◌, Text, codes, strip, uuid_text, Error,
  identity, email_already_registered, invalid_credentials, inactive_user, invalid_refresh_token,
  password_unchanged, invalid_password_reset_token, invalid_email_change_token, email_unchanged,
  unreachable_email, ok, raised,
}
use accountant_backend.Domain.{Uuid, User, SessionTokens}
use accountant_backend.Settings.{Settings, Request, mail_enabled, client_address}
use accountant_backend.Identity.Sessions
use accountant_backend.Identity.Sessions.{
  Services, register_user, login_user, refresh_session, revoke_session, update_user_settings,
}
use accountant_backend.Identity.Mails.{request_email_change}
use accountant_backend.Admin
use accountant_backend.Schemas.{
  RegisterRequest, LoginRequest, ResetPasswordRequest, ChangeEmailRequest, ChangePasswordRequest,
  UpdateUserSettingsRequest, user_response, user_body, detail_body, success_body,
}
use accountant_backend.Http.Messages.{
  too_many_logins, too_many_registrations, too_many_password_attempts, too_many_reset_requests,
  too_many_email_changes, already_registered, wrong_credentials, disabled_account, not_refreshed,
  log_in_again, stale_reset_link, wrong_password, same_password, no_mail, same_address,
  unreachable_domain, stale_change_link, taken_meanwhile, not_logged_in, reset_requested,
  reset_completed, change_requested,
}
use accountant_backend.Http.{
  App, Chance, World, CookieChange, set_cookie, delete_cookie, password_reset_task,
  change_warning_task, change_notice_task, Reply, reply, Http, return, refuse, crash, call,
  call_postal, handled, ◌>>=◌, ◌>>◌, enforce, peek, record_attempt, reset, when,
}

-- `ACCESS_COOKIE_NAME` and `REFRESH_COOKIE_NAME`
unfoldable pub access_cookie_name : Text
access_cookie_name = codes "accountant_access"

unfoldable pub refresh_cookie_name : Text
refresh_cookie_name = codes "accountant_refresh"

unfoldable pub auth_path : Text
auth_path = codes "/api/v1/auth"

unfoldable pub root_path : Text
root_path = codes "/"

-- the keys that the limiter counts under
unfoldable pub register_ip : Text → Text
register_ip address = codes "register:ip:" ++ address

unfoldable pub login_email : Text → Text
login_email address = codes "login:email:" ++ address

unfoldable pub login_ip : Text → Text
login_ip address = codes "login:ip:" ++ address

unfoldable pub reset_request_ip : Text → Text
reset_request_ip address = codes "reset-request:ip:" ++ address

unfoldable pub reset_request_email : Text → Text
reset_request_email address = codes "reset-request:email:" ++ address

unfoldable pub reset_submit_ip : Text → Text
reset_submit_ip address = codes "reset-submit:ip:" ++ address

unfoldable pub email_change_ip : Text → Text
email_change_ip address = codes "email-change:ip:" ++ address

unfoldable pub email_confirm_ip : Text → Text
email_confirm_ip address = codes "email-confirm:ip:" ++ address

unfoldable pub password_user : Uuid → Text
unfolding uuid_text
password_user id = codes "password:user:" ++ uuid_text id

unfoldable pub email_change_user : Uuid → Text
unfolding uuid_text
email_change_user id = codes "email-change:user:" ++ uuid_text id

module _ (app : App) (chance : Chance) where
  abbrev pub settings : Settings
  settings = app.settings

  -- the services as `get_settings` completes them
  abbrev pub services : Services
  services = record app.services { refresh_token_days = app.settings.refresh_token_days }

  -- the dependency `get_current_user` on the cookie of the request
  unfoldable pub current_user : Option Text → Http User
  current_user token w = elim (Admin.get_current_user app.decode w.db token) [
    | none ↦ refuse 401 not_logged_in w
    | some user ↦ return user w
  ]

  -- `set_session_cookies`
  unfoldable pub set_session_cookies : Text → Text → List CookieChange
  set_session_cookies access_token refresh_token =
      set_cookie access_cookie_name access_token (settings.access_token_minutes * 60)
        settings.cookie_secure root_path
      ∷ set_cookie refresh_cookie_name refresh_token (settings.refresh_token_days * 24 * 60 * 60)
          settings.cookie_secure auth_path
      ∷ []

  -- `clear_session_cookies`
  unfoldable pub clear_session_cookies : List CookieChange
  clear_session_cookies =
      delete_cookie access_cookie_name root_path ∷ delete_cookie refresh_cookie_name auth_path ∷ []

  -- `issue_session`: the cookies that it sets
  unfoldable pub issue_session : User → Http (List CookieChange)
  unfolding Sessions.issue_session set_session_cookies
  issue_session user = do
    tokens ←
        call (Sessions.issue_session services (chance.uuid 1) (chance.secret 1) (chance.now 1) user)
          crash
    return (set_session_cookies tokens.access_token tokens.refresh_token)

  -- `limiter.peek` under `enforce`
  unfoldable pub check_quota : Text → ℕ → ℕ → ℕ → Text → Http (Unit {0})
  unfolding enforce
  check_quota key limit window_seconds now detail = do
    verdict ← peek key limit window_seconds now
    enforce verdict detail

  -- the clauses of `except` in `register`
  abbrev pub register_failed : {A : Type 0} → Error → Http A
  register_failed (identity email_already_registered) = refuse 409 already_registered
  register_failed e = crash e

  -- `register`
  unfoldable pub register : RegisterRequest → Request → Http Reply
  unfolding check_quota register_user issue_session user_response client_address register_ip
  register payload request = do
    let address_key = register_ip (client_address app.addresses settings request)
    when settings.rate_limit_enabled do
      check_quota address_key settings.register_max_attempts settings.register_window_seconds
          (chance.tick 0) too_many_registrations
      record_attempt address_key settings.register_window_seconds (chance.tick 1)
    user ←
        call
          (register_user services (chance.uuid 0) (chance.now 0) payload.email payload.display_name
            payload.password)
          register_failed
    cookies ← issue_session user
    return (record (reply 201 (user_body (user_response user))) { cookies = cookies })

  -- the clauses of `except` in `login`
  abbrev pub login_failed : {A : Type 0} → Text → Text → Error → Http A
  login_failed address_key email_key (identity invalid_credentials) = do
    when settings.rate_limit_enabled do
      record_attempt address_key settings.login_window_seconds (chance.tick 2)
      record_attempt email_key settings.login_window_seconds (chance.tick 3)
    refuse 401 wrong_credentials
  login_failed address_key email_key (identity inactive_user) = refuse 403 disabled_account
  login_failed address_key email_key e = crash e

  -- the limits of `login`
  unfoldable pub limit_login : Text → Text → Http (Unit {0})
  unfolding check_quota
  limit_login address_key email_key = when settings.rate_limit_enabled do
    check_quota address_key settings.login_ip_max_attempts settings.login_window_seconds
        (chance.tick 0) too_many_logins
    check_quota email_key settings.login_max_attempts settings.login_window_seconds (chance.tick 1)
        too_many_logins

  -- `login` once the limits have let it through
  unfoldable pub enter : Text → Text → Text → Text → Http Reply
  unfolding login_user issue_session user_response
  enter address_key email_key email password = do
    user ← call (login_user services email password) (login_failed address_key email_key)
    when settings.rate_limit_enabled (reset email_key)
    cookies ← issue_session user
    return (record (reply 200 (user_body (user_response user))) { cookies = cookies })

  -- `login`
  unfoldable pub login : LoginRequest → Request → Http Reply
  unfolding limit_login enter client_address login_ip login_email strip
  login payload request = do
    let email = services.lower (strip payload.email)
    let address_key = login_ip (client_address app.addresses settings request)
    limit_login address_key (login_email email)
    enter address_key (login_email email) email payload.password

  -- the clauses of `except` in `refresh`
  abbrev pub refresh_failed : Error → Http Reply
  refresh_failed (identity invalid_refresh_token) =
      return (record (reply 401 (detail_body log_in_again)) { cookies = clear_session_cookies })
  refresh_failed (identity inactive_user) =
      return (record (reply 401 (detail_body log_in_again)) { cookies = clear_session_cookies })
  refresh_failed e = crash e

  -- `refresh`
  unfoldable pub refresh : Option Text → Http Reply
  unfolding refresh_session set_session_cookies clear_session_cookies
  refresh none w = refuse 401 not_refreshed w
  refresh (some refresh_token) w =
      let (r, db) =
        refresh_session services (chance.uuid 0) (chance.secret 0) (chance.now 0) refresh_token
          w.db in
      elim r [
        | ok tokens ↦
            return
              (record (reply 200 success_body) {
                cookies = set_session_cookies tokens.access_token tokens.refresh_token;
              })
              (record w { db = db })
        | raised e ↦ refresh_failed e (record w { db = db })
      ]

  -- `logout`
  unfoldable pub logout : Option Text → Http Reply
  unfolding revoke_session clear_session_cookies
  logout none = return (record (reply 200 success_body) { cookies = clear_session_cookies })
  logout (some refresh_token) = do
    call (revoke_session services refresh_token (chance.now 0)) crash
    return (record (reply 200 success_body) { cookies = clear_session_cookies })
