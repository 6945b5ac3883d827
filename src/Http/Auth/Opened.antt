-- ===== src/Http/Auth/Opened.antt =====
-- What a login that succeeds has checked, and what it leaves behind.
use accountant_backend.Prelude.{
  ℕ, ◌*◌, [], ◌∷◌, ◌≡◌, ◌∙◌, refl, ap, sym, subst, arith, true, some, List, Text, strip, Bool-cases,
  Option-cases, inl, inr, find_where, ok, text_eq_refl, ◌+◌, identity, ledger,
  email_already_registered, invalid_credentials,
}
use accountant_backend.Domain.{Uuid, User}
use accountant_backend.Schema.{UserModel, Database}
use accountant_backend.Settings.{Request, client_address}
use accountant_backend.RateLimit
use accountant_backend.Identity.Users.{has_email, user_to_domain}
use accountant_backend.Identity.Tokens.{has_hash, new_refresh, refresh_refused}
use accountant_backend.Identity.Sessions.{Services, login_user, days}
use accountant_backend.Schemas.{LoginRequest, user_body, user_response}
use accountant_backend.Http.{
  set_cookie, App, Chance, World, CookieChange, Reply, reply, ◌>>=◌, ◌>>◌, Answer, answered, call,
  when, reset, return,
}
use accountant_backend.Http.Steps.{
  bind_inv, Spares, bind-Spares, enforce-Spares, when-Spares, Refuses, call_inv, return_inv,
}
use accountant_backend.Http.Messages.{too_many_logins}
use accountant_backend.Http.Auth.{
  login, login_ip, login_email, check_quota, limit_login, enter, login_failed, issue_session,
  services, set_session_cookies, access_cookie_name, refresh_cookie_name, root_path, auth_path,
}

login_user_inv :
    (s : Services) (email password : Text) (db : Database) (user : User)
    → (login_user s email password db).0 ≡ ok user
    → (m : UserModel) × (find_where (has_email (s.lower (strip email))) db.users ≡ some m)
      × (user ≡ user_to_domain m)
      × (s.verify password m.password_hash ≡ true)
      × (m.is_active ≡ true)
      × ((login_user s email password db).1 ≡ db)
unfolding login_user user_to_domain
login_user_inv s email password db user done =
    elim (Option-cases (find_where (has_email (s.lower (strip email))) db.users)) [
      | inl absent ↦ absurd (ground arith)
      | inr (m, found) ↦ (m, found, ground arith, ground arith, ground arith, ground arith)
    ]

module _ (app : App) (chance : Chance) where
  check_quota-Spares :
      (key : Text) (limit window now : ℕ) (detail : Text) (w : World)
      → Spares w (check_quota app chance key limit window now detail w)
  unfolding check_quota
  check_quota-Spares key limit window now detail w =
      let p = RateLimit.peek key limit window now w.limiter in
      enforce-Spares p.0 detail (record w { limiter = p.1 })

  pub limit_login-Spares : (a b : Text) (w : World) → Spares w (limit_login app chance a b w)
  unfolding limit_login
  limit_login-Spares a b w =
      let s = app.settings in
      let by_address =
        check_quota app chance a s.login_ip_max_attempts s.login_window_seconds (chance.tick 0)
          too_many_logins in
      let by_account =
        check_quota app chance b s.login_max_attempts s.login_window_seconds (chance.tick 1)
          too_many_logins in
      when-Spares s.rate_limit_enabled (by_address >> by_account) w (
        bind-Spares by_address (λ _. by_account) w
          (check_quota-Spares a s.login_ip_max_attempts s.login_window_seconds (chance.tick 0)
            too_many_logins w)
          (λ _ v.
            check_quota-Spares b s.login_max_attempts s.login_window_seconds (chance.tick 1)
              too_many_logins v))

  login_failed-Refuses : (a b : Text) → Refuses (login_failed app chance {A = User} a b)
  login_failed-Refuses a b (identity email_already_registered) w user after e = ground arith
  login_failed-Refuses a b (identity invalid_credentials) w user after e =
      elim (Bool-cases app.settings.rate_limit_enabled) [
        | inl on ↦ ground arith
        | inr off ↦ ground arith
      ]
  login_failed-Refuses a b (identity x) w user after e = ground arith
  login_failed-Refuses a b (ledger x) w user after e = ground arith
  login_failed-Refuses a b x w user after e = ground arith

  issued :
      (user : User) (w : World) (cookies : List CookieChange) (after : World)
      → issue_session app chance user w ≡ (answered cookies, after)
      → (cookies
          ≡ set_session_cookies app chance (app.services.create_access user.id) (chance.secret 1))
        × (find_where (has_hash (app.services.hash_token (chance.secret 1))) after.db.refresh_tokens
            ≡ some (
                new_refresh
                  (chance.uuid 1)
                  user.id
                  (app.services.hash_token (chance.secret 1))
                  (chance.now 1 + days app.settings.refresh_token_days)))
  unfolding issue_session set_session_cookies find_where
  issued user w cookies after done =
      elim (Bool-cases (
        refresh_refused w.db (
          new_refresh (chance.uuid 1) user.id (app.services.hash_token (chance.secret 1))
            (chance.now 1 + days app.settings.refresh_token_days)))) [
              | inl refused ↦ absurd (ground arith)
              | inr written ↦ (
                ground arith,
                ground (arith, text_eq_refl (app.services.hash_token (chance.secret 1))),
              )
            ]

  -- the reply that a session is opened with
  abbrev welcome : User → List CookieChange → Reply
  welcome user cookies = record (reply 200 (user_body (user_response user))) { cookies = cookies }

  -- the reply sets the cookies of a new session of the user, whose refresh token is stored
  abbrev pub Opens : Uuid → Reply × World → Type 0
  Opens id (r, after) =
      let token_hash = app.services.hash_token (chance.secret 1) in
      (r.status ≡ 200)
      × (r.cookies
          ≡ set_cookie access_cookie_name (app.services.create_access id)
              (app.settings.access_token_minutes * 60) app.settings.cookie_secure root_path
            ∷ set_cookie refresh_cookie_name (chance.secret 1)
                (app.settings.refresh_token_days * 24 * 60 * 60) app.settings.cookie_secure
                auth_path
            ∷ [])
      × (find_where (has_hash token_hash) after.db.refresh_tokens
          ≡ some (
              new_refresh (chance.uuid 1) id token_hash
                (chance.now 1 + days app.settings.refresh_token_days)))

  finished :
      (user : User) (w : World) (r : Reply) (after : World)
      → (issue_session app chance user >>= (λ cookies. return (welcome user cookies))) w
        ≡ (answered r, after)
      → Opens user.id (r, after)
  unfolding set_session_cookies
  finished user w r after done =
      let (cookies, w1, opened, e) =
        bind_inv (issue_session app chance user) (λ cookies. return (welcome user cookies)) w
          done in
      let (sent, ended) = return_inv (welcome user cookies) w1 e in
      let (set, stored) = issued user w cookies w1 opened in
      subst (λ x. Opens user.id (x, after)) sent
        (subst (λ v. Opens user.id (welcome user cookies, v)) ended (refl, set, stored))

  entered :
      (a b email password : Text) (w : World) (r : Reply) (after : World)
      → enter app chance a b email password w ≡ (answered r, after)
      → (m : UserModel) × (find_where (has_email (app.services.lower (strip email))) w.db.users
          ≡ some m)
        × (app.services.verify password m.password_hash ≡ true)
        × (m.is_active ≡ true)
        × Opens m.id (r, after)
  unfolding enter user_to_domain
  entered a b email password w r after done =
      let s = services app chance in
      let attempt = call (login_user s email password) (login_failed app chance {A = User} a b) in
      let clear = when app.settings.rate_limit_enabled (reset b) in
      let opening = λ (user : User).
        issue_session app chance user >>= λ cookies. return (welcome user cookies) in
      let (user, w1, checked, e1) = bind_inv attempt (λ user. clear >> opening user) w done in
      let (returned, _) =
        call_inv (login_user s email password) (login_failed app chance a b) w
          (login_failed-Refuses a b) checked in
      let (m, found, is_m, verified, active, _) =
        login_user_inv s email password w.db user returned in
      let (_, w2, _, e2) = bind_inv clear (λ _. opening user) w1 e1 in
      (
        m,
        found,
        verified,
        active,
        subst (λ id. Opens id (r, after)) (ap (λ (u : User). u.id) is_m)
            (finished user w2 r after e2),
      )

  -- A login that answers has found the account of the address, its password is the right one and
  -- the account is active; the reply has the status 200 and sets the access cookie to the account's
  -- access token and the refresh cookie to a refresh token, each with its path and lifetime, and
  -- that refresh token is stored, alive and the account's.
  pub login-Opens :
      (payload : LoginRequest) (request : Request) (w : World) (r : Reply) (after : World)
      → login app chance payload request w ≡ (answered r, after)
      → (m : UserModel) × (find_where
            (has_email (app.services.lower (strip (app.services.lower (strip payload.email)))))
            w.db.users
          ≡ some m)
        × (app.services.verify payload.password m.password_hash ≡ true)
        × (m.is_active ≡ true)
        × Opens m.id (r, after)
  unfolding login
  login-Opens payload request w r after done =
      let email = app.services.lower (strip payload.email) in
      let a = login_ip (client_address app.addresses app.settings request) in
      let b = login_email email in
      let limit = limit_login app chance a b in
      let (_, w1, let_in, e1) =
        bind_inv limit (λ _. enter app chance a b email payload.password) w done in
      let same : w1.db ≡ w.db =
        ap (λ (o : Answer (Unit {0}) × World). o.1.db) (sym let_in)
        ∙ (limit_login-Spares a b w).0 in
      let (m, found, verified, active, opens) = entered a b email payload.password w1 r after e1 in
      (
        m,
        subst
            (λ (db : Database).
              find_where (has_email (app.services.lower (strip email))) db.users ≡ some m)
            same found,
        verified,
        active,
        opens,
      )
