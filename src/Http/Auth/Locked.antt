-- ===== src/Http/Auth/Locked.antt =====
-- Who is locked out of `login`.
use accountant_backend.Prelude.{
  ℕ, ◌≡◌, ◌≤◌, ◌<◌, ◌⊎◌, ◌+◌, ◌-◌, ◌*◌, max, ◌∙◌, refl, ap, sym, subst, arith, ltb, true, List, [],
  ◌∷◌, Text, strip, length, Bool-cases, inl, inr,
}
use accountant_backend.Settings.{Request, client_address}
use accountant_backend.RateLimit
use accountant_backend.RateLimit.{
  Verdict, within_quota, index_error, locked_for, Limiter, ceil_seconds, second,
}
use accountant_backend.RateLimit.Window.{live}
use accountant_backend.RateLimit.Answers.{
  Step, peeking, run, attempts, IsTimed, answer, peek_answers,
}
use accountant_backend.Schemas.{LoginRequest}
use accountant_backend.Http.{App, Chance, World, Http, ◌>>◌}
use accountant_backend.Http.Steps.{
  IsPutOff, IsPutOff-bind, bind_answered, bind_refused, when_lem, passes, puts_off,
}
use accountant_backend.Http.Messages.{too_many_logins}
use accountant_backend.Http.Auth.{login, login_ip, login_email, check_quota, limit_login, enter}

-- enough attempts in the window lock the key
locks :
    (limit w now : ℕ) (hits : List ℕ)
    → 0 < limit
    → limit ≤ length hits
    → (n : ℕ) × (answer limit w now hits ≡ locked_for n)
unfolding answer
locks limit w now [] pos full = absurd (omega arith)
locks limit w now (h ∷ hits) pos full = (max 1 (ceil_seconds (h + w * second - now)), ground arith)

-- a limit of at least one gives one of the two verdicts
two_verdicts :
    (limit w now : ℕ) (hits : List ℕ)
    → 0 < limit
    → (answer limit w now hits ≡ within_quota)
      ⊎ ((n : ℕ) × (answer limit w now hits ≡ locked_for n))
unfolding answer
two_verdicts limit w now hits pos = elim (Bool-cases (ltb (length hits) limit)) [
  | inl below ↦ inl (ground arith)
  | inr full ↦ inr (locks limit w now hits pos (ground arith))
]

-- the answer of the limiter after the calls so far, on a key whose window is known
verdict_of :
    (window_of : Text → ℕ) (past : List Step) (key : Text) (limit w now : ℕ) (l : Limiter)
    → l ≡ run window_of past
    → window_of key ≡ w
    → IsTimed window_of past now
    → (RateLimit.peek key limit w now l).0
      ≡ answer limit w now (live w now (attempts window_of past key))
verdict_of window_of past key limit w now l before window timed =
    ap (λ m. (RateLimit.peek key limit w now m).0) before
    ∙ ap (λ u. (RateLimit.peek key limit u now (run window_of past)).0) (sym window)
    ∙ peek_answers window_of past key limit now timed
    ∙ ap (λ u. answer limit u now (live u now (attempts window_of past key))) window

peeked :
    (window_of : Text → ℕ) (past : List Step) (key : Text) (limit w now : ℕ) (l : Limiter)
    → l ≡ run window_of past
    → window_of key ≡ w
    → (RateLimit.peek key limit w now l).1 ≡ run window_of (peeking key limit now ∷ past)
unfolding run
peeked window_of past key limit w now l before window =
    ap (λ m. (RateLimit.peek key limit w now m).1) before
    ∙ ap (λ u. (RateLimit.peek key limit u now (run window_of past)).1) (sym window)

module _ (app : App) (chance : Chance) where
  -- the two checks of `login`
  abbrev by_address : Text → Http (Unit {0})
  by_address a =
      check_quota app chance a app.settings.login_ip_max_attempts app.settings.login_window_seconds
        (chance.tick 0) too_many_logins

  abbrev by_account : Text → Http (Unit {0})
  by_account b =
      check_quota app chance b app.settings.login_max_attempts app.settings.login_window_seconds
        (chance.tick 1) too_many_logins

  -- the second limit of `login` is reached, and the first has a verdict
  second_locked :
      (a b : Text) (w : World) (n : ℕ)
      → app.settings.rate_limit_enabled ≡ true
      → let p =
          RateLimit.peek a app.settings.login_ip_max_attempts app.settings.login_window_seconds
            (chance.tick 0)
            w.limiter in
        ((p.0 ≡ within_quota) ⊎ ((k : ℕ) × (p.0 ≡ locked_for k)))
        → (RateLimit.peek b app.settings.login_max_attempts app.settings.login_window_seconds
            (chance.tick 1)
            p.1).0
          ≡ locked_for n
        → IsPutOff too_many_logins w (limit_login app chance a b w)
  unfolding limit_login check_quota
  second_locked a b w n on (inr (k, first)) locked =
      let p =
        RateLimit.peek a app.settings.login_ip_max_attempts app.settings.login_window_seconds
          (chance.tick 0) w.limiter in
      subst (IsPutOff too_many_logins w)
        (sym (
          when_lem app.settings.rate_limit_enabled (by_address a >> by_account b) w on
          ∙ bind_refused (by_address a) (λ _. by_account b) w
              (puts_off too_many_logins (record w { limiter = p.1 }) first)))
        (k, refl, refl, refl)
  second_locked a b w n on (inl first) locked =
      let p =
        RateLimit.peek a app.settings.login_ip_max_attempts app.settings.login_window_seconds
          (chance.tick 0) w.limiter in
      let q =
        RateLimit.peek b app.settings.login_max_attempts app.settings.login_window_seconds
          (chance.tick 1) p.1 in
      subst (IsPutOff too_many_logins w)
        (sym (
          when_lem app.settings.rate_limit_enabled (by_address a >> by_account b) w on
          ∙ bind_answered (by_address a) (λ _. by_account b) w
              (passes too_many_logins (record w { limiter = p.1 }) first)
          ∙ puts_off too_many_logins (record w { limiter = q.1 }) locked))
        (n, refl, refl, refl)

  -- Where limits are on and at least one, the clock does not run backwards and at least as many attempts as the
  -- limit for an account, told by all calls of the limiter so far, lie in the window of an
  -- address, a login with that address is answered by the status 429 and the seconds to wait,
  -- whatever the password, and nothing is written.
  pub login_locked_out :
      (window_of : Text → ℕ) (past : List Step) (payload : LoginRequest) (request : Request)
      (w : World)
      → let a = login_ip (client_address app.addresses app.settings request) in
        let b = login_email (app.services.lower (strip payload.email)) in
        let window = app.settings.login_window_seconds in
        app.settings.rate_limit_enabled ≡ true
        → 0 < app.settings.login_ip_max_attempts
        → 0 < app.settings.login_max_attempts
        → w.limiter ≡ run window_of past
        → window_of a ≡ window
        → window_of b ≡ window
        → IsTimed window_of past (chance.tick 0)
        → chance.tick 0 ≤ chance.tick 1
        → app.settings.login_max_attempts
          ≤ length (live window (chance.tick 1) (attempts window_of past b))
        → IsPutOff too_many_logins w (login app chance payload request w)
  unfolding login attempts
  login_locked_out window_of past payload request w on pos pos' before wa wb timed later full =
      let a = login_ip (client_address app.addresses app.settings request) in
      let email = app.services.lower (strip payload.email) in
      let b = login_email email in
      let s = app.settings in
      let window = s.login_window_seconds in
      let then_b = peeking a s.login_ip_max_attempts (chance.tick 0) ∷ past in
      let va =
        verdict_of window_of past a s.login_ip_max_attempts window (chance.tick 0) w.limiter before
          wa timed in
      let vb =
        verdict_of window_of then_b b s.login_max_attempts window (chance.tick 1) _
          (peeked window_of past a s.login_ip_max_attempts window (chance.tick 0) w.limiter before
            wa)
          wb (later, timed) in
      let (n, locked) =
        locks s.login_max_attempts window (chance.tick 1)
          (live window (chance.tick 1) (attempts window_of past b)) pos' full in
      let known =
        subst (λ v. (v ≡ within_quota) ⊎ ((k : ℕ) × (v ≡ locked_for k))) (sym va)
          (two_verdicts s.login_ip_max_attempts window (chance.tick 0) _ pos) in
      IsPutOff-bind too_many_logins (limit_login app chance a b)
        (λ _. enter app chance a b email payload.password) w
        (second_locked a b w n on known (vb ∙ locked))
