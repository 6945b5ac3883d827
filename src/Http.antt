-- ===== src/Http.antt =====
-- What the handlers of app/presentation/http share: the state that a request meets, a reply with
-- its cookies and background tasks, an `HTTPException` as an outcome, and `enforce` of
-- app/presentation/dependencies/rate_limit.py.
pub mod Messages
pub mod Steps
pub mod Auth
pub mod Credentials
pub mod Ledger
pub mod Entries
pub mod Administration
pub mod Requests
pub mod Tasks
use accountant_backend.Prelude.{
  ℕ, Bool, true, false, Option, none, some, List, [], Text, codes, ◌++◌, Error, Result, ok, raised,
  Exec, lookup_error, decimal,
}
use accountant_backend.Domain.{Uuid, Instant, User, AccessTokenClaims}
use accountant_backend.Schema.{Database}
use accountant_backend.Settings.{Settings, Addresses, describe_wait}
use accountant_backend.Mail.{Mail, Postal}
use accountant_backend.RateLimit
use accountant_backend.RateLimit.{Limiter, Verdict, within_quota, index_error, locked_for}
use accountant_backend.Identity.Sessions.{Services}
use accountant_backend.Notifications.{Zone}
use accountant_backend.Schemas.{Body, detail_body}

-- what the handlers reach through `get_settings`, the services and the libraries
pub record App : Type 0 where
  pub services : Services
  pub settings : Settings
  pub addresses : Addresses
  pub accepts : Mail → Bool
  pub decode : Text → Option AccessTokenClaims
  pub zone : Zone
  pub name_le : Text → Text → Bool

-- the clocks and the random values that a request reads, each in the order of the calls
pub record Chance : Type 0 where
  pub tick : ℕ → ℕ
  pub now : ℕ → Instant
  pub uuid : ℕ → Uuid
  pub secret : ℕ → Text

pub record World : Type 0 where
  pub db : Database
  pub outbox : List Mail
  pub limiter : Limiter

-- `set_cookie` with `httponly=True` and `samesite="lax"`, and `delete_cookie`
pub data CookieChange : Type 0 where
  set_cookie : (key value : Text) (max_age : ℕ) (secure : Bool) (path : Text) → CookieChange
  delete_cookie : (key path : Text) → CookieChange

-- `background_tasks.add_task(...)`
pub data Task : Type 0 where
  password_reset_task : Text → Task
  change_warning_task : User → Text → Task
  change_notice_task : User → Text → Task
  budget_limit_task : Uuid → Uuid → Task

pub record Reply : Type 0 where
  pub status : ℕ
  pub retry_after : Option ℕ
  pub cookies : List CookieChange
  pub body : Body
  pub tasks : List Task

-- a reply of the handler's status, without cookies and tasks
abbrev pub reply : ℕ → Body → Reply
reply status body = record {
  status = status;
  retry_after = none;
  cookies = [];
  body = body;
  tasks = [];
}

-- `HTTPException(status, detail, headers)`, and an exception that no handler turns into one
pub data Answer (A : Type 0) : Type 0 where
  answered : A → Answer A
  http_exception : (status : ℕ) (detail : Text) (retry_after : Option ℕ) → Answer A
  unhandled : Error → Answer A

abbrev pub Http : Type 0 → Type 0
Http A = World → Answer A × World

module _ {A : Type 0} where
  abbrev pub return : A → Http A
  return a w = (answered a, w)

  -- `raise HTTPException(status_code=status, detail=detail)`
  abbrev pub refuse : ℕ → Text → Http A
  refuse status detail w = (http_exception status detail none, w)

  abbrev pub crash : Error → Http A
  crash e w = (unhandled e, w)

  -- the outcome of `try: ... except ...:`, where `handler` has a case for each clause
  abbrev pub handled : (Error → Http A) → Result A → Http A
  handled handler (ok a) = return a
  handled handler (raised e) = handler e

  abbrev pub call : Exec Database A → (Error → Http A) → Http A
  call m handler w = let (r, db) = m w.db in handled handler r (record w { db = db })

  abbrev pub call_postal : Exec Postal A → (Error → Http A) → Http A
  call_postal m handler w =
      let (r, s) = m (record { db = w.db; outbox = w.outbox }) in
      handled handler r (record w { db = s.db; outbox = s.outbox })

infixl 5 ◌>>=◌ ◌>>◌
abbrev pub ◌>>=◌ : {A B : Type 0} → Http A → (A → Http B) → Http B
◌>>=◌ m f w =
    let (r, w') = m w in
    elim r [
      | answered a ↦ f a w'
      | http_exception status detail retry_after ↦ (http_exception status detail retry_after, w')
      | unhandled e ↦ (unhandled e, w')
    ]

abbrev pub ◌>>◌ : {A B : Type 0} → Http A → Http B → Http B
m >> k = m >>= λ _. k

-- the sentence of a refusal for now
unfoldable pub try_again : Text → ℕ → Text
unfolding describe_wait
try_again detail seconds =
    detail ++ codes " " ++ describe_wait seconds ++ codes " sonra tekrar deneyin."

-- `enforce`
unfoldable pub enforce : Verdict → Text → Http (Unit {0})
enforce within_quota detail w = (answered tt, w)
enforce (locked_for seconds) detail w =
    (http_exception 429 (try_again detail seconds) (some seconds), w)
enforce index_error detail w = (unhandled lookup_error, w)

-- `limiter.peek`, `limiter.record` and `limiter.reset`
abbrev pub peek : Text → ℕ → ℕ → ℕ → Http Verdict
peek key limit window_seconds now w =
    let (verdict, l) = RateLimit.peek key limit window_seconds now w.limiter in
    (answered verdict, record w { limiter = l })

abbrev pub record_attempt : Text → ℕ → ℕ → Http (Unit {0})
record_attempt key window_seconds now w =
    (answered tt, record w { limiter = RateLimit.record_attempt key window_seconds now w.limiter })

abbrev pub reset : Text → Http (Unit {0})
reset key w = (answered tt, record w { limiter = RateLimit.reset key w.limiter })

-- `if test:` before calls that return nothing
abbrev pub when : Bool → Http (Unit {0}) → Http (Unit {0})
when true m = m
when false m = return tt

-- what FastAPI sends for an outcome: an exception that is not an `HTTPException` is the status 500
unfoldable pub respond : Answer Reply → Reply
respond (answered r) = r
respond (http_exception status detail retry_after) = record (reply status (detail_body detail)) {
  retry_after = retry_after;
}
respond (unhandled e) = reply 500 (detail_body [])
