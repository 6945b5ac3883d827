-- ===== src/Http/Credentials/Silent.antt =====
-- What the reply to a forgotten password tells about the accounts.
use accountant_backend.Prelude.{◌≡◌, arith, Bool-cases, inl, inr, Text, List}
use accountant_backend.Schema.{Database}
use accountant_backend.Mail.{Mail}
use accountant_backend.Settings.{Request}
use accountant_backend.Http.{App, Chance, World, enforce}
use accountant_backend.Http.Auth.{check_quota}
use accountant_backend.Http.Credentials.{forgot_password}

-- Two states that differ in their accounts and mails get the same reply to a forgotten password,
-- the same background tasks and the same counts of the limiter, and nothing is written.
pub forgot_password_silent :
    (app : App) (chance : Chance) (email : Text) (request : Request) (w : World) (db : Database)
    (outbox : List Mail)
    → let (a, after) = forgot_password app chance email request w in
      forgot_password app chance email request (record w { db = db; outbox = outbox })
        ≡ (a, record after { db = db; outbox = outbox })
      × (after.db ≡ w.db)
unfolding forgot_password check_quota enforce
forgot_password_silent app chance email request w db outbox =
    elim (Bool-cases app.settings.rate_limit_enabled) [
      | inl on ↦ ground arith
      | inr off ↦ ground arith
    ]
