-- ===== src/Prelude/Monad.antt =====
-- Calls that may raise: the exception classes of app/application, and the state-and-exception
-- monad. What was committed before a raise stays, so the state comes back beside the error.
use mathlib.Core.Path.{◌≡◌, ap}
use mathlib.Core.Bool.{Bool}
use mathlib.Core.Option.{Option, none, some}
use accountant_backend.Prelude.Tests.{if◌then◌else◌}

pub data LedgerError : Type 0 where
  category_not_found category_kind_mismatch category_already_exists : LedgerError
  transaction_not_found subscription_not_found : LedgerError
  budget_not_found budget_already_exists : LedgerError

pub data IdentityError : Type 0 where
  email_already_registered invalid_credentials inactive_user : IdentityError
  invalid_refresh_token password_unchanged invalid_password_reset_token : IdentityError
  invalid_email_change_token email_unchanged unreachable_email : IdentityError

pub data AdminError : Type 0 where
  admin_user_not_found cannot_deactivate_self : AdminError

-- `integrity_error` is a constraint that refuses a commit, `value_error` a date out of range,
-- `runtime_error` what the use cases raise themselves where a row has gone, `mail_error` what the
-- SMTP client raises, `lookup_error` an index out of range. `out_of_fuel` is of the model alone: a loop that was not given enough rounds.
pub data Error : Type 0 where
  ledger : LedgerError → Error
  identity : IdentityError → Error
  admin : AdminError → Error
  integrity_error value_error runtime_error mail_error lookup_error out_of_fuel : Error

pub data Result {ℓ} (A : Type ℓ) : Type ℓ where
  ok : A → Result A
  raised : Error → Result A

abbrev pub Exec : Type 0 → Type 0 → Type 0
Exec S A = S → Result A × S

module _ {S A : Type 0} where
  abbrev pub pure : A → Exec S A
  pure a s = (ok a, s)

  abbrev pub raise : Error → Exec S A
  raise e s = (raised e, s)

  abbrev pub gets : (S → A) → Exec S A
  gets f s = (ok (f s), s)

  -- `if value is None: raise e`
  abbrev pub or_raise : Option A → Error → Exec S A
  or_raise none e = raise e
  or_raise (some a) e = pure a

abbrev pub raise_if : {S : Type 0} → Bool → Error → Exec S (Unit {0})
raise_if b e s = (if b then raised e else ok tt, s)

infixl 5 ◌>>=◌ ◌>>◌
abbrev pub ◌>>=◌ : {S A B : Type 0} → Exec S A → (A → Exec S B) → Exec S B
◌>>=◌ m f s = let (r, s') = m s in elim r [ ok a ↦ f a s' | raised e ↦ raise e s' ]

abbrev pub ◌>>◌ : {S A B : Type 0} → Exec S A → Exec S B → Exec S B
m >> k = m >>= λ _. k

abbrev continue : {S A B : Type 0} → (A → Exec S B) → Result A × S → Result B × S
continue f (r, s) = elim r [ ok a ↦ f a s | raised e ↦ (raised e, s) ]

pub raised-ne-ok {ℓ} : {A : Type ℓ} {e : Error} {a : A} → raised e ≡ ok a → ⊥
raised-ne-ok h = cc

-- The two ways on from a step whose outcome is known.
module _ {S A B : Type 0} (m : Exec S A) (f : A → Exec S B) (s : S) where
  pub bind_ok : {a : A} {s' : S} → m s ≡ (ok a, s') → (m >>= f) s ≡ f a s'
  bind_ok e = ap (continue f) e

  pub bind_raised : {e : Error} {s' : S} → m s ≡ (raised e, s') → (m >>= f) s ≡ (raised e, s')
  bind_raised e = ap (continue f) e
