-- ===== src/Http/Steps.antt =====
-- How the steps of a handler follow on one another, once the outcome of the first is known.
use accountant_backend.Prelude.{
  ℕ, ◌≡◌, ◌∙◌, refl, arith, ap, Bool, true, false, Text, Error, some, Option, ok, raised, Exec,
  Result,
}
use accountant_backend.Schema.{Database}
use accountant_backend.RateLimit.{Verdict, within_quota, index_error, locked_for}
use accountant_backend.Http.{
  World, Http, Answer, answered, http_exception, unhandled, ◌>>=◌, enforce, try_again, when, call,
  handled, return,
}

abbrev continue : {A B : Type 0} → (A → Http B) → Answer A × World → Answer B × World
continue f (a, w) = elim a [
  | answered x ↦ f x w
  | http_exception status detail retry_after ↦ (http_exception status detail retry_after, w)
  | unhandled e ↦ (unhandled e, w)
]

module _ {A B : Type 0} (m : Http A) (f : A → Http B) (w : World) {after : World} where
  pub bind_answered : {x : A} → m w ≡ (answered x, after) → (m >>= f) w ≡ f x after
  bind_answered e = ap (continue f) e

  pub bind_refused :
      {status : ℕ} {detail : Text} {retry_after : Option ℕ}
      → m w ≡ (http_exception status detail retry_after, after)
      → (m >>= f) w ≡ (http_exception status detail retry_after, after)
  bind_refused e = ap (continue f) e

  pub bind_crashed : {e : Error} → m w ≡ (unhandled e, after) → (m >>= f) w ≡ (unhandled e, after)
  bind_crashed e = ap (continue f) e

pub when_lem : (b : Bool) (m : Http (Unit {0})) (w : World) → b ≡ true → when b m w ≡ m w
when_lem b m w on = ap (λ c. when c m w) on

-- the outcome of `enforce` on a verdict, with the limiter that the verdict came with
module _ (detail : Text) (w : World) {v : Verdict} where
  pub passes : v ≡ within_quota → enforce v detail w ≡ (answered tt, w)
  unfolding enforce
  passes e = ap (λ u. enforce u detail w) e

  pub puts_off :
      {n : ℕ}
      → v ≡ locked_for n
      → enforce v detail w ≡ (http_exception 429 (try_again detail n) (some n), w)
  unfolding enforce
  puts_off e = ap (λ u. enforce u detail w) e

module _ {A : Type 0} (m : Exec Database A) (handler : Error → Http A) (w : World)
    {db : Database} where
  pub call_ok :
      {a : A} → m w.db ≡ (ok a, db) → call m handler w ≡ (answered a, record w { db = db })
  call_ok e = ap (λ (s : Result A × Database). handled handler s.0 (record w { db = s.1 })) e

  pub call_raised :
      {e : Error} → m w.db ≡ (raised e, db) → call m handler w ≡ handler e (record w { db = db })
  call_raised e = ap (λ (s : Result A × Database). handled handler s.0 (record w { db = s.1 })) e

-- refused for now by a limit, and nothing written
abbrev pub IsPutOff : {A : Type 0} → Text → World → Answer A × World → Type 0
IsPutOff detail w (a, after) =
    (n : ℕ) × (a ≡ http_exception 429 (try_again detail n) (some n))
    × (after.db ≡ w.db)
    × (after.outbox ≡ w.outbox)

module _ {A B : Type 0} (detail : Text) where
  continue-IsPutOff :
      (f : A → Http B) (w : World) (o : Answer A × World)
      → IsPutOff detail w o
      → IsPutOff detail w (continue f o)
  continue-IsPutOff f w (a, after) (n, e, same_db, same_outbox) = (
    n,
    ap (λ x. (continue f (x, after)).0) e,
    ap (λ x. (continue f (x, after)).1.db) e ∙ same_db,
    ap (λ x. (continue f (x, after)).1.outbox) e ∙ same_outbox,
  )

  -- whoever is put off does not come to what follows
  pub IsPutOff-bind :
      (m : Http A) (f : A → Http B) (w : World)
      → IsPutOff detail w (m w)
      → IsPutOff detail w ((m >>= f) w)
  IsPutOff-bind m f w h = continue-IsPutOff f w (m w) h

module _ {A B : Type 0} where
  continue_inv :
      (f : A → Http B) (o : Answer A × World) (b : B) (after : World)
      → continue f o ≡ (answered b, after)
      → (a : A) × (between : World) × (o ≡ (answered a, between))
        × (f a between ≡ (answered b, after))
  continue_inv f (answered a, w) b after e = (a, w, refl, e)
  continue_inv f (http_exception s d n, w) b after e = absurd (ground arith)
  continue_inv f (unhandled x, w) b after e = absurd (ground arith)

  -- what a sequence that has answered came through
  pub bind_inv :
      (m : Http A) (f : A → Http B) (w : World) {b : B} {after : World}
      → (m >>= f) w ≡ (answered b, after)
      → (a : A) × (between : World) × (m w ≡ (answered a, between))
        × (f a between ≡ (answered b, after))
  bind_inv m f w {b} {after} e = continue_inv f (m w) b after e

-- a step that leaves the database and the outbox alone
abbrev pub Spares : {A : Type 0} → World → Answer A × World → Type 0
Spares w (a, after) = (after.db ≡ w.db) × (after.outbox ≡ w.outbox)

Spares-next :
    {A B : Type 0} (f : A → Http B) (w : World) (o : Answer A × World)
    → Spares w o
    → ((a : A) (v : World) → Spares v (f a v))
    → Spares w (continue f o)
Spares-next f w (answered a, v) (d, m) k = ((k a v).0 ∙ d, (k a v).1 ∙ m)
Spares-next f w (http_exception s d n, v) h k = h
Spares-next f w (unhandled e, v) h k = h

pub bind-Spares :
    {A B : Type 0} (m : Http A) (f : A → Http B) (w : World)
    → Spares w (m w)
    → ((a : A) (v : World) → Spares v (f a v))
    → Spares w ((m >>= f) w)
bind-Spares m f w h k = Spares-next f w (m w) h k

pub enforce-Spares : (v : Verdict) (detail : Text) (w : World) → Spares w (enforce v detail w)
unfolding enforce
enforce-Spares within_quota detail w = (refl, refl)
enforce-Spares (locked_for n) detail w = (refl, refl)
enforce-Spares index_error detail w = (refl, refl)

pub when-Spares :
    (b : Bool) (m : Http (Unit {0})) (w : World) → Spares w (m w) → Spares w (when b m w)
when-Spares true m w h = h
when-Spares false m w h = (refl, refl)

-- clauses of `except` that answer nothing themselves
abbrev pub Refuses : {A : Type 0} → (Error → Http A) → Type 0
Refuses {A} handler =
    (e : Error) (w : World) (a : A) (after : World) → handler e w ≡ (answered a, after) → ⊥

module _ {A : Type 0} where
  handled_inv :
      (handler : Error → Http A) (r : Result A) (w : World) (a : A) (after : World)
      → Refuses handler
      → handled handler r w ≡ (answered a, after)
      → (r ≡ ok a) × (after ≡ w)
  handled_inv handler (ok b) w a after refuses e = (ground arith, ground arith)
  handled_inv handler (raised x) w a after refuses e = absurd (refuses x w a after e)

  -- a call that has answered returned
  pub call_inv :
      (m : Exec Database A) (handler : Error → Http A) (w : World) {a : A} {after : World}
      → Refuses handler
      → call m handler w ≡ (answered a, after)
      → ((m w.db).0 ≡ ok a) × (after ≡ record w { db = (m w.db).1 })
  call_inv m handler w {a} {after} refuses e =
      handled_inv handler (m w.db).0 (record w { db = (m w.db).1 }) a after refuses e

pub return_inv :
    {A : Type 0} (x : A) (w : World) {a : A} {after : World}
    → return x w ≡ (answered a, after)
    → (x ≡ a) × (w ≡ after)
return_inv x w e = (ground arith, ground arith)
