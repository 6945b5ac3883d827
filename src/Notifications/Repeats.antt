-- ===== src/Notifications/Repeats.antt =====
-- A summary or a warning that has gone out is not sent again, whatever is sent in between.
use accountant_backend.Prelude.{
  ◌≡◌, ◌∙◌, refl, ap, arith, Bool, true, false, ◌||◌, Option, none, some, List, [], ◌∷◌, Text,
  text_eq_refl, any_where, ◌==◌, ok, inl, inr, find_where, if◌then◌else◌, leb_ℤ, ℤ, Result,
}
use accountant_backend.Calendar.{Date}
use accountant_backend.Domain.{Uuid, Instant, User, MonthlyBudget}
use accountant_backend.Ledger.Budgets
use accountant_backend.Mail.{Mail, Postal}
use accountant_backend.Notifications.{
  Zone, was_delivered, is_delivery, deliver, warn_of, send_budget_exceeded, summary_kind,
  budget_kind, budget_key, budget_mail, used_minor,
}
use accountant_backend.Notifications.Once.{deliver-IsDelivery, IsDelivery}
use accountant_backend.Notifications.Daily.{send_daily_summary, iso_date}

any_behind {ℓ} :
    {A : Type ℓ} (p : A → Bool) (x : A) (xs : List A)
    → any_where p xs ≡ true
    → any_where p (x ∷ xs) ≡ true
unfolding any_where
any_behind p x xs h = ground arith

-- one way of a test, or the other
if_true {ℓ} : {A : Type ℓ} (b : Bool) (x y : A) → b ≡ true → (if b then x else y) ≡ x
if_true b x y h = rw h refl

module _ (accepts : Mail → Bool) (v : Uuid) (l other : Text) where
  -- the delivery is still recorded after a step from `s`
  abbrev Keeps : Postal → Result Bool × Postal → Type 0
  Keeps s o = was_delivered s.db v l other ≡ true → was_delivered o.1.db v l other ≡ true

  kept :
      (id u : Uuid) (k key : Text) (at : Instant) (mail : Mail) (s : Postal)
      (o : Result Bool × Postal)
      → IsDelivery accepts id u k key at mail s o
      → Keeps s o
  unfolding was_delivered
  kept id u k key at mail s o (inl (_, _, e)) sent =
      ap (λ (t : Postal). was_delivered t.db v l other) e ∙ sent
  kept id u k key at mail s o (inr (inl (_, _, e))) sent =
      ap (λ (t : Postal). was_delivered t.db v l other) e ∙ sent
  kept id u k key at mail s o (inr (inr (_, _, _, e))) sent =
      ap (any_where (is_delivery v l other)) e
      ∙ any_behind (is_delivery v l other)
          (record { id = id; user_id = u; kind = k; reference_key = key; delivered_at = at })
          s.db.deliveries sent

  deliver-Keeps :
      (id u : Uuid) (k key : Text) (at : Instant) (mail : Mail) (s : Postal)
      → Keeps s (deliver accepts id u k key at mail s)
  deliver-Keeps id u k key at mail s =
      kept id u k key at mail s _ (deliver-IsDelivery accepts id u k key at mail s)

  -- a step that is skipped, or that delivers
  either-Keeps :
      (b : Bool) (s : Postal) (o : Result Bool × Postal)
      → Keeps s o
      → Keeps s (if b then (ok false, s) else o)
  either-Keeps true s o h sent = sent
  either-Keeps false s o h sent = h sent

  module _ (zone : Zone) (name_le : Text → Text → Bool) where
    summary-Keeps :
        (id : Uuid) (user : User) (d : Date) (start end at : Instant) (s : Postal)
        → Keeps s (send_daily_summary accepts zone id user d start end at s)
    unfolding send_daily_summary
    summary-Keeps id user d start end at s =
        either-Keeps (was_delivered s.db user.id summary_kind (iso_date d)) s _
          (deliver-Keeps id user.id summary_kind (iso_date d) at _ s)

    alert-Keeps :
        (id : Uuid) (user : User) (c : Uuid) (start : Date) (used : ℤ) (at : Instant) (s : Postal)
        (found : Option MonthlyBudget)
        → Keeps s (elim found [
          | none ↦ (ok false, s)
          | some budget ↦ warn_of accepts id user c budget start used at s
        ])
    unfolding warn_of
    alert-Keeps id user c start used at s none = λ sent. sent
    alert-Keeps id user c start used at s (some budget) =
        let key = budget_key c start budget.limit_minor in
        either-Keeps (leb_ℤ used budget.limit_minor || was_delivered s.db user.id budget_kind key) s
          _ (deliver-Keeps id user.id budget_kind key at (budget_mail user budget used) s)

    warning-Keeps :
        (id : Uuid) (user : User) (c : Uuid) (start end at : Instant) (s : Postal)
        → Keeps s (send_budget_exceeded accepts zone name_le id user c start end at s)
    unfolding send_budget_exceeded
    warning-Keeps id user c start end at s =
        alert-Keeps id user c (zone.local_date start) (used_minor name_le s.db user.id c start end)
          at s
          (find_where (λ (b : MonthlyBudget). b.category_id == c)
            (Budgets.list_for_user name_le s.db user.id))

-- a call of one of the two use cases
pub data Call : Type 0 where
  warning : Uuid → User → Uuid → Instant → Instant → Instant → Call
  summary : Uuid → User → Date → Instant → Instant → Instant → Call

module _ (accepts : Mail → Bool) (zone : Zone) (name_le : Text → Text → Bool) where
  abbrev pub after_call : Call → Postal → Postal
  after_call (warning id user c start end at) s =
      (send_budget_exceeded accepts zone name_le id user c start end at s).1
  after_call (summary id user d start end at) s =
      (send_daily_summary accepts zone id user d start end at s).1

  unfoldable pub after_calls : List Call → Postal → Postal
  after_calls [] s = s
  after_calls (call ∷ calls) s = after_calls calls (after_call call s)

  calls_keep :
      (v : Uuid) (l other : Text) (calls : List Call) (s : Postal)
      → was_delivered s.db v l other ≡ true
      → was_delivered (after_calls calls s).db v l other ≡ true
  unfolding after_calls
  calls_keep v l other [] s sent = sent
  calls_keep v l other (warning id user c start end at ∷ calls) s sent =
      calls_keep v l other calls _
        (warning-Keeps accepts v l other zone name_le id user c start end at s sent)
  calls_keep v l other (summary id user d start end at ∷ calls) s sent =
      calls_keep v l other calls _
        (summary-Keeps accepts v l other zone name_le id user d start end at s sent)

  recorded :
      (id u : Uuid) (k key : Text) (at : Instant) (mail : Mail) (s : Postal)
      (o : Result Bool × Postal) (b : Bool)
      → IsDelivery accepts id u k key at mail s o
      → o.0 ≡ ok b
      → was_delivered o.1.db u k key ≡ true
  unfolding was_delivered any_where
  recorded id u k key at mail s o b (inl (_, e, _)) done = absurd (ground arith)
  recorded id u k key at mail s o b (inr (inl (_, e, _))) done = absurd (ground arith)
  recorded id u k key at mail s o b (inr (inr (_, _, _, e))) done =
      ap (any_where (is_delivery u k key)) e ∙ ground (arith, text_eq_refl k, text_eq_refl key)

  either_records :
      (u : Uuid) (k key : Text) (test : Bool) (s : Postal) (o : Result Bool × Postal) (b : Bool)
      → (test ≡ true → was_delivered s.db u k key ≡ true)
      → (o.0 ≡ ok b → was_delivered o.1.db u k key ≡ true)
      → (if test then (ok false, s) else o).0 ≡ ok b
      → was_delivered (if test then (ok false, s) else o).1.db u k key ≡ true
  either_records u k key true s o b before new done = before refl
  either_records u k key false s o b before new done = new done

  summary_records :
      (id : Uuid) (user : User) (d : Date) (start end at : Instant) (s : Postal) (b : Bool)
      → (send_daily_summary accepts zone id user d start end at s).0 ≡ ok b
      → was_delivered
          (send_daily_summary accepts zone id user d start end at s).1.db
          user.id
          summary_kind
          (iso_date d)
        ≡ true
  unfolding send_daily_summary
  summary_records id user d start end at s b done =
      let k = summary_kind in
      let key = iso_date d in
      either_records user.id k key (was_delivered s.db user.id k key) s _ b (λ e. e)
        (recorded id user.id k key at _ s _ b (deliver-IsDelivery accepts id user.id k key at _ s))
        done

  -- Once the summary of a day has returned for a user, a later one of the same day and user sends
  -- nothing and changes nothing, whatever notifications come between and whatever else the later
  -- call is given.
  pub summary_once :
      (id : Uuid) (user : User) (d : Date) (start end at : Instant) (s : Postal) (b : Bool)
      (calls : List Call) (id' : Uuid) (user' : User) (start' end' at' : Instant)
      → (send_daily_summary accepts zone id user d start end at s).0 ≡ ok b
      → user'.id ≡ user.id
      → let later =
          after_calls calls (send_daily_summary accepts zone id user d start end at s).1 in
        send_daily_summary accepts zone id' user' d start' end' at' later ≡ (ok false, later)
  unfolding send_daily_summary
  summary_once id user d start end at s b calls id' user' start' end' at' done same =
      let later = after_calls calls (send_daily_summary accepts zone id user d start end at s).1 in
      if_true (was_delivered later.db user'.id summary_kind (iso_date d)) (ok false, later) _
        (ap (λ u. was_delivered later.db u summary_kind (iso_date d)) same
          ∙ calls_keep user.id summary_kind (iso_date d) calls _
              (summary_records id user d start end at s b done))
