-- ===== src/Notifications/Warned.antt =====
-- When a budget warning goes out.
use accountant_backend.Prelude.{
  ◌≡◌, ◌⊎◌, ◌<ℤ◌, ◌≤ℤ◌, ◌==◌, refl, arith, Bool, true, false, Option, none, some, Text, ok, Result,
  Bool-cases, inl, inr, find_where, leb_ℤ, ℤ, ap, subst, ◌&&◌, ◌||◌, ◌≤◌, ◌∷◌, any_where, text_eq,
  text_eq_iff, uuid_text,
}
use accountant_backend.Calendar.{Date}
use accountant_backend.Schema.{NotificationDeliveryModel, Database}
use accountant_backend.Domain.{Uuid, Instant, User, MonthlyBudget}
use accountant_backend.Ledger.Budgets
use accountant_backend.Mail.{Mail, Postal}
use accountant_backend.Notifications.{
  Zone, was_delivered, warn_of, send_budget_exceeded, budget_kind, budget_key, budget_mail,
  used_minor,
}
use accountant_backend.Notifications.Once.{delivery, deliver-IsDelivery, IsDelivery}
use accountant_backend.Notifications.Keys.{budget_key_inj}
use accountant_backend.Notifications.Usage.{usage, used_minor-usage}

drop : (a b x : Bool) → (a && b && false || x) ≡ x
drop false b x = refl
drop true false x = refl
drop true true x = refl

-- a delivery of a budget warning to the user is in the table under the key
abbrev pub is_warned : Uuid → Text → Database → Bool
is_warned user_id key db =
    any_where
      (λ (d : NotificationDeliveryModel).
        d.user_id == user_id && text_eq d.kind budget_kind && text_eq d.reference_key key)
      db.deliveries

module _ (accepts : Mail → Bool) (id : Uuid) (user : User) (c : Uuid) (start : Date) (at : Instant)
    (another : Uuid) (other : Date) (limit : ℤ) where
  -- a category, month and limit other than these count as warned of exactly where they did before
  abbrev pub IsApart : ℤ → Postal → Postal → Type 0
  IsApart warned s after =
      ((uuid_text c ≡ uuid_text another)
        × (start.year ≡ other.year)
        × (start.month ≡ other.month)
        × (warned ≡ limit))
      ⊎ (is_warned user.id (budget_key another other limit) after.db
          ≡ is_warned user.id (budget_key another other limit) s.db)

  -- nothing to warn of, or a notification
  abbrev pub IsWarning : MonthlyBudget → ℤ → Postal → Result Bool × Postal → Type 0
  IsWarning budget used s (r, after) =
      let key = budget_key c start budget.limit_minor in
      (((used ≤ℤ budget.limit_minor) ⊎ (is_warned user.id key s.db ≡ true))
        × (r ≡ ok false)
        × (after ≡ s))
      ⊎ ((budget.limit_minor <ℤ used)
          × (is_warned user.id key s.db ≡ false)
          × IsDelivery accepts id user.id budget_kind key at (budget_mail user budget used) s
              (r, after)
          × IsApart budget.limit_minor s after)

  -- the same for a budget that may be there
  abbrev pub IsAlert : Option MonthlyBudget → ℤ → Postal → Result Bool × Postal → Type 0
  IsAlert found used s o =
      ((found ≡ none) × (o ≡ (ok false, s)))
      ⊎ ((budget : MonthlyBudget) × (found ≡ some budget) × IsWarning budget used s o)

  module _ (in_year : start.month ≤ 12) (other_in_year : other.month ≤ 12) where
    recorded-IsApart :
        (warned : ℤ) (s after : Postal)
        → after.db.deliveries
          ≡ delivery id user.id budget_kind (budget_key c start warned) at ∷ s.db.deliveries
        → IsApart warned s after
    unfolding was_delivered any_where
    recorded-IsApart warned s after rows =
        let key = budget_key c start warned in
        let key' = budget_key another other limit in
        elim (Bool-cases (text_eq key key')) [
          | inl same ↦ inl (
              budget_key_inj c another start other warned limit (omega arith) (omega arith)
                ((text_eq_iff key key').0 same))
          | inr apart ↦
              inr
                (rw rows (rw apart (drop (user.id == user.id) (text_eq budget_kind budget_kind) _)))
        ]

    delivered-IsApart :
        (warned : ℤ) (mail : Mail) (s : Postal) (o : Result Bool × Postal)
        → IsDelivery accepts id user.id budget_kind (budget_key c start warned) at mail s o
        → IsApart warned s o.1
    unfolding was_delivered
    delivered-IsApart warned mail s (r, after) (inl (_, _, same)) =
        inr (ap (λ (p : Postal). is_warned user.id (budget_key another other limit) p.db) same)
    delivered-IsApart warned mail s (r, after) (inr (inl (_, _, same))) =
        inr (ap (λ (p : Postal). is_warned user.id (budget_key another other limit) p.db) same)
    delivered-IsApart warned mail s (r, after) (inr (inr (_, _, _, rows))) =
        recorded-IsApart warned s after rows

    warn_of-IsWarning :
        (budget : MonthlyBudget) (used : ℤ) (s : Postal)
        → IsWarning budget used s (warn_of accepts id user c budget start used at s)
    unfolding warn_of
    warn_of-IsWarning budget used s =
        let key = budget_key c start budget.limit_minor in
        let sent =
          deliver-IsDelivery accepts id user.id budget_kind key at (budget_mail user budget used)
            s in
        elim (Bool-cases (leb_ℤ used budget.limit_minor)) [
          | inl within ↦ rw within (inl (inl (ground arith), refl, refl))
          | inr over ↦ elim (Bool-cases (is_warned user.id key s.db)) [
            | inl known ↦ rw over (rw known (inl (inr refl, refl, refl)))
            | inr fresh ↦ rw over (
                rw fresh (
                  inr (
                    ground arith,
                    refl,
                    sent,
                    delivered-IsApart budget.limit_minor (budget_mail user budget used) s _ sent,
                  )))
          ]
        ]

    alert :
        (found : Option MonthlyBudget) (used : ℤ) (s : Postal)
        → IsAlert found used s (elim found [
          | none ↦ (ok false, s)
          | some budget ↦ warn_of accepts id user c budget start used at s
        ])
    alert none used s = inl (refl, refl)
    alert (some budget) used s = inr (budget, refl, warn_of-IsWarning budget used s)

-- Where the month of the period and the one compared with it are numbered to twelve: without a
-- budget of the category nothing happens. With one, the expenses of the user on it in the period
-- and the amounts of the active subscriptions on it that none of them charges are compared to the
-- limit: where they are at most the limit, or a delivery has the key of that category, month and
-- limit, nothing happens, and else the warning is sent and recorded, refused by the server with
-- nothing changed, or sent and its record refused. The record counts for no other month, limit or
-- category whose identifier prints differently.
pub send_budget_exceeded-IsAlert :
    (accepts : Mail → Bool) (zone : Zone) (name_le : Text → Text → Bool) (id : Uuid) (user : User)
    (c : Uuid) (start end at : Instant) (s : Postal) (another : Uuid) (other : Date) (limit : ℤ)
    → (zone.local_date start).month ≤ 12
    → other.month ≤ 12
    → IsAlert accepts id user c
        (zone.local_date start)
        at
        another
        other
        limit
        (find_where
          (λ (b : MonthlyBudget). b.category_id == c)
          (Budgets.list_for_user name_le s.db user.id))
        (usage user.id c start end s.db)
        s
        (send_budget_exceeded accepts zone name_le id user c start end at s)
unfolding send_budget_exceeded
send_budget_exceeded-IsAlert accepts zone name_le id user c start end at s another other limit
      in_year other_in_year =
    let found =
      find_where (λ (b : MonthlyBudget). b.category_id == c)
        (Budgets.list_for_user name_le s.db user.id) in
    let start_on = zone.local_date start in
    subst
      (λ used.
        IsAlert accepts id user c start_on at another other limit found used s
          (send_budget_exceeded accepts zone name_le id user c start end at s))
      (used_minor-usage user.id c start end name_le s.db)
      (alert accepts id user c start_on at another other limit in_year other_in_year found
        (used_minor name_le s.db user.id c start end) s)
