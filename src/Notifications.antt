-- ===== src/Notifications.antt =====
-- app/application/notifications/services.py with the repository of the deliveries. The zone is a
-- parameter; a read of the transactions is the query, as the cache answers it.
pub mod Daily
pub mod Runtime
pub mod Once
pub mod Repeats
pub mod Owed
pub mod Keys
pub mod Usage
pub mod Warned
use accountant_backend.Prelude.{
  ℕ, ℤ, pos, negsuc, suc, ◌+ℤ◌, ◌-ℤ◌, leb_ℤ, sum_by, Bool, true, false, not, ◌&&◌, ◌||◌, Option,
  none, some, is_some, List, [], ◌∷◌, ◌++◌, map, Text, codes, text_eq, uuid_text, decimal,
  two_digits, four_digits, any_where, find_where, select_where, order_by, ◌==◌, if◌then◌else◌, Exec,
  ok, raised, gets, pure, ◌>>=◌, ◌>>◌, integrity_error,
}
use accountant_backend.Calendar.{Date, same_date}
use accountant_backend.Domain.{
  Uuid, Instant, expense, same_kind, Transaction, Subscription, MonthlyBudget, User,
}
use accountant_backend.Schema.{NotificationDeliveryModel, Database}
use accountant_backend.Events.{commit, other_row}
use accountant_backend.Ledger.Categories.{user_exists}
use accountant_backend.Ledger.Transactions.{query_for_user}
use accountant_backend.Ledger.Budgets
use accountant_backend.Ledger.Subscriptions
use accountant_backend.Mail.{
  Mail, MailMessage, MailRow, Postal, greet, greeting_only, send, on_database, format_lira,
}

-- `ZoneInfo`: the local date of a moment, its time of day in seconds, and `datetime.combine`
pub record Zone : Type 0 where
  pub local_date : Instant → Date
  pub local_time : Instant → ℕ
  pub combine : Date → ℕ → Instant

abbrev pub is_delivery : Uuid → Text → Text → NotificationDeliveryModel → Bool
is_delivery user_id kind reference_key d =
    d.user_id == user_id && text_eq d.kind kind && text_eq d.reference_key reference_key

-- `was_delivered`
unfoldable pub was_delivered : Database → Uuid → Text → Text → Bool
unfolding any_where text_eq
was_delivered db user_id kind reference_key =
    any_where (is_delivery user_id kind reference_key) db.deliveries

-- `mark_delivered`: the primary key, the unique columns and the foreign key may refuse the row
unfoldable pub mark_delivered : Uuid → Uuid → Text → Text → Instant → Exec Database (Unit {0})
unfolding any_where text_eq commit
mark_delivered id user_id kind reference_key delivered_at db =
    if any_where
        (λ (d : NotificationDeliveryModel). d.id == id || is_delivery user_id kind reference_key d)
        db.deliveries
      || not (user_exists db user_id)
    then (raised integrity_error, db)
    else (
      ok tt,
      commit (other_row ∷ []) (record db {
        deliveries =
            record {
              id = id;
              user_id = user_id;
              kind = kind;
              reference_key = reference_key;
              delivered_at = delivered_at;
            }
            ∷ db.deliveries;
      }),
    )

-- `str` of an integer
unfoldable pub decimal_ℤ : ℤ → Text
unfolding decimal
decimal_ℤ (pos n) = decimal n
decimal_ℤ (negsuc n) = b'-' ∷ decimal (suc n)

unfoldable pub budget_kind : Text
budget_kind = codes "BUDGET_EXCEEDED"

unfoldable pub summary_kind : Text
summary_kind = codes "DAILY_EXPENSE_SUMMARY"

-- `f"{category_id}:{period_start:%Y-%m}:{budget.limit_minor}"`
unfoldable pub budget_key : Uuid → Date → ℤ → Text
unfolding uuid_text decimal two_digits decimal_ℤ
budget_key category_id start limit_minor =
    uuid_text category_id
    ++ b':' ∷ decimal start.year
    ++ b'-' ∷ two_digits start.month
    ++ b':' ∷ decimal_ℤ limit_minor

abbrev pub is_expense_in : Uuid → Transaction → Bool
is_expense_in category_id t = same_kind t.kind expense && t.category_id == category_id

-- `item.id in charged_subscription_ids`
unfoldable pub is_charged : List Transaction → Uuid → Bool
is_charged [] id = false
is_charged (t ∷ rest) id =
    elim t.subscription_id [ none ↦ false | some s ↦ s == id ] || is_charged rest id

-- `used_minor`: what the category has cost in the period, and what its subscriptions still will
unfoldable pub used_minor : (Text → Text → Bool) → Database → Uuid → Uuid → Instant → Instant → ℤ
unfolding query_for_user select_where sum_by is_charged Subscriptions.list_active
used_minor name_le db user_id category_id period_start period_end =
    let expenses =
      select_where (is_expense_in category_id)
        (query_for_user db user_id period_start period_end none none) in
    sum_by (λ (t : Transaction). t.amount_minor) expenses
    +ℤ sum_by (λ (s : Subscription). s.amount_minor)
        (select_where
          (λ (s : Subscription). s.category_id == category_id && not (is_charged expenses s.id))
          (Subscriptions.list_active name_le db user_id))

unfoldable pub budget_mail : User → MonthlyBudget → ℤ → Mail
unfolding greet format_lira
budget_mail user budget used =
    let exceeded = format_lira (used -ℤ budget.limit_minor) in
    record {
      recipient = user.email;
      subject = budget.category_name ++ codes " aylık limitini aştın";
      message = record (greeting_only (greet user.display_name)) {
        figure =
            some (record {
              label = budget.category_name ++ codes " · bu ay";
              value = format_lira used;
            });
        rows =
            record { label = codes "Aylık limitin"; value = format_lira budget.limit_minor }
            ∷ record { label = codes "Limit aşımı"; value = exceeded }
            ∷ [];
        notice = some (
            budget.category_name
            ++ codes " kategorisinde aylık limitini "
            ++ exceeded
            ++ codes " aştın.");
        footnote =
            some (codes "Limitini değiştirirsen yeni tavanı aştığında yeniden haber veririz.");
      };
    }

module _ (accepts : Mail → Bool) where
  -- the mail and the record of its delivery
  unfoldable pub deliver : Uuid → Uuid → Text → Text → Instant → Mail → Exec Postal Bool
  unfolding send mark_delivered
  deliver id user_id kind reference_key delivered_at mail = do
    send accepts mail
    on_database (mark_delivered id user_id kind reference_key delivered_at)
    pure true

  -- the end of `SendBudgetExceededNotification.execute`, for the budget that it has found
  unfoldable pub warn_of :
      Uuid → User → Uuid → MonthlyBudget → Date → ℤ → Instant → Exec Postal Bool
  unfolding deliver was_delivered
  warn_of id user category_id budget start used delivered_at s =
      let key = budget_key category_id start budget.limit_minor in
      if leb_ℤ used budget.limit_minor || was_delivered s.db user.id budget_kind key
      then (ok false, s)
      else deliver id user.id budget_kind key delivered_at (budget_mail user budget used) s

  module _ (zone : Zone) (name_le : Text → Text → Bool) where
    -- `SendBudgetExceededNotification.execute`
    unfoldable pub send_budget_exceeded :
        Uuid → User → Uuid → Instant → Instant → Instant → Exec Postal Bool
    unfolding find_where Budgets.list_for_user used_minor warn_of
    send_budget_exceeded id user category_id period_start period_end delivered_at s =
        elim (find_where (λ (b : MonthlyBudget). b.category_id == category_id)
          (Budgets.list_for_user name_le s.db user.id)) [
            | none ↦ (ok false, s)
            | some budget ↦
                warn_of id user category_id budget (zone.local_date period_start)
                  (used_minor name_le s.db user.id category_id period_start period_end) delivered_at
                  s
          ]
