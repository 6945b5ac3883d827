-- ===== src/Notifications/Runtime.antt =====
-- app/infrastructure/notifications/runtime.py: when the two notifications are due. A rolled-back
-- session keeps what it had committed.
use accountant_backend.Prelude.{
  ℕ, zero, suc, ◌+◌, Bool, not, ◌&&◌, ◌||◌, none, some, List, [], ◌∷◌, Text, ltb, ◌==◌,
  if◌then◌else◌,
}
use accountant_backend.Calendar.{Date, date, date_lt, next_day, days_before}
use accountant_backend.Domain.{Uuid, Instant, User}
use accountant_backend.Settings.{Settings, mail_enabled}
use accountant_backend.Mail.{Mail, Postal, is_placeholder_address}
use accountant_backend.Identity.Users.{get_by_id, list_active}
use accountant_backend.Notifications.{Zone, send_budget_exceeded}
use accountant_backend.Notifications.Daily.{send_daily_summary}

-- `_month_range`, before the last month of the calendar
unfoldable pub month_range : Zone → Instant → Instant × Instant
month_range zone moment =
    let d = zone.local_date moment in
    (
      zone.combine (date d.year d.month 1) 0,
      if d.month == 12
          then zone.combine (date (d.year + 1) 1 1) 0
          else zone.combine (date d.year (d.month + 1) 1) 0,
    )

-- `_summary_dates_owed`: an offset is kept unless its day is before the account, or is today before
-- the chosen hour
abbrev pub is_owed : Zone → User → Instant → ℕ → Bool
is_owed zone user now offset =
    let today = zone.local_date now in
    let summary_date = days_before offset today in
    not (date_lt summary_date (zone.local_date user.created_at))
    && not (offset == 0 && ltb (zone.local_time now) user.daily_summary_time)

-- `_summary_dates_owed`: the loop from an offset down to today
unfoldable pub dates_owed : Zone → User → Instant → ℕ → List Date
unfolding days_before date_lt
dates_owed zone user now zero = if is_owed zone user now 0 then zone.local_date now ∷ [] else []
dates_owed zone user now (suc offset) =
    let rest = dates_owed zone user now offset in
    if is_owed zone user now (suc offset)
    then days_before (suc offset) (zone.local_date now) ∷ rest
    else rest

module _ (settings : Settings) (accepts : Mail → Bool) (lower : Text → Text) (zone : Zone)
    (text_le : Text → Text → Bool) where
  -- `notify_budget_limit`
  unfoldable pub notify_budget_limit : Uuid → Instant → Uuid → Uuid → Postal → Postal
  unfolding mail_enabled month_range get_by_id is_placeholder_address send_budget_exceeded
  notify_budget_limit id now user_id category_id s =
      if not (mail_enabled settings) then s else elim (get_by_id s.db user_id) [
        | none ↦ s
        | some user ↦
            if not user.is_active
              || is_placeholder_address lower user.email
              || not user.budget_alerts_enabled
            then s
            else (send_budget_exceeded accepts zone text_le id user category_id
                (month_range zone now).0 (month_range zone now).1 now s).1
      ]

  -- `for summary_date in _summary_dates_owed(...)`, each with an identifier of its own; a mail that
  -- fails does not stop the others
  unfoldable pub send_owed : (Postal → Uuid) → Instant → User → List Date → Postal → Postal
  unfolding send_daily_summary next_day
  send_owed fresh now user [] s = s
  send_owed fresh now user (d ∷ dates) s =
      send_owed fresh now user dates
        (send_daily_summary accepts zone (fresh s) user d (zone.combine d 0)
          (zone.combine (next_day d) 0) now s).1

  -- `for user in users`
  unfoldable pub send_to_all : (Postal → Uuid) → Instant → List User → Postal → Postal
  unfolding send_owed dates_owed is_placeholder_address
  send_to_all fresh now [] s = s
  send_to_all fresh now (user ∷ users) s = send_to_all fresh now users (
      if is_placeholder_address lower user.email || not user.daily_summary_enabled
      then s
      else send_owed fresh now user (dates_owed zone user now settings.daily_summary_catchup_days)
          s)

  -- `send_daily_summaries`
  unfoldable pub send_daily_summaries : (Postal → Uuid) → Instant → Postal → Postal
  unfolding mail_enabled list_active send_to_all
  send_daily_summaries fresh now s =
      if not (mail_enabled settings) then s else send_to_all fresh now (list_active text_le s.db) s
