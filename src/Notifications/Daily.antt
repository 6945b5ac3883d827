-- ===== src/Notifications/Daily.antt =====
-- `SendDailyExpenseSummary` of app/application/notifications/services.py.
use accountant_backend.Prelude.{
  ℤ, ◌+ℤ◌, leb_ℤ, sum_by, Bool, true, false, none, some, List, [], ◌∷◌, ◌++◌, map, Text, codes,
  text_eq, decimal, two_digits, four_digits, any_where, select_where, update_where, order_by,
  if◌then◌else◌, Exec, ok,
}
use accountant_backend.Calendar.{Date, same_date}
use accountant_backend.Domain.{Uuid, Instant, expense, same_kind, Transaction, User}
use accountant_backend.Ledger.Transactions.{query_for_user}
use accountant_backend.Mail.{Mail, MailRow, Postal, greet, greeting_only, format_lira}
use accountant_backend.Notifications.{Zone, was_delivered, summary_kind, deliver}

-- `summary_date.isoformat()`
unfoldable pub iso_date : Date → Text
unfolding four_digits two_digits
iso_date d = four_digits d.year ++ b'-' ∷ two_digits d.month ++ b'-' ∷ two_digits d.day

-- `f"{summary_date:%d.%m.%Y}"`
unfoldable pub dotted_date : Date → Text
unfolding decimal two_digits
dotted_date d = two_digits d.day ++ b'.' ∷ two_digits d.month ++ b'.' ∷ decimal d.year

-- an item of `category_totals`
pub record CategoryTotal : Type 0 where
  pub name : Text
  pub amount_minor : ℤ

abbrev is_named : Text → CategoryTotal → Bool
is_named name c = text_eq c.name name

-- `category_totals[name] = category_totals.get(name, 0) + amount`
abbrev pub add_total : Transaction → List CategoryTotal → List CategoryTotal
add_total t totals =
    if any_where (is_named t.category_name) totals
    then update_where (is_named t.category_name)
        (λ c. record c { amount_minor = c.amount_minor +ℤ t.amount_minor }) totals
    else totals ++ record { name = t.category_name; amount_minor = t.amount_minor } ∷ []

-- `for item in expenses`
unfoldable pub category_totals : List Transaction → List CategoryTotal → List CategoryTotal
unfolding any_where update_where text_eq
category_totals [] totals = totals
category_totals (t ∷ rest) totals = category_totals rest (add_total t totals)

-- `rows`: the largest first
unfoldable pub summary_rows : List Transaction → List MailRow
unfolding category_totals order_by format_lira
summary_rows expenses =
    map (λ (c : CategoryTotal). record { label = c.name; value = format_lira c.amount_minor })
      (order_by (λ (a b : CategoryTotal). leb_ℤ b.amount_minor a.amount_minor)
        (category_totals expenses []))

abbrev is_empty : List MailRow → Bool
is_empty [] = true
is_empty (_ ∷ _) = false

unfoldable pub summary_mail : User → Bool → Date → List Transaction → Mail
unfolding dotted_date format_lira sum_by summary_rows greet
summary_mail user is_today summary_date expenses =
    let day_label = if is_today then codes "Bugün" else dotted_date summary_date ++ codes " günü" in
    let total_label =
      if is_today then codes "Bugünkü" else dotted_date summary_date ++ codes " tarihli" in
    let total = format_lira (sum_by (λ (t : Transaction). t.amount_minor) expenses) in
    let rows = summary_rows expenses in
    record {
      recipient = user.email;
      subject = day_label ++ codes " " ++ total ++ codes " harcadın";
      message = record (greeting_only (greet user.display_name)) {
        figure = some (record { label = total_label ++ codes " toplam harcaman"; value = total });
        rows_title = if is_empty rows then none else some (codes "Kategori özeti");
        rows = rows;
        paragraphs =
            if is_empty rows then codes "Bugün için kayıtlı bir gider bulunmuyor." ∷ [] else [];
      };
    }

module _ (accepts : Mail → Bool) (zone : Zone) where
  -- `SendDailyExpenseSummary.execute`
  unfoldable pub send_daily_summary :
      Uuid → User → Date → Instant → Instant → Instant → Exec Postal Bool
  unfolding was_delivered deliver query_for_user select_where
  send_daily_summary id user summary_date period_start period_end delivered_at s =
      if was_delivered s.db user.id summary_kind (iso_date summary_date)
      then (ok false, s)
      else let expenses =
          select_where (λ (t : Transaction). same_kind t.kind expense)
            (query_for_user s.db user.id period_start period_end none none) in
        deliver accepts id user.id summary_kind (iso_date summary_date) delivered_at
          (summary_mail user (same_date (zone.local_date delivered_at) summary_date) summary_date
            expenses)
          s
