-- ===== src/Examples/Notices.antt =====
-- The theorems on mails and notifications at the sample.
use accountant_backend.Prelude.{
  ◌≡◌, ◌≤◌, refl, arith, ℕ, pos, Bool, true, false, some, List, [], ◌∷◌, All, Text, codes, text_eq,
  strip, find_where, length, ok, ◌==◌, ◌+ℤ◌,
}
use accountant_backend.Calendar.{date, days_before}
use accountant_backend.Domain.{User, MonthlyBudget}
use accountant_backend.Schema.{MonthlyBudgetModel}
use accountant_backend.Ledger.Budgets
use accountant_backend.Mail.{Mail, Postal, format_lira}
use accountant_backend.Settings.{describe_wait}
use accountant_backend.Identity.Users.{has_email, has_id, user_to_domain}
use accountant_backend.Identity.Sessions.{reset_password}
use accountant_backend.Identity.Mails.{request_password_reset, reset_mail, format_hours}
use accountant_backend.Identity.Mails.Reset.{mailed_reset}
use accountant_backend.Notifications.{deliver, send_budget_exceeded, used_minor, summary_kind}
use accountant_backend.Notifications.Once.{IsDelivery, deliver-IsDelivery}
use accountant_backend.Notifications.Repeats
use accountant_backend.Notifications.Repeats.{summary_once}
use accountant_backend.Notifications.Daily.{send_daily_summary}
use accountant_backend.Notifications.Runtime.{dates_owed}
use accountant_backend.Notifications.Owed.{Owes, IsOwed, Has, dates_owed-IsOwed}
use accountant_backend.Notifications.Usage.{usage}
use accountant_backend.Notifications.Warned.{IsAlert, send_budget_exceeded-IsAlert}
use accountant_backend.Examples.{sample, plain, ada, music}
use accountant_backend.Examples.Sites.{site_settings, zone}

abbrev open_server : Mail → Bool
open_server mail = true

abbrev any_order : Text → Text → Bool
any_order a b = true

abbrev ada_user : User
ada_user = user_to_domain ada

-- a limit of 30 liras on music, of which a concert and a subscription have cost 45
abbrev music_budget : MonthlyBudgetModel
music_budget = record {
  id = 60;
  user_id = 1;
  category_id = 11;
  limit_minor = pos 3000;
  created_at = 0;
  updated_at = 0;
  category = music;
}

abbrev post : Postal
post = record { db = record sample { budgets = music_budget ∷ [] }; outbox = [] }

found : find_where (has_email (plain.lower (strip (codes " ada@bank.org")))) sample.users ≡ some ada
unfolding find_where text_eq strip
found = refl

own : find_where (has_id 1) sample.users ≡ some ada
unfolding find_where
own = refl

asked :
    (request_password_reset plain site_settings open_server 51
      (codes "r9")
      100
      (codes " ada@bank.org")
      post).0
    ≡ ok true
unfolding request_password_reset text_eq user_to_domain
asked = refl

mailed_reset_example :
    let after =
      (request_password_reset plain site_settings open_server 51
        (codes "r9")
        100
        (codes " ada@bank.org")
        post).1 in
    (ada.is_active ≡ true)
    × (after.outbox ≡ reset_mail site_settings ada_user (codes "r9") ∷ [])
    × ((user : User) × ((reset_password plain (codes "r9") (codes "loom") 200 201 after.db).0
          ≡ ok user)
        × (user.id ≡ 1)
        × (user.password_hash ≡ plain.hash_password (codes "loom")))
mailed_reset_example =
    mailed_reset plain site_settings open_server 51 (codes "r9") (codes "loom") 100 200 201
      (codes " ada@bank.org") post ada found own (omega arith) asked

deliver-IsDelivery_example :
    IsDelivery open_server 70 1 summary_kind
      (codes "2024-02-28")
      900
      (reset_mail site_settings ada_user (codes "r9"))
      post
      (deliver open_server 70 1 summary_kind
        (codes "2024-02-28")
        900
        (reset_mail site_settings ada_user (codes "r9"))
        post)
deliver-IsDelivery_example =
    deliver-IsDelivery open_server 70 1 summary_kind (codes "2024-02-28") 900
      (reset_mail site_settings ada_user (codes "r9")) post

sent : (send_daily_summary open_server zone 70 ada_user (date 2024 2 28) 0 900 950 post).0 ≡ ok true
unfolding send_daily_summary user_to_domain
sent = refl

abbrev between : List Repeats.Call
between = Repeats.warning 71 ada_user 11 0 3000 960 ∷ []

summary_once_example :
    let later =
      Repeats.after_calls open_server zone any_order between
        (send_daily_summary open_server zone 70 ada_user (date 2024 2 28) 0 900 950 post).1 in
    send_daily_summary open_server zone 72 ada_user (date 2024 2 28) 0 900 970 later
    ≡ (ok false, later)
summary_once_example =
    summary_once open_server zone any_order 70 ada_user (date 2024 2 28) 0 900 950 post true between
      72 ada_user 0 900 970 sent refl

dates_owed-IsOwed_example :
    (length (dates_owed zone ada_user 90000 3) ≤ 4)
    × All (IsOwed zone ada_user 90000 3) (dates_owed zone ada_user 90000 3)
    × ((k : ℕ)
        → k ≤ 3
        → Owes zone ada_user 90000 k
        → Has zone ada_user 90000
            (days_before k (zone.local_date 90000))
            (dates_owed zone ada_user 90000 3))
dates_owed-IsOwed_example = dates_owed-IsOwed zone ada_user 90000 3

three_days : dates_owed zone ada_user 90000 3 ≡ date 2024 2 28 ∷ date 2024 2 29 ∷ date 2024 3 1 ∷ []
unfolding dates_owed user_to_domain
three_days = refl

send_budget_exceeded-IsAlert_example :
    IsAlert open_server 71 ada_user 11
      (zone.local_date 0)
      960
      12
      (date 2024 2 1)
      (pos 4000)
      (find_where
        (λ (b : MonthlyBudget). b.category_id == 11)
        (Budgets.list_for_user any_order post.db 1))
      (usage 1 11 0 3000 post.db)
      post
      (send_budget_exceeded open_server zone any_order 71 ada_user 11 0 3000 960 post)
unfolding user_to_domain
send_budget_exceeded-IsAlert_example =
    send_budget_exceeded-IsAlert open_server zone any_order 71 ada_user 11 0 3000 960 post 12
      (date 2024 2 1) (pos 4000) (omega arith) (omega arith)

counted : usage 1 11 0 3000 post.db ≡ pos 4500
unfolding usage ◌+ℤ◌
counted = refl

over_limit : used_minor any_order post.db 1 11 0 3000 ≡ pos 4500
unfolding used_minor ◌+ℤ◌
over_limit = refl

warned :
    (send_budget_exceeded open_server zone any_order 71 ada_user 11 0 3000 960 post).0 ≡ ok true
unfolding send_budget_exceeded ◌+ℤ◌ user_to_domain
warned = refl

an_hour_and_a_half : format_hours 90 ≡ codes "1.5"
unfolding format_hours
an_hour_and_a_half = refl

grouped_lira : format_lira (pos 248500) ≡ codes "2.485,00 TL"
unfolding format_lira
grouped_lira = refl

two_minutes : describe_wait 150 ≡ codes "2 dakika"
unfolding describe_wait
two_minutes = refl
