-- ===== src/Examples/Requests.antt =====
-- The theorems on requests at the sample.
use accountant_backend.Prelude.{
  any_where, ◌≡◌, ◌≤◌, ◌<◌, refl, arith, ℕ, pos, true, false, none, some, List, [], ◌∷◌, ◌++◌, Text,
  codes, text_eq, strip, find_where, length, select_where, sum_by, contains_char, ◌*◌,
}
use Prim.Native.Nat.{◌^◌}
use accountant_backend.Schema.{UserModel, Database}
use accountant_backend.Settings.{client_address, is_trusted, trusted_proxies, is_filled}
use accountant_backend.Settings.Proxies.{client_address-appended}
use accountant_backend.RateLimit
use accountant_backend.RateLimit.Window.{live}
use accountant_backend.RateLimit.Answers.{Step, recording, run, attempts}
use accountant_backend.Identity.Users.{has_email, user_to_domain}
use accountant_backend.Identity.Tokens.{has_hash}
use accountant_backend.Identity.Spent.{adding, after_calls}
use accountant_backend.Admin.{get_current_user}
use accountant_backend.Admin.Figures.{list_category_spending, get_totals}
use accountant_backend.Admin.Spending.{spent, list_category_spending-Sums}
use accountant_backend.Ledger.Transactions.{query_balance}
use accountant_backend.Schemas.{
  LoginRequest, user_body, user_response, Decimal, amount_as_minor, magnitude, detail_body,
}
use accountant_backend.Schemas.Money.Bounds.{amount_as_minor-Fits}
use accountant_backend.Http.{World, Reply, reply, answered, http_exception}
use accountant_backend.Http.Messages.{too_many_logins, log_in_again, not_allowed}
use accountant_backend.Http.Steps.{IsPutOff}
use accountant_backend.Http.Auth.{
  login, login_email, set_session_cookies, logout, refresh, clear_session_cookies,
}
use accountant_backend.Http.Auth.Locked.{login_locked_out}
use accountant_backend.Http.Auth.Opened.{login-Opens, Opens}
use accountant_backend.Http.Auth.Ended.{logout_ends}
use accountant_backend.Http.Credentials.{forgot_password}
use accountant_backend.Http.Credentials.Silent.{forgot_password_silent}
use accountant_backend.Http.Requests
use accountant_backend.Http.Requests.{permissions_of, has_permissions, is_accepted, handle, serve}
use accountant_backend.Http.Requests.Guards.{Lacks, all_users, serve_bars}
use accountant_backend.Examples.{sample, plain, ada, session}
use accountant_backend.Examples.Sites.{lan, site_settings, site, chance, world, visitor}

abbrev guess : LoginRequest
guess = record { email = codes "ada@bank.org"; password = codes "engine" }

abbrev ada_key : Text
ada_key = codes "login:email:ada@bank.org"

abbrev quarter : Text → ℕ
quarter key = 900

abbrev five : List Step
five =
    recording ada_key 990005
    ∷ recording ada_key 990004
    ∷ recording ada_key 990003
    ∷ recording ada_key 990002
    ∷ recording ada_key 990001
    ∷ []

abbrev tried : World
tried = record world { limiter = run quarter five }

five-live : 5 ≤ length (live 900 (chance.tick 1) (attempts quarter five ada_key))
unfolding attempts select_where text_eq
five-live = omega arith

login_locked_out_example : IsPutOff too_many_logins tried (login site chance guess visitor tried)
unfolding login_email strip
login_locked_out_example =
    login_locked_out site chance quarter five guess visitor tried refl (omega arith) (omega arith)
      refl refl refl (omega arith) (omega arith) five-live

abbrev welcome : Reply
welcome = record (reply 200 (user_body (user_response (user_to_domain ada)))) {
  cookies = set_session_cookies site chance (codes "access") (121 ∷ []);
}

abbrev inside : World
inside = (login site chance guess visitor world).1

entered_lem : login site chance guess visitor world ≡ (answered welcome, inside)
unfolding login client_address is_trusted user_to_domain RateLimit.peek
entered_lem = refl

login-Opens_example :
    (m : UserModel) × (find_where
        (has_email (plain.lower (strip (plain.lower (strip guess.email)))))
        sample.users
      ≡ some m)
    × (plain.verify guess.password m.password_hash ≡ true)
    × (m.is_active ≡ true)
    × Opens site chance m.id (welcome, inside)
login-Opens_example = login-Opens site chance guess visitor world welcome inside entered_lem

known : find_where (has_hash (codes "s1")) sample.refresh_tokens ≡ some session
unfolding find_where text_eq
known = refl

logout_ends_example :
    let out = (logout site chance (some (codes "s1")) world).1 in
    let later = record out { db = after_calls (adding 42 1 (codes "s3") 9000 ∷ []) out.db } in
    refresh site chance (some (codes "s1")) later ≡ (
      answered (record (reply 401 (detail_body log_in_again)) {
        cookies = clear_session_cookies site chance;
      }),
      later,
    )
logout_ends_example =
    logout_ends site chance chance (codes "s1") world session (adding 42 1 (codes "s3") 9000 ∷ [])
      known

abbrev nobody : Database
nobody = record sample { users = [] }

forgot_password_silent_example :
    let (a, after) = forgot_password site chance (codes "ada@bank.org") visitor world in
    (forgot_password site chance
        (codes "ada@bank.org")
        visitor
        (record world { db = nobody; outbox = [] })
      ≡ (a, record after { db = nobody; outbox = [] }))
    × (after.db ≡ sample)
forgot_password_silent_example =
    forgot_password_silent site chance (codes "ada@bank.org") visitor world nobody []

abbrev listing : Requests.Call
listing = Requests.list_subscriptions

-- an account that may read its own books and nothing else
abbrev reader : UserModel
reader = record ada {
  roles =
      record {
        id = 1;
        name = codes "USER";
        permissions = record { id = 1; code = codes "finance.read.self" } ∷ [];
      }
      ∷ [];
}

abbrev library : World
library = record world { db = record sample { users = reader ∷ [] } }

reading : get_current_user site.decode library.db (some (codes "a")) ≡ some (user_to_domain reader)
unfolding get_current_user user_to_domain
reading = refl

no_listing : Lacks (user_to_domain reader) (codes "users.read")
unfolding user_to_domain any_where text_eq
no_listing = refl

serve_bars_example :
    serve site chance (some (codes "a")) Requests.list_users library
    ≡ (http_exception 403 not_allowed none, library)
serve_bars_example =
    serve_bars site chance (some (codes "a")) Requests.list_users library (user_to_domain reader)
      (codes "users.read") reading all_users no_listing

list_category_spending-Sums_example :
    (sum_by spent (list_category_spending sample 1 5000)
      ≡ (get_totals sample 1 5000).total_expense_minor)
    × (sum_by spent (list_category_spending sample 1 5000)
        ≡ (query_balance sample 1 5000).total_expense_minor)
list_category_spending-Sums_example = list_category_spending-Sums sample 1 5000

abbrev price : Decimal
price = record { coefficient = pos 1234; places = 1 }

amount_as_minor-Fits_example :
    (n : ℕ) × (amount_as_minor price ≡ pos n)
    × (0 < n)
    × (n < 2 ^ 63)
    × (n * 10 ^ price.places ≡ magnitude price.coefficient * 100)
amount_as_minor-Fits_example = amount_as_minor-Fits price refl

proxied : is_trusted lan (codes "p") (trusted_proxies lan site_settings) ≡ true
unfolding is_trusted trusted_proxies
proxied = refl

outside : is_trusted lan (strip (codes " q")) (trusted_proxies lan site_settings) ≡ false
unfolding is_trusted trusted_proxies
outside = refl

no_comma : contains_char b',' (codes " q") ≡ false
unfolding contains_char
no_comma = refl

filled : is_filled (strip (codes " q")) ≡ true
unfolding strip
filled = refl

client_address-appended_example :
    client_address lan site_settings
      (record { client_host = some (codes "p"); forwarded_for = codes "x, p" ++ b',' ∷ codes " q" })
    ≡ strip (codes " q")
client_address-appended_example =
    client_address-appended lan site_settings (codes "p") (codes "x, p") (codes " q") proxied
      no_comma filled outside
