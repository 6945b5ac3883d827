-- ===== src/Mail.antt =====
-- What the program mails: app/application/notifications/message.py, the addresses that are never
-- written to (app/infrastructure/mail/addresses.py), and the sender as an outbox. The SMTP server
-- is a parameter: whether it takes a mail.
pub mod Colours
pub mod Markup
pub mod Page
pub mod Template
pub mod Escaped
use accountant_backend.Prelude.{
  ℕ, ◌/◌, ◌%◌, ℤ, pos, negsuc, suc, Bool, ◌||◌, Option, none, List, [], ◌∷◌, ◌++◌, Text, codes,
  text_eq, after_last, two_digits, grouped, if◌then◌else◌, Exec, ok, raised, mail_error,
}
use accountant_backend.Schema.{Database}

-- `divmod(abs(amount_minor), 100)`, grouped and padded
unfoldable pub format_magnitude : ℕ → Text
unfolding grouped two_digits
format_magnitude n = grouped (n / 100) ++ b',' ∷ two_digits (n % 100) ++ codes " TL"

-- `format_lira`
unfoldable pub format_lira : ℤ → Text
unfolding format_magnitude
format_lira (pos n) = format_magnitude n
format_lira (negsuc n) = b'-' ∷ format_magnitude (suc n)

pub record MailAction : Type 0 where
  pub label : Text
  pub url : Text

pub record MailFigure : Type 0 where
  pub label : Text
  pub value : Text

pub record MailRow : Type 0 where
  pub label : Text
  pub value : Text

pub record MailMessage : Type 0 where
  pub greeting : Text
  pub paragraphs : List Text
  pub figure : Option MailFigure
  pub rows_title : Option Text
  pub rows : List MailRow
  pub action : Option MailAction
  pub notice : Option Text
  pub footnote : Option Text

-- a message with a greeting alone
abbrev pub greeting_only : Text → MailMessage
greeting_only greeting = record {
  greeting = greeting;
  paragraphs = [];
  figure = none;
  rows_title = none;
  rows = [];
  action = none;
  notice = none;
  footnote = none;
}

-- `f"Merhaba {display_name},"`
unfoldable pub greet : Text → Text
greet display_name = codes "Merhaba " ++ display_name ++ codes ","

pub record Mail : Type 0 where
  pub recipient : Text
  pub subject : Text
  pub message : MailMessage

-- `PLACEHOLDER_DOMAINS`
unfoldable pub is_placeholder_domain : Text → Bool
unfolding text_eq
is_placeholder_domain d =
    text_eq d (codes "example.com")
    || text_eq d (codes "example.org")
    || text_eq d (codes "example.net")

-- `is_placeholder_address`, and `_is_unreachable` of change_email.py; `lower` is `str.lower`
unfoldable pub is_placeholder_address : (Text → Text) → Text → Bool
unfolding is_placeholder_domain after_last
is_placeholder_address lower email = is_placeholder_domain (lower (after_last b'@' email))

-- the rows of the database and what the server has taken, the latest first
pub record Postal : Type 0 where
  pub db : Database
  pub outbox : List Mail

-- `SmtpMailSender.send`
unfoldable pub send : (Mail → Bool) → Mail → Exec Postal (Unit {0})
send accepts mail s =
    if accepts mail then (ok tt, record s { outbox = mail ∷ s.outbox }) else (raised mail_error, s)

-- a call of a repository, which leaves the outbox alone
abbrev pub on_database : {A : Type 0} → Exec Database A → Exec Postal A
on_database m s = let (r, db) = m s.db in (r, record s { db = db })
