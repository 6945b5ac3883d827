-- ===== src/Identity/Mails.antt =====
-- The use cases of application/identity that send mail (request_password_reset.py and
-- change_email.py), and the tasks of infrastructure/identity/runtime.py that run after a response.
-- The texts are those of the source; a lifetime is below ten thousand hours, where `:g` rounds
-- without a tie.
pub mod Reset
use accountant_backend.Prelude.{
  ℕ, ◌+◌, ◌*◌, ◌/◌, ◌%◌, Bool, true, false, not, ◌||◌, Option, none, some, List, [], ◌∷◌, ◌++◌,
  Text, codes, text_eq, strip, rstrip_char, quote, decimal, ltb, is_some, if◌then◌else◌, Error,
  Exec, ok, raised, raise_if, gets, pure, ◌>>=◌, ◌>>◌, identity, invalid_credentials,
  email_unchanged, unreachable_email, email_already_registered, lstrip_char, reverse,
}
use accountant_backend.Domain.{Uuid, Instant, User}
use accountant_backend.Schema.{Database}
use accountant_backend.Settings.{Settings, mail_enabled}
use accountant_backend.Mail.{
  Mail, MailMessage, MailAction, Postal, greet, greeting_only, send, on_database,
  is_placeholder_address,
}
use accountant_backend.Identity.Users.{get_by_email}
use accountant_backend.Identity.Tokens.{replace_reset, replace_change}
use accountant_backend.Identity.Sessions.{Services}

-- `timedelta(minutes=n)`
abbrev pub minutes : ℕ → ℕ
minutes n = n * 60000000

-- the decimals that six significant digits leave to a number of whole hours
unfoldable pub hour_decimals : ℕ → ℕ
hour_decimals h =
    if ltb h 10 then 100000 else if ltb h 100 then 10000 else if ltb h 1000 then 1000 else 100

-- `f"{n / 60:g}"`: rounded to six significant digits, without trailing zeros
unfoldable pub format_hours : ℕ → Text
unfolding hour_decimals decimal rstrip_char
format_hours n =
    let scale = hour_decimals (n / 60) in
    let scaled = (n * scale + 30) / 60 in
    let fraction : Text = decimal (scale + scaled % scale) in
    elim fraction [
      | [] ↦ decimal (scaled / scale)
      | _ ∷ digits ↦ rstrip_char b'.' (decimal (scaled / scale) ++ b'.' ∷ rstrip_char b'0' digits)
    ]

-- `validity`
unfoldable pub validity : ℕ → Text
unfolding format_hours decimal
validity n = if ltb n 60 then decimal n ++ codes " dakika" else format_hours n ++ codes " saat"

-- `f"{self._web_origin}/?{name}={quote(token, safe='')}"`
unfoldable pub token_link : Text → Text → Text → Text
unfolding rstrip_char quote
token_link web_origin name token =
    rstrip_char b'/' web_origin ++ codes "/?" ++ name ++ codes "=" ++ quote token

unfoldable pub reset_mail : Settings → User → Text → Mail
unfolding greet validity token_link
reset_mail s user token = record {
  recipient = user.email;
  subject = codes "Accountant şifre sıfırlama";
  message = record (greeting_only (greet user.display_name)) {
    paragraphs =
        (codes "Hesabının şifresini sıfırlamak için bir istek aldık. Aşağıdaki bağlantı "
          ++ validity s.password_reset_token_minutes
          ++ codes " geçerli ve yalnızca bir kez kullanılabilir.")
        ∷ [];
    action = some (record {
      label = codes "Şifremi sıfırla";
      url = token_link s.web_origin (codes "reset_token") token;
    });
    footnote =
        some (codes "Bu isteği sen yapmadıysan yapman gereken bir şey yok; şifren değişmedi.");
  };
}

unfoldable pub change_mail : Settings → User → Text → Text → Mail
unfolding greet validity token_link
change_mail s user new_email token = record {
  recipient = new_email;
  subject = codes "Accountant e-posta adresi doğrulama";
  message = record (greeting_only (greet user.display_name)) {
    paragraphs =
        (codes "Accountant hesabının e-posta adresini "
          ++ user.email
          ++ codes " yerine bu adres olarak değiştirmek istedin. Onaylamak "
          ++ codes "için aşağıdaki düğmeye bas. Bağlantı "
          ++ validity s.email_change_token_minutes
          ++ codes " geçerli ve yalnızca bir kez kullanılabilir.")
        ∷ [];
    action = some (record {
      label = codes "Adresimi doğrula";
      url = token_link s.web_origin (codes "email_token") token;
    });
    footnote = some (
        codes "Bu isteği sen yapmadıysan bu maili yok sayabilirsin; "
        ++ codes "onaylanmadığı sürece hiçbir şey değişmez.");
  };
}

unfoldable pub warning_mail : User → Text → Mail
unfolding greet
warning_mail user new_email = record {
  recipient = user.email;
  subject = codes "Accountant hesabının e-posta adresi değiştiriliyor";
  message = record (greeting_only (greet user.display_name)) {
    paragraphs =
        (codes "Accountant hesabının e-posta adresinin "
          ++ new_email
          ++ codes " olarak değiştirilmesi istendi. Değişiklik, yeni "
          ++ codes "adrese gönderilen bağlantı onaylanana kadar geçerli olmaz.")
        ∷ [];
    notice = some (
        codes "Bu isteği sen yapmadıysan şifreni hemen değiştir: isteği "
        ++ codes "yapan kişi şifreni biliyor.");
  };
}

unfoldable pub notice_mail : User → Text → Mail
unfolding greet
notice_mail user previous_email = record {
  recipient = previous_email;
  subject = codes "Accountant hesabının e-posta adresi değişti";
  message = record (greeting_only (greet user.display_name)) {
    paragraphs =
        (codes "Accountant hesabının e-posta adresi "
          ++ user.email
          ++ codes " olarak değiştirildi. Bundan sonra giriş ve "
          ++ codes "şifre sıfırlama işlemleri yeni adres üzerinden yapılacak.")
        ∷ [];
    notice = some (codes "Bu değişikliği sen yapmadıysan bize ulaş.");
  };
}

module _ (services : Services) (settings : Settings) (accepts : Mail → Bool) where
  -- `RequestPasswordReset.execute`
  unfoldable pub request_password_reset : Uuid → Text → Instant → Text → Exec Postal Bool
  unfolding get_by_email strip replace_reset send
  request_password_reset id token now email s =
      elim (get_by_email s.db (services.lower (strip email))) [
        | none ↦ (ok false, s)
        | some user ↦
            if not user.is_active
            then (ok false, s)
            else (do
              on_database (
                  replace_reset id user.id (services.hash_token token)
                    (now + minutes settings.password_reset_token_minutes) now)
              send accepts (reset_mail settings user token)
              pure true)
                s
      ]

  -- `RequestEmailChange.execute`
  unfoldable pub request_email_change :
      Uuid → Text → Instant → User → Text → Text → Exec Postal Text
  unfolding get_by_email strip replace_change send is_placeholder_address
  request_email_change id token now user new_email current_password = do
    let normalized = services.lower (strip new_email)
    raise_if (not (services.verify current_password user.password_hash))
        (identity invalid_credentials)
    raise_if (text_eq normalized user.email) (identity email_unchanged)
    raise_if (is_placeholder_address services.lower normalized) (identity unreachable_email)
    taken ← gets (λ (s : Postal). get_by_email s.db normalized)
    raise_if (is_some taken) (identity email_already_registered)
    on_database (
        replace_change id user.id normalized (services.hash_token token)
          (now + minutes settings.email_change_token_minutes) now)
    send accepts (change_mail settings user normalized token)
    pure normalized

  -- `except Exception: logger.exception(...)`, and the session is closed
  unfoldable pub logged : {A : Type 0} → Exec Postal A → Postal → Postal
  logged m s = (m s).1

  -- `deliver_password_reset`
  unfoldable pub deliver_password_reset : Uuid → Text → Instant → Text → Postal → Postal
  unfolding mail_enabled is_placeholder_address request_password_reset logged
  deliver_password_reset id token now email s =
      if not (mail_enabled settings) || is_placeholder_address services.lower email
      then s
      else logged (request_password_reset id token now email) s

  -- `deliver_email_change_warning` with `warn_previous_address`
  unfoldable pub deliver_email_change_warning : User → Text → Postal → Postal
  unfolding mail_enabled logged send
  deliver_email_change_warning user new_email s =
      if not (mail_enabled settings)
      then s
      else logged (send accepts (warning_mail user new_email)) s

  -- `deliver_email_change_notice` with `announce_address_change`
  unfoldable pub deliver_email_change_notice : User → Text → Postal → Postal
  unfolding mail_enabled logged send
  deliver_email_change_notice user previous_email s =
      if not (mail_enabled settings)
      then s
      else logged (send accepts (notice_mail user previous_email)) s
