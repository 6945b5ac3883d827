-- ===== src/Settings.antt =====
-- app/core/config.py, and what app/presentation/dependencies/rate_limit.py reads of it: whom a
-- request is charged to, and what is said to whoever is locked out. `ip_address` and `ip_network`
-- of Python are parameters: an address as a number and a network as the set of its addresses.
pub mod Proxies
use accountant_backend.Prelude.{
  ℕ, ◌+◌, ◌-◌, ◌*◌, ◌/◌, ◌%◌, max, Bool, true, false, not, ◌&&◌, Option, none, some, List, [], ◌∷◌,
  ◌++◌, reverse, Text, codes, strip_all, split, starts_with, decimal, ltb, leb, ◌==◌, if◌then◌else◌,
}

pub record Settings : Type 0 where
  pub web_origin : Text
  pub trusted_proxy_ips : Text
  pub access_token_minutes : ℕ
  pub refresh_token_days : ℕ
  pub cookie_secure : Bool
  pub rate_limit_enabled : Bool
  pub login_max_attempts : ℕ
  pub login_ip_max_attempts : ℕ
  pub login_window_seconds : ℕ
  pub register_max_attempts : ℕ
  pub register_window_seconds : ℕ
  pub password_reset_max_attempts : ℕ
  pub password_reset_ip_max_attempts : ℕ
  pub password_reset_window_seconds : ℕ
  pub password_reset_token_minutes : ℕ
  pub email_change_max_attempts : ℕ
  pub email_change_window_seconds : ℕ
  pub email_change_token_minutes : ℕ
  pub mail_username : Text
  pub mail_app_password : Text
  pub daily_summary_catchup_days : ℕ

-- the defaults of the fields
abbrev pub default_settings : Settings
default_settings = record {
  web_origin = codes "http://localhost:3000";
  trusted_proxy_ips = [];
  access_token_minutes = 15;
  refresh_token_days = 30;
  cookie_secure = false;
  rate_limit_enabled = true;
  login_max_attempts = 5;
  login_ip_max_attempts = 30;
  login_window_seconds = 900;
  register_max_attempts = 5;
  register_window_seconds = 3600;
  password_reset_max_attempts = 3;
  password_reset_ip_max_attempts = 10;
  password_reset_window_seconds = 3600;
  password_reset_token_minutes = 60;
  email_change_max_attempts = 3;
  email_change_window_seconds = 3600;
  email_change_token_minutes = 60;
  mail_username = [];
  mail_app_password = [];
  daily_summary_catchup_days = 3;
}

-- `_reject_unusable_cookie_scheme`: the settings are refused
unfoldable pub has_unusable_cookie_scheme : Settings → Bool
unfolding starts_with
has_unusable_cookie_scheme s = s.cookie_secure && starts_with (codes "http://") s.web_origin

abbrev pub is_filled : Text → Bool
is_filled [] = false
is_filled (_ ∷ _) = true

-- the property `mail_enabled`
unfoldable pub mail_enabled : Settings → Bool
mail_enabled s = is_filled s.mail_username && is_filled s.mail_app_password

abbrev pub Network : Type 0
Network = ℕ → Bool

-- `ipaddress`: `none` where it raises `ValueError`
pub record Addresses : Type 0 where
  pub ip_address : Text → Option ℕ
  pub ip_network : Text → Option Network

-- `request.client` and the header `x-forwarded-for`
pub record Request : Type 0 where
  pub client_host : Option Text
  pub forwarded_for : Text

module _ (addresses : Addresses) where
  -- the loop over the entries
  unfoldable pub networks : List Text → List Network
  networks [] = []
  networks ([] ∷ entries) = networks entries
  networks ((c ∷ s) ∷ entries) = elim (addresses.ip_network (c ∷ s)) [
    | none ↦ networks entries
    | some network ↦ network ∷ networks entries
  ]

  -- the property `trusted_proxies`
  unfoldable pub trusted_proxies : Settings → List Network
  unfolding networks split strip_all
  trusted_proxies s = networks (strip_all (split b',' s.trusted_proxy_ips))

  unfoldable pub any_network : ℕ → List Network → Bool
  any_network address [] = false
  any_network address (network ∷ rest) = if network address then true else any_network address rest

  -- `_is_trusted`
  unfoldable pub is_trusted : Text → List Network → Bool
  unfolding any_network
  is_trusted peer [] = false
  is_trusted peer (network ∷ rest) = elim (addresses.ip_address peer) [
    | none ↦ false
    | some address ↦ any_network address (network ∷ rest)
  ]

  -- the loop over the hops, from the right
  unfoldable pub first_untrusted : Text → List Network → List Text → Text
  unfolding is_trusted
  first_untrusted peer proxies [] = peer
  first_untrusted peer proxies (hop ∷ hops) =
      let rest = first_untrusted peer proxies hops in
      if is_filled hop && not (is_trusted hop proxies) then hop else rest

  -- `client_address`
  unfoldable pub client_address : Settings → Request → Text
  unfolding trusted_proxies is_trusted first_untrusted split strip_all
  client_address s request =
      let peer : Text = elim request.client_host [ none ↦ codes "unknown" | some host ↦ host ] in
      let proxies = trusted_proxies s in
      if not (is_trusted peer proxies)
      then peer
      else first_untrusted peer proxies (reverse (strip_all (split b',' request.forwarded_for)))

-- `round(seconds / 60)`, which rounds a half to the even minute
unfoldable pub round_minutes : ℕ → ℕ
round_minutes seconds =
    let q = seconds / 60 in
    let r = seconds % 60 in if ltb r 30 then q else if ltb 30 r then q + 1 else q + q % 2

-- `describe_wait`
unfoldable pub describe_wait : ℕ → Text
unfolding round_minutes decimal
describe_wait seconds =
    if ltb seconds 60
    then decimal seconds ++ codes " saniye"
    else decimal (max 1 (round_minutes seconds)) ++ codes " dakika"
