-- ===== src/Examples/Sites.antt =====
-- A site that the runs on requests and notifications start from.
use accountant_backend.Prelude.{
  ◌+◌, ◌*◌, true, Option, none, some, [], ◌∷◌, Text, codes, ltb, ◌==◌, if◌then◌else◌,
}
use accountant_backend.Calendar.{date}
use accountant_backend.Domain.{AccessTokenClaims}
use accountant_backend.Settings.{Settings, default_settings, Addresses, Request}
use accountant_backend.Notifications.{Zone}
use accountant_backend.RateLimit.{new_limiter}
use accountant_backend.Http.{App, Chance, World}
use accountant_backend.Examples.{sample, plain}

-- the address `p`, which is the network of the proxy, and any other
abbrev pub lan : Addresses
lan = record {
  ip_address = λ s. elim s [ [] ↦ none | c ∷ _ ↦ some c ];
  ip_network = λ s. elim s [ [] ↦ none | c ∷ _ ↦ some (λ a. a == c) ];
}

abbrev pub site_settings : Settings
site_settings = record default_settings {
  trusted_proxy_ips = codes "p";
  mail_username = codes "m";
  mail_app_password = codes "m";
}

-- a zone in which February of 2024 ends at the moment 1000
abbrev pub zone : Zone
zone = record {
  local_date = λ t. if ltb t 1000 then date 2024 2 28 else date 2024 3 1;
  local_time = λ t. t;
  combine = λ d s. d.month * 1000 + d.day + s;
}

-- the owner of every token is the account 1
abbrev pub claims : Text → Option AccessTokenClaims
claims token = some (record { user_id = 1; issued_at = 400 })

abbrev pub site : App
site = record {
  services = plain;
  settings = site_settings;
  addresses = lan;
  accepts = λ mail. true;
  decode = claims;
  zone = zone;
  name_le = λ a b. true;
}

abbrev pub chance : Chance
chance = record {
  tick = λ n. 1000000 + n;
  now = λ n. 100 + n;
  uuid = λ n. 900 + n;
  secret = λ n. (120 + n) ∷ [];
}

abbrev pub world : World
world = record { db = sample; outbox = []; limiter = new_limiter }

abbrev pub visitor : Request
visitor = record { client_host = some (codes "q"); forwarded_for = [] }
