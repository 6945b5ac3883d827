-- ===== src/RateLimit/Shared.antt =====
-- `RedisRateLimiter` of app/infrastructure/security/rate_limit.py, with the limiter in memory as
-- its fallback. The server is a parameter: what it replies to a command after those that it was
-- sent, or no reply for a `RedisError`. The two scripts run there.
use accountant_backend.Prelude.{
  ℕ, ◌*◌, ℤ, pos, negsuc, Bool, false, true, Option, none, some, List, [], ◌∷◌, ◌++◌, Text, codes,
  if◌then◌else◌,
}
use accountant_backend.RateLimit.{
  Limiter, new_limiter, Verdict, within_quota, locked_for, peek, record_attempt, reset,
}

-- what is sent: the key with the limit and the window in milliseconds, the window and a random
-- member, or the key alone
pub data Command : Type 0 where
  peek_script : Text → ℕ → ℕ → Command
  record_script : Text → ℕ → Text → Command
  delete : Text → Command

-- what is logged: the action that found the server gone, or that it is back
pub data LogEntry : Type 0 where
  unreachable_in : Text → LogEntry
  reachable_again : LogEntry

-- the latest command and entry first
pub record RedisRateLimiter : Type 0 where
  pub fallback : Limiter
  pub unreachable : Bool
  pub sent : List Command
  pub log : List LogEntry

-- `__init__`
abbrev pub new_shared : RedisRateLimiter
new_shared = record { fallback = new_limiter; unreachable = false; sent = []; log = [] }

abbrev pub Server : Type 0
Server = List Command → Command → Option ℤ

-- `_full_key`, with `REDIS_KEY_PREFIX`
unfoldable pub full_key : Text → Text
full_key key = codes "accountant:rate-limit:" ++ key

abbrev pub exchange : Server → Command → RedisRateLimiter → Option ℤ × RedisRateLimiter
exchange server command l = (server l.sent command, record l { sent = command ∷ l.sent })

-- `_note_failure`
unfoldable pub note_failure : Text → RedisRateLimiter → RedisRateLimiter
note_failure action l =
    if l.unreachable
    then l
    else record l { unreachable = true; log = unreachable_in action ∷ l.log }

-- `_note_recovery`
unfoldable pub note_recovery : RedisRateLimiter → RedisRateLimiter
note_recovery l =
    if l.unreachable then record l { unreachable = false; log = reachable_again ∷ l.log } else l

-- `self._fallback.reset(key)`
abbrev pub forgive : Text → RedisRateLimiter → RedisRateLimiter
forgive key l = record l { fallback = reset key l.fallback }

-- `None if result < 0 else result`
unfoldable pub verdict_of : ℤ → Verdict
verdict_of (pos n) = locked_for n
verdict_of (negsuc n) = within_quota

-- `peek`, once the reply is there
unfoldable pub peek_reply :
    Text → ℕ → ℕ → ℕ → Option ℤ → RedisRateLimiter → Verdict × RedisRateLimiter
unfolding note_failure note_recovery verdict_of peek reset
peek_reply key limit window_seconds now none l =
    let l = note_failure (codes "check") l in
    let (verdict, fallback) = peek key limit window_seconds now l.fallback in
    (verdict, record l { fallback = fallback })
peek_reply key limit window_seconds now (some result) l =
    (verdict_of result, forgive key (note_recovery l))

-- `peek`
unfoldable pub peek_shared :
    Server → Text → ℕ → ℕ → ℕ → RedisRateLimiter → Verdict × RedisRateLimiter
unfolding full_key peek_reply
peek_shared server key limit window_seconds now l =
    let (reply, l) = exchange server (peek_script (full_key key) limit (window_seconds * 1000)) l in
    peek_reply key limit window_seconds now reply l

-- `record`, once the reply is there
unfoldable pub record_reply : Text → ℕ → ℕ → Option ℤ → RedisRateLimiter → RedisRateLimiter
unfolding note_failure note_recovery record_attempt reset
record_reply key window_seconds now none l =
    let l = note_failure (codes "record") l in
    record l { fallback = record_attempt key window_seconds now l.fallback }
record_reply key window_seconds now (some _) l = forgive key (note_recovery l)

-- `record`, with the text of `uuid4`
unfoldable pub record_shared : Server → Text → Text → ℕ → ℕ → RedisRateLimiter → RedisRateLimiter
unfolding full_key record_reply
record_shared server member key window_seconds now l =
    let (reply, l) =
      exchange server (record_script (full_key key) (window_seconds * 1000) member) l in
    record_reply key window_seconds now reply l

-- `reset`, once the reply is there
unfoldable pub reset_reply : Option ℤ → RedisRateLimiter → RedisRateLimiter
unfolding note_failure note_recovery
reset_reply none l = note_failure (codes "reset") l
reset_reply (some _) l = note_recovery l

-- `reset`
unfoldable pub reset_shared : Server → Text → RedisRateLimiter → RedisRateLimiter
unfolding full_key reset_reply reset
reset_shared server key l =
    let (reply, l) = exchange server (delete (full_key key)) (forgive key l) in reset_reply reply l
