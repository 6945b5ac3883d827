-- ===== src/RateLimit/Noted.antt =====
-- What `RedisRateLimiter` of app/infrastructure/security/rate_limit.py logs of an outage.
use accountant_backend.Prelude.{
  ℕ, ◌*◌, ◌≡◌, refl, ap, sym, ◌∙◌, ℤ, Option, none, some, Bool, false, true, List, [], ◌∷◌, Text,
  codes, inl, inr, Bool-cases, is_none,
}
use accountant_backend.RateLimit.Answers.{Step, peeking, recording, resetting}
use accountant_backend.RateLimit.Shared.{
  Command, peek_script, record_script, delete, exchange, forgive, LogEntry, unreachable_in,
  reachable_again, RedisRateLimiter, Server, full_key, note_failure, note_recovery, peek_reply,
  record_reply, reset_reply, peek_shared, record_shared, reset_shared,
}
use accountant_backend.RateLimit.Outage.{run_shared}

-- the server was gone at the last command
unfoldable pub gone : Server → List Command → Bool
gone server [] = false
gone server (command ∷ before) = is_none (server before command)

-- The log tells outages and recoveries by turns, and the flag which came last.
pub data IsAlternating : Bool → List LogEntry → Type 0 where
  silent : IsAlternating false []
  lost :
      {log : List LogEntry} (action : Text)
      → IsAlternating false log
      → IsAlternating true (unreachable_in action ∷ log)
  back :
      {log : List LogEntry} → IsAlternating true log → IsAlternating false (reachable_again ∷ log)

-- the flag, the commands and the log once the reply to the last command is there
abbrev HasNoted : Bool → List Command → RedisRateLimiter → Type 0
HasNoted failed sent l =
    (l.unreachable ≡ failed) × (l.sent ≡ sent) × IsAlternating l.unreachable l.log

-- the flag tells whether the server was gone at the last command, and the log goes by turns
abbrev pub IsNoted : Server → RedisRateLimiter → Type 0
IsNoted server l = (l.unreachable ≡ gone server l.sent) × IsAlternating l.unreachable l.log

module _ (l : RedisRateLimiter) (before : IsAlternating l.unreachable l.log) where
  note_failure-HasNoted : (action : Text) → HasNoted true l.sent (note_failure action l)
  unfolding note_failure
  note_failure-HasNoted action = elim (Bool-cases l.unreachable) [
    | inl known ↦ rw known (refl, refl, rw known at before)
    | inr fresh ↦ rw fresh (refl, refl, lost action (rw fresh at before))
  ]

  note_recovery-HasNoted : HasNoted false l.sent (note_recovery l)
  unfolding note_recovery
  note_recovery-HasNoted = elim (Bool-cases l.unreachable) [
    | inl known ↦ rw known (refl, refl, back (rw known at before))
    | inr fresh ↦ rw fresh (refl, refl, rw fresh at before)
  ]

  peek_reply-HasNoted :
      (key : Text) (limit w now : ℕ) (reply : Option ℤ)
      → HasNoted (is_none reply) l.sent (peek_reply key limit w now reply l).1
  unfolding peek_reply
  peek_reply-HasNoted key limit w now none = note_failure-HasNoted (codes "check")
  peek_reply-HasNoted key limit w now (some _) = note_recovery-HasNoted

  record_reply-HasNoted :
      (key : Text) (w now : ℕ) (reply : Option ℤ)
      → HasNoted (is_none reply) l.sent (record_reply key w now reply l)
  unfolding record_reply
  record_reply-HasNoted key w now none = note_failure-HasNoted (codes "record")
  record_reply-HasNoted key w now (some _) = note_recovery-HasNoted

  reset_reply-HasNoted : (reply : Option ℤ) → HasNoted (is_none reply) l.sent (reset_reply reply l)
  unfolding reset_reply
  reset_reply-HasNoted none = note_failure-HasNoted (codes "reset")
  reset_reply-HasNoted (some _) = note_recovery-HasNoted

-- the reply to the command that was sent last
noted :
    (server : Server) (before : List Command) (command : Command) (l : RedisRateLimiter)
    → HasNoted (is_none (server before command)) (command ∷ before) l
    → IsNoted server l
unfolding gone
noted server before command l (flag, sent, log) = (flag ∙ sym (ap (gone server) sent), log)

module _ (server : Server) (member : List Step → Text) (window_of : Text → ℕ) where
  -- After any calls, with any server, the limiter holds the server gone exactly where it did not
  -- reply to the last command, and the log tells outages and recoveries by turns, one entry for
  -- each change, the last one an outage exactly where the server is held gone.
  pub run_shared-IsNoted :
      (steps : List Step) → IsNoted server (run_shared server member window_of steps)
  unfolding run_shared peek_shared record_shared reset_shared gone
  run_shared-IsNoted [] = (refl, silent)
  run_shared-IsNoted (peeking key limit now ∷ past) =
      let command = peek_script (full_key key) limit (window_of key * 1000) in
      let asked = (exchange server command (run_shared server member window_of past)).1 in
      noted server _ command (run_shared server member window_of (peeking key limit now ∷ past))
        (peek_reply-HasNoted asked (run_shared-IsNoted past).1 key limit (window_of key) now _)
  run_shared-IsNoted (recording key now ∷ past) =
      let command = record_script (full_key key) (window_of key * 1000) (member past) in
      let asked = (exchange server command (run_shared server member window_of past)).1 in
      noted server _ command (run_shared server member window_of (recording key now ∷ past))
        (record_reply-HasNoted asked (run_shared-IsNoted past).1 key (window_of key) now _)
  run_shared-IsNoted (resetting key ∷ past) =
      let command = delete (full_key key) in
      let asked =
        (exchange server command (forgive key (run_shared server member window_of past))).1 in
      noted server _ command (run_shared server member window_of (resetting key ∷ past))
        (reset_reply-HasNoted asked (run_shared-IsNoted past).1 _)
