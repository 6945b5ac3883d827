-- ===== src/RateLimit/Outage.antt =====
-- What `RedisRateLimiter` of app/infrastructure/security/rate_limit.py does while the server is
-- gone, and what it logs.
use accountant_backend.Prelude.{
  ℕ, ◌*◌, ◌≤◌, ◌≡◌, ◌∙◌, ap, refl, ℤ, Option, none, some, List, [], ◌∷◌, Text, arith, inl, inr,
  Bool-cases,
}
use accountant_backend.RateLimit.{peek, record_attempt, reset}
use accountant_backend.RateLimit.Window.{live}
use accountant_backend.RateLimit.Answers.{
  Step, peeking, recording, resetting, answer, run, attempts, IsTimed, peek_answers,
}
use accountant_backend.RateLimit.Shared.{
  Command, peek_script, record_script, RedisRateLimiter, new_shared, Server, full_key, note_failure,
  note_recovery, peek_reply, record_reply, reset_reply, peek_shared, record_shared, reset_shared,
}

note_failure-fallback :
    (action : Text) (l : RedisRateLimiter) → (note_failure action l).fallback ≡ l.fallback
unfolding note_failure
note_failure-fallback action l = elim (Bool-cases l.unreachable) [
  | inl gone ↦ rw gone
  | inr there ↦ rw there
]

note_recovery-fallback : (l : RedisRateLimiter) → (note_recovery l).fallback ≡ l.fallback
unfolding note_recovery
note_recovery-fallback l = elim (Bool-cases l.unreachable) [
  | inl gone ↦ rw gone
  | inr there ↦ rw there
]

-- a call as the fallback sees it: one that the server answered resets its key
unfoldable pub on_reply : Option ℤ → Text → Step → Step
on_reply none key step = step
on_reply (some _) key step = resetting key

module _ (window_of : Text → ℕ) (past : List Step) (l : RedisRateLimiter)
    (same : l.fallback ≡ run window_of past) where
  peek_reply-fallback :
      (key : Text) (limit now : ℕ) (reply : Option ℤ)
      → (peek_reply key limit (window_of key) now reply l).1.fallback
        ≡ run window_of (on_reply reply key (peeking key limit now) ∷ past)
  unfolding peek_reply run on_reply
  peek_reply-fallback key limit now none =
      ap (λ f. (peek key limit (window_of key) now f).1) (note_failure-fallback _ l ∙ same)
  peek_reply-fallback key limit now (some _) = ap (reset key) (note_recovery-fallback l ∙ same)

  record_reply-fallback :
      (key : Text) (now : ℕ) (reply : Option ℤ)
      → (record_reply key (window_of key) now reply l).fallback
        ≡ run window_of (on_reply reply key (recording key now) ∷ past)
  unfolding record_reply run on_reply
  record_reply-fallback key now none =
      ap (record_attempt key (window_of key) now) (note_failure-fallback _ l ∙ same)
  record_reply-fallback key now (some _) = ap (reset key) (note_recovery-fallback l ∙ same)

module _ (window_of : Text → ℕ) where
  IsTimed-later :
      (steps : List Step) (t now : ℕ)
      → t ≤ now
      → IsTimed window_of steps t
      → IsTimed window_of steps now
  IsTimed-later [] t now le timed = tt
  IsTimed-later (peeking _ _ u ∷ past) t now le (before, timed) = (omega arith, timed)
  IsTimed-later (recording _ u ∷ past) t now le (before, timed) = (omega arith, timed)
  IsTimed-later (resetting _ ∷ past) t now le timed = IsTimed-later past t now le timed

  on_reply-IsTimed :
      (reply : Option ℤ) (key : Text) (step : Step) (past : List Step) (now : ℕ)
      → IsTimed window_of (step ∷ past) now
      → IsTimed window_of past now
      → IsTimed window_of (on_reply reply key step ∷ past) now
  unfolding on_reply
  on_reply-IsTimed none key step past now first later = first
  on_reply-IsTimed (some _) key step past now first later = later

reset_reply-fallback :
    (reply : Option ℤ) (l : RedisRateLimiter) → (reset_reply reply l).fallback ≡ l.fallback
unfolding reset_reply
reset_reply-fallback none l = note_failure-fallback _ l
reset_reply-fallback (some _) l = note_recovery-fallback l

module _ (server : Server) (member : List Step → Text) (window_of : Text → ℕ) where
  -- the limiter after some calls, the latest first
  unfoldable pub run_shared : List Step → RedisRateLimiter
  unfolding peek_shared record_shared reset_shared
  run_shared [] = new_shared
  run_shared (peeking key limit now ∷ past) =
      (peek_shared server key limit (window_of key) now (run_shared past)).1
  run_shared (recording key now ∷ past) =
      record_shared server (member past) key (window_of key) now (run_shared past)
  run_shared (resetting key ∷ past) = reset_shared server key (run_shared past)

  -- the reply to a command after some calls
  abbrev pub reply_after : List Step → Command → Option ℤ
  reply_after past command = server (run_shared past).sent command

  -- the calls as the fallback sees them
  unfoldable pub unanswered : List Step → List Step
  unfolding full_key run_shared on_reply
  unanswered [] = []
  unanswered (peeking key limit now ∷ past) =
      on_reply (reply_after past (peek_script (full_key key) limit (window_of key * 1000))) key
        (peeking key limit now)
      ∷ unanswered past
  unanswered (recording key now ∷ past) =
      on_reply
        (reply_after past (record_script (full_key key) (window_of key * 1000) (member past))) key
        (recording key now)
      ∷ unanswered past
  unanswered (resetting key ∷ past) = resetting key ∷ unanswered past

  run_shared-fallback :
      (steps : List Step) → (run_shared steps).fallback ≡ run window_of (unanswered steps)
  unfolding run_shared unanswered run peek_shared record_shared reset_shared
  run_shared-fallback [] = refl
  run_shared-fallback (peeking key limit now ∷ past) =
      peek_reply-fallback window_of (unanswered past) _ (run_shared-fallback past) key limit now _
  run_shared-fallback (recording key now ∷ past) =
      record_reply-fallback window_of (unanswered past) _ (run_shared-fallback past) key now _
  run_shared-fallback (resetting key ∷ past) =
      reset_reply-fallback _ _ ∙ ap (reset key) (run_shared-fallback past)

  unanswered-IsTimed :
      (steps : List Step) (now : ℕ)
      → IsTimed window_of steps now
      → IsTimed window_of (unanswered steps) now
  unfolding unanswered on_reply
  unanswered-IsTimed [] now timed = tt
  unanswered-IsTimed (peeking key limit t ∷ past) now (le, timed) =
      let before = unanswered-IsTimed past t timed in
      on_reply-IsTimed window_of _ key (peeking key limit t) (unanswered past) now (le, before)
        (IsTimed-later window_of (unanswered past) t now le before)
  unanswered-IsTimed (recording key t ∷ past) now (le, timed) =
      let before = unanswered-IsTimed past t timed in
      on_reply-IsTimed window_of _ key (recording key t) (unanswered past) now (le, before)
        (IsTimed-later window_of (unanswered past) t now le before)
  unanswered-IsTimed (resetting _ ∷ past) now timed = unanswered-IsTimed past now timed

  -- Where the clock does not run backwards, each key keeps one window and the server does not reply
  -- to a peek, the limiter answers by the attempts on the key that were made while the server was
  -- gone, after the last reset of the key and the last reply on it, and still lie in the window:
  -- within quota while they are fewer than the limit, else locked until the oldest leaves it.
  pub outage_answers :
      (past : List Step) (key : Text) (limit now : ℕ)
      → IsTimed window_of past now
      → reply_after past (peek_script (full_key key) limit (window_of key * 1000)) ≡ none
      → (peek_shared server key limit (window_of key) now (run_shared past)).0
        ≡ answer limit
            (window_of key)
            now
            (live (window_of key) now (attempts window_of (unanswered past) key))
  unfolding peek_shared peek_reply
  outage_answers past key limit now timed lost = rw lost (
      ap (λ f. (peek key limit (window_of key) now f).0)
        (note_failure-fallback _ _ ∙ run_shared-fallback past)
      ∙ peek_answers window_of (unanswered past) key limit now (unanswered-IsTimed past now timed))
