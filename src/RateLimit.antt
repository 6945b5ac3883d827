-- ===== src/RateLimit.antt =====
-- `InMemoryRateLimiter` of app/infrastructure/security/rate_limit.py; Shared has `RedisRateLimiter`.
-- The monotonic clock is an argument and counts ticks, and the rounding of its floats is not
-- modelled. The dictionary of the buckets is a function.
pub mod Window
pub mod Answers
pub mod Shared
pub mod Outage
pub mod Noted
use accountant_backend.Prelude.{
  ℕ, ◌+◌, ◌-◌, ◌*◌, ◌/◌, max, Bool, true, ◌||◌, not, Option, none, some, List, [], ◌∷◌, ◌++◌,
  length, Text, text_eq, ltb, leb, ◌==◌, if◌then◌else◌,
}

-- the ticks of a second
abbrev pub second : ℕ
second = 1000000

-- `_Bucket`: the attempts, the oldest first
pub record Bucket : Type 0 where
  pub window_seconds : ℕ
  pub hits : List ℕ

pub record Limiter : Type 0 where
  pub buckets : Text → Option Bucket
  pub swept_at : ℕ

-- a limiter as the constructor leaves it
abbrev pub new_limiter : Limiter
new_limiter = record { buckets = λ key. none; swept_at = 0 }

-- `peek`: `None`, the seconds left, or the `IndexError` of `hits[0]` where the limit is 0
pub data Verdict : Type 0 where
  within_quota index_error : Verdict
  locked_for : ℕ → Verdict

-- an attempt has left the window
abbrev pub is_past : ℕ → ℕ → ℕ → Bool
is_past window_seconds now hit = leb (hit + window_seconds * second) now

-- `while bucket.hits and bucket.hits[0] <= cutoff: bucket.hits.popleft()`
unfoldable pub trim : ℕ → ℕ → List ℕ → List ℕ
trim window_seconds now [] = []
trim window_seconds now (hit ∷ hits) =
    let rest = trim window_seconds now hits in
    if is_past window_seconds now hit then rest else hit ∷ hits

-- `_bucket`
unfoldable pub bucket_for : Text → ℕ → ℕ → Limiter → Bucket
unfolding trim
bucket_for key window_seconds now l = elim (l.buckets key) [
  | none ↦ record { window_seconds = window_seconds; hits = [] }
  | some b ↦
      if b.window_seconds == window_seconds
      then record { window_seconds = window_seconds; hits = trim window_seconds now b.hits }
      else record { window_seconds = window_seconds; hits = [] }
]

-- `self._buckets[key] = bucket`
abbrev pub store : Text → Bucket → Limiter → Limiter
store key b l = record l { buckets = λ k. if text_eq k key then some b else l.buckets k }

-- `math.ceil` of ticks in seconds
abbrev pub ceil_seconds : ℕ → ℕ
ceil_seconds ticks = (ticks + (second - 1)) / second

-- `peek`
unfoldable pub peek : Text → ℕ → ℕ → ℕ → Limiter → Verdict × Limiter
unfolding bucket_for
peek key limit window_seconds now l =
    let b = bucket_for key window_seconds now l in
    (
      if ltb (length b.hits) limit then within_quota else elim b.hits [
        | [] ↦ index_error
        | hit ∷ _ ↦ locked_for (max 1 (ceil_seconds (hit + window_seconds * second - now)))
      ],
      store key b l,
    )

-- `not bucket.hits or bucket.hits[-1] <= now - bucket.window_seconds`
unfoldable pub is_stale : ℕ → ℕ → List ℕ → Bool
is_stale window_seconds now [] = true
is_stale window_seconds now (hit ∷ []) = is_past window_seconds now hit
is_stale window_seconds now (_ ∷ hit ∷ hits) = is_stale window_seconds now (hit ∷ hits)

abbrev pub sweep_interval : ℕ
sweep_interval = 300 * second

-- `_sweep`
unfoldable pub sweep : ℕ → Limiter → Limiter
unfolding is_stale
sweep now l = if ltb now (l.swept_at + sweep_interval) then l else record {
  buckets = λ k. elim (l.buckets k) [
    | none ↦ none
    | some b ↦ if is_stale b.window_seconds now b.hits then none else some b
  ];
  swept_at = now;
}

-- `record`
unfoldable pub record_attempt : Text → ℕ → ℕ → Limiter → Limiter
unfolding bucket_for sweep
record_attempt key window_seconds now l =
    let b = bucket_for key window_seconds now l in
    sweep now (store key (record b { hits = b.hits ++ now ∷ [] }) l)

-- `reset`
unfoldable pub reset : Text → Limiter → Limiter
unfolding text_eq
reset key l = record l { buckets = λ k. if text_eq k key then none else l.buckets k }
