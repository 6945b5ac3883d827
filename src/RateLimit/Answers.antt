-- ===== src/RateLimit/Answers.antt =====
-- What the limiter answers after any run of calls, told by the attempts alone.
use accountant_backend.Prelude.{
  ℕ, ◌+◌, ◌-◌, ◌*◌, ◌≤◌, ◌≡◌, ◌∙◌, ap, sym, some, List, [], ◌∷◌, ◌++◌, arith, max, length, Text,
  text_eq, text_eq_iff, select_where, ltb, if◌then◌else◌, inl, inr, Bool-cases,
}
use accountant_backend.RateLimit.{
  Bucket, Limiter, new_limiter, Verdict, within_quota, index_error, locked_for, second,
  ceil_seconds, bucket_for, store, peek, record_attempt, reset,
}
use accountant_backend.RateLimit.Window.{
  live, live-live, Agrees, Agrees-later, bucket_for-refreshed, refreshed-Agrees, append-Agrees,
  sweep-Agrees, nothing_live,
}

-- one call, with the moment at which it reads the clock
pub data Step : Type 0 where
  peeking : Text → ℕ → ℕ → Step
  recording : Text → ℕ → Step
  resetting : Text → Step

-- the answer that a list of live attempts calls for
unfoldable pub answer : ℕ → ℕ → ℕ → List ℕ → Verdict
answer limit w now hits = if ltb (length hits) limit then within_quota else elim hits [
  | [] ↦ index_error
  | hit ∷ _ ↦ locked_for (max 1 (ceil_seconds (hit + w * second - now)))
]

length-live : (w now : ℕ) (hits : List ℕ) → length (live w now hits) ≤ length hits
unfolding select_where
length-live w now [] = omega arith
length-live w now (h ∷ hits) = ground (arith, length-live w now hits)

leaves :
    (limit w now n : ℕ) (hits : List ℕ)
    → length hits ≡ limit
    → answer limit w now hits ≡ locked_for n
    → answer limit w (now + n * second) (live w (now + n * second) hits) ≡ within_quota
unfolding answer select_where
leaves limit w now n [] full locked = ground arith
leaves limit w now n (h ∷ hits) full locked = ground (arith, length-live w (now + n * second) hits)

-- Every key has one window, and the steps come latest first.
module _ (window_of : Text → ℕ) where
  unfoldable pub run : List Step → Limiter
  unfolding peek record_attempt reset
  run [] = new_limiter
  run (peeking key limit now ∷ past) = (peek key limit (window_of key) now (run past)).1
  run (recording key now ∷ past) = record_attempt key (window_of key) now (run past)
  run (resetting key ∷ past) = reset key (run past)

  -- the attempts on a key since its last reset, the oldest first
  unfoldable pub attempts : List Step → Text → List ℕ
  unfolding text_eq
  attempts [] key = []
  attempts (peeking _ _ _ ∷ past) key = attempts past key
  attempts (recording k now ∷ past) key =
      let before = attempts past key in if text_eq key k then before ++ now ∷ [] else before
  attempts (resetting k ∷ past) key =
      let before = attempts past key in if text_eq key k then [] else before

  -- the clock does not run backwards, and `now` is not before any step
  abbrev pub IsTimed : List Step → ℕ → Type 0
  IsTimed [] now = Unit
  IsTimed (peeking _ _ t ∷ past) now = (t ≤ now) × IsTimed past t
  IsTimed (recording _ t ∷ past) now = (t ≤ now) × IsTimed past t
  IsTimed (resetting _ ∷ past) now = IsTimed past now

  fresh_bucket :
      (k : Text) (t : ℕ) (l : Limiter) (log : List ℕ)
      → Agrees (window_of k) t (l.buckets k) log
      → Agrees (window_of k) t (some (bucket_for k (window_of k) t l)) log
        × ((bucket_for k (window_of k) t l).hits ≡ live (window_of k) t log)
  fresh_bucket k t l log agrees =
      rw (bucket_for-refreshed k (window_of k) t l)
        (refreshed-Agrees (window_of k) t t (l.buckets k) log (omega arith) agrees)

  run-Agrees :
      (steps : List Step) (now : ℕ) (key : Text)
      → IsTimed steps now
      → Agrees (window_of key) now ((run steps).buckets key) (attempts steps key)
  unfolding run attempts peek reset record_attempt
  run-Agrees [] now key timed = λ u h. nothing_live (window_of key) u
  run-Agrees (peeking k limit t ∷ past) now key (le, timed) =
      Agrees-later (window_of key) t now _ (attempts past key) le
        (elim (Bool-cases (text_eq key k)) [
          | inl same ↦
              let e = (text_eq_iff key k).0 same in
              rw same
                (rw e (fresh_bucket k t (run past) (attempts past k) (run-Agrees past t k timed)).0)
          | inr other ↦ rw other (run-Agrees past t key timed)
        ])
  run-Agrees (recording k t ∷ past) now key (le, timed) =
      let b = bucket_for k (window_of k) t (run past) in
      let full : Bucket = record b { hits = b.hits ++ t ∷ [] } in
      Agrees-later (window_of key) t now _ _ le (
        sweep-Agrees (window_of key) t key (store k full (run past)) _
          (elim (Bool-cases (text_eq key k)) [
            | inl same ↦
                let e = (text_eq_iff key k).0 same in
                rw same (
                  rw e (
                    append-Agrees (window_of k) t b (attempts past k)
                      (fresh_bucket k t (run past) (attempts past k)
                        (run-Agrees past t k timed)).0))
            | inr other ↦ rw other (run-Agrees past t key timed)
          ]))
  run-Agrees (resetting k ∷ past) now key timed = elim (Bool-cases (text_eq key k)) [
    | inl same ↦ rw same λ u h. nothing_live (window_of key) u
    | inr other ↦ rw other (run-Agrees past now key timed)
  ]

  peek_live :
      (past : List Step) (key : Text) (now : ℕ)
      → IsTimed past now
      → (bucket_for key (window_of key) now (run past)).hits
        ≡ live (window_of key) now (attempts past key)
  peek_live past key now timed =
      (fresh_bucket key now (run past) (attempts past key) (run-Agrees past now key timed)).1

  -- Where the clock does not run backwards and each key keeps one window, the limiter answers by
  -- the attempts on the key since its last reset that still lie in the window: within quota while
  -- they are fewer than the limit, else locked until the oldest of them leaves the window, in
  -- seconds rounded up, at least one.
  pub peek_answers :
      (past : List Step) (key : Text) (limit now : ℕ)
      → IsTimed past now
      → (peek key limit (window_of key) now (run past)).0
        ≡ answer limit (window_of key) now (live (window_of key) now (attempts past key))
  unfolding peek answer
  peek_answers past key limit now timed =
      ap (answer limit (window_of key) now) (peek_live past key now timed)

  -- Where the clock does not run backwards, each key keeps one window and exactly as many attempts
  -- as the limit lie in it, whoever asks again after the seconds that the limiter answered, and has
  -- made no attempt in between, is within quota.
  pub waiting_helps :
      (past : List Step) (key : Text) (limit now n : ℕ)
      → IsTimed past now
      → length (live (window_of key) now (attempts past key)) ≡ limit
      → (peek key limit (window_of key) now (run past)).0 ≡ locked_for n
      → (peek key limit (window_of key) (now + n * second) (run (peeking key limit now ∷ past))).0
        ≡ within_quota
  unfolding attempts
  waiting_helps past key limit now n timed full locked =
      let w = window_of key in
      let hits = live w now (attempts past key) in
      let later = now + n * second in
      let shown =
        peek_answers (peeking key limit now ∷ past) key limit later (omega arith, timed) in
      let still : live w later (attempts past key) ≡ live w later hits =
        sym (live-live w now later (attempts past key) (omega arith)) in
      shown
      ∙ ap (answer limit w later) still
      ∙ leaves limit w now n hits full (sym (peek_answers past key limit now timed) ∙ locked)
