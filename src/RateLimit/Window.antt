-- ===== src/RateLimit/Window.antt =====
-- What a bucket has to do with the attempts on its key: trimming and sweeping lose nothing live.
use accountant_backend.Prelude.{
  ℕ, ◌+◌, ◌≤◌, ◌≡◌, ◌∙◌, refl, ap, sym, true, false, not, Option, none, some, List, [], ◌∷◌, ◌++◌,
  arith, All, Text, select_where, ltb, ◌==◌, if◌then◌else◌, inl, inr, Bool-cases, All-append,
  select_where-append,
}
use accountant_backend.RateLimit.{
  Bucket, Limiter, is_past, trim, bucket_for, is_stale, sweep, sweep_interval,
}

-- the attempts that lie in the window
abbrev pub live : ℕ → ℕ → List ℕ → List ℕ
live w now = select_where (λ hit. not (is_past w now hit))

abbrev pub Sorted : List ℕ → Type 0
Sorted [] = Unit
Sorted (h ∷ hs) = All (λ g. h ≤ g) hs × Sorted hs

live_of_alive :
    (w now h : ℕ) (hs : List ℕ) → is_past w now h ≡ false → All (λ g. h ≤ g) hs → live w now hs ≡ hs
unfolding select_where
live_of_alive w now h [] alive later = refl
live_of_alive w now h (g ∷ gs) alive later = ground (arith, live_of_alive w now h gs)

-- dropping from the front drops all that is past
trim-live : (w now : ℕ) (hs : List ℕ) → Sorted hs → trim w now hs ≡ live w now hs
unfolding trim select_where
trim-live w now [] s = refl
trim-live w now (h ∷ hs) (later, s) = ground (arith, trim-live w now hs s, live_of_alive w now h hs)

pub live-live : (w now t : ℕ) (hs : List ℕ) → now ≤ t → live w t (live w now hs) ≡ live w t hs
unfolding select_where
live-live w now t [] le = refl
live-live w now t (h ∷ hs) le = ground (arith, live-live w now t hs)

stale-live : (w now : ℕ) (hs : List ℕ) → Sorted hs → is_stale w now hs ≡ true → live w now hs ≡ []
unfolding is_stale select_where
stale-live w now [] s h = refl
stale-live w now (g ∷ []) s h = ground arith
stale-live w now (f ∷ g ∷ hs) ((le, _), s) h = ground (arith, stale-live w now (g ∷ hs) s)

-- what a bucket has to do with the attempts on its key, from the moment `t` on
abbrev pub Agrees : ℕ → ℕ → Option Bucket → List ℕ → Type 0
Agrees w t none log = (t' : ℕ) → t ≤ t' → live w t' log ≡ []
Agrees w t (some b) log =
    (b.window_seconds ≡ w)
    × Sorted b.hits
    × All (λ h. h ≤ t) b.hits
    × ((t' : ℕ) → t ≤ t' → live w t' b.hits ≡ live w t' log)

All-later : (t t' : ℕ) (hs : List ℕ) → t ≤ t' → All (λ h. h ≤ t) hs → All (λ h. h ≤ t') hs
All-later t t' [] le all = tt
All-later t t' (h ∷ hs) le (a, all) = (omega arith, All-later t t' hs le all)

pub Agrees-later :
    (w t t' : ℕ) (o : Option Bucket) (log : List ℕ) → t ≤ t' → Agrees w t o log → Agrees w t' o log
Agrees-later w t t' none log le agrees = λ u h. agrees u (omega arith)
Agrees-later w t t' (some b) log le (window, sorted, before, same) =
    (window, sorted, All-later t t' b.hits le before, λ u h. same u (omega arith))

All-live : (P : ℕ → Type 0) (w now : ℕ) (hs : List ℕ) → All P hs → All P (live w now hs)
unfolding select_where
All-live P w now [] all = tt
All-live P w now (h ∷ hs) (a, all) = elim (Bool-cases (is_past w now h)) [
  | inl past ↦ rw (past, select_where) (All-live P w now hs all)
  | inr alive ↦ rw (alive, select_where) (a, All-live P w now hs all)
]

Sorted-live : (w now : ℕ) (hs : List ℕ) → Sorted hs → Sorted (live w now hs)
unfolding select_where
Sorted-live w now [] s = tt
Sorted-live w now (h ∷ hs) (later, s) = elim (Bool-cases (is_past w now h)) [
  | inl past ↦ rw (past, select_where) (Sorted-live w now hs s)
  | inr alive ↦
      rw (alive, select_where) (All-live (λ g. h ≤ g) w now hs later, Sorted-live w now hs s)
]

pub refreshed : ℕ → ℕ → Option Bucket → Bucket
unfolding trim
refreshed w now none = record { window_seconds = w; hits = [] }
refreshed w now (some b) =
    if b.window_seconds == w
    then record { window_seconds = w; hits = trim w now b.hits }
    else record { window_seconds = w; hits = [] }

pub bucket_for-refreshed :
    (key : Text) (w now : ℕ) (l : Limiter)
    → bucket_for key w now l ≡ refreshed w now (l.buckets key)
unfolding bucket_for refreshed
bucket_for-refreshed key w now l = go (l.buckets key)
  where
    go :
        (o : Option Bucket)
        → elim o as (λ _. Bucket) [
          | none ↦ record { window_seconds = w; hits = [] }
          | some b ↦
              if b.window_seconds == w
              then record { window_seconds = w; hits = trim w now b.hits }
              else record { window_seconds = w; hits = [] }
        ]
          ≡ refreshed w now o
    go none = refl
    go (some b) = refl

pub refreshed-Agrees :
    (w t now : ℕ) (o : Option Bucket) (log : List ℕ)
    → t ≤ now
    → Agrees w t o log
    → Agrees w now (some (refreshed w now o)) log × ((refreshed w now o).hits ≡ live w now log)
unfolding refreshed select_where
refreshed-Agrees w t now none log le agrees =
    ((refl, tt, tt, λ u h. sym (agrees u (omega arith))), sym (agrees now le))
refreshed-Agrees w t now (some b) log le (window, sorted, before, same) =
    let known : (b.window_seconds == w) ≡ true = ground arith in
    rw (known, trim-live w now b.hits sorted)
      (
        (
          refl,
          Sorted-live w now b.hits sorted,
          All-live (λ h. h ≤ now) w now b.hits (All-later t now b.hits le before),
          λ u h. live-live w now u b.hits h ∙ same u (omega arith),
        ),
        same now le,
      )

Sorted-append :
    (now : ℕ) (hs : List ℕ) → Sorted hs → All (λ h. h ≤ now) hs → Sorted (hs ++ now ∷ [])
Sorted-append now [] s all = (tt, tt)
Sorted-append now (h ∷ hs) (later, s) (a, all) =
    (All-append (λ g. h ≤ g) hs (now ∷ []) later (a, tt), Sorted-append now hs s all)

pub append-Agrees :
    (w now : ℕ) (b : Bucket) (log : List ℕ)
    → Agrees w now (some b) log
    → Agrees w now (some (record b { hits = b.hits ++ now ∷ [] })) (log ++ now ∷ [])
append-Agrees w now b log (window, sorted, before, same) = (
  window,
  Sorted-append now b.hits sorted before,
  All-append (λ h. h ≤ now) b.hits (now ∷ []) before (omega arith, tt),
  λ u h.
      select_where-append (λ hit. not (is_past w u hit)) b.hits (now ∷ [])
      ∙ ap (λ hs. hs ++ live w u (now ∷ [])) (same u h)
      ∙ sym (select_where-append (λ hit. not (is_past w u hit)) log (now ∷ [])),
)

pub nothing_live : (w now : ℕ) → live w now [] ≡ []
unfolding select_where
nothing_live w now = refl

-- a swept bucket holds nothing that is still live
swept-Agrees :
    (w now : ℕ) (o : Option Bucket) (log : List ℕ)
    → Agrees w now o log
    → Agrees w now
        (elim o [
          | none ↦ none
          | some b ↦ if is_stale b.window_seconds now b.hits then none else some b
        ])
        log
unfolding is_stale
swept-Agrees w now none log agrees = agrees
swept-Agrees w now (some b) log (window, sorted, before, same) =
    elim (Bool-cases (is_stale b.window_seconds now b.hits)) [
      | inl stale ↦ rw stale λ u h.
          sym (same u h)
          ∙ sym (live-live w now u b.hits h)
          ∙ ap (live w u) (stale-live w now b.hits sorted (rw (← window) stale))
          ∙ nothing_live w u
      | inr fresh ↦ rw fresh (window, sorted, before, same)
    ]

pub sweep-Agrees :
    (w now : ℕ) (key : Text) (l : Limiter) (log : List ℕ)
    → Agrees w now (l.buckets key) log
    → Agrees w now ((sweep now l).buckets key) log
unfolding sweep
sweep-Agrees w now key l log agrees = elim (Bool-cases (ltb now (l.swept_at + sweep_interval))) [
  | inl early ↦ rw (early, sweep) agrees
  | inr due ↦ rw (due, sweep) (swept-Agrees w now (l.buckets key) log agrees)
]
