-- ===== src/Notifications/Owed.antt =====
-- Which days `_summary_dates_owed` gives.
use accountant_backend.Prelude.{
  ℕ, zero, suc, ◌≤◌, ◌≡◌, ◌⊎◌, refl, subst, sym, arith, true, false, List, [], ◌∷◌, All, length,
  ◌==◌, Bool-cases, inl, inr,
}
use accountant_backend.Calendar.{Date, date_lt, days_before}
use accountant_backend.Domain.{Instant, User}
use accountant_backend.Notifications.{Zone}
use accountant_backend.Notifications.Runtime.{is_owed, dates_owed}

module _ (zone : Zone) (user : User) (now : Instant) where
  -- the day so many days ago owes a summary: it is not before the day of the account and, where it
  -- is today, the chosen time of day has come
  abbrev pub Owes : ℕ → Type 0
  Owes k =
      (date_lt (days_before k (zone.local_date now)) (zone.local_date user.created_at) ≡ false)
      × (k ≡ 0 → user.daily_summary_time ≤ zone.local_time now)

  Owes-is_owed : (k : ℕ) → is_owed zone user now k ≡ true → Owes k
  Owes-is_owed k owed = (ground arith, λ today. ground arith)

  -- an offset of at most `n` days whose day owes a summary
  abbrev pub IsOwed : ℕ → Date → Type 0
  IsOwed n d = (k : ℕ) × (k ≤ n) × (d ≡ days_before k (zone.local_date now)) × Owes k

  later_offset : (n : ℕ) (ds : List Date) → All (IsOwed n) ds → All (IsOwed (suc n)) ds
  later_offset n [] h = tt
  later_offset n (d ∷ ds) ((k, le, e, owed), rest) =
      ((k, omega arith, e, owed), later_offset n ds rest)

  sound : (n : ℕ) → All (IsOwed n) (dates_owed zone user now n)
  unfolding dates_owed days_before
  sound zero = elim (Bool-cases (is_owed zone user now 0)) [
    | inl owed ↦ rw owed ((0, omega arith, refl, Owes-is_owed 0 owed), tt)
    | inr skipped ↦ rw skipped tt
  ]
  sound (suc n) = elim (Bool-cases (is_owed zone user now (suc n))) [
    | inl owed ↦
        rw owed ((suc n, omega arith, refl, Owes-is_owed (suc n) owed), later_offset n _ (sound n))
    | inr skipped ↦ rw skipped (later_offset n _ (sound n))
  ]

  at_most : (n : ℕ) → length (dates_owed zone user now n) ≤ suc n
  unfolding dates_owed
  at_most zero = ground arith
  at_most (suc n) = ground (arith, at_most n)

  abbrev pub Has : Date → List Date → Type 0
  Has d [] = ⊥
  Has d (e ∷ ds) = (d ≡ e) ⊎ Has d ds

  -- an offset of at most `n + 1` is `n + 1` or at most `n`
  top_or_below : (k n : ℕ) → k ≤ suc n → (k ≡ suc n) ⊎ (k ≤ n)
  top_or_below k n le = elim (Bool-cases (k == suc n)) [
    | inl top ↦ inl (ground arith)
    | inr below ↦ inr (ground arith)
  ]

  complete :
      (n k : ℕ)
      → k ≤ n
      → is_owed zone user now k ≡ true
      → Has (days_before k (zone.local_date now)) (dates_owed zone user now n)
  unfolding dates_owed days_before
  complete zero k le owed =
      let none_left : 0 ≡ k = omega arith in
      subst (λ j. Has (days_before j (zone.local_date now)) (dates_owed zone user now 0)) none_left
        (rw (subst (λ j. is_owed zone user now j ≡ true) (sym none_left) owed) (inl refl))
  complete (suc n) k le owed = elim (top_or_below k n le) [
    | inl top ↦
        subst (λ j. Has (days_before j (zone.local_date now)) (dates_owed zone user now (suc n)))
          (sym top) (rw (subst (λ j. is_owed zone user now j ≡ true) top owed) (inl refl))
    | inr below ↦ elim (Bool-cases (is_owed zone user now (suc n))) [
      | inl first ↦ rw first (inr (complete n k below owed))
      | inr skipped ↦ rw skipped (complete n k below owed)
    ]
  ]

  is_owed-Owes : (k : ℕ) → Owes k → is_owed zone user now k ≡ true
  is_owed-Owes k (old, come) = elim (Bool-cases (k == 0)) [
    | inl today ↦ let here = come (ground arith) in ground arith
    | inr earlier ↦ ground arith
  ]

  -- The days that owe a summary are at most one more than the days to catch up; each lies at most so many days
  -- back and owes one, and each day so near that owes one is among them. A day owes one where it is not before the account was created
  -- and, if it is today, where the chosen hour has come.
  pub dates_owed-IsOwed :
      (n : ℕ)
      → (length (dates_owed zone user now n) ≤ suc n)
        × All (IsOwed n) (dates_owed zone user now n)
        × ((k : ℕ)
            → k ≤ n
            → Owes k
            → Has (days_before k (zone.local_date now)) (dates_owed zone user now n))
  dates_owed-IsOwed n = (at_most n, sound n, λ k le owes. complete n k le (is_owed-Owes k owes))
