-- ===== src/Notifications/Keys.antt =====
-- The reference keys of app/application/notifications/services.py tell limits apart.
use accountant_backend.Prelude.{
  ℕ, zero, suc, ◌+◌, ◌-◌, ◌*◌, ◌/◌, ◌<◌, ◌≡◌, ◌∙◌, refl, sym, ap, ℤ, pos, negsuc, Bool, false, [],
  ◌∷◌, ◌++◌, Text, arith, any_where, ◌==◌, digit, digits_rev, decimal, two_digits, uuid_text, hex,
  ◌||◌,
}
use mathlib.Core.List.{
  append_assoc, reverse, reverse-cons, reverse-reverse, append_inj, length, tail-eq_of_cons-eq,
}
use accountant_backend.Domain.{Uuid}
use accountant_backend.Calendar.{Date}
use accountant_backend.Notifications.{decimal_ℤ, budget_key}

-- the number that digits, the last first, stand for
value_rev : Text → ℕ
value_rev [] = 0
value_rev (d ∷ s) = (d - 48) + 10 * value_rev s

value_rev-digits_rev : (fuel n : ℕ) → n < fuel → value_rev (digits_rev fuel n) ≡ n
unfolding value_rev digits_rev digit
value_rev-digits_rev zero n room = absurd (omega arith)
value_rev-digits_rev (suc fuel) n room = ground (arith, value_rev-digits_rev fuel (n / 10))

no_dash : (fuel n : ℕ) → any_where (λ c. c == b'-') (digits_rev fuel n) ≡ false
unfolding any_where digits_rev digit
no_dash zero n = refl
no_dash (suc fuel) n = ground (arith, no_dash fuel (n / 10))

any_where-append :
    (p : ℕ → Bool) (s t : Text) → any_where p (s ++ t) ≡ (any_where p s || any_where p t)
unfolding any_where
any_where-append p [] t = refl
any_where-append p (c ∷ s) t = ground (arith, any_where-append p s t)

any_where-reverse : (p : ℕ → Bool) (s : Text) → any_where p (reverse s) ≡ any_where p s
unfolding any_where
any_where-reverse p [] = refl
any_where-reverse p (c ∷ s) =
    rw (reverse-cons c s, any_where-append p (reverse s) (c ∷ []), any_where-reverse p s)
      (ground arith)

decimal-no_dash : (n : ℕ) → any_where (λ c. c == b'-') (decimal n) ≡ false
unfolding decimal
decimal-no_dash n = any_where-reverse (λ c. c == b'-') (digits_rev (suc n) n) ∙ no_dash (suc n) n

decimal_inj : (n m : ℕ) → decimal n ≡ decimal m → n ≡ m
unfolding decimal
decimal_inj n m e =
    let same : digits_rev (suc n) n ≡ digits_rev (suc m) m =
      sym (reverse-reverse _) ∙ ap reverse e ∙ reverse-reverse _ in
    sym (value_rev-digits_rev (suc n) n (omega arith))
    ∙ ap value_rev same
    ∙ value_rev-digits_rev (suc m) m (omega arith)

decimal_ℤ_inj : (a b : ℤ) → decimal_ℤ a ≡ decimal_ℤ b → a ≡ b
unfolding decimal_ℤ any_where
decimal_ℤ_inj (pos n) (pos m) e = ap pos (decimal_inj n m e)
decimal_ℤ_inj (negsuc n) (negsuc m) e =
    let same = decimal_inj (suc n) (suc m) (tail-eq_of_cons-eq e) in
    let below : n ≡ m = omega (arith, same) in ap negsuc below
decimal_ℤ_inj (pos n) (negsuc m) e =
    let clash = sym (decimal-no_dash n) ∙ ap (any_where (λ c. c == b'-')) e in absurd (ground arith)
decimal_ℤ_inj (negsuc n) (pos m) e =
    let clash = sym (decimal-no_dash m) ∙ ap (any_where (λ c. c == b'-')) (sym e) in
    absurd (ground arith)

-- two texts up to the same mark, which is in neither
split_at :
    (s s' t t' : Text)
    → any_where (λ c. c == b'-') s ≡ false
    → any_where (λ c. c == b'-') s' ≡ false
    → s ++ b'-' ∷ t ≡ s' ++ b'-' ∷ t'
    → (s ≡ s') × (t ≡ t')
unfolding any_where
split_at [] [] t t' h h' e = (refl, tail-eq_of_cons-eq e)
split_at [] (c ∷ s') t t' h h' e = absurd (ground arith)
split_at (c ∷ s) [] t t' h h' e = absurd (ground arith)
split_at (c ∷ s) (c' ∷ s') t t' h h' e =
    let (same, rest) = split_at s s' t t' (ground arith) (ground arith) (tail-eq_of_cons-eq e) in
    let first : c ≡ c' = ground arith in (ground arith, rest)

two_digits_inj :
    (m n : ℕ) (s t : Text)
    → m < 100
    → n < 100
    → two_digits m ++ s ≡ two_digits n ++ t
    → (m ≡ n) × (s ≡ t)
unfolding two_digits digit
two_digits_inj m n s t small small' e = (ground arith, ground arith)

parts : Uuid → Date → ℤ → Text
parts c start a =
    uuid_text c
    ++ (b':' ∷ (decimal start.year ++ (b'-' ∷ (two_digits start.month ++ (b':' ∷ decimal_ℤ a)))))

budget_key-parts : (c : Uuid) (start : Date) (a : ℤ) → budget_key c start a ≡ parts c start a
unfolding budget_key parts
budget_key-parts c start a =
    let year = b':' ∷ decimal start.year in
    let month = b'-' ∷ two_digits start.month in
    let limit = b':' ∷ decimal_ℤ a in
    append_assoc (uuid_text c ++ year) month limit
    ∙ append_assoc (uuid_text c) year (month ++ limit)

same_length : (c c' : Uuid) → length (uuid_text c) ≡ length (uuid_text c')
unfolding uuid_text hex
same_length c c' = refl

-- A key tells the category as it is printed, the month and the limit.
pub budget_key_inj :
    (c c' : Uuid) (start other : Date) (a b : ℤ)
    → start.month < 100
    → other.month < 100
    → budget_key c start a ≡ budget_key c' other b
    → (uuid_text c ≡ uuid_text c')
      × (start.year ≡ other.year)
      × (start.month ≡ other.month)
      × (a ≡ b)
unfolding parts
budget_key_inj c c' start other a b small small' e =
    let split = sym (budget_key-parts c start a) ∙ e ∙ budget_key-parts c' other b in
    let (ids, tails) = append_inj split (same_length c c') in
    let after_id = tail-eq_of_cons-eq tails in
    let (years, rest) =
      split_at (decimal start.year) (decimal other.year)
        (two_digits start.month ++ b':' ∷ decimal_ℤ a)
        (two_digits other.month ++ b':' ∷ decimal_ℤ b) (decimal-no_dash start.year)
        (decimal-no_dash other.year) after_id in
    let (months, limits) =
      two_digits_inj start.month other.month (b':' ∷ decimal_ℤ a) (b':' ∷ decimal_ℤ b) small small'
        rest in
    (ids, decimal_inj _ _ years, months, decimal_ℤ_inj a b (tail-eq_of_cons-eq limits))
