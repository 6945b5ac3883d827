-- ===== src/Prelude/Sums.antt =====
-- Sums over the rows of a query: selecting is a test in the summand, and sorting changes nothing.
use mathlib.Core.Path.{◌≡◌, refl, ◌∙◌}
use mathlib.Core.Logic.{inl, inr}
use mathlib.Core.Bool.{Bool}
use mathlib.Core.List.{List, [], ◌∷◌, map}
use accountant_backend.Prelude.Tests.{if◌then◌else◌, Bool-cases}
use accountant_backend.Prelude.Int.{ℤ, pos, ◌+ℤ◌, int_laws, sum_by}
use accountant_backend.Prelude.Lists.{select_where, insert_by, order_by}

module _ {ℓ} {A : Type ℓ} (f : A → ℤ) where
  pub sum_by-select_where :
      (p : A → Bool) (xs : List A)
      → sum_by f (select_where p xs) ≡ sum_by (λ x. if p x then f x else pos 0) xs
  unfolding sum_by select_where
  sum_by-select_where p [] = refl
  sum_by-select_where p (x ∷ xs) = elim (Bool-cases (p x)) [
    | inl taken ↦ rw (taken, sum_by-select_where p xs)
    | inr left ↦ rw left (sum_by-select_where p xs ∙ omega int_laws)
  ]

  sum_by-insert_by :
      (le : A → A → Bool) (x : A) (xs : List A) → sum_by f (insert_by le x xs) ≡ f x +ℤ sum_by f xs
  unfolding sum_by insert_by
  sum_by-insert_by le x [] = refl
  sum_by-insert_by le x (y ∷ ys) = elim (Bool-cases (le x y)) [
    | inl first ↦ rw (first, insert_by)
    | inr later ↦ rw later (rw (sum_by-insert_by le x ys) (omega int_laws))
  ]

  pub sum_by-order_by : (le : A → A → Bool) (xs : List A) → sum_by f (order_by le xs) ≡ sum_by f xs
  unfolding sum_by order_by
  sum_by-order_by le [] = refl
  sum_by-order_by le (x ∷ xs) = rw (sum_by-insert_by le x (order_by le xs), sum_by-order_by le xs)

  pub sum_by-map {κ} :
      {B : Type κ} (g : B → A) (xs : List B) → sum_by f (map g xs) ≡ sum_by (λ x. f (g x)) xs
  unfolding sum_by
  sum_by-map g [] = refl
  sum_by-map g (x ∷ xs) = rw (sum_by-map g xs)

  pub sum_by-congr : (g : A → ℤ) (xs : List A) → ((x : A) → f x ≡ g x) → sum_by f xs ≡ sum_by g xs
  unfolding sum_by
  sum_by-congr g [] h = refl
  sum_by-congr g (x ∷ xs) h = rw (h x, sum_by-congr g xs h)

module _ {ℓ} {A : Type ℓ} where
  pub sum_by-add :
      (f g : A → ℤ) (xs : List A) → sum_by f xs +ℤ sum_by g xs ≡ sum_by (λ x. f x +ℤ g x) xs
  unfolding sum_by
  sum_by-add f g [] = omega int_laws
  sum_by-add f g (x ∷ xs) = rw (← sum_by-add f g xs) (omega int_laws)
