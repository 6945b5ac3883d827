-- ===== src/Prelude/Lists.antt =====
-- Rows of a table: a list, read by a `WHERE` test, sorted by an `ORDER BY` test.
use Prim.Native.Nat.{ℕ, suc}
use mathlib.Core.Path.{◌≡◌, refl}
use mathlib.Core.Logic.{inl, inr}
use mathlib.Core.Bool.{Bool, true, false, not, ◌||◌}
use mathlib.Core.Option.{Option, none, some}
use mathlib.Core.List.{List, [], ◌∷◌, ◌++◌}
use native.Mathlib.Omega.{arith}
use accountant_backend.Prelude.Tests.{if◌then◌else◌, Bool-cases}

module _ {ℓ} {A : Type ℓ} where
  abbrev pub length : List A → ℕ
  length [] = 0
  length (x ∷ xs) = suc (length xs)

  abbrev pub All {κ} : (A → Type κ) → List A → Type κ
  All P [] = Unit
  All P (x ∷ xs) = P x × All P xs

  -- the rows that pass the test, in their order
  unfoldable pub select_where : (A → Bool) → List A → List A
  select_where p [] = []
  select_where p (x ∷ xs) = let rest = select_where p xs in if p x then x ∷ rest else rest

  -- `session.scalar(select(...).where(...))`: the first row that passes, or `None`
  unfoldable pub find_where : (A → Bool) → List A → Option A
  find_where p [] = none
  find_where p (x ∷ xs) = if p x then some x else find_where p xs

  -- `any(p(x) for x in xs)`
  unfoldable pub any_where : (A → Bool) → List A → Bool
  any_where p [] = false
  any_where p (x ∷ xs) = p x || any_where p xs

  -- writes the rows that pass the test
  unfoldable pub update_where : (A → Bool) → (A → A) → List A → List A
  update_where p f [] = []
  update_where p f (x ∷ xs) = (if p x then f x else x) ∷ update_where p f xs

  abbrev pub delete_where : (A → Bool) → List A → List A
  delete_where p = select_where (λ x. not (p x))

  -- insertion sort; `le a b` says that `a` may stand before `b`
  unfoldable pub insert_by : (A → A → Bool) → A → List A → List A
  insert_by le x [] = x ∷ []
  insert_by le x (y ∷ ys) = if le x y then x ∷ y ∷ ys else y ∷ insert_by le x ys

  unfoldable pub order_by : (A → A → Bool) → List A → List A
  unfolding insert_by
  order_by le [] = []
  order_by le (x ∷ xs) = insert_by le x (order_by le xs)

  pub find_where_holds :
      (p : A → Bool) (xs : List A) {a : A} → find_where p xs ≡ some a → p a ≡ true
  unfolding find_where
  find_where_holds p [] h = cc
  find_where_holds p (x ∷ xs) {a = a} h = ground (arith, find_where_holds p xs {a = a})

  -- A row that is found has every property that all the rows have.
  pub All-find_where {κ} :
      (P : A → Type κ) (p : A → Bool) (xs : List A) {a : A}
      → All P xs
      → find_where p xs ≡ some a
      → P a
  unfolding find_where
  All-find_where P p [] all h = cc
  All-find_where P p (x ∷ xs) {a} all h = elim (Bool-cases (p x)) [
    | inl here ↦ let e : x ≡ a = ground arith in rw (← e) all.0
    | inr later ↦ All-find_where P p xs all.1 (ground arith)
  ]

  pub find-eq-none_of_any :
      (p : A → Bool) (xs : List A) → any_where p xs ≡ false → find_where p xs ≡ none
  unfolding find_where any_where
  find-eq-none_of_any p [] h = refl
  find-eq-none_of_any p (x ∷ xs) h = ground (arith, find-eq-none_of_any p xs)

  pub select_where_keep :
      (p : A → Bool) (x : A) (xs : List A)
      → p x ≡ true
      → select_where p (x ∷ xs) ≡ x ∷ select_where p xs
  unfolding select_where
  select_where_keep p x xs h = ground arith

  pub select_where_skip :
      (p : A → Bool) (x : A) (xs : List A)
      → p x ≡ false
      → select_where p (x ∷ xs) ≡ select_where p xs
  unfolding select_where
  select_where_skip p x xs h = ground arith

  pub any_of_find :
      (p : A → Bool) (xs : List A) {a : A} → find_where p xs ≡ some a → any_where p xs ≡ true
  unfolding find_where any_where
  any_of_find p [] h = cc
  any_of_find p (x ∷ xs) {a = a} h = ground (arith, any_of_find p xs {a = a})

  pub any_of_find_none :
      (p : A → Bool) (xs : List A) → find_where p xs ≡ none → any_where p xs ≡ false
  unfolding find_where any_where
  any_of_find_none p [] h = refl
  any_of_find_none p (x ∷ xs) h = ground (arith, any_of_find_none p xs)

  pub any-or :
      (p q : A → Bool) (xs : List A)
      → any_where (λ x. p x || q x) xs ≡ (any_where p xs || any_where q xs)
  unfolding any_where
  any-or p q [] = refl
  any-or p q (x ∷ xs) = ground (arith, any-or p q xs)

  pub All-append {κ} : (P : A → Type κ) (xs ys : List A) → All P xs → All P ys → All P (xs ++ ys)
  All-append P [] ys h k = k
  All-append P (x ∷ xs) ys h k = (h.0, All-append P xs ys h.1 k)

  pub select_where-append :
      (p : A → Bool) (xs ys : List A)
      → select_where p (xs ++ ys) ≡ select_where p xs ++ select_where p ys
  unfolding select_where
  select_where-append p [] ys = refl
  select_where-append p (x ∷ xs) ys = ground (arith, select_where-append p xs ys)
