-- ===== src/Schemas/Money.antt =====
-- Amounts of money in a request: a `Decimal` is its coefficient and its number of decimals.
pub mod Bounds
use accountant_backend.Prelude.{
  ℕ, ℤ, pos, negsuc, suc, ◌+◌, ◌*◌, ◌/◌, ◌<◌, ◌≤◌, ◌≡◌, Bool, true, ◌&&◌, leb, ltb, ltb_ℤ, leb_ℤ,
  neg_ℤ, arith,
}
use Prim.Native.Nat.{◌^◌}

pub record Decimal : Type 0 where
  pub coefficient : ℤ
  pub places : ℕ

abbrev pub magnitude : ℤ → ℕ
magnitude (pos n) = n
magnitude (negsuc n) = suc n

-- `Field(max_digits=12, decimal_places=2)`: two decimals, and so ten digits before them
abbrev pub is_money : Decimal → Bool
is_money d = leb d.places 2 && ltb (magnitude d.coefficient) (10 ^ (10 + d.places))

-- `Field(gt=0, max_digits=12, decimal_places=2)`
abbrev pub is_amount : Decimal → Bool
is_amount d = is_money d && ltb_ℤ (pos 0) d.coefficient

-- `Field(ge=0, max_digits=12, decimal_places=2)`
abbrev pub is_goal : Decimal → Bool
is_goal d = is_money d && leb_ℤ (pos 0) d.coefficient

-- `int` of a decimal, which cuts towards zero
abbrev pub truncate : ℤ → ℕ → ℤ
truncate (pos n) divisor = pos (n / divisor)
truncate (negsuc n) divisor = neg_ℤ (pos (suc n / divisor))

-- `amount_as_minor`, `limit_as_minor` and `goal_as_minor`: `int(self.amount * 100)`
unfoldable pub amount_as_minor : Decimal → ℤ
amount_as_minor d = elim d.coefficient [
  | pos n ↦ truncate (pos (n * 100)) (10 ^ d.places)
  | negsuc n ↦ truncate (negsuc (n * 100 + 99)) (10 ^ d.places)
]
