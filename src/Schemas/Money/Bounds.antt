-- ===== src/Schemas/Money/Bounds.antt =====
-- What an amount that a schema lets through becomes in minor units.
use accountant_backend.Prelude.{
  ℕ, zero, suc, ℤ, pos, negsuc, ◌+◌, ◌*◌, ◌/◌, ◌<◌, ◌≡◌, refl, arith, true, leb,
}
use Prim.Native.Nat.{◌^◌}
use accountant_backend.Schemas.Money.{Decimal, magnitude, is_amount, amount_as_minor}

-- by the number of decimals, which is at most two
cut_exact :
    (n p : ℕ)
    → leb p 2 ≡ true
    → 0 < n
    → n < 10 ^ (10 + p)
    → (0 < n * 100 / 10 ^ p) × (n * 100 / 10 ^ p < 2 ^ 63) × (n * 100 / 10 ^ p * 10 ^ p ≡ n * 100)
cut_exact n zero le pos_n top = (omega arith, omega arith, omega arith)
cut_exact n (suc zero) le pos_n top = (omega arith, omega arith, omega arith)
cut_exact n (suc (suc zero)) le pos_n top = (omega arith, omega arith, omega arith)
cut_exact n (suc (suc (suc p))) le pos_n top = absurd (ground arith)

fits :
    (c : ℤ) (p : ℕ)
    → let d : Decimal = record { coefficient = c; places = p } in
      is_amount d ≡ true
      → (n : ℕ) × (amount_as_minor d ≡ pos n)
        × (0 < n)
        × (n < 2 ^ 63)
        × (n * 10 ^ p ≡ magnitude c * 100)
unfolding amount_as_minor
fits (pos n) p accepted =
    let (positive, small, exact) = cut_exact n p (ground arith) (ground arith) (ground arith) in
    (n * 100 / 10 ^ p, refl, positive, small, exact)
fits (negsuc n) p accepted = absurd (ground arith)

-- An amount that the constraints of a schema let through becomes a positive number of minor units that fits in a
-- column of 64 bits with a sign, and no part of it is cut off.
pub amount_as_minor-Fits :
    (d : Decimal)
    → is_amount d ≡ true
    → (n : ℕ) × (amount_as_minor d ≡ pos n)
      × (0 < n)
      × (n < 2 ^ 63)
      × (n * 10 ^ d.places ≡ magnitude d.coefficient * 100)
amount_as_minor-Fits d accepted = fits d.coefficient d.places accepted
