-- ===== src/Calendar/Laws.antt =====
-- The month steps, counted in months, and the order of dates.
use accountant_backend.Prelude.{
  ℕ, ◌+◌, ◌*◌, ◌-◌, ◌≤◌, ◌<◌, min, ◌≡◌, ◌↔◌, inl, inr, refl, true, false, Option, some, arith, ◌==◌,
  Bool-cases,
}
use accountant_backend.Calendar.{
  Date, date, max_year, month_length, new_date, date_le, date_lt, same_date, next_month_charge,
  next_month,
}

-- a date that the constructor of `date` accepts
pub record IsValid (d : Date) : Type 0 where
  pub year_in : (1 ≤ d.year) × (d.year ≤ max_year)
  pub month_in : (1 ≤ d.month) × (d.month ≤ 12)
  pub day_in : (1 ≤ d.day) × (d.day ≤ month_length d.year d.month)

-- the months since year 0
abbrev pub month_index : Date → ℕ
month_index d = d.year * 12 + (d.month - 1)

-- the month after the last one that a date can lie in
abbrev pub end_of_time : ℕ
end_of_time = 120000

pub month_length_bounds : (y m : ℕ) → (28 ≤ month_length y m) × (month_length y m ≤ 31)
unfolding month_length
month_length_bounds y m = ground arith

-- `r` is the charge date of the month after that of `d`
pub record IsNextCharge (d : Date) (billing_day : ℕ) (r : Option Date) : Type 0 where
  pub next : Date
  pub returns : r ≡ some next
  pub valid : IsValid next
  pub index : month_index next ≡ month_index d + 1
  pub clamped : next.day ≡ min billing_day (month_length next.year next.month)

-- Before December of the last year, a valid date and a billing day from 1 on have a next charge
-- date: it is valid, lies in the very next month, and is the billing day, or the month's last day
-- where the month is too short.
pub next_month_charge-IsNextCharge :
    (d : Date) (b : ℕ)
    → IsValid d
    → 1 ≤ b
    → month_index d + 1 < end_of_time
    → IsNextCharge d b (next_month_charge d b)
unfolding next_month_charge
next_month_charge-IsNextCharge d b v hb room = elim (Bool-cases (d.month == 12)) [
  | inl last ↦ record {
    next = date (d.year + 1) 1 (min b (month_length (d.year + 1) 1));
    returns = ground (arith, month_length_bounds (d.year + 1) 1);
    valid = ground (arith, month_length_bounds (d.year + 1) 1);
    index = ground arith;
    clamped = refl;
  }
  | inr inner ↦ record {
    next = date d.year (d.month + 1) (min b (month_length d.year (d.month + 1)));
    returns = ground (arith, month_length_bounds d.year (d.month + 1));
    valid = ground (arith, month_length_bounds d.year (d.month + 1));
    index = ground arith;
    clamped = refl;
  }
]

-- Before December of the last year, the savings walk steps from a valid date to the first day of
-- the very next month, which is valid.
pub next_month_lem :
    (d : Date)
    → IsValid d
    → month_index d + 1 < end_of_time
    → (n : Date) × (next_month d ≡ some n)
      × IsValid n
      × (month_index n ≡ month_index d + 1)
      × (n.day ≡ 1)
unfolding next_month new_date
next_month_lem d v room = elim (Bool-cases (d.month == 12)) [
  | inl last ↦ (
    date (d.year + 1) 1 1,
    ground (arith, month_length_bounds (d.year + 1) 1),
    ground (arith, month_length_bounds (d.year + 1) 1),
    ground arith,
    refl,
  )
  | inr inner ↦ (
    date d.year (d.month + 1) 1,
    ground (arith, month_length_bounds d.year (d.month + 1)),
    ground (arith, month_length_bounds d.year (d.month + 1)),
    ground arith,
    refl,
  )
]

-- A later month is a later date.
pub date_lt_of_month_index :
    (a b : Date) → IsValid a → IsValid b → month_index a < month_index b → date_lt a b ≡ true
unfolding date_lt
date_lt_of_month_index a b va vb h = ground arith

-- A date that is not after another lies in the same month or an earlier one.
pub month_index_of_date_le :
    (a b : Date) → IsValid a → IsValid b → date_le a b ≡ true → month_index a ≤ month_index b
unfolding date_le
month_index_of_date_le a b va vb h = ground arith

pub date_le_of_not_lt : (a b : Date) → date_lt b a ≡ false → date_le a b ≡ true
unfolding date_le date_lt
date_le_of_not_lt a b h = ground arith

pub not_le_of_date_lt : (a b : Date) → date_lt b a ≡ true → date_le a b ≡ false
unfolding date_le date_lt
not_le_of_date_lt a b h = ground arith

pub same_date_iff : (a b : Date) → (same_date a b ≡ true) ↔ (a ≡ b)
unfolding same_date
same_date_iff a b = ground arith
