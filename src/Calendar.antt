-- ===== src/Calendar.antt =====
-- Python's `date` and `datetime` as app/application and app/infrastructure use them, and the
-- month steps of application/ledger/subscriptions.py and application/savings/services.py.
-- An aware `datetime` is the instant that it names, in microseconds since 0001-01-01T00:00Z.
pub mod Laws
use accountant_backend.Prelude.{
  ℕ, zero, suc, ◌+◌, ◌-◌, ◌*◌, ◌/◌, ◌%◌, min, Bool, not, ◌&&◌, ◌||◌, Option, none, some, ltb, leb,
  ◌==◌, if◌then◌else◌,
}

pub record Date : Type 0 where
  pub year : ℕ
  pub month : ℕ
  pub day : ℕ

abbrev pub date : ℕ → ℕ → ℕ → Date
date of_year in_month on_day = record { year = of_year; month = in_month; day = on_day }

abbrev pub max_year : ℕ
max_year = 9999

unfoldable pub is_leap : ℕ → Bool
is_leap y = y % 4 == 0 && (not (y % 100 == 0) || y % 400 == 0)

-- `calendar.monthrange(year, month)[1]`, at a month from 1 to 12
unfoldable pub month_length : ℕ → ℕ → ℕ
unfolding is_leap
month_length y m =
    if m == 4 || m == 6 || m == 9 || m == 11
    then 30
    else if m == 2
    then 28 + (if is_leap y then 1 else 0)
    else 31

-- `date(year, month, day)`: `none` stands for the `ValueError`
unfoldable pub new_date : ℕ → ℕ → ℕ → Option Date
new_date y m d =
    if leb 1 y && leb y max_year && leb 1 m && leb m 12 && leb 1 d && leb d (month_length y m)
    then some (date y m d)
    else none

-- `a <= b` and `a < b`
unfoldable pub date_le : Date → Date → Bool
date_le a b =
    ltb a.year b.year
    || a.year == b.year && (ltb a.month b.month || a.month == b.month && leb a.day b.day)

unfoldable pub date_lt : Date → Date → Bool
date_lt a b =
    ltb a.year b.year
    || a.year == b.year && (ltb a.month b.month || a.month == b.month && ltb a.day b.day)

unfoldable pub same_date : Date → Date → Bool
same_date a b = a.year == b.year && a.month == b.month && a.day == b.day

unfoldable pub days_before_month : ℕ → ℕ → ℕ
days_before_month y zero = 0
days_before_month y (suc zero) = 0
days_before_month y (suc (suc m)) = days_before_month y (suc m) + month_length y (suc m)

-- `d.toordinal()`
unfoldable pub to_ordinal : Date → ℕ
unfolding days_before_month month_length
to_ordinal d =
    let p = d.year - 1 in
    p * 365 + p / 4 - p / 100 + p / 400 + days_before_month d.year d.month + d.day

-- `datetime.combine(d, time(hour=h), tzinfo=UTC)`
unfoldable pub combine_utc : Date → ℕ → ℕ
unfolding to_ordinal
combine_utc d h = ((to_ordinal d - 1) * 24 + h) * 3600000000

-- `next_month_charge`
unfoldable pub next_month_charge : Date → ℕ → Option Date
unfolding new_date
next_month_charge current billing_day =
    let year = current.year + (if current.month == 12 then 1 else 0) in
    let month = if current.month == 12 then 1 else current.month + 1 in
    let last_day = month_length year month in new_date year month (min billing_day last_day)

-- `_next_month`
unfoldable pub next_month : Date → Option Date
unfolding new_date
next_month value =
    if value.month == 12
    then new_date (value.year + 1) 1 1
    else new_date value.year (value.month + 1) 1

-- `d - timedelta(days=1)`, where `d` is not the first day of the calendar
unfoldable pub previous_day : Date → Date
unfolding month_length
previous_day d =
    if ltb 1 d.day
    then date d.year d.month (d.day - 1)
    else if ltb 1 d.month
    then date d.year (d.month - 1) (month_length d.year (d.month - 1))
    else date (d.year - 1) 12 31

-- `d + timedelta(days=1)`, where `d` is not the last day of the calendar
unfoldable pub next_day : Date → Date
unfolding month_length
next_day d =
    if ltb d.day (month_length d.year d.month)
    then date d.year d.month (d.day + 1)
    else if ltb d.month 12
    then date d.year (d.month + 1) 1
    else date (d.year + 1) 1 1

-- `d - timedelta(days=n)`
unfoldable pub days_before : ℕ → Date → Date
unfolding previous_day
days_before zero d = d
days_before (suc n) d = previous_day (days_before n d)
