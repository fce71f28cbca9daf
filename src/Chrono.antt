-- ===== src/Chrono.antt =====
-- What the backend uses of the `chrono` crate. A `DateTime<Utc>` is the number of nanoseconds since
-- the crate's first instant, and a `Duration` is its number of nanoseconds. The calendar is a
-- parameter: its operations in `Calendar`, what is documented of them in `IsCalendar`.
use mcp_host.Prelude.{ℕ, ◌+◌, ◌*◌, ◌/◌, ◌%◌, ◌≤◌, ◌<◌, ◌≡◌, refl, Option, some, arith}

-- `Duration::seconds(1)`
abbrev pub second : ℕ
second = 1000000000

-- `Duration::days(1)`: a day of UTC has no leap seconds in the crate's arithmetic.
abbrev pub day : ℕ
day = 86400000000000

pub record Calendar : Type 0 where
  -- `with_ymd_and_hms(t.year(), t.month(), t.day(), 0, 0, 0)`
  pub midnight : ℕ → ℕ
  -- `weekday().num_days_from_monday()`
  pub weekday : ℕ → ℕ
  -- `num_seconds_from_midnight()`
  pub seconds_from_midnight : ℕ → ℕ
  -- `from_ymd_opt(t.year(), t.month(), 1)` at midnight
  pub month_start : ℕ → ℕ
  -- `t + Months::new(n)`
  pub plus_months : ℕ → ℕ → ℕ
  -- `checked_add_signed`, by a duration
  pub checked_add_signed : ℕ → ℕ → Option ℕ
  -- `checked_add_months`
  pub checked_add_months : ℕ → ℕ → Option ℕ
  -- the weekday of the first day
  pub first_weekday : ℕ

pub record IsCalendar (c : Calendar) : Type 0 where
  pub midnight_lem : (t : ℕ) → c.midnight t ≡ t / day * day
  pub weekday_lem : (t : ℕ) → c.weekday t ≡ (t / day + c.first_weekday) % 7
  pub seconds_lem : (t : ℕ) → c.seconds_from_midnight t ≡ t % day / second
  pub month_start_le : (t : ℕ) → c.month_start t ≤ t
  pub month_end : (t : ℕ) → t < c.plus_months (c.month_start t) 1
  pub same_month :
      (s t : ℕ)
      → c.month_start s ≤ t
      → t < c.plus_months (c.month_start s) 1
      → c.month_start t ≡ c.month_start s

-- A calendar whose months all have thirty days, for examples.
abbrev pub plain : Calendar
plain = record {
  midnight = λ t. t / day * day;
  weekday = λ t. t / day % 7;
  seconds_from_midnight = λ t. t % day / second;
  month_start = λ t. t / 2592000000000000 * 2592000000000000;
  plus_months = λ t n. t + n * 2592000000000000;
  checked_add_signed = λ t d. some (t + d);
  checked_add_months = λ t n. some (t + n * 2592000000000000);
  first_weekday = 0;
}

pub plain-IsCalendar : IsCalendar plain
plain-IsCalendar = record {
  midnight_lem = λ t. refl;
  weekday_lem = λ t. omega arith;
  seconds_lem = λ t. refl;
  month_start_le = λ t. omega arith;
  month_end = λ t. omega arith;
  same_month = λ s t h k. omega arith;
}
