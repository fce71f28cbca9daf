-- ===== src/Billing/Windows.antt =====
-- `window_bounds` of backend/src/billing/service.rs: the usage window that holds an instant.
use mcp_host.Prelude.{
  ℕ, ◌+◌, ◌-◌, ◌*◌, ◌/◌, ◌%◌, ◌≤◌, ◌<◌, ◌≡◌, String, arith, ap, str_eq, if◌then◌else◌, Bool-cases,
  inl, inr, true, false,
}
use mcp_host.Chrono.{Calendar, IsCalendar, day, second}

module _ (cal : Calendar) where
  open cal use {midnight, weekday, seconds_from_midnight, month_start, plus_months}

  daily : ℕ → ℕ × ℕ
  daily now = let start = midnight now in (start, start + day)

  weekly : ℕ → ℕ × ℕ
  weekly now =
      let start = midnight (now - weekday now * day - seconds_from_midnight now * second) in
      (start, start + 7 * day)

  monthly : ℕ → ℕ × ℕ
  monthly now = let start = month_start now in (start, plus_months start 1)

  unfoldable pub window_bounds : ℕ → String → ℕ × ℕ
  unfolding daily weekly monthly
  window_bounds now interval =
      if str_eq interval "daily"
      then daily now
      else if str_eq interval "weekly"
      then weekly now
      else monthly now

module _ (cal : Calendar) (laws : IsCalendar cal) where
  open cal use {midnight, weekday, month_start, plus_months, first_weekday}

  -- The number of the Monday on or before an instant.
  abbrev monday : ℕ → ℕ
  monday now = now / day - (now / day + first_weekday) % 7

  weekly_start : (now : ℕ) → 7 * day ≤ now → (weekly cal now).0 ≡ monday now * day
  unfolding weekly
  weekly_start now h = omega (
    arith,
    laws.midnight_lem (now - weekday now * day - cal.seconds_from_midnight now * second),
    laws.weekday_lem now,
    laws.seconds_lem now,
  )

  weekly_holds : (now : ℕ) → 7 * day ≤ now → ((weekly cal now).0 ≤ now) × (now < (weekly cal now).1)
  unfolding weekly
  weekly_holds now h = omega (arith, weekly_start now h)

  -- Every instant from the first fortnight on lies in its own usage window, whatever the reset
  -- interval.
  pub window_bounds_hold :
      (now : ℕ) (interval : String)
      → 14 * day ≤ now
      → ((window_bounds cal now interval).0 ≤ now) × (now < (window_bounds cal now interval).1)
  unfolding window_bounds
  window_bounds_hold now interval h = elim (Bool-cases (str_eq interval "daily")) [
    | inl e ↦ rw e (omega (arith, laws.midnight_lem now))
    | inr e ↦ rw e (elim (Bool-cases (str_eq interval "weekly")) [
      | inl w ↦ rw w (weekly_holds now (omega arith))
      | inr w ↦ rw w (laws.month_start_le now, laws.month_end now)
    ])
  ]

  -- The window of an interval, as a function of its start.
  daily_same :
      (now t : ℕ) → (daily cal now).0 ≤ t → t < (daily cal now).1 → daily cal t ≡ daily cal now
  unfolding daily
  daily_same now t h k =
      ap {B = ℕ × ℕ} (λ s. (s, s + day)) (omega (arith, laws.midnight_lem now, laws.midnight_lem t))

  weekly_same :
      (now t : ℕ)
      → 14 * day ≤ now
      → (weekly cal now).0 ≤ t
      → t < (weekly cal now).1
      → weekly cal t ≡ weekly cal now
  unfolding weekly
  weekly_same now t far h k =
      let a : (weekly cal now).0 ≡ monday now * day = weekly_start now (omega arith) in
      let b : (weekly cal t).0 ≡ monday t * day = weekly_start t (omega arith) in
      ap {B = ℕ × ℕ} (λ s. (s, s + 7 * day)) (omega arith)

  monthly_same :
      (now t : ℕ)
      → (monthly cal now).0 ≤ t
      → t < (monthly cal now).1
      → monthly cal t ≡ monthly cal now
  unfolding monthly
  monthly_same now t h k = ap {B = ℕ × ℕ} (λ s. (s, plus_months s 1)) (laws.same_month now t h k)

  -- Two instants in one usage window have the same window, so usage recorded at the one counts
  -- against the quota at the other, whatever the reset interval.
  pub window_bounds_stable :
      (now t : ℕ) (interval : String)
      → 14 * day ≤ now
      → (window_bounds cal now interval).0 ≤ t
      → t < (window_bounds cal now interval).1
      → window_bounds cal t interval ≡ window_bounds cal now interval
  unfolding window_bounds
  window_bounds_stable now t interval far h k =
      elim (str_eq interval "daily")
          as (λ b.
            (if b then daily cal now else rest now).0 ≤ t
            → t < (if b then daily cal now else rest now).1
            → (if b then daily cal t else rest t) ≡ (if b then daily cal now else rest now)) [
              | true ↦ daily_same now t
              | false ↦
                  elim (str_eq interval "weekly")
                    as (λ b.
                      (if b then weekly cal now else monthly cal now).0 ≤ t
                      → t < (if b then weekly cal now else monthly cal now).1
                      → (if b then weekly cal t else monthly cal t)
                        ≡ (if b then weekly cal now else monthly cal now)) [
                          | true ↦ weekly_same now t far
                          | false ↦ monthly_same now t
                        ]
            ]
        h k
    where
      rest : ℕ → ℕ × ℕ
      rest u = if str_eq interval "weekly" then weekly cal u else monthly cal u
