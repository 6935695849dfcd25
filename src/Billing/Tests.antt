-- ===== src/Billing/Tests.antt =====
-- The billing periods of internal/handlers/summary.go at concrete days.
use financentury_backend.Prelude.{ℕ, ◌≤◌, ◌≡◌, refl, true, false, length, arith}
use financentury_backend.Prelude.Int.{pos, negsuc}
use financentury_backend.Billing.{
  Date, days_in, min_int, before, shift_months, month_start, compute_billing_period_start,
  max_periods, resume_periods,
}
use financentury_backend.Billing.Months.{IsDate, IsClamped}
use financentury_backend.Billing.Periods.{
  compute_billing_period_start_holds, compute_billing_period_start_unique,
}
use financentury_backend.Billing.Resume.{GoBack, resume_periods_lem}

abbrev date : ℕ → ℕ → ℕ → Date
date y m d = record { year = y; month = m; day = d }

abbrev mid_march : Date
mid_march = date 2024 3 15

mid_march-IsDate : IsDate mid_march
unfolding days_in
mid_march-IsDate = record {
  month_low = omega arith;
  month_high = omega arith;
  day_low = omega arith;
  day_high = omega arith;
}

-- The cutoff of the 31st falls on the last day of February, in a leap year and in another.
start_tests :
    (compute_billing_period_start mid_march (pos 31) (pos 1) ≡ date 2024 2 29)
    × (compute_billing_period_start (date 2023 3 15) (pos 31) (pos 1) ≡ date 2023 2 28)
    × (compute_billing_period_start mid_march (pos 15) (pos 1) ≡ date 2024 3 15)
    × (compute_billing_period_start (date 2024 1 3) (pos 5) (pos 3) ≡ date 2023 10 5)
    × (compute_billing_period_start mid_march (negsuc 3) (pos 0) ≡ date 2024 3 1)
unfolding compute_billing_period_start month_start shift_months min_int days_in
start_tests = (refl, refl, refl, refl, refl)

holds_example :
    (before mid_march (compute_billing_period_start mid_march (pos 31) (pos 2)) ≡ false)
    × (before mid_march
          (shift_months (compute_billing_period_start mid_march (pos 31) (pos 2)) (pos 2) 31)
        ≡ true)
    × IsClamped 31 (compute_billing_period_start mid_march (pos 31) (pos 2))
    × IsClamped 31
        (shift_months (compute_billing_period_start mid_march (pos 31) (pos 2)) (pos 2) 31)
holds_example =
    compute_billing_period_start_holds mid_march (pos 31) (pos 2) mid_march-IsDate (omega arith)

leap_day-IsClamped : IsClamped 31 (date 2024 2 29)
unfolding min_int days_in
leap_day-IsClamped = refl

leap_day_end : before mid_march (shift_months (date 2024 2 29) (pos 1) 31) ≡ true
unfolding shift_months min_int days_in
leap_day_end = refl

unique_example : date 2024 2 29 ≡ compute_billing_period_start mid_march (pos 31) (pos 1)
unique_example =
    compute_billing_period_start_unique mid_march (date 2024 2 29) (pos 31) mid_march-IsDate
      (omega arith) (omega arith, omega arith) leap_day-IsClamped refl leap_day_end

resume_periods_example :
    GoBack 3
      (date 2023 6 1)
      (date 2024 2 29)
      (resume_periods 4 3 31 (date 2023 6 1) (date 2024 2 29))
    × (length (resume_periods 4 3 31 (date 2023 6 1) (date 2024 2 29)) ≤ 4)
resume_periods_example =
    resume_periods_lem 3 31 (date 2023 6 1) 4 (date 2024 2 29) (omega arith, omega arith)
      leap_day-IsClamped (omega arith) (omega arith)

-- Four quarters make a year; the third starts before the budget was created.
resume_tests :
    (max_periods 3 ≡ 4)
    × (max_periods 24 ≡ 1)
    × (length (resume_periods 4 3 31 (date 2023 6 1) (date 2024 2 29)) ≡ 2)
unfolding max_periods resume_periods shift_months min_int days_in
resume_tests = (refl, refl, refl)
