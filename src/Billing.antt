-- ===== src/Billing.antt =====
-- The billing periods of internal/handlers/summary.go. A date is a year, a month from 1 to 12 and a
-- day, at midnight UTC; `days_in_month` is what Go's `time.Date(y, m + 1, 0).Day()` gives.
pub mod Months
pub mod Periods
pub mod Resume
mod Tests
use financentury_backend.Prelude.{
  ℕ, zero, suc, ◌+◌, ◌-◌, ◌*◌, ◌/◌, ◌%◌, Bool, true, false, ◌&&◌, ◌||◌, not, Option, none, some,
  List, [], ◌∷◌, ltb, leb, ◌==◌, if◌then◌else◌,
}
use financentury_backend.Prelude.Int.{ℤ, pos, negsuc}

pub record Date : Type 0 where
  pub year : ℕ
  pub month : ℕ
  pub day : ℕ

-- The Gregorian rule of Go's `time` package.
abbrev pub is_leap : ℕ → Bool
is_leap y = y % 4 == 0 && (not (y % 100 == 0) || y % 400 == 0)

-- `daysIn`
pub days_in : ℕ → ℕ → ℕ
days_in y m =
    if m == 2
    then (if is_leap y then 29 else 28)
    else if m == 4 || m == 6 || m == 9 || m == 11
    then 30
    else 31

-- `minInt`
pub min_int : ℕ → ℕ → ℕ
min_int a b = if ltb a b then a else b

-- Go's `Before` on dates.
abbrev pub before : Date → Date → Bool
before a b =
    ltb a.year b.year
    || (a.year == b.year && (ltb a.month b.month || (a.month == b.month && ltb a.day b.day)))

-- The tail of `shiftMonths` once the month, counted from 0, is not negative.
abbrev pub from_months : ℕ → ℕ → ℕ → Date
from_months year months cutoff_day =
    let y = year + months / 12 in
    let m = months % 12 + 1 in
    record { year = y; month = m; day = min_int cutoff_day (days_in y m) }

-- The branch of `shiftMonths` for a month of -`deficit`, counted from 0.
abbrev pub from_deficit : ℕ → ℕ → ℕ → Date
from_deficit year deficit cutoff_day =
    let years_back = (deficit + 11) / 12 in
    from_months (year - years_back) (years_back * 12 - deficit) cutoff_day

-- `shiftMonths`; a year does not fall below 0 here.
pub shift_months : Date → ℤ → ℕ → Date
shift_months d (pos n) cutoff_day = from_months d.year (d.month - 1 + n) cutoff_day
shift_months d (negsuc n) cutoff_day =
    if leb (n + 1) (d.month - 1)
    then from_months d.year (d.month - 1 - (n + 1)) cutoff_day
    else from_deficit d.year (n + 1 - (d.month - 1)) cutoff_day

-- `if x < 1 { x = 1 }`
abbrev pub at_least_one : ℤ → ℕ
at_least_one (pos n) = if ltb n 1 then 1 else n
at_least_one (negsuc n) = 1

-- The period's start for one month.
pub month_start : Date → ℕ → Date
month_start today cutoff_day =
    let clamped = min_int cutoff_day (days_in today.year today.month) in
    if leb clamped today.day
    then record today { day = clamped }
    else (let y = if leb today.month 1 then today.year - 1 else today.year in
        let m = if leb today.month 1 then 12 else today.month - 1 in
        record { year = y; month = m; day = min_int cutoff_day (days_in y m) })

-- `-n`
abbrev pub negate : ℕ → ℤ
negate zero = pos 0
negate (suc n) = negsuc n

-- `ComputeBillingPeriodStart`
pub compute_billing_period_start : Date → ℤ → ℤ → Date
compute_billing_period_start today cutoff_day billing_period_months =
    let months = at_least_one billing_period_months in
    let cutoff = at_least_one cutoff_day in
    let start = month_start today cutoff in
    if ltb 1 months then shift_months start (negate (months - 1)) cutoff else start

-- `GetBudgetResume`: the number of periods that it looks at, and the loop that goes back from the
-- current period's start, in a budget created on the day `created`.
pub max_periods : ℕ → ℕ
max_periods period_months = let n = 12 / period_months in if ltb n 1 then 1 else n

pub resume_periods : ℕ → ℕ → ℕ → Date → Date → List (Date × Date)
resume_periods zero period_months cutoff_day created last_start = []
resume_periods (suc rounds) period_months cutoff_day created last_start =
    let prev_start = shift_months last_start (negate period_months) cutoff_day in
    let prev_end = shift_months prev_start (pos period_months) cutoff_day in
    let rest =
      (prev_start, prev_end) ∷ resume_periods rounds period_months cutoff_day created prev_start in
    if not (before prev_start last_start)
    then []
    else if before prev_start created
    then []
    else rest
