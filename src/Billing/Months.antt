-- ===== src/Billing/Months.antt =====
-- Dates by the number of their month: the month arithmetic of internal/handlers/summary.go is
-- addition there.
use financentury_backend.Prelude.{
  ℕ, zero, suc, ◌+◌, ◌-◌, ◌*◌, ◌≤◌, ◌≡◌, refl, arith, leb, Bool-cases, inl, inr,
}
use financentury_backend.Prelude.Int.{pos}
use financentury_backend.Billing.{Date, days_in, min_int, shift_months, negate}

pub record IsDate (d : Date) : Type 0 where
  pub month_low : 1 ≤ d.month
  pub month_high : d.month ≤ 12
  pub day_low : 1 ≤ d.day
  pub day_high : d.day ≤ days_in d.year d.month

-- The months since the year 0.
abbrev pub month_index : Date → ℕ
month_index d = d.year * 12 + (d.month - 1)

-- The day that a cutoff falls on in a date's month.
abbrev pub IsClamped : ℕ → Date → Type 0
IsClamped cutoff d = d.day ≡ min_int cutoff (days_in d.year d.month)

pub shift_months_later :
    (d : Date) (n cutoff : ℕ)
    → (month_index (shift_months d (pos n) cutoff) ≡ month_index d + n)
      × (1 ≤ (shift_months d (pos n) cutoff).month)
      × ((shift_months d (pos n) cutoff).month ≤ 12)
      × IsClamped cutoff (shift_months d (pos n) cutoff)
unfolding shift_months
shift_months_later d n cutoff = (omega arith, omega arith, omega arith, refl)

pub shift_months_earlier :
    (d : Date) (n cutoff : ℕ)
    → n ≤ month_index d
    → (month_index (shift_months d (negate n) cutoff) + n ≡ month_index d)
      × (1 ≤ (shift_months d (negate n) cutoff).month)
      × ((shift_months d (negate n) cutoff).month ≤ 12)
      × IsClamped cutoff (shift_months d (negate n) cutoff)
unfolding shift_months
shift_months_earlier d zero cutoff h = (omega arith, omega arith, omega arith, refl)
shift_months_earlier d (suc n) cutoff h = elim (Bool-cases (leb (n + 1) (d.month - 1))) [
  | inl within ↦ rw within (ground arith, ground arith, ground arith, refl)
  | inr past ↦ rw past (ground arith, ground arith, ground arith, refl)
]
