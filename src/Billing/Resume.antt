-- ===== src/Billing/Resume.antt =====
-- The periods of the budget resume in internal/handlers/summary.go.
use financentury_backend.Prelude.{
  ℕ, zero, suc, ◌+◌, ◌*◌, ◌≤◌, ◌≡◌, sym, true, false, arith, Bool-cases, inl, inr, List, [], ◌∷◌,
  length,
}
use financentury_backend.Prelude.Int.{pos}
use financentury_backend.Billing.{Date, before, shift_months, negate, resume_periods}
use financentury_backend.Billing.Months.{
  month_index, IsClamped, shift_months_later, shift_months_earlier,
}
use financentury_backend.Billing.Periods.{HasMonth, clamped_day, is_before, same_month}

-- The periods go back from a day without a gap, each of the given length, none from before the
-- budget was created.
abbrev pub GoBack : ℕ → Date → Date → List (Date × Date) → Type 0
GoBack months created last [] = Unit
GoBack months created last ((start, end) ∷ rest) =
    (end ≡ last)
    × (month_index start + months ≡ month_index end)
    × (before start created ≡ false)
    × GoBack months created start rest

module _ (months cutoff : ℕ) (created : Date) where
  -- One period back and forth again gives the same day.
  there_and_back :
      (last : Date)
      → HasMonth last
      → IsClamped cutoff last
      → months ≤ month_index last
      → shift_months (shift_months last (negate months) cutoff) (pos months) cutoff ≡ last
  there_and_back last has clamped h =
      let s = shift_months last (negate months) cutoff in
      let e = shift_months s (pos months) cutoff in
      let (i, low, high, k) = shift_months_earlier last months cutoff h in
      let (j, low', high', k') = shift_months_later s months cutoff in
      let (y, m) = same_month e last (low', high') has (omega arith) in
      let d = clamped_day cutoff e last (low', high') has k' clamped (omega arith) in
      λ t. record { year = y t; month = m t; day = d t }

  back-before :
      (last : Date)
      → HasMonth last
      → 1 ≤ months
      → months ≤ month_index last
      → before (shift_months last (negate months) cutoff) last ≡ true
  back-before last has one h =
      let s = shift_months last (negate months) cutoff in
      let (i, low, high, k) = shift_months_earlier last months cutoff h in
      is_before s last (low, high) has (inl (omega arith))

  -- From a start that falls on the cutoff the resume lists at most as many periods as it looks at.
  -- Each spans the given months and ends where the later one starts, the first at the current start,
  -- and none starts before the budget was created.
  pub resume_periods_lem :
      (rounds : ℕ) (last : Date)
      → HasMonth last
      → IsClamped cutoff last
      → 1 ≤ months
      → rounds * months ≤ month_index last
      → GoBack months created last (resume_periods rounds months cutoff created last)
        × (length (resume_periods rounds months cutoff created last) ≤ rounds)
  unfolding resume_periods
  resume_periods_lem zero last has clamped one h = (tt, omega arith)
  resume_periods_lem (suc rounds) last has clamped one h =
      let enough : months ≤ month_index last = grind arith in
      let s = shift_months last (negate months) cutoff in
      let (i, low, high, k) = shift_months_earlier last months cutoff enough in
      let (j, low', high', k') = shift_months_later s months cutoff in
      let earlier = back-before last has one enough in
      let (chain, count) = resume_periods_lem rounds s (low, high) k one (grind arith) in
      elim (Bool-cases (before s created)) [
        | inl old ↦ rw (earlier, old) (tt, omega arith)
        | inr kept ↦
            rw (earlier, kept)
              ((there_and_back last has clamped enough, sym j, kept, chain), omega arith)
      ]
