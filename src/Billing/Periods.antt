-- ===== src/Billing/Periods.antt =====
-- The billing period of internal/handlers/summary.go that holds a day.
use financentury_backend.Prelude.{
  ℕ, ◌+◌, ◌-◌, ◌≤◌, ◌<◌, ◌≡◌, refl, sym, ap₂, ◌∙◌, true, false, ◌&&◌, ◌||◌, ◌==◌, arith, ltb, leb,
  Bool-cases, inl, inr, ◌⊎◌,
}
use financentury_backend.Prelude.Int.{ℤ, pos}
use financentury_backend.Billing.{
  Date, days_in, min_int, before, shift_months, month_start, at_least_one,
  compute_billing_period_start,
}
use financentury_backend.Billing.Months.{
  IsDate, month_index, IsClamped, shift_months_later, shift_months_earlier,
}

abbrev pub HasMonth : Date → Type 0
HasMonth d = (1 ≤ d.month) × (d.month ≤ 12)

before_index :
    (a b : Date)
    → HasMonth a
    → HasMonth b
    → before a b
      ≡ (ltb (month_index a) (month_index b) || (month_index a == month_index b && ltb a.day b.day))
before_index a b h k = ground arith

pub same_month :
    (a b : Date)
    → HasMonth a
    → HasMonth b
    → month_index a ≡ month_index b
    → (a.year ≡ b.year) × (a.month ≡ b.month)
same_month a b h k e = (omega arith, omega arith)

-- The start falls in the day's month, not after the day, or in the month before, and then the day
-- comes before the cutoff of its own month.
month_start_lem :
    (today : Date) (cutoff : ℕ)
    → IsDate today
    → 1 ≤ month_index today
    → IsClamped cutoff (month_start today cutoff)
      × HasMonth (month_start today cutoff)
      × (((month_index (month_start today cutoff) ≡ month_index today)
            × ((month_start today cutoff).day ≤ today.day))
          ⊎ ((month_index (month_start today cutoff) + 1 ≡ month_index today)
              × (today.day < min_int cutoff (days_in today.year today.month))))
unfolding month_start
month_start_lem today cutoff v h =
    elim (Bool-cases (leb (min_int cutoff (days_in today.year today.month)) today.day)) [
      | inl reached ↦ rw reached (refl, (v.month_low, v.month_high), inl (refl, ground arith))
      | inr early ↦ rw early (refl, (ground arith, ground arith), inr (ground arith, ground arith))
    ]

-- `ComputeBillingPeriodStart` goes back from the month's start by all the period's months but one.
start_lem :
    (today : Date) (cutoff_day months : ℤ)
    → IsDate today
    → at_least_one months ≤ month_index today
    → (month_index (compute_billing_period_start today cutoff_day months) + at_least_one months
        ≡ month_index (month_start today (at_least_one cutoff_day)) + 1)
      × HasMonth (compute_billing_period_start today cutoff_day months)
      × IsClamped (at_least_one cutoff_day) (compute_billing_period_start today cutoff_day months)
unfolding compute_billing_period_start
start_lem today cutoff_day months v h =
    let c = at_least_one cutoff_day in
    let n = at_least_one months in
    let s = month_start today c in
    let (clamped, has, place) = month_start_lem today c v (ground arith) in
    let (i, low, high, k) = shift_months_earlier s (n - 1) c (ground arith) in
    elim (Bool-cases (ltb 1 n)) [
      | inl several ↦ rw several (ground arith, (low, high), k)
      | inr single ↦ rw single (ground arith, has, clamped)
    ]

pub clamped_day :
    (c : ℕ) (a b : Date)
    → HasMonth a
    → HasMonth b
    → IsClamped c a
    → IsClamped c b
    → month_index a ≡ month_index b
    → a.day ≡ b.day
clamped_day c a b h k p q e =
    let (y, m) = same_month a b h k e in p ∙ ap₂ (λ y m. min_int c (days_in y m)) y m ∙ sym q

not_before :
    (a b : Date)
    → HasMonth a
    → HasMonth b
    → ((month_index b < month_index a) ⊎ ((month_index b ≡ month_index a) × (b.day ≤ a.day)))
    → before a b ≡ false
not_before a b h k o = before_index a b h k ∙ ground arith

pub is_before :
    (a b : Date)
    → HasMonth a
    → HasMonth b
    → ((month_index a < month_index b) ⊎ ((month_index a ≡ month_index b) × (a.day < b.day)))
    → before a b ≡ true
is_before a b h k o = before_index a b h k ∙ ground arith

not_before_inv :
    (a b : Date)
    → HasMonth a
    → HasMonth b
    → before a b ≡ false
    → (month_index b < month_index a) ⊎ ((month_index b ≡ month_index a) × (b.day ≤ a.day))
not_before_inv a b h k e = go (sym (before_index a b h k) ∙ e)
  where
    go :
        (ltb (month_index a) (month_index b) || (month_index a == month_index b && ltb a.day b.day))
          ≡ false
        → (month_index b < month_index a) ⊎ ((month_index b ≡ month_index a) × (b.day ≤ a.day))
    go f = ground arith

before_inv :
    (a b : Date)
    → HasMonth a
    → HasMonth b
    → before a b ≡ true
    → (month_index a < month_index b) ⊎ ((month_index a ≡ month_index b) × (a.day < b.day))
before_inv a b h k e = go (sym (before_index a b h k) ∙ e)
  where
    go :
        (ltb (month_index a) (month_index b) || (month_index a == month_index b && ltb a.day b.day))
          ≡ true
        → (month_index a < month_index b) ⊎ ((month_index a ≡ month_index b) × (a.day < b.day))
    go f = ground arith

module _ (today : Date) (cutoff_day months : ℤ) (v : IsDate today)
    (h : at_least_one months ≤ month_index today) where
  abbrev cutoff : ℕ
  cutoff = at_least_one cutoff_day

  abbrev start : Date
  start = compute_billing_period_start today cutoff_day months

  abbrev end : Date
  end = shift_months start (pos (at_least_one months)) cutoff

  start_not_after : before today start ≡ false
  start_not_after =
      let (i, has, k) = start_lem today cutoff_day months v h in
      let (k', has', place) = month_start_lem today cutoff v (ground arith) in
      let same = clamped_day cutoff start (month_start today cutoff) has has' k k' in
      not_before today start (v.month_low, v.month_high) has (ground arith)

  end_after : before today end ≡ true
  end_after =
      let (i, has, k) = start_lem today cutoff_day months v h in
      let (k', has', place) = month_start_lem today cutoff v (ground arith) in
      let (j, low, high, k'') = shift_months_later start (at_least_one months) cutoff in
      let same = same_month end today (low, high) (v.month_low, v.month_high) in
      let day : month_index end ≡ month_index today
          → end.day ≡ min_int cutoff (days_in today.year today.month) =
        λ e. k'' ∙ ap₂ (λ y m. min_int cutoff (days_in y m)) (same e).0 (same e).1 in
      is_before today end (v.month_low, v.month_high) (low, high) (ground arith)

  -- The period that starts there holds the day: it starts on the day or before, and it has not
  -- ended. Both ends fall on the cutoff, or on the last day of a month that is too short.
  pub compute_billing_period_start_holds :
      (before today (compute_billing_period_start today cutoff_day months) ≡ false)
      × (before today (
            shift_months
              (compute_billing_period_start today cutoff_day months)
              (pos (at_least_one months))
              (at_least_one cutoff_day))
          ≡ true)
      × IsClamped (at_least_one cutoff_day) (compute_billing_period_start today cutoff_day months)
      × IsClamped (at_least_one cutoff_day) (
          shift_months
            (compute_billing_period_start today cutoff_day months)
            (pos (at_least_one months))
            (at_least_one cutoff_day))
  compute_billing_period_start_holds = (
    start_not_after,
    end_after,
    (start_lem today cutoff_day months v h).2,
    (shift_months_later start (at_least_one months) cutoff).3,
  )

-- Two periods of one month that hold one day start in one month, in numbers of months and days.
same_period :
    (n t s t' s' : ℕ) (day t_day s_day t_end s_end : ℕ)
    → (t < n) ⊎ ((t ≡ n) × (t_day ≤ day))
    → (n < t') ⊎ ((n ≡ t') × (day < t_end))
    → (s < n) ⊎ ((s ≡ n) × (s_day ≤ day))
    → (n < s') ⊎ ((n ≡ s') × (day < s_end))
    → t' ≡ t + 1
    → s' ≡ s + 1
    → (t' ≡ s → t_end ≡ s_day)
    → (s' ≡ t → s_end ≡ t_day)
    → t ≡ s
same_period n t s t' s' day t_day s_day t_end s_end a b c d e f g h = ground arith

-- For a period of one month the start is the only one: every day lies in exactly one period.
pub compute_billing_period_start_unique :
    (today t : Date) (cutoff_day : ℤ)
    → IsDate today
    → 1 ≤ month_index today
    → HasMonth t
    → IsClamped (at_least_one cutoff_day) t
    → before today t ≡ false
    → before today (shift_months t (pos 1) (at_least_one cutoff_day)) ≡ true
    → t ≡ compute_billing_period_start today cutoff_day (pos 1)
compute_billing_period_start_unique today t cutoff_day v h has clamped p q =
    let c = at_least_one cutoff_day in
    let s = compute_billing_period_start today cutoff_day (pos 1) in
    let (i, has', clamped') = start_lem today cutoff_day (pos 1) v h in
    let held = compute_billing_period_start_holds today cutoff_day (pos 1) v h in
    let (j, low, high, k) = shift_months_later t 1 c in
    let (j', low', high', k') = shift_months_later s 1 c in
    let today_has : HasMonth today = (v.month_low, v.month_high) in
    let r1 = not_before_inv today t today_has has p in
    let r2 = before_inv today (shift_months t (pos 1) c) today_has (low, high) q in
    let r3 = not_before_inv today s today_has has' held.0 in
    let r4 = before_inv today (shift_months s (pos 1) c) today_has (low', high') held.1 in
    let d1 = clamped_day c (shift_months t (pos 1) c) s (low, high) has' k clamped' in
    let d2 = clamped_day c (shift_months s (pos 1) c) t (low', high') has k' clamped in
    let month : month_index t ≡ month_index s =
      same_period (month_index today) (month_index t) (month_index s) _ _ today.day t.day s.day _ _
        r1 r2 r3 r4 j j' d1 d2 in
    let (y, m) = same_month t s has has' month in
    let d = clamped_day c t s has has' clamped clamped' month in
    λ e. record { year = y e; month = m e; day = d e }
