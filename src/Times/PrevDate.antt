-- ===== src/Times/PrevDate.antt =====
-- ztl_get_prev_date of ztl_times.c against the calendar.
use native.Mathlib.Decide.{ℕ_discrete}
use ztool_lib.Common.{ℕ, ◌-◌, ◌≤◌, ◌<◌, ◌≡◌, ◌≢◌, ap, ◌∙◌, ◌==◌, if◌then◌else◌, arith, ◌⊎◌}
use ztool_lib.Times.{Date, CTime, date_int, prev_month_end, prev_date}
use ztool_lib.Times.Civil.{IsCivil, prev_civil, StepsDays, int_pdate-civil}

module _ (c : CTime) (steps : StepsDays c) where
  march :
      (d : Date)
      → IsCivil d
      → d.month ≡ 3
      → prev_month_end c d ≡ c.localtime (c.minus_day (c.mktime d))
  unfolding prev_month_end
  march d v m = ground arith

  other_months :
      (d : Date)
      → IsCivil d
      → d.day ≡ 1
      → d.month ≢ 3
      → d.month ≢ 7
      → d.month ≢ 8
      → d.month ≢ 12
      → date_int (prev_month_end c d) ≡ date_int (prev_civil d)
  unfolding prev_month_end prev_civil
  other_months d v k m3 m7 m8 m12 = ground (arith, v.month_low, v.month_high)

  within : (d : Date) → IsCivil d → 1 < d.day → date_int d - 1 ≡ date_int (prev_civil d)
  unfolding prev_civil
  within d v k = ground arith

  prev_date_step :
      (d : Date)
      → IsCivil d
      → (d.day ≡ 1 → date_int (prev_month_end c d) ≡ date_int (prev_civil d))
      → prev_date c (date_int d) ≡ date_int (prev_civil d)
  unfolding prev_date
  prev_date_step d v first = ground (arith, int_pdate-civil d v, within d v, first, v.day_low)

  -- ztl_get_prev_date on a date of the calendar from the year 1 on, other than July 1, August 1 and December 1 returns
  -- the integer of the day before, for a C library that steps by one day when one day's seconds are subtracted.
  pub prev_date_correct :
      (d : Date)
      → IsCivil d
      → 1 ≤ d.year
      → (d.day ≡ 1 → d.month ≢ 7)
      → (d.day ≡ 1 → d.month ≢ 8)
      → (d.day ≡ 1 → d.month ≢ 12)
      → prev_date c (date_int d) ≡ date_int (prev_civil d)
  prev_date_correct d v y m7 m8 m12 = prev_date_step d v λ first. elim (ℕ_discrete d.month 3) [
    | yes m3 ↦ ap (λ e. date_int e) (march d v m3 ∙ steps.backward d v)
    | no m3 ↦ other_months d v first m3 (m7 first) (m8 first) (m12 first)
  ]

  -- The length that the switch takes for the month before.
  abbrev taken : ℕ → ℕ
  taken m = if m == 8 then 30 else 31

  swapped :
      (d : Date)
      → IsCivil d
      → (d.month ≡ 7) ⊎ (d.month ≡ 8) ⊎ (d.month ≡ 12)
      → prev_month_end c d ≡ record d { month = d.month - 1; day = taken d.month }
  unfolding prev_month_end
  swapped d v m = ground arith

  -- ztl_get_prev_date on July 1 returns June 31, on August 1 July 30 and on December 1 November 31.
  pub prev_date_swapped :
      (d : Date)
      → IsCivil d
      → d.day ≡ 1
      → (d.month ≡ 7) ⊎ (d.month ≡ 8) ⊎ (d.month ≡ 12)
      → prev_date c (date_int d)
        ≡ date_int (record d { month = d.month - 1; day = if d.month == 8 then 30 else 31 })
  unfolding prev_date
  prev_date_swapped d v k m = ground (arith, int_pdate-civil d v, swapped d v m)
