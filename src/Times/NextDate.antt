-- ===== src/Times/NextDate.antt =====
-- ztl_get_next_date of ztl_times.c against the calendar.
use native.Mathlib.Decide.{ℕ_discrete}
use ztool_lib.Common.{◌+◌, ◌≤◌, ◌<◌, ◌≡◌, ◌≢◌, sym, ap, ◌∙◌, arith, ◌⊎◌, inl, inr}
use ztool_lib.Times.{Date, CTime, date_int, next_by_month, next_date}
use ztool_lib.Times.Civil.{days_in, IsCivil, next_civil, StepsDays, int_pdate-civil}

module _ (c : CTime) (steps : StepsDays c) where
  -- February leaves the day after to the C library.
  february :
      (d : Date)
      → IsCivil d
      → d.month ≡ 2
      → next_by_month c (date_int d) d ≡ date_int (next_civil d)
  unfolding next_by_month
  february d v m = ground (arith, steps.forward d v)

  -- In another month the switch is right off the last day but one.
  listed :
      (d : Date)
      → IsCivil d
      → d.month ≢ 2
      → d.day + 1 ≢ days_in d.year d.month
      → next_by_month c (date_int d) d ≡ date_int (next_civil d)
  unfolding next_by_month next_civil
  listed d v m k = ground (arith, v.month_low, v.month_high, v.day_low, v.day_high)

  early : (d : Date) → IsCivil d → d.day + 1 < 28 → date_int d + 1 ≡ date_int (next_civil d)
  unfolding next_civil
  early d v k = ground (arith, v.month_low, v.month_high, v.day_low, v.day_high)

  next_date_step :
      (d : Date)
      → IsCivil d
      → (28 ≤ d.day + 1 → next_by_month c (date_int d) d ≡ date_int (next_civil d))
      → next_date c (date_int d) ≡ date_int (next_civil d)
  unfolding next_date
  next_date_step d v late = ground (arith, int_pdate-civil d v, early d v, late)

  february_day :
      (d : Date) → IsCivil d → d.month ≡ 2 → next_date c (date_int d) ≡ date_int (next_civil d)
  february_day d v m = next_date_step d v λ _. february d v m

  -- ztl_get_next_date on a date of the calendar returns the integer of the next day, on every day
  -- that is not the last but one of its month and on every day of February, for a C library that
  -- steps by one day when one day's seconds are added.
  pub next_date_correct :
      (d : Date)
      → IsCivil d
      → (d.month ≡ 2) ⊎ (d.day + 1 ≢ days_in d.year d.month)
      → next_date c (date_int d) ≡ date_int (next_civil d)
  next_date_correct d v (inl m) = february_day d v m
  next_date_correct d v (inr k) = elim (ℕ_discrete d.month 2) [
    | yes m ↦ february_day d v m
    | no m ↦ next_date_step d v λ _. listed d v m k
  ]

  last_but_one :
      (d : Date) → d.day + 1 ≡ days_in d.year d.month → next_civil d ≡ record d { day = d.day + 1 }
  unfolding next_civil
  last_but_one d k = ground arith

  last_listed :
      (d : Date)
      → IsCivil d
      → d.month ≢ 2
      → d.day + 1 ≡ days_in d.year d.month
      → next_by_month c (date_int d) d ≡ date_int (next_civil (record d { day = d.day + 1 }))
  unfolding next_by_month next_civil
  last_listed d v m k = ground (arith, v.month_low, v.month_high)

  skipped :
      (d : Date)
      → IsCivil d
      → d.month ≢ 2
      → d.day + 1 ≡ days_in d.year d.month
      → next_by_month c (date_int d) d ≡ date_int (next_civil (next_civil d))
  skipped d v m k = last_listed d v m k ∙ ap (λ e. date_int (next_civil e)) (sym (last_but_one d k))

  -- ztl_get_next_date on the last day but one of a month other than February skips a day: it
  -- returns the first of the next month.
  pub next_date_skips :
      (d : Date)
      → IsCivil d
      → d.month ≢ 2
      → d.day + 1 ≡ days_in d.year d.month
      → next_date c (date_int d) ≡ date_int (next_civil (next_civil d))
  unfolding next_date
  next_date_skips d v m k = ground (arith, int_pdate-civil d v, skipped d v m k)
