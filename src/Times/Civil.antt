-- ===== src/Times/Civil.antt =====
-- The calendar that the date functions of ztl_times.c are to follow.
use ztool_lib.Common.{
  ℕ, ◌+◌, ◌-◌, ◌%◌, ◌≤◌, ◌≡◌, Bool, ◌&&◌, ◌||◌, not, ltb, ◌==◌, if◌then◌else◌, arith,
}
use ztool_lib.Times.{Date, CTime, date_int, int_pdate}

abbrev pub leap : ℕ → Bool
leap y = (y % 4 == 0) && (not (y % 100 == 0) || (y % 400 == 0))

abbrev pub days_in : ℕ → ℕ → ℕ
days_in y m =
    if m == 2
    then (if leap y then 29 else 28)
    else if m == 4 || m == 6 || m == 9 || m == 11
    then 30
    else 31

pub record IsCivil (d : Date) : Type 0 where
  pub month_low : 1 ≤ d.month
  pub month_high : d.month ≤ 12
  pub day_low : 1 ≤ d.day
  pub day_high : d.day ≤ days_in d.year d.month

unfoldable pub next_civil : Date → Date
next_civil d =
    if ltb d.day (days_in d.year d.month)
    then record d { day = d.day + 1 }
    else if ltb d.month 12
    then record d { month = d.month + 1; day = 1 }
    else record { year = d.year + 1; month = 1; day = 1 }

unfoldable pub prev_civil : Date → Date
prev_civil d =
    if ltb 1 d.day
    then record d { day = d.day - 1 }
    else if ltb 1 d.month
    then record d { month = d.month - 1; day = days_in d.year (d.month - 1) }
    else record { year = d.year - 1; month = 12; day = 31 }

-- What the date functions rely on in the C library: in a time zone with days of 86400 seconds, to
-- add or to subtract one day's seconds steps to the next or to the last day of the calendar.
pub record StepsDays (c : CTime) : Type 0 where
  pub forward : (d : Date) → IsCivil d → c.localtime (c.plus_day (c.mktime d)) ≡ next_civil d
  pub backward : (d : Date) → IsCivil d → c.localtime (c.minus_day (c.mktime d)) ≡ prev_civil d

days_in-le : (y m : ℕ) → days_in y m ≤ 31
days_in-le y m = ground arith

-- ztl_int_pdate reads what the date functions write.
pub int_pdate-date_int : (d : Date) → d.month ≤ 12 → d.day ≤ 31 → int_pdate (date_int d) ≡ d
unfolding int_pdate
int_pdate-date_int d m k = ground arith

pub int_pdate-civil : (d : Date) → IsCivil d → int_pdate (date_int d) ≡ d
int_pdate-civil d v =
    int_pdate-date_int d v.month_high (omega (arith, days_in-le d.year d.month, v.day_high))
