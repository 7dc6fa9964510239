-- ===== src/Times.antt =====
-- src/ZToolLib/ztl_times.c, the parts that compute with dates `yyyymmdd` and times `hhmmss` as
-- integers. The broken-down year and month carry the offsets 1900 and 1 of `struct tm` no longer.
pub mod Civil
pub mod NextDate
pub mod PrevDate
pub mod Clock
pub mod Minutes
mod Tests
use ztool_lib.Common.{
  ℕ, zero, suc, ◌+◌, ◌-◌, ◌*◌, ◌/◌, ◌%◌, ◌≤◌, ◌<◌, Bool, true, false, ◌||◌, ltb, leb, ◌==◌,
  if◌then◌else◌,
}
use ztool_lib.Common.Int.{ℤ, pos, negsuc, pos_part, neg_part, sub_ℕ, ◌+ℤ◌, ◌-ℤ◌}

-- The date fields of `struct tm`, and ztl_tm_date_t.
pub record Date : Type 0 where
  pub year : ℕ
  pub month : ℕ
  pub day : ℕ

-- ztl_tm_time_t
pub record Time : Type 0 where
  pub hour : ℕ
  pub minute : ℕ
  pub second : ℕ

-- What the code takes from the C library: mktime, localtime and the addition of one day's seconds
-- to a time_t, or their subtraction.
pub record CTime : Type 1 where
  pub TimeT : Type 0
  pub mktime : Date → TimeT
  pub localtime : TimeT → Date
  pub plus_day : TimeT → TimeT
  pub minus_day : TimeT → TimeT

-- The integer of a date, as the ends of ztl_get_prev_date and ztl_get_next_date build it.
abbrev pub date_int : Date → ℕ
date_int d = d.year * 10000 + d.month * 100 + d.day

-- ztl_int_pdate, for a year that fits 16 bits.
pub int_pdate : ℕ → Date
int_pdate date = record { year = date / 10000; month = date / 100 % 100; day = date % 100 }

abbrev pub time_int : Time → ℕ
time_int t = t.hour * 10000 + t.minute * 100 + t.second

-- ztl_int_ptime, for an hour that fits 8 bits: the fields, and the milliseconds that it returns.
pub int_ptime : ℕ → Bool → Time × ℕ
int_ptime time have_millisec =
    let hhmmss = if have_millisec then time / 1000 else time in
    (
      record { hour = hhmmss / 10000; minute = hhmmss / 100 % 100; second = hhmmss % 100 },
      if have_millisec then time % 1000 else 0,
    )

module _ (c : CTime) where
  open c use {mktime, localtime, plus_day, minus_day}

  -- The switch of ztl_get_prev_date, for a date on the first of a month. The year before 0, of which
  -- the code makes a negative date, is not among these numbers.
  pub prev_month_end : Date → Date
  prev_month_end d =
      let m = d.month in
      if m == 1
      then record { year = d.year - 1; month = 12; day = 31 }
      else if m == 3
      then localtime (minus_day (mktime d))
      else if m == 2 || m == 4 || m == 6 || m == 7 || m == 9 || m == 11 || m == 12
      then record d { month = m - 1; day = 31 }
      else record d { month = m - 1; day = 30 }

  -- ztl_get_prev_date
  pub prev_date : ℕ → ℕ
  unfolding prev_month_end int_pdate
  prev_date date =
      if ltb 1 (int_pdate date).day then date - 1 else date_int (prev_month_end (int_pdate date))

  -- The switch of ztl_get_next_date; a month that it does not list keeps the raised day.
  pub next_by_month : ℕ → Date → ℕ
  next_by_month date d =
      let m = d.month in
      let first : Date =
        if m == 12
        then record { year = d.year + 1; month = 1; day = 1 }
        else record d { month = m + 1; day = 1 } in
      if m == 1 || m == 3 || m == 5 || m == 7 || m == 8 || m == 10 || m == 12
      then (if ltb (d.day + 1) 31 then date + 1 else date_int first)
      else if m == 4 || m == 6 || m == 9 || m == 11
      then (if ltb (d.day + 1) 30 then date + 1 else date_int first)
      else if m == 2
      then date_int (localtime (plus_day (mktime d)))
      else date_int (record d { day = d.day + 1 })

  -- ztl_get_next_date
  pub next_date : ℕ → ℕ
  unfolding next_by_month int_pdate
  next_date date =
      if ltb ((int_pdate date).day + 1) 28 then date + 1 else next_by_month date (int_pdate date)

-- The difference that ztl_difftime computes field by field.
pub field_diff : Time → Time → ℤ
field_diff a b =
    sub_ℕ (a.hour * 3600) (b.hour * 3600)
    +ℤ sub_ℕ (a.minute * 60) (b.minute * 60)
    +ℤ sub_ℕ a.second b.second

-- ztl_difftime, with the milliseconds where there are any.
pub difftime : ℕ → ℕ → Bool → ℤ
unfolding int_ptime
difftime t1 t2 have_millisec =
    let (a, ms1) = int_ptime t1 have_millisec in
    let (b, ms2) = int_ptime t2 have_millisec in
    let diff = field_diff a b in
    let scaled = sub_ℕ (pos_part diff * 1000) (neg_part diff * 1000) in
    if t1 == t2 then pos 0 else if have_millisec then scaled +ℤ sub_ℕ ms1 ms2 else diff

-- The carries of ztl_get_distance_time after a sum of seconds.
pub carry_up : ℕ → ℕ → ℕ → Time
carry_up hour minute second =
    let minutes = minute + second / 60 in
    let hours = hour + minutes / 60 in
    if ltb 60 second
    then (if ltb 60 minutes
        then record {
          hour = if ltb 24 hours then hours % 24 else hours;
          minute = minutes % 60;
          second = second % 60;
        }
        else record { hour = hour; minute = minutes; second = second % 60 })
    else record { hour = hour; minute = minute; second = second }

-- The borrows, for a sum of -(k + 1) seconds: `/` and `%` round towards 0.
pub borrow_down : ℕ → ℕ → ℕ → Time
borrow_down hour minute k =
    let second = 60 - (k + 1) % 60 in
    elim (sub_ℕ minute ((k + 1) / 60 + 1)) [
      | pos m ↦ record { hour = hour; minute = m; second = second }
      | negsuc j ↦
          let hours : ℕ = elim (sub_ℕ hour ((j + 1) / 60 + 1)) [
            | pos h ↦ h
            | negsuc h ↦ (h + 1) % 24
          ] in
          record { hour = hours; minute = 60 - (j + 1) % 60; second = second }
    ]

-- ztl_get_distance_time on the fields of a time.
pub shift : Time → ℤ → Time
unfolding carry_up borrow_down
shift t offset = elim (pos t.second +ℤ offset) [
  | pos second ↦ carry_up t.hour t.minute second
  | negsuc k ↦ borrow_down t.hour t.minute k
]

-- ztl_get_distance_time
pub distance_time : ℕ → ℤ → ℕ
unfolding int_ptime shift
distance_time time offset = time_int (shift (int_ptime time false).0 offset)
