-- ===== src/Times/Tests.antt =====
-- Runs of the date and time functions, and the theorems at concrete dates.
use ztool_lib.Common.{◌≡◌, refl, inl, arith}
use ztool_lib.Common.Int.{pos, negsuc, ◌+ℤ◌}
use ztool_lib.Times.{
  Date, Time, CTime, date_int, next_date, next_by_month, prev_date, prev_month_end, int_pdate,
  int_ptime, distance_time, shift, carry_up, borrow_down,
}
use ztool_lib.Times.Civil.{IsCivil, next_civil, prev_civil, StepsDays}
use ztool_lib.Times.NextDate.{next_date_correct}
use ztool_lib.Times.PrevDate.{prev_date_correct}
use ztool_lib.Times.Clock.{IsClock}

-- A C library whose time_t is the date itself.
abbrev calendar : CTime
calendar = record {
  TimeT = Date;
  mktime = λ d. d;
  localtime = λ d. d;
  plus_day = next_civil;
  minus_day = prev_civil;
}

calendar-StepsDays : StepsDays calendar
calendar-StepsDays = record { forward = λ d v. refl; backward = λ d v. refl }

abbrev leap_day : Date
leap_day = record { year = 2020; month = 2; day = 29 }

leap_day-IsCivil : IsCivil leap_day
leap_day-IsCivil = record {
  month_low = omega arith;
  month_high = omega arith;
  day_low = omega arith;
  day_high = omega arith;
}

abbrev march_first : Date
march_first = record { year = 2020; month = 3; day = 1 }

march_first-IsCivil : IsCivil march_first
march_first-IsCivil = record {
  month_low = omega arith;
  month_high = omega arith;
  day_low = omega arith;
  day_high = omega arith;
}

next_date_correct_example : next_date calendar (date_int leap_day) ≡ date_int (next_civil leap_day)
next_date_correct_example =
    next_date_correct calendar calendar-StepsDays leap_day leap_day-IsCivil (inl refl)

prev_date_correct_example :
    prev_date calendar (date_int march_first) ≡ date_int (prev_civil march_first)
prev_date_correct_example =
    prev_date_correct calendar calendar-StepsDays march_first march_first-IsCivil (omega arith)
      (λ _. omega arith) (λ _. omega arith) (λ _. omega arith)

-- The day after January 30 is given as February 1.
january_thirtieth : next_date calendar 20180130 ≡ 20180201
unfolding next_date next_by_month int_pdate
january_thirtieth = refl

-- The day before July 1 is given as June 31, before August 1 as July 30, before December 1 as
-- November 31.
july_first : prev_date calendar 20180701 ≡ 20180631
unfolding prev_date prev_month_end int_pdate
july_first = refl

august_first : prev_date calendar 20180801 ≡ 20180730
unfolding prev_date prev_month_end int_pdate
august_first = refl

december_first : prev_date calendar 20181201 ≡ 20181131
unfolding prev_date prev_month_end int_pdate
december_first = refl

abbrev closing : Time
closing = record { hour = 23; minute = 58; second = 30 }

closing-IsClock : IsClock closing
closing-IsClock = record {
  hour_high = omega arith;
  minute_high = omega arith;
  second_high = omega arith;
}

abbrev morning : Time
morning = record { hour = 9; minute = 15; second = 0 }

morning-IsClock : IsClock morning
morning-IsClock = record {
  hour_high = omega arith;
  minute_high = omega arith;
  second_high = omega arith;
}

-- 30 seconds after 23:58:30 the seconds are 60.
sixty_seconds : distance_time 235830 (pos 30) ≡ 235860
unfolding distance_time shift carry_up int_ptime ◌+ℤ◌
sixty_seconds = refl

-- 20 seconds before 00:00:10 is given as 01:59:50.
before_midnight : distance_time 10 (negsuc 19) ≡ 15950
unfolding distance_time shift borrow_down int_ptime ◌+ℤ◌
before_midnight = refl

abbrev january_30 : Date
january_30 = record { year = 2018; month = 1; day = 30 }

january_30-IsCivil : IsCivil january_30
january_30-IsCivil = record {
  month_low = omega arith;
  month_high = omega arith;
  day_low = omega arith;
  day_high = omega arith;
}

abbrev july_1 : Date
july_1 = record { year = 2018; month = 7; day = 1 }

july_1-IsCivil : IsCivil july_1
july_1-IsCivil = record {
  month_low = omega arith;
  month_high = omega arith;
  day_low = omega arith;
  day_high = omega arith;
}
