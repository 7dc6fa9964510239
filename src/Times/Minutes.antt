-- ===== src/Times/Minutes.antt =====
-- ztl_minute_range of src/ZToolLib/ztl_times.c. `start` is the time_t of the start time on the day
-- that ztl_int_to_time takes for a date of 0, `midnight` the one of time 0, and `clock` reads the
-- time of day of a time_t; the C library gives them.
use ztool_lib.Common.{
  ℕ, zero, suc, ◌+◌, ◌-◌, ◌≡◌, ltb, leb, if◌then◌else◌, List, [], ◌∷◌, ◌++◌, length, arith,
  length-append,
}
use ztool_lib.Times.{Time, time_int}

module _ (clock : ℕ → Time) where
  -- Each of the two loops, with n places left in the array, and the start time that it compares.
  pub minute_loop : ℕ → ℕ → ℕ → ℕ → List ℕ
  minute_loop zero start_time end_time t = []
  minute_loop (suc n) start_time end_time t =
      let rest = minute_loop n start_time end_time (t + 60) in
      if leb start_time end_time then time_int (clock t) ∷ rest else []

  -- The minutes that ztl_minute_range stores; their number is its result.
  pub minute_range : ℕ → ℕ → ℕ → ℕ → ℕ → List ℕ
  unfolding minute_loop
  minute_range size start midnight start_time end_time =
      let evening = minute_loop size start_time 235900 start in
      if ltb end_time start_time
      then evening ++ minute_loop (size - length evening) 0 end_time midnight
      else minute_loop size start_time end_time start

  length-minute_loop :
      (n start_time end_time t : ℕ)
      → length (minute_loop n start_time end_time t) ≡ (if leb start_time end_time then n else 0)
  unfolding minute_loop
  length-minute_loop zero start_time end_time t = ground arith
  length-minute_loop (suc n) start_time end_time t =
      ground (arith, length-minute_loop n start_time end_time (t + 60))

  -- ztl_minute_range fills the whole array whatever the end time is, since its loops never raise
  -- the start time that they compare with the end time.
  pub minute_range-fills :
      (size start midnight start_time end_time : ℕ)
      → length (minute_range size start midnight start_time end_time) ≡ size
  unfolding minute_range
  minute_range-fills size start midnight start_time end_time =
      let evening = minute_loop size start_time 235900 start in
      ground (
        arith,
        length-minute_loop size start_time end_time start,
        length-minute_loop size start_time 235900 start,
        length-minute_loop (size - length evening) 0 end_time midnight,
        length-append evening (minute_loop (size - length evening) 0 end_time midnight),
      )
