-- ===== src/Times/Clock.antt =====
-- Times of day in ztl_times.c: ztl_int_ptime, ztl_difftime and ztl_get_distance_time.
use native.Mathlib.Decide.{dec_lt}
use ztool_lib.Common.{
  ℕ, suc, ◌+◌, ◌-◌, ◌*◌, ◌/◌, ◌%◌, ◌≤◌, ◌<◌, ◌≡◌, ◌≢◌, ◌∙◌, true, false, arith, ap,
}
use ztool_lib.Common.Int.{ℤ, pos, negsuc, sub_ℕ, ◌+ℤ◌}
use ztool_lib.Times.{
  Time, time_int, int_ptime, field_diff, difftime, carry_up, borrow_down, shift, distance_time,
}

pub record IsClock (t : Time) : Type 0 where
  pub hour_high : t.hour < 24
  pub minute_high : t.minute < 60
  pub second_high : t.second < 60

-- Seconds since midnight.
abbrev pub seconds : Time → ℕ
seconds t = t.hour * 3600 + t.minute * 60 + t.second

pub int_ptime-time_int : (t : Time) → IsClock t → (int_ptime (time_int t) false).0 ≡ t
unfolding int_ptime
int_ptime-time_int t v = ground (arith, v.hour_high, v.minute_high, v.second_high)

pub int_ptime-millis :
    (t : Time) (ms : ℕ) → IsClock t → ms < 1000 → int_ptime (time_int t * 1000 + ms) true ≡ (t, ms)
unfolding int_ptime
int_ptime-millis t ms v k = ground (arith, v.hour_high, v.minute_high, v.second_high)

sub_add : (a b c d : ℕ) → sub_ℕ a b +ℤ sub_ℕ c d ≡ sub_ℕ (a + c) (b + d)
unfolding ◌+ℤ◌
sub_add a b c d = ground arith

field_diff-seconds : (a b : Time) → field_diff a b ≡ sub_ℕ (seconds a) (seconds b)
unfolding field_diff
field_diff-seconds a b = rw (sub_add, sub_add)

time_int-injective : (a b : Time) → IsClock a → IsClock b → time_int a ≡ time_int b → a ≡ b
time_int-injective a b p q e =
    ground (arith, p.minute_high, p.second_high, q.minute_high, q.second_high)

pub diff_self : (n : ℕ) → pos 0 ≡ sub_ℕ n n
diff_self n = ground arith

-- ztl_difftime on two times of day is the difference of their seconds since midnight.
pub difftime-seconds :
    (a b : Time)
    → IsClock a
    → IsClock b
    → difftime (time_int a) (time_int b) false ≡ sub_ℕ (seconds a) (seconds b)
unfolding difftime
difftime-seconds a b p q = ground (
  arith,
  int_ptime-time_int a p,
  int_ptime-time_int b q,
  field_diff-seconds a b,
  time_int-injective a b p q,
)

-- The time of day, some seconds after midnight.
abbrev pub clock_of : ℕ → Time
clock_of s = record { hour = s / 3600; minute = s / 60 % 60; second = s % 60 }

-- The condition under which the carries of ztl_get_distance_time are right: none of the sums of
-- seconds, minutes and hours that it forms is exactly 60, 60 or 24.
pub record OffBoundary (h m s : ℕ) : Type 0 where
  pub seconds_off : s ≢ 60
  pub minutes_off : 60 < s → m + s / 60 ≢ 60
  pub hours_off : 60 < s → 60 < m + s / 60 → h + (m + s / 60) / 60 ≢ 24

carry_up-clock_of :
    (h m s : ℕ)
    → h < 24
    → m < 60
    → OffBoundary h m s
    → time_int (carry_up h m s) ≡ time_int (clock_of ((h * 3600 + m * 60 + s) % 86400))
unfolding carry_up
carry_up-clock_of h m s hh mh v = ground (arith, v.seconds_off, v.minutes_off, v.hours_off)

shift-pos : (t : Time) (n : ℕ) → shift t (pos n) ≡ carry_up t.hour t.minute (t.second + n)
unfolding shift ◌+ℤ◌
shift-pos t n = ground arith

distance_time-shift :
    (t : Time) (offset : ℤ)
    → IsClock t
    → distance_time (time_int t) offset ≡ time_int (shift t offset)
unfolding distance_time
distance_time-shift t offset v = ap (λ u. time_int (shift u offset)) (int_ptime-time_int t v)

-- ztl_get_distance_time with an offset of n seconds from 0 on is the time of day n seconds later,
-- modulo a day, where no sum of seconds, minutes or hours falls on exactly 60, 60 or 24.
pub distance_time-later :
    (t : Time) (n : ℕ)
    → IsClock t
    → OffBoundary t.hour t.minute (t.second + n)
    → distance_time (time_int t) (pos n) ≡ time_int (clock_of ((seconds t + n) % 86400))
distance_time-later t n v b =
    distance_time-shift t (pos n) v
    ∙ ap (λ u. time_int u) (shift-pos t n)
    ∙ carry_up-clock_of t.hour t.minute (t.second + n) v.hour_high v.minute_high b
    ∙ ap (λ s. time_int (clock_of (s % 86400))) (omega arith)

-- ztl_get_distance_time to an exact minute leaves 60 in the seconds.
pub distance_time-sixty :
    (t : Time) (n : ℕ)
    → IsClock t
    → t.second + n ≡ 60
    → distance_time (time_int t) (pos n) ≡ time_int (record t { second = 60 })
unfolding carry_up
distance_time-sixty t n v e =
    distance_time-shift t (pos n) v ∙ ap (λ u. time_int u) (shift-pos t n) ∙ ground (arith, e)

-- The condition for the borrows: the sums below zero are not multiples of 60.
pub record OffBelow (t : Time) (n : ℕ) : Type 0 where
  pub seconds_off : t.second < n → (n - t.second) % 60 ≢ 0
  pub minutes_off :
      t.second < n
      → t.minute < (n - t.second) / 60 + 1
      → ((n - t.second) / 60 + 1 - t.minute) % 60 ≢ 0

shift-negsuc-near :
    (t : Time) (k : ℕ)
    → k < t.second
    → shift t (negsuc k) ≡ carry_up t.hour t.minute (t.second - (k + 1))
unfolding shift ◌+ℤ◌
shift-negsuc-near t k h = ground arith

shift-negsuc-far :
    (t : Time) (k : ℕ)
    → t.second ≤ k
    → shift t (negsuc k) ≡ borrow_down t.hour t.minute (k - t.second)
unfolding shift ◌+ℤ◌
shift-negsuc-far t k h = ground arith

borrow_down-clock_of :
    (t : Time) (k : ℕ)
    → IsClock t
    → OffBelow t (suc k)
    → t.second ≤ k
    → k + 1 ≤ seconds t
    → time_int (borrow_down t.hour t.minute (k - t.second))
      ≡ time_int (clock_of (seconds t - (k + 1)))
unfolding borrow_down
borrow_down-clock_of t k v b h e =
    ground (arith, v.hour_high, v.minute_high, v.second_high, b.seconds_off, b.minutes_off)

within-clock_of :
    (t : Time) (k : ℕ)
    → IsClock t
    → k < t.second
    → time_int (carry_up t.hour t.minute (t.second - (k + 1)))
      ≡ time_int (clock_of (seconds t - (k + 1)))
unfolding carry_up
within-clock_of t k v h = ground (arith, v.hour_high, v.minute_high, v.second_high)

-- ztl_get_distance_time with an offset of -(k + 1) seconds is the time of day as many seconds
-- earlier, where that is on the same day and no sum below zero is a multiple of 60.
pub distance_time-earlier :
    (t : Time) (k : ℕ)
    → IsClock t
    → OffBelow t (suc k)
    → k + 1 ≤ seconds t
    → distance_time (time_int t) (negsuc k) ≡ time_int (clock_of (seconds t - (k + 1)))
distance_time-earlier t k v b e = distance_time-shift t (negsuc k) v ∙ elim (dec_lt k t.second) [
  | yes h ↦ ap (λ u. time_int u) (shift-negsuc-near t k h) ∙ within-clock_of t k v h
  | no h ↦
      ap (λ u. time_int u) (shift-negsuc-far t k (omega (arith, h)))
      ∙ borrow_down-clock_of t k v b (omega (arith, h)) e
]
