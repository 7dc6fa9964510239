-- ===== src/Utils/Numbers.antt =====
-- The numbers of src/ZToolLib/ztl_utils.c: digits10, atoi_n, parse_size, get_next_power, ztl_rand.
use ztool_lib.Common.{
  ℕ, zero, suc, ◌+◌, ◌-◌, ◌*◌, ◌/◌, ◌%◌, ◌^◌, ◌&&◌, ◌||◌, ltb, leb, ◌==◌, if◌then◌else◌, List, [],
  ◌∷◌, get_or,
}
use ztool_lib.Common.Int.{ℤ, pos, negsuc, neg}
use ztool_lib.Common.Outcome.{Outcome, done, out_of_fuel}

-- digits10 for a value below 10^12.
unfoldable pub digits_low : ℕ → ℕ
digits_low v =
    if ltb v 10
    then 1
    else if ltb v 100
    then 2
    else if ltb v 1000
    then 3
    else if ltb v 100000000
    then (if ltb v 1000000
        then (if ltb v 10000 then 4 else 5 + (if leb 100000 v then 1 else 0))
        else 7 + (if leb 10000000 v then 1 else 0))
    else if ltb v 10000000000
    then 9 + (if leb 1000000000 v then 1 else 0)
    else 11 + (if leb 100000000000 v then 1 else 0)

-- digits10; on a uint64_t one recursive call leaves a value below 10^12.
unfoldable pub digits10 : ℕ → ℕ
unfolding digits_low
digits10 v = if ltb v 1000000000000 then digits_low v else 12 + digits_low (v / 1000000000000)

-- get_next_power, on fuel: the loop doubles i until it is at least n.
unfoldable pub power_loop : ℕ → ℕ → ℕ → Outcome ℕ
power_loop zero i n = out_of_fuel
power_loop (suc fuel) i n = if leb n i then done i else power_loop fuel (i * 2) n

unfoldable pub get_next_power : ℕ → Outcome ℕ
unfolding power_loop
get_next_power n = power_loop 64 2 n

-- ztl_rand: the next seed and the number.
pub rand : ℕ → ℕ × ℕ
rand seed = let next = (214013 * seed + 2531011) % 2 ^ 32 in (next, next / 2 ^ 16 % 2 ^ 15)

-- The first loop of atoi_n: the count i and the text after the spaces. The text is the one before
-- the NUL, which is no space and no digit.
unfoldable pub skip_spaces : ℕ → ℕ → List ℕ → ℕ × List ℕ
skip_spaces len i [] = (i + 1, [])
skip_spaces len i (c ∷ cs) =
    let rest = skip_spaces len (i + 1) cs in
    if ltb i len && (c == 32) then rest else (i + 1, c ∷ cs)

-- The last loop of atoi_n, for values that an int64_t holds.
-- The loop over the digits; val is the bit pattern of an int64_t.
unfoldable pub digits_loop : ℕ → ℕ → ℕ → List ℕ → ℕ
digits_loop len i val [] = val
digits_loop len i val (c ∷ cs) =
    let rest = digits_loop len (i + 1) ((val * 10 + (c - 48)) % 2 ^ 64) cs in
    if leb i len && (leb 48 c && leb c 57) then rest else val

-- The number that a bit pattern of 64 bits stands for.
abbrev pub int64 : ℕ → ℤ
int64 v = if ltb v (2 ^ 63) then pos v else negsuc (2 ^ 64 - v - 1)

-- atoi_n after the spaces: the sign and the digits.
unfoldable pub signed_digits : ℕ → ℕ → List ℕ → ℤ
unfolding digits_loop
signed_digits len i [] = pos 0
signed_digits len i (c ∷ cs) =
    if c == 43
    then int64 (digits_loop len (i + 1) 0 cs)
    else if c == 45
    then neg (int64 (digits_loop len (i + 1) 0 cs))
    else int64 (digits_loop len i 0 (c ∷ cs))

unfoldable pub atoi_n : List ℕ → ℕ → ℤ
unfolding skip_spaces signed_digits
atoi_n data_ len = let (i, text) = skip_spaces len 0 data_ in signed_digits len i text

-- The scale of parse_size for the last character, K, M or G.
unfoldable pub unit_scale : ℕ → ℕ
unit_scale unit =
    if unit == 75 || unit == 107
    then 1024
    else if unit == 77 || unit == 109
    then 1024 * 1024
    else if unit == 71 || unit == 103
    then 1024 * 1024 * 1024
    else 1

-- parse_size, for a length from 1 on; a negative size passes the test against the maximum.
unfoldable pub parse_size : List ℕ → ℕ → ℤ
unfolding unit_scale atoi_n
parse_size str len =
    let scale = unit_scale (get_or str (len - 1) 0) in
    let size = atoi_n str (if scale == 1 then len else len - 1) in
    elim size [
      | pos n ↦ if n == 0 || ltb ((2 ^ 63 - 1) / scale) n then pos 0 else pos (n * scale)
      | negsuc n ↦ neg (pos ((n + 1) * scale))
    ]
