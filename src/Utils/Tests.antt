-- ===== src/Utils/Tests.antt =====
-- Runs of the functions of ztl_utils.c, and the theorems at concrete arguments.
use ztool_lib.Common.{ℕ, zero, suc, ◌≡◌, ◌<◌, refl, true, false, some, List, [], ◌∷◌, ◌++◌, arith}
use ztool_lib.Common.Int.{ℤ, pos, negsuc, neg}
use ztool_lib.Common.Outcome.{Ends, done, fault}
use ztool_lib.Utils.Search.{binary_search, Ascending, Located, binary_search_correct, lt_ℤ, at}
use ztool_lib.Utils.Numbers.{
  atoi_n, parse_size, unit_scale, skip_spaces, signed_digits, digits_loop,
}
use ztool_lib.Utils.Decimal.{atoi_n-Digits, chars, Digits, value}
use ztool_lib.Utils.Text.{
  basename, dirname, last_separator, skip_separators, str_delimiter, endwith, startwith,
}
use ztool_lib.Utils.Pieces.{str_delimiter-join, join, count_char}

abbrev primes : List ℤ
primes = negsuc 1 ∷ pos 3 ∷ pos 7 ∷ []

ascends : (i j : ℕ) → i < j → j < 3 → lt_ℤ (at primes j) (at primes i) ≡ false
ascends i zero h k = absurd (omega (arith, h))
ascends zero (suc zero) h k = refl
ascends (suc i) (suc zero) h k = absurd (omega (arith, h))
ascends zero (suc (suc zero)) h k = refl
ascends (suc zero) (suc (suc zero)) h k = refl
ascends (suc (suc i)) (suc (suc zero)) h k = absurd (omega (arith, h))
ascends i (suc (suc (suc j))) h k = absurd (omega (arith, k))

primes-Ascending : Ascending primes 3
primes-Ascending = record { inside = omega arith; ordered = ascends }

binary_search_correct_example : Ends (Located primes 3 (pos 7)) (binary_search primes 3 (pos 7))
binary_search_correct_example =
    binary_search_correct primes 3 (pos 7) primes-Ascending (omega arith)

-- "42x" read to two characters.
atoi_n-Digits_example : atoi_n (chars (4 ∷ 2 ∷ []) ++ 120 ∷ []) 2 ≡ pos 42
unfolding Digits value
atoi_n-Digits_example =
    atoi_n-Digits 4 (2 ∷ []) (120 ∷ []) (omega arith, (omega arith, tt)) (omega arith)

-- "-5" has the size that parse_size scales, without a test.
negative_size : parse_size (45 ∷ 53 ∷ 75 ∷ []) 3 ≡ negsuc 5119
unfolding parse_size unit_scale atoi_n skip_spaces signed_digits digits_loop neg
negative_size = refl

str_delimiter-join_example :
    (pieces : List (List ℕ)) × (str_delimiter 2 (97 ∷ 44 ∷ 98 ∷ []) 44 ≡ done pieces)
    × (join 44 pieces ≡ 97 ∷ 44 ∷ 98 ∷ [])
unfolding count_char
str_delimiter-join_example = str_delimiter-join 2 (97 ∷ 44 ∷ 98 ∷ []) 44 (omega arith) (omega arith)

-- NUL as the delimiter leaves the text.
nul_delimiter : str_delimiter 2 (97 ∷ []) 0 ≡ fault
unfolding str_delimiter
nul_delimiter = refl

-- "a/b//c"
dirname_run : dirname 9 (97 ∷ 47 ∷ 98 ∷ 47 ∷ 47 ∷ 99 ∷ []) ≡ some (97 ∷ 47 ∷ 98 ∷ [])
unfolding dirname last_separator skip_separators
dirname_run = refl

basename_run : basename (97 ∷ 47 ∷ 98 ∷ []) ≡ some (98 ∷ [])
unfolding basename last_separator
basename_run = refl

abbrev ending : List ℕ
ending = 99 ∷ 98 ∷ []

ending-endwith : endwith ending (98 ∷ []) ≡ true
unfolding endwith startwith
ending-endwith = refl
