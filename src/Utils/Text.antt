-- ===== src/Utils/Text.antt =====
-- The string functions of src/ZToolLib/ztl_utils.c. A string is the list of its characters before
-- the NUL; a function that changes its buffer in place gives the new string.
use ztool_lib.Common.Outcome.{Outcome, done, fault}
use ztool_lib.Common.{
  ℕ, zero, suc, ◌-◌, Bool, true, false, ◌&&◌, ◌||◌, ltb, ◌==◌, if◌then◌else◌, min, Option, none,
  some, List, [], ◌∷◌, length, take, drop, get_or, leb,
}

abbrev pub blank : ℕ → Bool
blank c = c == 32 || c == 13 || c == 10 || c == 9

unfoldable pub lefttrim : List ℕ → List ℕ
lefttrim [] = []
lefttrim (c ∷ cs) = let rest = lefttrim cs in if blank c then rest else c ∷ cs

-- The loop of righttrim, with i + 1 = n.
unfoldable pub righttrim_loop : ℕ → List ℕ → List ℕ
righttrim_loop zero buf = []
righttrim_loop (suc i) buf =
    let rest = righttrim_loop i buf in if blank (get_or buf i 0) then rest else take (suc i) buf

unfoldable pub righttrim : List ℕ → List ℕ
unfolding righttrim_loop
righttrim buf = righttrim_loop (length buf) buf

-- The write index of remove_char never passes the read index, so each read finds the old character.
unfoldable pub remove_char : List ℕ → ℕ → List ℕ
remove_char [] ch = []
remove_char (c ∷ cs) ch = let rest = remove_char cs ch in if c == ch then rest else c ∷ rest

unfoldable pub replace_char : List ℕ → ℕ → ℕ → List ℕ
replace_char [] old_ch new_ch = []
replace_char (c ∷ cs) old_ch new_ch =
    (if c == old_ch then new_ch else c) ∷ replace_char cs old_ch new_ch

-- '/' or '\'
abbrev pub separator : ℕ → Bool
separator c = c == 47 || c == 92

-- The loop of ztl_basename, and the first one of ztl_dirname: the length up to the last separator,
-- with it, or 0.
unfoldable pub last_separator : ℕ → List ℕ → ℕ
last_separator zero path = 0
last_separator (suc n) path =
    let rest = last_separator n path in if separator (get_or path n 0) then suc n else rest

-- ztl_basename, which returns NULL on the empty path.
unfoldable pub basename : List ℕ → Option (List ℕ)
unfolding last_separator
basename [] = none
basename (c ∷ cs) = some (drop (last_separator (length (c ∷ cs)) (c ∷ cs)) (c ∷ cs))

-- The second loop of ztl_dirname goes back over the separators.
unfoldable pub skip_separators : ℕ → List ℕ → ℕ
skip_separators zero path = 0
skip_separators (suc n) path =
    let rest = skip_separators n path in if separator (get_or path n 0) then rest else suc n

-- ztl_dirname: what it copies into a buffer of `size` characters; the NUL goes behind them. None
-- stands for -1.
unfoldable pub dirname : ℕ → List ℕ → Option (List ℕ)
unfolding last_separator skip_separators
dirname zero path = none
dirname (suc size) [] = none
dirname (suc size) (c ∷ cs) =
    let path = c ∷ cs in
    some (take (min (suc size) (skip_separators (last_separator (length path) path) path)) path)

-- strncmp(str, needle, strlen(needle)) == 0, in ztl_startwith.
unfoldable pub startwith : List ℕ → List ℕ → Bool
startwith str [] = true
startwith [] (n ∷ ns) = false
startwith (c ∷ cs) (n ∷ ns) = (c == n) && startwith cs ns

unfoldable pub endwith : List ℕ → List ℕ → Bool
unfolding startwith
endwith str needle =
    if ltb (length str) (length needle)
    then false
    else startwith (drop (length str - length needle) str) needle

-- ztl_startswith and ztl_endswith; none is a null pointer among the needles, whose list has `count`
-- elements.
unfoldable pub startswith : List ℕ → List (Option (List ℕ)) → Bool
unfolding startwith
startswith str [] = false
startswith str (none ∷ ns) = false
startswith str (some n ∷ ns) = startwith str n || startswith str ns

unfoldable pub endswith : List ℕ → List (Option (List ℕ)) → Bool
unfolding endwith
endswith str [] = false
endswith str (none ∷ ns) = false
endswith str (some n ∷ ns) = endwith str n || endswith str ns

-- strchr for a character other than the NUL that ends the text: the text before the first delimiter, and the text after it.
unfoldable pub cut : List ℕ → ℕ → List ℕ × Option (List ℕ)
cut [] delimiter = ([], none)
cut (c ∷ cs) delimiter =
    let rest = cut cs delimiter in if c == delimiter then ([], some cs) else (c ∷ rest.0, rest.1)

-- The loop of str_delimiter: the pieces that it stores in an array of arr_size elements; what follows
-- the last of them is dropped.
unfoldable pub pieces_loop : ℕ → List ℕ → ℕ → List (List ℕ)
unfolding cut
pieces_loop zero src delimiter = []
pieces_loop (suc n) src delimiter =
    let (piece, rest) = cut src delimiter in
    piece ∷ (elim rest [ none ↦ [] | some src ↦ pieces_loop n src delimiter ])

-- str_delimiter. With NUL as the delimiter strchr finds the end of the text, and the second piece
-- starts behind it, which is a fault.
unfoldable pub str_delimiter : ℕ → List ℕ → ℕ → Outcome (List (List ℕ))
unfolding pieces_loop
str_delimiter arr_size src delimiter =
    if (delimiter == 0) && leb 2 arr_size then fault else done (pieces_loop arr_size src delimiter)
