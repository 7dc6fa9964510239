-- ===== src/Utils/Pieces.antt =====
-- What the string functions of src/ZToolLib/ztl_utils.c compute.
use ztool_lib.Common.{
  ℕ, zero, suc, ◌+◌, ◌-◌, ◌≤◌, ◌<◌, ◌≡◌, ◌≢◌, refl, sym, ap, subst, ◌∙◌, true, ltb, ◌==◌,
  if◌then◌else◌, arith, tests, Option, none, some, List, [], ◌∷◌, ◌++◌, length, take, drop,
  Bool-cases, inl, inr, ==→eq, length-append, length-drop, take-append-drop, ==_self, le→ltb, ne→==,
}
use ztool_lib.Common.Outcome.{done}
use ztool_lib.Utils.Text.{remove_char, startwith, endwith, cut, pieces_loop, str_delimiter}

-- The pieces with the delimiter between them.
unfoldable pub join : ℕ → List (List ℕ) → List ℕ
join delimiter [] = []
join delimiter (p ∷ []) = p
join delimiter (p ∷ q ∷ ps) = p ++ delimiter ∷ join delimiter (q ∷ ps)

-- The number of times that a character stands in a text.
unfoldable pub count_char : ℕ → List ℕ → ℕ
count_char ch [] = 0
count_char ch (c ∷ cs) = (if c == ch then 1 else 0) + count_char ch cs

count_char-remove_char : (s : List ℕ) (ch : ℕ) → count_char ch (remove_char s ch) ≡ 0
unfolding count_char remove_char
count_char-remove_char [] ch = refl
count_char-remove_char (c ∷ cs) ch = ground (arith, count_char-remove_char cs ch)

count_char-others :
    (s : List ℕ) (ch other : ℕ)
    → other ≢ ch
    → count_char other (remove_char s ch) ≡ count_char other s
unfolding count_char remove_char
count_char-others [] ch other h = refl
count_char-others (c ∷ cs) ch other h = ground (arith, h, count_char-others cs ch other h)

-- remove_char removes every occurrence of its character, and keeps the number of occurrences of
-- every other one.
pub remove_char-count :
    (s : List ℕ) (ch other : ℕ)
    → other ≢ ch
    → (count_char ch (remove_char s ch) ≡ 0)
      × (count_char other (remove_char s ch) ≡ count_char other s)
remove_char-count s ch other h = (count_char-remove_char s ch, count_char-others s ch other h)

startwith-append : (s needle : List ℕ) → startwith (needle ++ s) needle ≡ true
unfolding startwith
startwith-append s [] = refl
startwith-append s (n ∷ ns) = rw (==_self n) (startwith-append s ns)

startwith_split :
    (s needle : List ℕ) → startwith s needle ≡ true → s ≡ needle ++ drop (length needle) s
unfolding startwith
startwith_split s [] h = refl
startwith_split [] (n ∷ ns) h = ground arith
startwith_split (c ∷ cs) (n ∷ ns) h = ground (arith, h, startwith_split cs ns)

drop-append : (xs ys : List ℕ) → drop (length xs) (xs ++ ys) ≡ ys
drop-append [] ys = refl
drop-append (x ∷ xs) ys = drop-append xs ys

drop_all : (n : ℕ) (xs : List ℕ) → length xs ≤ n → drop n xs ≡ []
drop_all zero [] h = refl
drop_all zero (x ∷ xs) h = absurd (omega arith)
drop_all (suc n) [] h = refl
drop_all (suc n) (x ∷ xs) h = drop_all n xs (omega arith)

append-nil : (xs : List ℕ) → xs ++ [] ≡ xs
append-nil [] = refl
append-nil (x ∷ xs) = ap (◌∷◌ x) (append-nil xs)

endwith-append : (front needle : List ℕ) → endwith (front ++ needle) needle ≡ true
unfolding endwith
endwith-append front needle =
    let size : length (front ++ needle) - length needle ≡ length front =
      omega (arith, length-append front needle) in
    rw
      (
        le→ltb (length (front ++ needle)) (length needle)
            (omega (arith, length-append front needle)),
        size,
        drop-append front needle,
      )
      (subst (λ x. startwith x needle ≡ true) (append-nil needle) (startwith-append [] needle))

endwith_split :
    (s needle : List ℕ) → endwith s needle ≡ true → s ≡ take (length s - length needle) s ++ needle
unfolding endwith
endwith_split s needle h = elim (Bool-cases (ltb (length s) (length needle))) [
  | inl short ↦ absurd (ground (arith, h, short))
  | inr long ↦
      let k = length s - length needle in
      let tail = drop k s in
      let found : startwith tail needle ≡ true = ground (arith, h, long) in
      let whole : tail ≡ needle =
        startwith_split tail needle found
        ∙ ap (λ x. needle ++ x)
            (drop_all (length needle) tail (omega (tests, length-drop k s, long)))
        ∙ append-nil needle in
      sym (ap (λ x. take k s ++ x) (sym whole) ∙ take-append-drop k s)
]

-- ztl_endwith holds of every text followed by the needle, and a string of which it holds is its
-- front followed by the needle.
pub endwith-suffix :
    (front s needle : List ℕ)
    → endwith s needle ≡ true
    → (endwith (front ++ needle) needle ≡ true) × (s ≡ take (length s - length needle) s ++ needle)
endwith-suffix front s needle h = (endwith-append front needle, endwith_split s needle h)

-- The text that strchr took apart.
abbrev glue : ℕ → List ℕ × Option (List ℕ) → List ℕ
glue d (front, none) = front
glue d (front, some rest) = front ++ d ∷ rest

abbrev rest_count : ℕ → Option (List ℕ) → ℕ
rest_count d none = 0
rest_count d (some rest) = suc (count_char d rest)

glue_cons : (d c : ℕ) (p : List ℕ × Option (List ℕ)) → glue d (c ∷ p.0, p.1) ≡ c ∷ glue d p
glue_cons d c (front, none) = refl
glue_cons d c (front, some rest) = refl

glue-cut : (src : List ℕ) (d : ℕ) → glue d (cut src d) ≡ src
unfolding cut
glue-cut [] d = refl
glue-cut (c ∷ cs) d = elim (Bool-cases (c == d)) [
  | inl e ↦ rw e (ap (λ x. x ∷ cs) (sym (==→eq c d e)))
  | inr e ↦ rw e (glue_cons d c (cut cs d) ∙ ap (◌∷◌ c) (glue-cut cs d))
]

-- The piece has no delimiter, and the rest has one less.
cut-count :
    (src : List ℕ) (d : ℕ)
    → (count_char d (cut src d).0 ≡ 0) × (rest_count d (cut src d).1 ≡ count_char d src)
unfolding cut count_char
cut-count [] d = (refl, refl)
cut-count (c ∷ cs) d = elim (Bool-cases (c == d)) [
  | inl e ↦ rw e (refl, omega arith)
  | inr e ↦ let k = cut-count cs d in (ground (arith, e, k.0), ground (arith, e, k.1))
]

data NonEmpty : List (List ℕ) → Type 0 where
  non_empty : {p : List ℕ} {ps : List (List ℕ)} → NonEmpty (p ∷ ps)

join_cons :
    (d : ℕ) (p : List ℕ) (ps : List (List ℕ)) → NonEmpty ps → join d (p ∷ ps) ≡ p ++ d ∷ join d ps
unfolding join
join_cons d p _ non_empty = refl

-- The pieces after a cut.
abbrev rest_pieces : ℕ → ℕ → Option (List ℕ) → List (List ℕ)
rest_pieces n d none = []
rest_pieces n d (some rest) = pieces_loop n rest d

pieces_join :
    (n d : ℕ) (p : List ℕ × Option (List ℕ))
    → ((rest : List ℕ) → count_char d rest < n → join d (pieces_loop n rest d) ≡ rest)
    → rest_count d p.1 ≤ n
    → join d (p.0 ∷ rest_pieces n d p.1) ≡ glue d p
unfolding join pieces_loop
pieces_join n d (front, none) ih h = refl
pieces_join zero d (front, some rest) ih h = absurd (omega (arith, h))
pieces_join (suc n) d (front, some rest) ih h =
    join_cons d front (pieces_loop (suc n) rest d) non_empty
    ∙ ap (λ x. front ++ d ∷ x) (ih rest (omega (arith, h)))

pieces_loop-join :
    (n : ℕ) (src : List ℕ) (d : ℕ) → count_char d src < n → join d (pieces_loop n src d) ≡ src
unfolding pieces_loop
pieces_loop-join zero src d h = absurd (omega (arith, h))
pieces_loop-join (suc n) src d h =
    pieces_join n d (cut src d) (λ rest k. pieces_loop-join n rest d k)
      (omega (arith, (cut-count src d).1, h))
    ∙ glue-cut src d

-- str_delimiter with a delimiter other than NUL and an array for more elements than there are
-- delimiters in the text loses nothing: the pieces joined by the delimiter are the text.
pub str_delimiter-join :
    (n : ℕ) (src : List ℕ) (d : ℕ)
    → d ≢ 0
    → count_char d src < n
    → (pieces : List (List ℕ)) × (str_delimiter n src d ≡ done pieces) × (join d pieces ≡ src)
unfolding str_delimiter
str_delimiter-join n src d h k =
    (pieces_loop n src d, rw (ne→== d 0 h) refl, pieces_loop-join n src d k)
