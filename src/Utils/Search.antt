-- ===== src/Utils/Search.antt =====
-- binary_search and binary_search_i64 of src/ZToolLib/ztl_utils.c, the same code for `int` and for
-- `int64_t`.
use native.Mathlib.Decide.{dec_lt}
use ztool_lib.Common.{
  ℕ, zero, suc, ◌+◌, ◌-◌, ◌/◌, ◌^◌, leb, ◌≤◌, ◌<◌, ◌≡◌, Bool, true, false, ltb, ◌==◌, if◌then◌else◌,
  arith, tests, Option, none, some, List, length, get_elem?, get_or, get_elem?-eq-get_or, subst,
  ltb→lt, Bool-cases, inl, inr,
}
use ztool_lib.Common.Int.{ℤ, pos, pos_part, neg_part}
use ztool_lib.Common.Outcome.{Outcome, done, fault, out_of_fuel, Ends, ends, Ends-if}

abbrev pub eq_ℤ : ℤ → ℤ → Bool
eq_ℤ a b = pos_part a + neg_part b == pos_part b + neg_part a

abbrev pub lt_ℤ : ℤ → ℤ → Bool
lt_ℤ a b = ltb (pos_part a + neg_part b) (pos_part b + neg_part a)

-- The loop, with the bounds low and high, on fuel; a sum of them that an int does not hold is a
-- fault.
pub search_loop : ℕ → List ℤ → ℤ → ℕ → ℕ → Outcome (Option ℕ)
search_loop zero arr val low high = out_of_fuel
search_loop (suc fuel) arr val low high =
    let middle = (low + high) / 2 in
    if ltb low high
    then (if leb (2 ^ 31) (low + high) then fault else elim (get_elem? arr middle) [
      | none ↦ fault
      | some x ↦
          let left = lt_ℤ val x in
          let rest =
            search_loop fuel arr val (if left then low else middle + 1)
              (if left then middle else high) in
          if eq_ℤ val x then done (some middle) else rest
    ])
    else done none

pub binary_search : List ℤ → ℕ → ℤ → Outcome (Option ℕ)
unfolding search_loop
binary_search arr size val = search_loop (size + 1) arr val 0 size

abbrev pub at : List ℤ → ℕ → ℤ
at arr i = get_or arr i (pos 0)

-- Ascending order of the first elements.
pub record Ascending (arr : List ℤ) (size : ℕ) : Type 0 where
  pub inside : size ≤ length arr
  pub ordered : (i j : ℕ) → i < j → j < size → lt_ℤ (at arr j) (at arr i) ≡ false

-- The result is the index of the value, or there is no such index.
pub Located : List ℤ → ℕ → ℤ → Option ℕ → Type 0
Located arr size val none = (i : ℕ) → i < size → eq_ℤ val (at arr i) ≡ false
Located arr size val (some m) = (m < size) × (eq_ℤ val (at arr m) ≡ true)

-- What the loop has ruled out.
record Excluded (arr : List ℤ) (val : ℤ) (low high size : ℕ) : Type 0 where
  inside : high ≤ size
  below : (i : ℕ) → i < low → lt_ℤ (at arr i) val ≡ true
  above : (i : ℕ) → high ≤ i → i < size → lt_ℤ val (at arr i) ≡ true

-- A value that is not left of the middle and not equal to it is right of it.
right_of : (val x : ℤ) → eq_ℤ val x ≡ false → lt_ℤ val x ≡ false → lt_ℤ x val ≡ true
right_of val x e l = ground arith

lt_trans_left : (a b c : ℤ) → lt_ℤ b a ≡ false → lt_ℤ b c ≡ true → lt_ℤ a c ≡ true
lt_trans_left a b c p q = ground arith

lt_trans_right : (a b c : ℤ) → lt_ℤ c b ≡ false → lt_ℤ a b ≡ true → lt_ℤ a c ≡ true
lt_trans_right a b c p q = ground arith

lt-ne : (a b : ℤ) → lt_ℤ a b ≡ true → eq_ℤ a b ≡ false
lt-ne a b p = ground arith

lt-ne_sym : (a b : ℤ) → lt_ℤ a b ≡ true → eq_ℤ b a ≡ false
lt-ne_sym a b p = ground arith

module _ (arr : List ℤ) (val : ℤ) (size : ℕ) (sorted : Ascending arr size)
    (small : size ≤ 2 ^ 30) where
  narrow_left :
      (low high m : ℕ)
      → Excluded arr val low high size
      → m < high
      → lt_ℤ val (at arr m) ≡ true
      → Excluded arr val low m size
  narrow_left low high m e h l = record {
    inside = omega (arith, e.inside);
    below = e.below;
    above = λ i p q. elim (dec_lt m i) [
      | yes k ↦ lt_trans_right val (at arr m) (at arr i) (sorted.ordered m i k q) l
      | no k ↦ subst (λ j. lt_ℤ val (at arr j) ≡ true) (omega (arith, k)) l
    ];
  }

  narrow_right :
      (low high m : ℕ)
      → Excluded arr val low high size
      → m < high
      → eq_ℤ val (at arr m) ≡ false
      → lt_ℤ val (at arr m) ≡ false
      → Excluded arr val (m + 1) high size
  narrow_right low high m e h n l =
      let right = right_of val (at arr m) n l in
      record {
        inside = e.inside;
        below = λ i p. elim (dec_lt i m) [
          | yes k ↦
              lt_trans_left (at arr i) (at arr m) val
                (sorted.ordered i m k (omega (arith, e.inside))) right
          | no k ↦ subst (λ j. lt_ℤ (at arr j) val ≡ true) (omega (arith, k)) right
        ];
        above = e.above;
      }

  closed :
      (low high : ℕ)
      → Excluded arr val low high size
      → ltb low high ≡ false
      → Located arr size val none
  unfolding Located
  closed low high e c i h = elim (dec_lt i low) [
    | yes k ↦ lt-ne_sym (at arr i) val (e.below i k)
    | no k ↦ lt-ne val (at arr i) (e.above i (omega (tests, c, k)) h)
  ]

  search_loop-Located :
      (fuel low high : ℕ)
      → Excluded arr val low high size
      → high - low < fuel
      → Ends (Located arr size val) (search_loop fuel arr val low high)
  unfolding search_loop Located
  search_loop-Located zero low high e f = absurd (omega arith)
  search_loop-Located (suc fuel) low high e f =
      let m = (low + high) / 2 in
      Ends-if (ltb low high)
        (λ open_.
          let o = ltb→lt low high open_ in
          let holds : leb (2 ^ 31) (low + high) ≡ false = ground (arith, o, e.inside, small) in
          rw (holds, get_elem?-eq-get_or arr m (pos 0) (omega (arith, sorted.inside, e.inside)))
            (Ends-if (eq_ℤ val (at arr m)) (λ found. ends (omega (arith, e.inside), found))
              (λ other. elim (Bool-cases (lt_ℤ val (at arr m))) [
                | inl l ↦ rw l (
                    search_loop-Located fuel low m (narrow_left low high m e (omega arith) l)
                      (omega arith))
                | inr l ↦ rw l (
                    search_loop-Located fuel (m + 1) high
                      (narrow_right low high m e (omega arith) other l) (omega arith))
              ])))
        (λ shut. ends (closed low high e shut))

-- binary_search on an array whose first `size` elements, at most 2^30, ascend ends within its fuel and without a
-- read outside the array: with an index below `size` where the value stands, or, when it returns
-- -1, with the value at no index below `size`.
pub binary_search_correct :
    (arr : List ℤ) (size : ℕ) (val : ℤ)
    → Ascending arr size
    → size ≤ 2 ^ 30
    → Ends (Located arr size val) (binary_search arr size val)
unfolding binary_search
binary_search_correct arr size val sorted small =
    search_loop-Located arr val size sorted small (size + 1) 0 size
      (record {
        inside = omega arith;
        below = λ i h. absurd (omega arith);
        above = λ i p q. absurd (omega arith);
      })
      (omega arith)
