-- ===== src/Utils/Decimal.antt =====
-- What digits10, atoi_n and get_next_power of src/ZToolLib/ztl_utils.c compute.
use native.Mathlib.Decide.{dec_lt}
use native.Mathlib.Nat.{pow-suc, pow-le-pow_right}
use ztool_lib.Common.{
  ℕ, zero, suc, ◌+◌, ◌-◌, ◌*◌, ◌/◌, ◌^◌, ◌≤◌, ◌<◌, ◌≡◌, ◌≢◌, refl, sym, ap, ◌∙◌, true, false, ltb,
  leb, arith, List, [], ◌∷◌, ◌++◌, length, Bool-cases, inl, inr, ltb→lt, ltb→le, map, ne→==, lt→ltb,
  ◌%◌, ◌&&◌,
}
use ztool_lib.Common.Int.{pos, neg}
use ztool_lib.Common.Outcome.{done}
use ztool_lib.Utils.Numbers.{
  digits_low, digits10, power_loop, get_next_power, skip_spaces, signed_digits, digits_loop, int64,
  atoi_n,
}

digits_low-bounds :
    (v : ℕ)
    → 1 ≤ v
    → v < 1000000000000
    → (1 ≤ digits_low v) × (10 ^ (digits_low v - 1) ≤ v) × (v < 10 ^ digits_low v)
unfolding digits_low
digits_low-bounds v k h = ground arith

power_shift : (d : ℕ) → 10 ^ (d + 12) ≡ 1000000000000 * 10 ^ d
power_shift zero = refl
power_shift (suc d) =
    ap (λ x. 10 ^ x) (omega arith)
    ∙ pow-suc 10 (d + 12)
    ∙ omega (arith, power_shift d, pow-suc 10 d)

power_table : (d : ℕ) → 10 ^ (12 + d) ≡ 1000000000000 * 10 ^ d
power_table d = ap (λ x. 10 ^ x) (omega arith) ∙ power_shift d

power_table_low : (d : ℕ) → 1 ≤ d → 10 ^ (12 + d - 1) ≡ 1000000000000 * 10 ^ (d - 1)
power_table_low d k = ap (λ x. 10 ^ x) (omega arith) ∙ power_shift (d - 1)

-- digits10 of a uint64_t from 1 on is the number of its decimal digits.
pub digits10-bounds :
    (v : ℕ) → 1 ≤ v → v < 2 ^ 64 → (10 ^ (digits10 v - 1) ≤ v) × (v < 10 ^ digits10 v)
unfolding digits10
digits10-bounds v k h = elim (Bool-cases (ltb v 1000000000000)) [
  | inl small ↦ let b = digits_low-bounds v k (ltb→lt _ _ small) in rw small (b.1, b.2)
  | inr large ↦
      let w = v / 1000000000000 in
      let l = ltb→le v 1000000000000 large in
      let b = digits_low-bounds w (omega (arith, l)) (omega (arith, h)) in
      rw (large) (
        rw (power_table_low (digits_low w) b.0) (omega (arith, b.1)),
        rw (power_table (digits_low w)) (omega (arith, b.2)),
      )
]

lt→leb : (n m : ℕ) → m < n → leb n m ≡ false
lt→leb n m h = ground arith

le→leb : (n m : ℕ) → n ≤ m → leb n m ≡ true
le→leb n m h = ground arith

power_loop-least :
    (fuel j k n : ℕ)
    → j ≤ k
    → k < fuel + j
    → n ≤ 2 ^ k
    → (j < k → 2 ^ (k - 1) < n)
    → power_loop fuel (2 ^ j) n ≡ done (2 ^ k)
unfolding power_loop
power_loop-least zero j k n p f u l = absurd (omega (arith, p, f))
power_loop-least (suc fuel) j k n p f u l =
    let next : 2 ^ j * 2 ≡ 2 ^ (j + 1) = sym (ap (λ x. 2 ^ x) (omega arith) ∙ pow-suc 2 j) in
    elim (dec_lt j k) [
      | yes h ↦
          let big : 2 ^ j ≤ 2 ^ (k - 1) = pow-le-pow_right (omega arith) (omega (arith, h)) in
          rw (lt→leb n (2 ^ j) (omega (arith, big, l h)), next)
            (power_loop-least fuel (j + 1) k n (omega (arith, h)) (omega (arith, f)) u (λ _. l h))
      | no h ↦ let same : j ≡ k = omega (arith, h, p) in rw (same, le→leb n (2 ^ k) u) refl
    ]

-- get_next_power returns the least power of two from 2 on that is not below n, for an n up to 2^63.
pub get_next_power-least :
    (k n : ℕ)
    → 1 ≤ k
    → k < 64
    → n ≤ 2 ^ k
    → (1 < k → 2 ^ (k - 1) < n)
    → get_next_power n ≡ done (2 ^ k)
unfolding get_next_power
get_next_power-least k n p h u l = power_loop-least 64 1 k n p (omega (arith, h)) u l

-- The digits of a number as characters, and their value.
abbrev pub chars : List ℕ → List ℕ
chars = map (λ d. d + 48)

unfoldable pub Digits : List ℕ → Type 0
Digits [] = Unit
Digits (d ∷ ds) = (d < 10) × Digits ds

unfoldable pub value : ℕ → List ℕ → ℕ
value acc [] = acc
value acc (d ∷ ds) = value (acc * 10 + d) ds

value-ge : (acc : ℕ) (ds : List ℕ) → acc ≤ value acc ds
unfolding value
value-ge acc [] = omega arith
value-ge acc (d ∷ ds) = omega (arith, value-ge (acc * 10 + d) ds)

digits_loop-value :
    (len i acc : ℕ) (ds rest : List ℕ)
    → Digits ds
    → value acc ds < 2 ^ 63
    → i + length ds ≡ len + 1
    → digits_loop len i acc (chars ds ++ rest) ≡ value acc ds
unfolding digits_loop Digits value
digits_loop-value len i acc [] [] v k e = refl
digits_loop-value len i acc [] (c ∷ cs) v k e = ground (arith, e)
digits_loop-value len i acc (d ∷ ds) rest v k e =
    let small : (acc * 10 + (d + 48 - 48)) % 2 ^ 64 ≡ acc * 10 + d =
      omega (arith, k, value-ge (acc * 10 + d) ds) in
    let more : leb i len && (leb 48 (d + 48) && leb (d + 48) 57) ≡ true = ground (arith, v.0, e) in
    rw (more, small) (digits_loop-value len (i + 1) (acc * 10 + d) ds rest v.1 k (omega (arith, e)))

skip_spaces-none :
    (len i : ℕ) (c : ℕ) (cs : List ℕ) → c ≢ 32 → skip_spaces len i (c ∷ cs) ≡ (i + 1, c ∷ cs)
unfolding skip_spaces
skip_spaces-none len i c cs h = ground (arith, h)

-- atoi_n on a text that starts with decimal digits, at least one and as many as the length it is
-- given, whose value is below 2^63, is the value of these digits, whatever follows them.
pub atoi_n-Digits :
    (d : ℕ) (ds rest : List ℕ)
    → Digits (d ∷ ds)
    → value 0 (d ∷ ds) < 2 ^ 63
    → atoi_n (chars (d ∷ ds) ++ rest) (length (d ∷ ds)) ≡ pos (value 0 (d ∷ ds))
unfolding atoi_n signed_digits
atoi_n-Digits d ds rest v k =
    let len = length (d ∷ ds) in
    ap (λ p. signed_digits len p.0 p.1)
      (skip_spaces-none len 0 (d + 48) (chars ds ++ rest) (omega (arith)))
    ∙ rw (ne→== (d + 48) 43 (omega arith), ne→== (d + 48) 45 (omega arith))
        (ap int64 (digits_loop-value len 1 0 (d ∷ ds) rest v k (omega arith))
          ∙ rw (lt→ltb _ _ k) refl)

-- atoi_n on a minus sign and decimal digits, as many as the length less one, whose value
-- is below 2^63, is the negated value.
pub atoi_n-negative :
    (ds rest : List ℕ)
    → Digits ds
    → value 0 ds < 2 ^ 63
    → atoi_n (45 ∷ chars ds ++ rest) (suc (length ds)) ≡ neg (pos (value 0 ds))
unfolding atoi_n signed_digits
atoi_n-negative ds rest v k =
    let len = suc (length ds) in
    ap (λ p. signed_digits len p.0 p.1) (skip_spaces-none len 0 45 (chars ds ++ rest) (omega arith))
    ∙ ap (λ x. neg (int64 x)) (digits_loop-value len 2 0 ds rest v k (omega arith))
    ∙ rw (lt→ltb _ _ k) refl
