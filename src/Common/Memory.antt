-- ===== src/Common/Memory.antt =====
-- Blocks of memory as lists: what realloc and memcpy do.
use Prim.Native.Nat.{ℕ, zero, suc, ◌+◌, ◌*◌, ◌/◌, ◌%◌, ◌^◌, ◌≤◌, ◌<◌}
use mathlib.Core.Path.{◌≡◌, refl, sym, ap, ◌∙◌}
use mathlib.Core.Bool.{true, false}
use mathlib.Core.List.{List, [], ◌∷◌, ◌++◌, append_assoc}
use native.Mathlib.Omega.{arith}
use ztool_lib.Common.Tests.{leb, if◌then◌else◌}
use ztool_lib.Common.Lists.{
  length, take, drop, replicate, length-append, length-replicate, length-take, length-drop,
}
use ztool_lib.Common.Arrays.{set}
use ztool_lib.Common.Outcome.{Outcome, done, fault}

-- The whole slots of n slots of eltsize bytes, where the number of bytes is a uint32_t.
unfoldable pub slots : ℕ → ℕ → ℕ
slots eltsize n = n * eltsize % 2 ^ 32 / eltsize

pub slots_whole : (eltsize n : ℕ) → 1 ≤ eltsize → n * eltsize < 2 ^ 32 → slots eltsize n ≡ n
unfolding slots
slots_whole eltsize n h k =
    let same : n * eltsize % 2 ^ 32 ≡ n * eltsize = omega (arith, k) in rw same (grind arith)

-- Fewer slots take fewer bytes.
pub bytes_le : (n m eltsize : ℕ) → n ≤ m → n * eltsize ≤ m * eltsize
bytes_le n m eltsize h = grind arith

module _ {A : Type 0} where
  -- What realloc gives for n slots, where the new ones hold any value.
  unfoldable pub resize : A → ℕ → List A → List A
  resize junk n elts = take n (elts ++ replicate n junk)

  -- memcpy of a text to an offset of a block.
  unfoldable pub put : List A → ℕ → List A → Outcome (List A)
  put block at text =
      if leb (at + length text) (length block)
      then done (take at block ++ (text ++ drop (at + length text) block))
      else fault

  pub take-set :
      (xs : List A) (n : ℕ) (v : A)
      → n < length xs
      → take (n + 1) (set xs n v) ≡ take n xs ++ (v ∷ [])
  take-set [] n v h = absurd (omega arith)
  take-set (x ∷ xs) zero v h = refl
  take-set (x ∷ xs) (suc n) v h =
      let e : suc n + 1 ≡ suc (n + 1) = omega arith in
      rw (e) (ap (◌∷◌ x) (take-set xs n v (omega arith)))

  pub take-append : (n : ℕ) (xs ys : List A) → n ≤ length xs → take n (xs ++ ys) ≡ take n xs
  take-append zero xs ys h = refl
  take-append (suc n) [] ys h = absurd (omega arith)
  take-append (suc n) (x ∷ xs) ys h = ap (◌∷◌ x) (take-append n xs ys (omega arith))

  pub take-take : (n m : ℕ) (xs : List A) → n ≤ m → take n (take m xs) ≡ take n xs
  take-take zero m xs h = refl
  take-take (suc n) zero xs h = absurd (omega arith)
  take-take (suc n) (suc m) [] h = refl
  take-take (suc n) (suc m) (x ∷ xs) h = ap (◌∷◌ x) (take-take n m xs (omega arith))

  -- realloc keeps the elements and gives as many slots as it is asked for.
  pub take-resize :
      (junk : A) (n m : ℕ) (xs : List A)
      → n ≤ m
      → n ≤ length xs
      → take n (resize junk m xs) ≡ take n xs
  unfolding resize
  take-resize junk n m xs h k =
      take-take n m (xs ++ replicate m junk) h ∙ take-append n xs (replicate m junk) k

  pub length-resize : (junk : A) (m : ℕ) (xs : List A) → length (resize junk m xs) ≡ m
  unfolding resize
  length-resize junk m xs =
      length-take m (xs ++ replicate m junk)
        (omega (arith, length-append xs (replicate m junk), length-replicate m junk))

  pub take-length : (xs ys : List A) (n : ℕ) → n ≡ length xs → take n (xs ++ ys) ≡ xs
  take-length [] ys zero e = refl
  take-length [] ys (suc n) e = absurd (omega arith)
  take-length (x ∷ xs) ys zero e = absurd (omega arith)
  take-length (x ∷ xs) ys (suc n) e = ap (◌∷◌ x) (take-length xs ys n (omega arith))

  -- A text that fits in the block stands after what was before it, and the block keeps its size.
  pub put_done :
      (block : List A) (at : ℕ) (text : List A)
      → at + length text ≤ length block
      → (block' : List A) × (put block at text ≡ done block')
        × (length block' ≡ length block)
        × (take (at + length text) block' ≡ take at block ++ text)
  unfolding put
  put_done block at text h =
      let fits : leb (at + length text) (length block) ≡ true = ground arith in
      let front = take at block in
      let rest = drop (at + length text) block in
      let long : length front ≡ at = length-take at block (omega (arith, h)) in
      (
        front ++ (text ++ rest),
        rw (fits),
        omega (
          arith,
          long,
          length-append front (text ++ rest),
          length-append text rest,
          length-drop (at + length text) block,
          h,
        ),
        ap (take (at + length text)) (sym (append_assoc front text rest))
            ∙ take-length (front ++ text) rest (at + length text)
                (omega (arith, long, length-append front text)),
      )

  pub put_fault :
      (block : List A) (at : ℕ) (text : List A)
      → length block < at + length text
      → put block at text ≡ fault
  unfolding put
  put_fault block at text h =
      let tight : leb (at + length text) (length block) ≡ false = ground arith in rw (tight)
