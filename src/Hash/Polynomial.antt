-- ===== src/Hash/Polynomial.antt =====
-- ztl_hashdjb2 of src/ZToolLib/ztl_hash.c as a polynomial.
use ztool_lib.Common.{ℕ, ◌+◌, ◌*◌, ◌%◌, ◌^◌, ◌≡◌, ◌<◌, refl, List, [], ◌∷◌, arith}
use ztool_lib.Hash.{widen, djb2_loop, hashdjb2}

-- The value at 33 of the polynomial whose coefficients are a start and the characters, as natural
-- numbers of any size.
unfoldable pub horner : ℕ → List ℕ → ℕ
horner acc [] = acc
horner acc (c ∷ cs) = horner (acc * 33 + widen c) cs

round_mod :
    (a b c : ℕ)
    → a % 2 ^ 32 ≡ b % 2 ^ 32
    → (a * 2 ^ 5 + a + c) % 2 ^ 32 % 2 ^ 32 ≡ (b * 33 + c) % 2 ^ 32
round_mod a b c e = omega (arith, e)

djb2_loop-horner :
    (a b : ℕ) (key : List ℕ)
    → a % 2 ^ 32 ≡ b % 2 ^ 32
    → djb2_loop a key % 2 ^ 32 ≡ horner b key % 2 ^ 32
unfolding djb2_loop horner
djb2_loop-horner a b [] e = e
djb2_loop-horner a b (c ∷ cs) e =
    djb2_loop-horner ((a * 2 ^ 5 + a + widen c) % 2 ^ 32) (b * 33 + widen c) cs
      (round_mod a b (widen c) e)

djb2_loop-small : (a : ℕ) (key : List ℕ) → a < 2 ^ 32 → djb2_loop a key < 2 ^ 32
unfolding djb2_loop
djb2_loop-small a [] h = h
djb2_loop-small a (c ∷ cs) h = djb2_loop-small ((a * 2 ^ 5 + a + widen c) % 2 ^ 32) cs (omega arith)

-- ztl_hashdjb2 is the polynomial in 33 with first coefficient 5381 and the characters after it,
-- modulo 2^32: the wrap-around of its rounds loses nothing else.
pub hashdjb2-horner : (key : List ℕ) → hashdjb2 key ≡ horner 5381 key % 2 ^ 32
unfolding hashdjb2
hashdjb2-horner key =
    omega (arith, djb2_loop-horner 5381 5381 key refl, djb2_loop-small 5381 key (omega arith))
