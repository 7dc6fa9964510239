-- ===== src/Base64/Bits.antt =====
-- The bit operations of ztl_base64.c as arithmetic, by tables.
use Prim.Native.Nat.{bit_and, bit_or}
use ztool_lib.Common.{
  ℕ, ◌+◌, ◌*◌, ◌/◌, ◌%◌, ◌^◌, ◌≤◌, ◌<◌, ◌≡◌, ◌≢◌, refl, true, ◌==◌, ==→eq, arith, le→ltb, ne→==, ap,
  ◌∙◌,
}
use ztool_lib.Common.Table.{all_below, all_below-at}
use ztool_lib.Base64.{
  pad, base64en, base64de, first_sextet, second_sextet, third_sextet, fourth_sextet, Place, place0,
  place1, place2, place3, begin, finish, finish_last, decode_char, place_char,
}

mask2_table : all_below 256 (λ x. bit_and x 0x3 == x % 4) ≡ true
unfolding all_below
mask2_table = refl

mask4_table : all_below 256 (λ x. bit_and x 0xF == x % 16) ≡ true
unfolding all_below
mask4_table = refl

mask6_table : all_below 256 (λ x. bit_and x 0x3F == x % 64) ≡ true
unfolding all_below
mask6_table = refl

mask8_table : all_below 256 (λ x. bit_and x 0xFF == x) ≡ true
unfolding all_below
mask8_table = refl

or2_table : all_below 64 (λ h. all_below 4 (λ l. bit_or (h * 4) l == h * 4 + l)) ≡ true
unfolding all_below
or2_table = refl

or4_table : all_below 16 (λ h. all_below 16 (λ l. bit_or (h * 16) l == h * 16 + l)) ≡ true
unfolding all_below
or4_table = refl

or6_table : all_below 4 (λ h. all_below 64 (λ l. bit_or (h * 64) l == h * 64 + l)) ≡ true
unfolding all_below
or6_table = refl

pub mask2 : (x : ℕ) → x < 256 → bit_and x 0x3 ≡ x % 4
mask2 x h = ==→eq _ _ (all_below-at 256 _ x mask2_table h)

pub mask4 : (x : ℕ) → x < 256 → bit_and x 0xF ≡ x % 16
mask4 x h = ==→eq _ _ (all_below-at 256 _ x mask4_table h)

pub mask6 : (x : ℕ) → x < 256 → bit_and x 0x3F ≡ x % 64
mask6 x h = ==→eq _ _ (all_below-at 256 _ x mask6_table h)

pub mask8 : (x : ℕ) → x < 256 → bit_and x 0xFF ≡ x
mask8 x h = ==→eq _ _ (all_below-at 256 _ x mask8_table h)

pub or2 : (h l : ℕ) → h < 64 → l < 4 → bit_or (h * 4) l ≡ h * 4 + l
or2 h l p q = ==→eq _ _ (all_below-at 4 _ l (all_below-at 64 _ h or2_table p) q)

pub or4 : (h l : ℕ) → h < 16 → l < 16 → bit_or (h * 16) l ≡ h * 16 + l
or4 h l p q = ==→eq _ _ (all_below-at 16 _ l (all_below-at 16 _ h or4_table p) q)

pub or6 : (h l : ℕ) → h < 4 → l < 64 → bit_or (h * 64) l ≡ h * 64 + l
or6 h l p q = ==→eq _ _ (all_below-at 64 _ l (all_below-at 4 _ h or6_table p) q)

-- The two tables of the source are inverse, and no character of the first is refused.
pub base64de-base64en : (v : ℕ) → v < 64 → base64de (base64en v) ≡ v
unfolding base64de base64en
base64de-base64en v h = ground arith

pub base64en_range :
    (v : ℕ) → v < 64 → (b'+' ≤ base64en v) × (base64en v ≤ b'z') × (base64en v ≢ pad)
unfolding base64en
base64en_range v h = ground arith

-- A character of the table is decoded to its value.
pub decode_char-base64en :
    (p : Place) (cell v : ℕ) → v < 64 → decode_char p cell (base64en v) ≡ place_char p cell v
unfolding decode_char
decode_char-base64en p cell v h =
    let (low, high, other) = base64en_range v h in
    rw (
      le→ltb (base64en v) b'+' low,
      le→ltb b'z' (base64en v) high,
      base64de-base64en v h,
      ne→== v 255 (omega arith),
    )

-- The sextets of bytes, and what they give back.
module _ (l c : ℕ) (hl : l < 256) (hc : c < 256) where
  pub first_sextet_lem : first_sextet c ≡ c / 4
  unfolding first_sextet
  first_sextet_lem = rw (mask6 (c / 2 ^ 2) (omega arith)) (omega arith)

  pub second_sextet_lem : second_sextet l c ≡ l % 4 * 16 + c / 16
  unfolding second_sextet
  second_sextet_lem =
      rw (mask2 l hl, mask4 (c / 2 ^ 4) (omega arith))
        (or4 (l % 4) (c / 16 % 16) (omega arith) (omega arith) ∙ omega arith)

  pub third_sextet_lem : third_sextet l c ≡ l % 16 * 4 + c / 64
  unfolding third_sextet
  third_sextet_lem =
      rw (mask4 l hl, mask2 (c / 2 ^ 6) (omega arith))
        (or2 (l % 16) (c / 64 % 4) (omega arith) (omega arith) ∙ omega arith)

  pub fourth_sextet_lem : fourth_sextet c ≡ c % 64
  unfolding fourth_sextet
  fourth_sextet_lem = mask6 c hc

pub place_char0 : (cell v : ℕ) → v < 64 → place_char place0 cell v ≡ begin (v * 4)
unfolding place_char
place_char0 cell v h = ap begin (mask8 (v * 4) (omega arith))

pub place_char1 :
    (h v : ℕ)
    → h < 64
    → v < 64
    → place_char place1 (h * 4) v ≡ finish (h * 4 + v / 16) (v % 16 * 16)
unfolding place_char
place_char1 h v p q =
    rw (mask2 (v / 2 ^ 4) (omega arith), mask4 v (omega arith), or2 h (v / 16 % 4) p (omega arith))
      (ap (λ k. finish (h * 4 + k) (v % 16 * 16)) (omega arith))

pub place_char2 :
    (h v : ℕ)
    → h < 16
    → v < 64
    → place_char place2 (h * 16) v ≡ finish (h * 16 + v / 4) (v % 4 * 64)
unfolding place_char
place_char2 h v p q =
    rw (mask4 (v / 2 ^ 2) (omega arith), mask2 v (omega arith), or4 h (v / 4 % 16) p (omega arith))
      (ap (λ k. finish (h * 16 + k) (v % 4 * 64)) (omega arith))

pub place_char3 :
    (h v : ℕ) → h < 4 → v < 64 → place_char place3 (h * 64) v ≡ finish_last (h * 64 + v)
unfolding place_char
place_char3 h v p q = ap finish_last (or6 h v p q)
