-- ===== src/Base64/RoundTrip.antt =====
-- ztl_base64_decode undoes ztl_base64_encode.
use ztool_lib.Common.{
  ℕ, ◌+◌, ◌*◌, ◌/◌, ◌%◌, ◌^◌, ◌<◌, ◌≡◌, refl, ap, ◌∙◌, List, [], ◌∷◌, some, length, ne→==, arith,
  true, ltb, lt→ltb,
}
use ztool_lib.Common.Outcome.{done}
use ztool_lib.Base64.{
  pad, base64en, first_sextet, fourth_sextet, group_start, one_read, two_read, encode_loop,
  encode_text, encode, Place, place0, place1, place2, place3, next_place, place_char, cons_to,
  resume, decode_loop, decode,
}
use ztool_lib.Base64.Bits.{
  mask2, mask4, base64en_range, decode_char-base64en, first_sextet_lem, second_sextet_lem,
  third_sextet_lem, fourth_sextet_lem, place_char0, place_char1, place_char2, place_char3,
}

-- Every element is a byte.
abbrev pub AreBytes : List ℕ → Type 0
AreBytes [] = Unit
AreBytes (x ∷ xs) = (x < 256) × AreBytes xs

decode_loop-base64en :
    (p : Place) (cell v : ℕ) (rest : List ℕ)
    → v < 64
    → decode_loop p cell (base64en v ∷ rest)
      ≡ resume (λ c. decode_loop (next_place p) c rest) (place_char p cell v)
unfolding decode_loop
decode_loop-base64en p cell v rest h =
    rw (ne→== (base64en v) pad (base64en_range v h).2, decode_char-base64en p cell v h)

decode_loop-pad : (p : Place) (cell : ℕ) (rest : List ℕ) → decode_loop p cell (pad ∷ rest) ≡ some []
unfolding decode_loop
decode_loop-pad p cell rest = refl

-- One character at each place, from the byte that it begins or completes.
step0 :
    (c : ℕ) (rest : List ℕ)
    → c < 256
    → decode_loop place0 0 (base64en (first_sextet c) ∷ rest) ≡ decode_loop place1 (c / 4 * 4) rest
step0 c rest h = rw (
  first_sextet_lem c c h h,
  decode_loop-base64en place0 0 (c / 4) rest (omega arith),
  place_char0 0 (c / 4) (omega arith),
)

step1 :
    (l v : ℕ) (rest : List ℕ)
    → l < 256
    → v < 64
    → v / 16 ≡ l % 4
    → decode_loop place1 (l / 4 * 4) (base64en v ∷ rest)
      ≡ cons_to l (decode_loop place2 (v % 16 * 16) rest)
step1 l v rest h k e =
    rw (decode_loop-base64en place1 (l / 4 * 4) v rest k, place_char1 (l / 4) v (omega arith) k)
      (ap (λ b. cons_to b (decode_loop place2 (v % 16 * 16) rest)) (omega arith))

step2 :
    (l v : ℕ) (rest : List ℕ)
    → l < 256
    → v < 64
    → v / 4 ≡ l % 16
    → decode_loop place2 (l / 16 * 16) (base64en v ∷ rest)
      ≡ cons_to l (decode_loop place3 (v % 4 * 64) rest)
step2 l v rest h k e =
    rw (decode_loop-base64en place2 (l / 16 * 16) v rest k, place_char2 (l / 16) v (omega arith) k)
      (ap (λ b. cons_to b (decode_loop place3 (v % 4 * 64) rest)) (omega arith))

step3 :
    (c : ℕ) (rest : List ℕ)
    → c < 256
    → decode_loop place3 (c / 64 * 64) (base64en (fourth_sextet c) ∷ rest)
      ≡ cons_to c (decode_loop place0 0 rest)
step3 c rest h =
    rw
      (
        fourth_sextet_lem c c h h,
        decode_loop-base64en place3 (c / 64 * 64) (c % 64) rest (omega arith),
        place_char3 (c / 64) (c % 64) (omega arith) (omega arith),
      )
      (ap (λ b. cons_to b (decode_loop place0 0 rest)) (omega arith))

-- The decoder's place and cell after the characters that the encoder's phase has written.
record Trip (xs : List ℕ) : Type 0 where
  start : (l : ℕ) → decode_loop place0 0 (encode_loop group_start l xs) ≡ some xs
  after_one :
      (l : ℕ) → l < 256 → decode_loop place1 (l / 4 * 4) (encode_loop one_read l xs) ≡ some (l ∷ xs)
  after_two :
      (l : ℕ)
      → l < 256
      → decode_loop place2 (l / 16 * 16) (encode_loop two_read l xs) ≡ some (l ∷ xs)

trip : (xs : List ℕ) → AreBytes xs → Trip xs
unfolding encode_loop
trip [] b = record {
  start = λ l. unfold decode_loop in refl;
  after_one = λ l h. rw (mask2 l h) (
      step1 l (l % 4 * 2 ^ 4) (pad ∷ pad ∷ []) h (omega arith) (omega arith)
      ∙ ap (cons_to l) (decode_loop-pad place2 _ (pad ∷ [])));
  after_two = λ l h. rw (mask4 l h) (
      step2 l (l % 16 * 2 ^ 2) (pad ∷ []) h (omega arith) (omega arith)
      ∙ ap (cons_to l) (decode_loop-pad place3 _ []));
}
trip (c ∷ cs) (h, b) = record {
  start = λ l. step0 c (encode_loop one_read c cs) h ∙ (trip cs b).after_one c h;
  after_one = λ l k.
      let v = l % 4 * 16 + c / 16 in
      let rest = encode_loop two_read c cs in
      let cell : v % 16 * 16 ≡ c / 16 * 16 = omega arith in
      rw (second_sextet_lem l c k h) (
        step1 l v rest k (omega arith) (omega arith)
        ∙ ap (cons_to l) (ap (λ t. decode_loop place2 t rest) cell ∙ (trip cs b).after_two c h));
  after_two = λ l k.
      let v = l % 16 * 4 + c / 64 in
      let last = encode_loop group_start c cs in
      let rest = base64en (fourth_sextet c) ∷ last in
      let cell : v % 4 * 64 ≡ c / 64 * 64 = omega arith in
      rw (third_sextet_lem l c k h) (
        step2 l v rest k (omega arith) (omega arith)
        ∙ ap (cons_to l) (
            ap (λ t. decode_loop place3 t rest) cell
            ∙ step3 c last h
            ∙ ap (cons_to c) ((trip cs b).start c)));
}

-- The number of characters that a phase writes, by the bytes left and those of the group.
record Lengths (xs : List ℕ) : Type 0 where
  start : (l : ℕ) → length (encode_loop group_start l xs) ≡ (length xs + 2) / 3 * 4
  after_one : (l : ℕ) → length (encode_loop one_read l xs) + 1 ≡ (length xs + 3) / 3 * 4
  after_two : (l : ℕ) → length (encode_loop two_read l xs) + 2 ≡ (length xs + 4) / 3 * 4

lengths : (xs : List ℕ) → Lengths xs
unfolding encode_loop
lengths [] = record { start = λ l. refl; after_one = λ l. refl; after_two = λ l. refl }
lengths (c ∷ cs) = record {
  start = λ l. omega (arith, (lengths cs).after_one c);
  after_one = λ l. omega (arith, (lengths cs).after_two c);
  after_two = λ l. omega (arith, (lengths cs).start c);
}

length-encode_text : (xs : List ℕ) → length (encode_text xs) ≡ (length xs + 2) / 3 * 4
length-encode_text xs = (lengths xs).start 0

-- ztl_base64_encode of less than 3 * 2^30 - 2 bytes gives a text of four characters for every three
-- bytes or part of three, and decoding it gives the bytes back.
pub decode-encode :
    (xs : List ℕ)
    → AreBytes xs
    → length xs + 2 < 3 * 2 ^ 30
    → (text : List ℕ) × (encode xs ≡ done text)
      × (decode text ≡ some xs)
      × (length text ≡ (length xs + 2) / 3 * 4)
unfolding decode encode
decode-encode xs b small =
    let long = length-encode_text xs in
    let fits : ltb (length (encode_text xs)) (2 ^ 32) ≡ true =
      lt→ltb _ _ (omega (arith, small, long)) in
    let whole : length (encode_text xs) % 4 ≡ 0 = omega (arith, long) in
    (encode_text xs, rw fits refl, rw whole ((trip xs b).start 0), long)
