-- ===== src/Base64.antt =====
-- src/ZToolLib/ztl_base64.c. A char is its byte, a number below 256; an output buffer is the list of
-- the bytes written to it, up to the length that the code reports.
pub mod Bits
pub mod RoundTrip
pub mod Shape
mod Tests
use Prim.Native.Nat.{bit_and, bit_or}
use ztool_lib.Common.Outcome.{Outcome, done, fault}
use ztool_lib.Common.{
  ℕ, zero, suc, ◌+◌, ◌-◌, ◌*◌, ◌/◌, ◌%◌, ◌^◌, ◌≤◌, ◌<◌, Bool, true, false, ◌||◌, List, [], ◌∷◌,
  ◌++◌, Option, none, some, length, get_or, ltb, ◌==◌, if◌then◌else◌,
}

-- BASE64_PAD
abbrev pub pad : ℕ
pad = b'='

-- base64en: the character of a value below 64.
pub base64en : ℕ → ℕ
base64en v =
    if ltb v 26
    then b'A' + v
    else if ltb v 52
    then b'a' + (v - 26)
    else if ltb v 62
    then b'0' + (v - 52)
    else if v == 62
    then b'+'
    else b'/'

-- base64de: the value of a character below 128, 255 for one that is not used.
pub base64de : ℕ → ℕ
base64de c =
    if c == b'+'
    then 62
    else if c == b'/'
    then 63
    else if ltb c b'0'
    then 255
    else if ltb c 58
    then c - b'0' + 52
    else if ltb c b'A'
    then 255
    else if ltb c 91
    then c - b'A'
    else if ltb c b'a'
    then 255
    else if ltb c 123
    then c - b'a' + 26
    else 255

-- The operands of base64en, for the last byte `l` and the byte `c`.
pub first_sextet : ℕ → ℕ
first_sextet c = bit_and (c / 2 ^ 2) 0x3F

pub second_sextet : ℕ → ℕ → ℕ
second_sextet l c = bit_or (bit_and l 0x3 * 2 ^ 4) (bit_and (c / 2 ^ 4) 0xF)

pub third_sextet : ℕ → ℕ → ℕ
third_sextet l c = bit_or (bit_and l 0xF * 2 ^ 2) (bit_and (c / 2 ^ 6) 0x3)

pub fourth_sextet : ℕ → ℕ
fourth_sextet c = bit_and c 0x3F

-- The state `s` of ztl_base64_encode: how many bytes of a group have been read.
pub data Phase : Type 0 where
  group_start one_read two_read : Phase

-- The `for` loop, and the switch after it: the characters at the indices j from 0 on.
pub encode_loop : Phase → ℕ → List ℕ → List ℕ
encode_loop group_start l [] = []
encode_loop one_read l [] = base64en (bit_and l 0x3 * 2 ^ 4) ∷ pad ∷ pad ∷ []
encode_loop two_read l [] = base64en (bit_and l 0xF * 2 ^ 2) ∷ pad ∷ []
encode_loop group_start l (c ∷ cs) = base64en (first_sextet c) ∷ encode_loop one_read c cs
encode_loop one_read l (c ∷ cs) = base64en (second_sextet l c) ∷ encode_loop two_read c cs
encode_loop two_read l (c ∷ cs) =
    base64en (third_sextet l c) ∷ base64en (fourth_sextet c) ∷ encode_loop group_start c cs

-- What ztl_base64_encode writes, without the NUL behind it.
abbrev pub encode_text : List ℕ → List ℕ
encode_text xs = encode_loop group_start 0 xs

-- ztl_base64_encode. Its index j is a 32-bit word: with a text of 2^32 characters or more it goes
-- round to the start of the output, which is counted as a fault.
pub encode : List ℕ → Outcome (List ℕ)
unfolding encode_loop
encode xs = if ltb (length (encode_text xs)) (2 ^ 32) then done (encode_text xs) else fault

-- `i & 3` in ztl_base64_decode.
pub data Place : Type 0 where
  place0 place1 place2 place3 : Place

-- What one character does: the byte `cell` at the end of the output, with the bits so far, is
-- completed by `|=` or begun anew.
pub data Emit : Type 0 where
  reject : Emit
  begin : (cell : ℕ) → Emit
  finish : (byte cell : ℕ) → Emit
  finish_last : (byte : ℕ) → Emit

pub place_char : Place → ℕ → ℕ → Emit
place_char place0 cell c = begin (bit_and (c * 2 ^ 2) 0xFF)
place_char place1 cell c = finish (bit_or cell (bit_and (c / 2 ^ 4) 0x3)) (bit_and c 0xF * 2 ^ 4)
place_char place2 cell c = finish (bit_or cell (bit_and (c / 2 ^ 2) 0xF)) (bit_and c 0x3 * 2 ^ 6)
place_char place3 cell c = finish_last (bit_or cell c)

-- The guards of the loop, with BASE64DE_FIRST and BASE64DE_LAST. A byte from 128 on is a negative
-- char, below BASE64DE_FIRST.
pub decode_char : Place → ℕ → ℕ → Emit
decode_char p cell ch =
    if ltb ch b'+' || ltb b'z' ch
    then reject
    else if base64de ch == 255
    then reject
    else place_char p cell (base64de ch)

abbrev pub next_place : Place → Place
next_place place0 = place1
next_place place1 = place2
next_place place2 = place3
next_place place3 = place0

abbrev pub cons_to : ℕ → Option (List ℕ) → Option (List ℕ)
cons_to b none = none
cons_to b (some bs) = some (b ∷ bs)

-- What one character leaves to do, `rest` being the loop from the next character on.
abbrev pub resume : (ℕ → Option (List ℕ)) → Emit → Option (List ℕ)
resume rest reject = none
resume rest (begin c) = rest c
resume rest (finish b c) = cons_to b (rest c)
resume rest (finish_last b) = cons_to b (rest 0)

-- The `for` loop; `none` where it returns early and reports no length.
pub decode_loop : Place → ℕ → List ℕ → Option (List ℕ)
decode_loop p cell [] = some []
decode_loop p cell (ch ∷ chs) =
    let rest = λ (c : ℕ). decode_loop (next_place p) c chs in
    if ch == pad then some [] else resume rest (decode_char p cell ch)

-- ztl_base64_decode, which returns 0 in every case.
pub decode : List ℕ → Option (List ℕ)
unfolding decode_loop
decode text = if length text % 4 == 0 then decode_loop place0 0 text else none
