-- ===== src/Hash.antt =====
-- src/ZToolLib/ztl_hash.c. A key is the list of its bytes; the bytes of a string come before its
-- NUL. A char is signed: a byte from 128 on counts as 256 less.
pub mod Polynomial
mod Tests
use Prim.Native.Nat.{bit_and, bit_or, bit_xor}
use ztool_lib.Common.{
  ℕ, zero, suc, ◌+◌, ◌-◌, ◌*◌, ◌/◌, ◌%◌, ◌^◌, Bool, true, false, ltb, ◌==◌, if◌then◌else◌, List, [],
  ◌∷◌, length,
}

-- A char as an unsigned int.
abbrev pub widen : ℕ → ℕ
widen c = if ltb c 128 then c else c + 2 ^ 32 - 256

-- The loop of ztl_hashdjb2, from a hash on.
pub djb2_loop : ℕ → List ℕ → ℕ
djb2_loop hash [] = hash
djb2_loop hash (c ∷ cs) = djb2_loop ((hash * 2 ^ 5 + hash + widen c) % 2 ^ 32) cs

pub hashdjb2 : List ℕ → ℕ
unfolding djb2_loop
hashdjb2 key = djb2_loop 5381 key

-- One round of ztl_hashpjw.
pub pjw_round : ℕ → ℕ → ℕ
pjw_round val c =
    let sum = (val * 2 ^ 4 + widen c) % 2 ^ 32 in
    let tmp = bit_and sum 0xf0000000 in
    if tmp == 0 then sum else bit_xor (bit_xor sum (tmp / 2 ^ 24)) tmp

pub pjw_loop : ℕ → List ℕ → ℕ
unfolding pjw_round
pjw_loop val [] = val
pjw_loop val (c ∷ cs) = pjw_loop (pjw_round val c) cs

pub hashpjw : List ℕ → ℕ
unfolding pjw_loop
hashpjw key = pjw_loop 0 key

abbrev multiplier : ℕ
multiplier = 0x5bd1e995

-- The mixing of one word of ztl_murmur_hash2 into the hash.
pub murmur_word : ℕ → ℕ → ℕ
murmur_word h word =
    let k = word * multiplier % 2 ^ 32 in
    let mixed = bit_xor k (k / 2 ^ 24) * multiplier % 2 ^ 32 in
    bit_xor (h * multiplier % 2 ^ 32) mixed

-- The loop over four bytes, and the switch over the one to three that are left.
pub murmur_loop : ℕ → List ℕ → ℕ
unfolding murmur_word
murmur_loop h [] = h
murmur_loop h (a ∷ []) = bit_xor h a * multiplier % 2 ^ 32
murmur_loop h (a ∷ b ∷ []) = bit_xor (bit_xor h (b * 2 ^ 8)) a * multiplier % 2 ^ 32
murmur_loop h (a ∷ b ∷ c ∷ []) =
    bit_xor (bit_xor (bit_xor h (c * 2 ^ 16)) (b * 2 ^ 8)) a * multiplier % 2 ^ 32
murmur_loop h (a ∷ b ∷ c ∷ d ∷ rest) =
    let word = bit_or (bit_or (bit_or a (b * 2 ^ 8)) (c * 2 ^ 16)) (d * 2 ^ 24) in
    murmur_loop (murmur_word h word) rest

pub murmur_hash2 : List ℕ → ℕ
unfolding murmur_loop
murmur_hash2 key =
    let h = murmur_loop (length key % 2 ^ 32) key in
    let mixed = bit_xor h (h / 2 ^ 13) * multiplier % 2 ^ 32 in bit_xor mixed (mixed / 2 ^ 15)
