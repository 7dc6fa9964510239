-- ===== src/Base64/Shape.antt =====
-- What ztl_base64_decode refuses, and what ztl_base64_encode writes.
use ztool_lib.Common.{
  ℕ, ◌%◌, ◌≤◌, ◌≡◌, ◌≢◌, ◌⊎◌, refl, ap, List, [], ◌∷◌, ◌++◌, Option, none, length, ne→==, arith,
  inl, inr,
}
use ztool_lib.Base64.{
  pad, base64de, Place, place0, Emit, reject, next_place, cons_to, resume, decode_char, decode_loop,
  decode,
}

-- The source's alphabet.
abbrev pub InAlphabet : ℕ → Type 0
InAlphabet c =
    ((b'A' ≤ c) × (c ≤ b'Z'))
    ⊎ ((b'a' ≤ c) × (c ≤ b'z'))
    ⊎ ((b'0' ≤ c) × (c ≤ b'9'))
    ⊎ (c ≡ b'+')
    ⊎ (c ≡ b'/')

-- What is not in the alphabet and not the pad.
abbrev pub IsForeign : ℕ → Type 0
IsForeign c = (InAlphabet c → ⊥) × (c ≢ pad)

abbrev pub NoPad : List ℕ → Type 0
NoPad [] = Unit
NoPad (c ∷ cs) = (c ≢ pad) × NoPad cs

decode_char-foreign : (p : Place) (cell c : ℕ) → IsForeign c → decode_char p cell c ≡ reject
unfolding decode_char base64de
decode_char-foreign p cell c (out, other) = ground (arith, out)

resume-none :
    (rest : ℕ → Option (List ℕ)) (e : Emit) → ((c : ℕ) → rest c ≡ none) → resume rest e ≡ none
resume-none rest reject h = refl
resume-none rest (Emit.begin c) h = h c
resume-none rest (Emit.finish b c) h = ap (cons_to b) (h c)
resume-none rest (Emit.finish_last b) h = ap (cons_to b) (h 0)

decode_loop-foreign :
    (p : Place) (cell : ℕ) (before after : List ℕ) (c : ℕ)
    → NoPad before
    → IsForeign c
    → decode_loop p cell (before ++ c ∷ after) ≡ none
unfolding decode_loop
decode_loop-foreign p cell [] after c n f = rw (ne→== c pad f.1, decode_char-foreign p cell c f)
decode_loop-foreign p cell (x ∷ before) after c (n, m) f = rw (ne→== x pad n) (
    resume-none _ (decode_char p cell x)
      λ k. decode_loop-foreign (next_place p) k before after c m f)

-- ztl_base64_decode reports no output for a text whose length is no multiple of four, nor for one
-- with a character outside the alphabet before the first pad.
pub decode_refuses :
    (before after : List ℕ) (c : ℕ)
    → ((length (before ++ c ∷ after) % 4 ≢ 0) ⊎ (NoPad before × IsForeign c))
    → decode (before ++ c ∷ after) ≡ none
unfolding decode
decode_refuses before after c (inl odd) = rw (ne→== (length (before ++ c ∷ after) % 4) 0 odd)
decode_refuses before after c (inr (n, f)) =
    rw (decode_loop-foreign place0 0 before after c n f) (ground arith)
