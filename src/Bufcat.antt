-- ===== src/Bufcat.antt =====
-- src/ZToolLib/ztl_bufcat.c: texts put together in a buffer, with a separator between them. The
-- buffer is the list of its characters, and none after a realloc that failed. The texts that sprintf
-- gives are arguments, without the zero at their end.
pub mod Append
mod Tests
use ztool_lib.Common.{
  ℕ, zero, suc, ◌+◌, ◌-◌, ◌*◌, Bool, true, false, ltb, leb, ◌==◌, not, if◌then◌else◌, Option, none,
  some, List, [], ◌∷◌, ◌++◌, length, take, drop, set, replicate,
}
use ztool_lib.Common.Memory.{resize, put}
use ztool_lib.Common.Outcome.{Outcome, done, fault, ◌>>=◌}

-- bufcat_t
pub record Bufcat : Type 0 where
  pub buf : Option (List ℕ)
  pub len : ℕ
  pub capacity : ℕ
  pub alloced : Bool
  pub sep : List ℕ

-- What bufcat_expand_if_needed returns: 0, -1 or ERR_OOM.
pub data Expand : Type 0 where
  room : Expand
  fixed : Expand
  oom : Expand

-- bufcat_init: an argument buf of NULL is none, and then malloc gives the buffer, or none.
unfoldable pub bufcat_init : Option (List ℕ) → Option (List ℕ) → ℕ → List ℕ → Bufcat
bufcat_init given malloced capacity sep = record {
  buf = elim given [ none ↦ malloced | some b ↦ some b ];
  len = 0;
  capacity = capacity;
  alloced = elim given [ none ↦ true | some _ ↦ false ];
  sep = sep;
}

-- bufcat_expand_if_needed, where `allocated` tells whether realloc succeeds.
unfoldable pub expand_if_needed : Bool → ℕ → Bufcat → ℕ → Expand × Bufcat
unfolding resize
expand_if_needed allocated junk bc len =
    let capacity = bc.capacity * 2 + len in
    let old : List ℕ = elim bc.buf [ none ↦ [] | some b ↦ b ] in
    if leb bc.capacity (bc.len + length bc.sep + len)
    then (if not bc.alloced
        then (fixed, bc)
        else if allocated
        then (room, record bc { capacity = capacity; buf = some (resize junk capacity old) })
        else (oom, record bc { capacity = capacity; buf = none }))
    else (room, bc)

-- memcpy into the buffer.
unfoldable pub write : Bufcat → ℕ → List ℕ → Outcome Bufcat
unfolding put
write bc at text = elim bc.buf [
  | none ↦ fault
  | some b ↦ do b' ← put b at text; done (record bc { buf = some b' })
]

-- bufcat_append_sep; false is the result -1. A separator of one or two characters is written
-- character by character at the end, and a longer one to the start of the buffer.
unfoldable pub append_sep : Bufcat → Outcome (Bool × Bufcat)
unfolding write
append_sep bc =
    let n = length bc.sep in
    let at = if (n == 1) then bc.len else if (n == 2) then bc.len else 0 in
    let written : Outcome (Bool × Bufcat) = do
      bc' ← write bc at bc.sep
      done (true, record bc' { len = bc.len + n })
    in if bc.len == 0 then done (false, bc) else written

-- The separator and the text of bufcat_str_len, bufcat_int, bufcat_int64 and bufcat_double. `tail` is
-- the zero that sprintf writes behind the text.
unfoldable pub append : Bufcat → List ℕ → List ℕ → Outcome Bufcat
unfolding append_sep write
append bc text tail = do
  (_, bc') ← if length bc.sep == 0 then done (false, bc) else append_sep bc
  bc'' ← write bc' bc'.len (text ++ tail)
  done (record bc'' { len = bc''.len + length text })

-- What follows the expansion: false is ERR_OOM, and the result -1 of the expansion is not looked at.
unfoldable pub append_expanded : List ℕ → List ℕ → Expand × Bufcat → Outcome (Bool × Bufcat)
unfolding append
append_expanded text tail (oom, bc) = done (false, bc)
append_expanded text tail (fixed, bc) = append bc text tail >>= λ r. done (true, r)
append_expanded text tail (room, bc) = append bc text tail >>= λ r. done (true, r)

unfoldable pub bufcat_str_len : Bool → ℕ → Bufcat → List ℕ → Outcome (Bool × Bufcat)
unfolding expand_if_needed append_expanded
bufcat_str_len allocated junk bc str =
    append_expanded str [] (expand_if_needed allocated junk bc (length str))

-- bufcat_int with the room 12, bufcat_int64 and bufcat_double with 64, for the text that sprintf gives.
unfoldable pub bufcat_printed : Bool → ℕ → Bufcat → ℕ → List ℕ → Outcome (Bool × Bufcat)
unfolding expand_if_needed append_expanded
bufcat_printed allocated junk bc size text =
    append_expanded text (0 ∷ []) (expand_if_needed allocated junk bc size)
