-- ===== src/Vector.antt =====
-- src/ZToolLib/ztl_vector.c: a vector that grows, with its memory as a list of slots of the size of
-- one element; bytes past the last whole slot are not used. The sizes in
-- bytes and the counts are uint32_t.
pub mod Contents
pub mod Remove
pub mod Bytes
mod Tests
use ztool_lib.Common.{
  ℕ, zero, suc, ◌+◌, ◌-◌, ◌*◌, ◌/◌, ◌%◌, ◌^◌, Bool, true, false, ltb, leb, ◌==◌, ◌||◌,
  if◌then◌else◌, Option, none, some, List, [], ◌∷◌, ◌++◌, length, take, drop, set, replicate,
}
use ztool_lib.Common.Int.{ℤ, pos, negsuc}
use ztool_lib.Common.Memory.{resize, slots}
use ztool_lib.Common.Outcome.{Outcome, done, fault, ◌>>=◌}

-- cvector_s: the memory behind elts, and the counts of elements in use and of the capacity.
pub record Cvector (A : Type 0) : Type 0 where
  pub elts : List A
  pub nelts : ℕ
  pub nalloc : ℕ
  pub eltsize : ℕ

-- ztl_align to a power of two
unfoldable pub align : ℕ → ℕ → ℕ
align n size = (n + (size - 1)) / size * size

-- What cvector_reserve returns: 1, -1 or 0.
pub data Reserved : Type 0 where
  enough : Reserved
  no_memory : Reserved
  grown : Reserved

module _ {A : Type 0} where
  -- cvector_init, with the elements that malloc finds in the memory.
  unfoldable pub cvector_init : A → ℕ → ℕ → Cvector A
  unfolding align
  cvector_init junk init_num eltsize =
      let num = align init_num 4 in
      record {
        elts = replicate (align (num * eltsize) 64 / eltsize) junk;
        nelts = 0;
        nalloc = num;
        eltsize = eltsize;
      }

  -- cvector_reserve, where `allocated` tells whether realloc succeeds.
  unfoldable pub cvector_reserve : Bool → A → Cvector A → ℕ → Reserved × Cvector A
  unfolding align resize slots
  cvector_reserve allocated junk vec reserve_num =
      let num = align reserve_num 4 % 2 ^ 32 in
      if leb num vec.nalloc
      then (enough, vec)
      else if allocated
      then (grown, record vec { elts = resize junk (slots vec.eltsize num) vec.elts; nalloc = num })
      else (no_memory, vec)

  unfoldable pub cvector_clear : Cvector A → Cvector A
  cvector_clear vec = record vec { nelts = 0 }

  -- CVEC_CHECK_RESERVE does not look at the result.
  unfoldable pub check_reserve : Bool → A → Cvector A → Cvector A
  unfolding cvector_reserve
  check_reserve allocated junk vec =
      if vec.nelts == vec.nalloc
      then (cvector_reserve allocated junk vec (vec.nalloc * 2 % 2 ^ 32)).1
      else vec

  -- cvector_push_int and the others, which differ in the type of the element.
  unfoldable pub cvector_push : Bool → A → Cvector A → A → Outcome (Cvector A)
  unfolding check_reserve
  cvector_push allocated junk vec val =
      let room = check_reserve allocated junk vec in
      if ltb room.nelts (length room.elts)
      then done (record room { elts = set room.elts room.nelts val; nelts = room.nelts + 1 })
      else fault

  -- The loop of cvector_index over the elements that are left, where `same` is memcmp giving 0.
  unfoldable pub index_loop : (A → A → Bool) → A → ℕ → List A → ℕ → Option ℕ
  index_loop same elem zero elts index = none
  index_loop same elem (suc n) [] index = none
  index_loop same elem (suc n) (x ∷ elts) index =
      let rest = index_loop same elem n elts (index + 1) in if same x elem then some index else rest

  -- cvector_index: none is the result -1. The cast of a count from 2^31 on to int is negative.
  unfoldable pub cvector_index : (A → A → Bool) → Cvector A → A → Option ℕ
  unfolding index_loop
  cvector_index same vec elem =
      index_loop same elem (if leb (2 ^ 31) vec.nelts then 0 else vec.nelts) vec.elts 0

  -- memmove of n slots to the left, from the slot src to the slot dst.
  unfoldable pub memmove : List A → ℕ → ℕ → ℕ → Outcome (List A)
  memmove elts dst src n =
      if leb (src + n) (length elts)
      then done (take dst elts ++ (take n (drop src elts) ++ drop (dst + n) elts))
      else fault

  -- cvector_remove: false is the result -1. The cast of a count from 2^31 on to int is negative, and
  -- no index is below it. A byte offset or size that does not fit in a uint32_t is a fault; the
  -- size of the move is the greatest of them.
  unfoldable pub cvector_remove : Cvector A → ℤ → Outcome (Bool × Cvector A)
  unfolding memmove
  cvector_remove vec (negsuc _) = done (false, vec)
  cvector_remove vec (pos i) =
      let left = vec.nelts - 1 in
      let moved : Outcome (Bool × Cvector A) = do
        elts ← memmove vec.elts i (i + 1) left
        done (true, record vec { elts = elts; nelts = left })
      in if leb vec.nelts i || leb (2 ^ 31) vec.nelts
        then done (false, vec)
        else if ltb i (left - 1)
        then (if ltb (left * vec.eltsize) (2 ^ 32) then moved else fault)
        else done (true, record vec { nelts = left })
