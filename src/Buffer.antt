-- ===== src/Buffer.antt =====
-- src/ZToolLib/ztl_buffer.c: a buffer of bytes that grows to a power of two, with the functions that
-- put bytes in and take them out. A NULL pointer is the empty block.
use Prim.Native.Nat.{bit_or}
pub mod Contents
mod Tests
use ztool_lib.Common.{
  ℕ, zero, suc, ◌+◌, ◌-◌, ◌*◌, ◌/◌, ◌%◌, ◌^◌, Bool, true, false, ltb, leb, if◌then◌else◌, List, [],
  ◌∷◌, ◌++◌, length, take, drop,
}
use ztool_lib.Common.Memory.{resize, put}
use ztool_lib.Common.Outcome.{Outcome, done, fault, ◌>>=◌}
use ztool_lib.MsgBuffer.{shift}
use ztool_lib.Vector.{memmove}

-- ztl_buffer_st; the capacity is a bit-field of 31 bits.
pub record Buffer : Type 0 where
  pub data_ : List ℕ
  pub size : ℕ
  pub capacity : ℕ
  pub const_addr : Bool

-- ztl_buffer_init
abbrev pub buffer_init : Buffer
buffer_init = record { data_ = []; size = 0; capacity = 0; const_addr = false }

-- ztl_buffer_init_byaddr
unfoldable pub buffer_init_byaddr : List ℕ → ℕ → Buffer
buffer_init_byaddr addr capacity = record {
  data_ = addr;
  size = 0;
  capacity = capacity % 2 ^ 31;
  const_addr = true;
}

abbrev pub smear : ℕ → ℕ → ℕ
smear bits c = bit_or c (c / 2 ^ bits)

-- The rounding of ztl_buffer_reserve, on a 32-bit word that is not 0.
unfoldable pub roundup : ℕ → ℕ
roundup capacity = (smear 16 (smear 8 (smear 4 (smear 2 (smear 1 (capacity - 1))))) + 1) % 2 ^ 32

-- ztl_buffer_reserve, where `allocated` tells whether the allocation succeeds.
unfoldable pub buffer_reserve : Bool → ℕ → Buffer → ℕ → Bool × Buffer
unfolding roundup resize
buffer_reserve allocated junk zbuf capacity =
    let room = roundup capacity in
    if zbuf.const_addr
    then (false, zbuf)
    else if ltb zbuf.capacity capacity
    then (if allocated
        then (true, record zbuf { data_ = resize junk room zbuf.data_; capacity = room % 2 ^ 31 })
        else (false, zbuf))
    else (true, zbuf)

-- ztl_buffer_compact, where the allocation succeeds.
unfoldable pub buffer_compact : Buffer → Bool × Buffer
buffer_compact zbuf =
    if zbuf.const_addr
    then (false, zbuf)
    else if ltb zbuf.size zbuf.capacity
    then (true, record zbuf { data_ = take zbuf.size zbuf.data_; capacity = zbuf.size % 2 ^ 31 })
    else (true, zbuf)

-- ztl_buffer_append does not look at the result of the reserve.
unfoldable pub buffer_append : Bool → ℕ → Buffer → List ℕ → Outcome Buffer
unfolding buffer_reserve put
buffer_append allocated junk zbuf adata =
    let size = (zbuf.size + length adata) % 2 ^ 32 in
    let (_, room) = buffer_reserve allocated junk zbuf size in
    put room.data_ zbuf.size adata >>= λ d. done (record room { data_ = d; size = size })

-- The move and the copy of ztl_buffer_insert.
unfoldable pub open_gap : Buffer → ℕ → List ℕ → Outcome (List ℕ)
unfolding shift put
open_gap room pos adata =
    let moved : Outcome (List ℕ) =
      if ltb pos room.size
      then shift room.data_ pos (length adata) (room.size - pos)
      else done room.data_ in
    moved >>= λ d. put d pos adata

-- ztl_buffer_insert
unfoldable pub buffer_insert : Bool → ℕ → Buffer → ℕ → List ℕ → Outcome Buffer
unfolding buffer_reserve open_gap
buffer_insert allocated junk zbuf pos adata =
    let size = (zbuf.size + length adata) % 2 ^ 32 in
    let (_, room) = buffer_reserve allocated junk zbuf size in
    open_gap room pos adata >>= λ d. done (record room { data_ = d; size = size })

-- The copies of ztl_buffer_fill, from the i-th on.
unfoldable pub fill_loop : ℕ → ℕ → ℕ → List ℕ → List ℕ → Outcome (List ℕ)
unfolding put
fill_loop zero i pos adata d = done d
fill_loop (suc count) i pos adata d =
    put d (pos + i * length adata) adata >>= λ d'. fill_loop count (i + 1) pos adata d'

-- ztl_buffer_fill
unfoldable pub buffer_fill : Bool → ℕ → Buffer → ℕ → ℕ → List ℕ → Outcome Buffer
unfolding buffer_reserve shift fill_loop
buffer_fill allocated junk zbuf pos count adata =
    let more = count * length adata in
    let size = (zbuf.size + more) % 2 ^ 32 in
    let (_, room) = buffer_reserve allocated junk zbuf size in
    let moved : Outcome (List ℕ) =
      if ltb pos room.size then shift room.data_ pos more (room.size - pos) else done room.data_ in
    moved >>= fill_loop count 0 pos adata >>= λ d. done (record room { data_ = d; size = size })

-- ztl_buffer_erase, on 32-bit words.
unfoldable pub buffer_erase : Buffer → ℕ → ℕ → Outcome Buffer
unfolding memmove
buffer_erase zbuf pos size =
    let rest = (zbuf.size + 2 ^ 33 - pos - size) % 2 ^ 32 in
    memmove zbuf.data_ pos (pos + size) rest >>= λ d.
    done (record zbuf { data_ = d; size = (zbuf.size + 2 ^ 32 - size) % 2 ^ 32 })
