-- ===== src/LfQueue.antt =====
-- src/ZToolLib/lockfreequeue.c: the circular array queue. A call is a sequence of accesses to the
-- shared words, one for each step of `step`; between two steps other threads may run. A slot of
-- the array is one value: the copy of an element is one access.
pub mod Bounded
pub mod Window
pub mod Contents
pub mod Sequential
pub mod Memory
pub mod Spsc
mod Tests
use ztool_lib.Common.{
  ℕ, zero, suc, ◌+◌, ◌-◌, ◌*◌, ◌/◌, ◌%◌, ◌^◌, ◌≡◌, ◌≤◌, ◌<◌, Bool, true, false, List, [], ◌∷◌,
  Option, none, some, length, get_elem?, get_or, set, ltb, ◌==◌, ◌&&◌, if◌then◌else◌,
}

-- `struct queue_op_data_st`: the words that the processes share.
pub record OpData : Type 0 where
  pub read_index : ℕ
  pub write_index : ℕ
  pub max_read_index : ℕ
  pub array_size : ℕ

-- `struct lfqueue_st`, with the words that `rdindex`, `wtindex` and `maxreadindex` point to in
-- their place, and the array after them.
pub record Lfqueue (A : Type 0) : Type 0 where
  pub read_index : ℕ
  pub write_index : ℕ
  pub max_read_index : ℕ
  pub array_size : ℕ
  pub arrdata : List A
  pub eltsize : ℕ
  pub size : ℕ

-- A status of 0, and one of -1.
pub data Status : Type 0 where
  success failure : Status

-- TO_INDEX, over `uint32_t`.
pub to_index : ℕ → ℕ → ℕ
to_index idx size = if ltb idx size then idx else (idx + 2 ^ 32 - size) % 2 ^ 32

-- The index after `i`, as the code writes it.
pub next_index : ℕ → ℕ → ℕ
unfolding to_index
next_index i size = to_index ((i + 1) % 2 ^ 32) size

-- `size_align`, for an `align` that is a power of two.
abbrev pub size_align : ℕ → ℕ → ℕ
size_align d align = (d + (align - 1)) / align * align

-- lfqueue_memory_size: 16 is sizeof(queue_op_data_t). The product is one of two `uint32_t`.
pub memory_size : ℕ → ℕ → ℕ
memory_size quesize elemsize =
    let aligned = size_align elemsize 4 % 2 ^ 32 in size_align (16 + quesize * aligned % 2 ^ 32) 64

module _ {A : Type 0} where
  -- lfqueue_initmember, which also prints a line where the sizes differ.
  pub init_member : ℕ → ℕ → OpData → List A → Lfqueue A
  init_member quesize elemsize op storage = record {
    read_index = op.read_index;
    write_index = op.write_index;
    max_read_index = op.max_read_index;
    array_size = if op.array_size == 0 then quesize else op.array_size;
    arrdata = storage;
    eltsize = elemsize;
    size = quesize;
  }

  -- lfqueue_create: `allocated` says whether malloc succeeds, `storage` is what the memory holds.
  pub create : Bool → ℕ → ℕ → List A → Option (Lfqueue A)
  unfolding init_member
  create allocated quesize elemsize storage =
      let zeroed : OpData = record {
        read_index = 0;
        write_index = 0;
        max_read_index = 0;
        array_size = 0;
      } in
      if allocated then some (init_member quesize elemsize zeroed storage) else none

  -- lfqueue_create_at_mem: the words are those that the memory holds.
  pub create_at_mem : Bool → ℕ → ℕ → OpData → List A → Option (Lfqueue A)
  unfolding init_member
  create_at_mem allocated quesize elemsize op storage =
      if allocated then some (init_member quesize elemsize op storage) else none

-- Where a call stands, with its locals.
pub data Pc (A : Type 0) : Type 0 where
  push_start : (elem : A) → Pc A
  push_loaded : (elem : A) (write : ℕ) → Pc A
  push_cas : (elem : A) (write : ℕ) → Pc A
  push_copy : (elem : A) (write : ℕ) → Pc A
  push_commit : (elem : A) (write : ℕ) → Pc A
  pop_start : Pc A
  pop_loaded : (read : ℕ) → Pc A
  pop_copy : (read : ℕ) → Pc A
  pop_cas : (read : ℕ) (elem : A) → Pc A
  head_start : Pc A
  head_loaded : (read : ℕ) → Pc A
  head_copy : (read : ℕ) → Pc A
  finished : Status → Option A → Pc A
  -- an access outside the array, or at an offset that does not fit in 32 bits
  fault : Pc A

module _ {A : Type 0} where
  -- The element at the byte offset eltsize * i, a product of two `uint32_t`; one that does not fit
  -- leaves the slots of the array, and is a fault.
  pub load_slot : Lfqueue A → ℕ → (A → Pc A) → Pc A
  load_slot q i k =
      if ltb (i * q.eltsize) (2 ^ 32)
      then (elim (get_elem? q.arrdata i) [ none ↦ fault | some v ↦ k v ])
      else fault

  -- A write to the same place.
  pub store_slot : Lfqueue A → ℕ → A → Pc A → Lfqueue A × Pc A
  store_slot q i v k =
      if ltb (i * q.eltsize) (2 ^ 32) && ltb i (length q.arrdata)
      then (record q { arrdata = set q.arrdata i v }, k)
      else (q, fault)

  -- lfqueue_push, lfqueue_pop and lfqueue_head, an access at a time.
  pub step : Lfqueue A → Pc A → Lfqueue A × Pc A
  unfolding next_index load_slot store_slot
  step q (push_start v) = (q, push_loaded v q.write_index)
  step q (push_loaded v w) =
      (q, if next_index w q.size == q.read_index then finished failure none else push_cas v w)
  step q (push_cas v w) =
      if q.write_index == w
      then (record q { write_index = next_index w q.size }, push_copy v w)
      else (q, push_start v)
  step q (push_copy v w) = store_slot q w v (push_commit v w)
  step q (push_commit v w) =
      if q.max_read_index == w
      then (record q { max_read_index = next_index w q.size }, finished success none)
      else (q, push_commit v w)
  step q pop_start = (q, pop_loaded q.read_index)
  step q (pop_loaded r) = (q, if r == q.max_read_index then finished failure none else pop_copy r)
  step q (pop_copy r) = (q, load_slot q r (pop_cas r))
  step q (pop_cas r v) =
      if q.read_index == r
      then (record q { read_index = next_index r q.size }, finished success (some v))
      else (q, pop_start)
  step q head_start = (q, head_loaded q.read_index)
  step q (head_loaded r) = (q, if r == q.max_read_index then finished failure none else head_copy r)
  step q (head_copy r) = (q, load_slot q r (λ v. finished success (some v)))
  step q (finished s out) = (q, finished s out)
  step q fault = (q, fault)

  -- A call that no other thread interrupts; `none` where the fuel runs out, or at a fault.
  pub run : ℕ → Lfqueue A → Pc A → Option (Status × Option A × Lfqueue A)
  run zero q pc = none
  run (suc fuel) q (finished s out) = some (s, out, q)
  run (suc fuel) q fault = none
  run (suc fuel) q pc = let (q', pc') = step q pc in run fuel q' pc'

  pub push : Lfqueue A → A → Option (Status × Option A × Lfqueue A)
  unfolding run step
  push q v = run 6 q (push_start v)

  pub pop : Lfqueue A → Option (Status × Option A × Lfqueue A)
  unfolding run step
  pop q = run 5 q pop_start

  pub head : Lfqueue A → Option (Status × Option A × Lfqueue A)
  unfolding run step
  head q = run 4 q head_start

  -- lfqueue_size, in `uint32_t`.
  pub queue_size : Lfqueue A → ℕ
  queue_size q =
      if ltb q.write_index q.read_index
      then (q.size + q.write_index + 2 ^ 32 - q.read_index) % 2 ^ 32
      else q.write_index - q.read_index

  -- lfqueue_max_size
  pub max_size : Lfqueue A → ℕ
  max_size q = q.size

  -- lfqueue_empty
  pub empty : Lfqueue A → Bool
  empty q = q.write_index == q.read_index
