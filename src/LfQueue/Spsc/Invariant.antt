-- ===== src/LfQueue/Spsc/Invariant.antt =====
-- What the locals of the two threads say about the shared words.
use ztool_lib.Common.{◌≡◌, ◌≢◌, List, ◌++◌, some, get_elem?}
use ztool_lib.LfQueue.{
  Lfqueue, next_index, Pc, push_start, push_loaded, push_cas, push_copy, push_commit, pop_start,
  pop_loaded, pop_copy, pop_cas, head_start, head_loaded, head_copy, finished, fault,
}
use ztool_lib.LfQueue.Window.{contents}
use ztool_lib.LfQueue.Contents.{IsIndexed, Addressable}

module _ {A : Type 0} where
  -- A thread stops at an access outside the slots only where an offset does not fit in 32 bits. The
  -- producer is the only writer of the write index and of the maximum read index.
  abbrev pub ProducerView : Lfqueue A → Pc A → Type 0
  ProducerView q (push_start v) = q.write_index ≡ q.max_read_index
  ProducerView q (push_loaded v w) = (q.write_index ≡ q.max_read_index) × (w ≡ q.max_read_index)
  ProducerView q (push_cas v w) =
      (q.write_index ≡ q.max_read_index)
      × (w ≡ q.max_read_index)
      × (next_index q.max_read_index q.size ≢ q.read_index)
  ProducerView q (push_copy v w) =
      (q.write_index ≡ next_index q.max_read_index q.size)
      × (w ≡ q.max_read_index)
      × (next_index q.max_read_index q.size ≢ q.read_index)
  ProducerView q (push_commit v w) =
      (q.write_index ≡ next_index q.max_read_index q.size)
      × (w ≡ q.max_read_index)
      × (next_index q.max_read_index q.size ≢ q.read_index)
      × (get_elem? q.arrdata q.max_read_index ≡ some v)
  ProducerView q (finished st out) = q.write_index ≡ q.max_read_index
  ProducerView q fault = ¬ Addressable q
  ProducerView q _ = ⊥

  -- The consumer is the only writer of the read index.
  abbrev pub ConsumerView : Lfqueue A → Pc A → Type 0
  ConsumerView q pop_start = Unit
  ConsumerView q (pop_loaded r) = r ≡ q.read_index
  ConsumerView q (pop_copy r) = (r ≡ q.read_index) × (q.read_index ≢ q.max_read_index)
  ConsumerView q (pop_cas r v) =
      (r ≡ q.read_index)
      × (q.read_index ≢ q.max_read_index)
      × (get_elem? q.arrdata q.read_index ≡ some v)
  ConsumerView q head_start = Unit
  ConsumerView q (head_loaded r) = r ≡ q.read_index
  ConsumerView q (head_copy r) = (r ≡ q.read_index) × (q.read_index ≢ q.max_read_index)
  ConsumerView q (finished st out) = Unit
  ConsumerView q fault = ¬ Addressable q
  ConsumerView q _ = ⊥

-- The invariant of the system, over its parts.
pub record Inv {A : Type 0} (q : Lfqueue A) (p c : Pc A) (pushed popped : List A) : Type 0 where
  pub indexed : IsIndexed q
  pub fifo : pushed ≡ popped ++ contents q
  pub producer : ProducerView q p
  pub consumer : ConsumerView q c
