-- ===== src/LfQueue/Spsc/Consumer.antt =====
-- The consumer's accesses keep the invariant.
use ztool_lib.Common.{
  ℕ, ◌<◌, ◌^◌, ◌≡◌, ◌≢◌, sym, List, [], ◌∷◌, ◌++◌, append-nil, append_assoc, get_elem?_inside,
  arith,
}
use ztool_lib.LfQueue.{
  Lfqueue, next_index, Pc, push_start, push_loaded, push_cas, push_copy, push_commit, pop_start,
  pop_loaded, pop_copy, pop_cas, head_start, head_loaded, head_copy, finished, fault, step,
}
use ztool_lib.LfQueue.Window.{contents, next_index_lem}
use ztool_lib.LfQueue.Contents.{IsIndexed, contents-take, take-IsIndexed, overflow_not_Addressable}
use ztool_lib.LfQueue.Spsc.{taken}
use ztool_lib.LfQueue.Spsc.Invariant.{ProducerView, Inv}

next_index-injective :
    (i j size : ℕ)
    → i < size
    → j < size
    → size < 2 ^ 32
    → next_index i size ≡ next_index j size
    → i ≡ j
next_index-injective i j size p q s e = ground (arith, next_index_lem i size, next_index_lem j size)

module _ {A : Type 0} (q : Lfqueue A) where
  -- What the producer has seen of the free space outlives a take.
  room-take :
      IsIndexed q
      → q.read_index ≢ q.max_read_index
      → next_index q.max_read_index q.size ≢ next_index q.read_index q.size
  room-take i ne e =
      ne (
        sym
          (next_index-injective q.max_read_index q.read_index q.size i.max_in i.read_in i.small e))

  take-ProducerView :
      (p : Pc A)
      → IsIndexed q
      → q.read_index ≢ q.max_read_index
      → ProducerView q p
      → ProducerView (record q { read_index = next_index q.read_index q.size }) p
  take-ProducerView (push_start v) i ne h = h
  take-ProducerView (push_loaded v w) i ne h = h
  take-ProducerView (push_cas v w) i ne h = (h.0, h.1, room-take i ne)
  take-ProducerView (push_copy v w) i ne h = (h.0, h.1, room-take i ne)
  take-ProducerView (push_commit v w) i ne h = (h.0, h.1, room-take i ne, h.3)
  take-ProducerView (finished st out) i ne h = h
  take-ProducerView pop_start i ne h = absurd h
  take-ProducerView (pop_loaded _) i ne h = absurd h
  take-ProducerView (pop_copy _) i ne h = absurd h
  take-ProducerView (pop_cas _ _) i ne h = absurd h
  take-ProducerView head_start i ne h = absurd h
  take-ProducerView (head_loaded _) i ne h = absurd h
  take-ProducerView (head_copy _) i ne h = absurd h
  take-ProducerView fault i ne h = h

  module _ (p : Pc A) (pushed popped : List A) where
    -- The invariant after the consumer's next access.
    abbrev pub Consumed : Pc A → Type 0
    Consumed c = Inv (step q c).0 p (step q c).1 pushed (popped ++ taken c (step q c).1)

    pub consume-Inv : (c : Pc A) → Inv q p c pushed popped → Consumed c
    unfolding step
    consume-Inv pop_start i = ground (arith, append-nil popped)
    consume-Inv (pop_loaded r) i = ground (arith, append-nil popped)
    consume-Inv (pop_copy r) i =
        let (v, e) =
          get_elem?_inside q.arrdata q.read_index
            (omega (arith, i.indexed.slots, i.indexed.read_in)) in
        ground
          (arith, append-nil popped, e, overflow_not_Addressable q q.read_index i.indexed.read_in)
    consume-Inv (pop_cas r v) i = ground (
      arith,
      take-ProducerView p i.indexed i.consumer.1 i.producer,
      contents-take q v i.indexed i.consumer.1 i.consumer.2,
      take-IsIndexed q i.indexed,
      append_assoc popped (v ∷ [])
          (contents (record q { read_index = next_index q.read_index q.size })),
    )
    consume-Inv head_start i = ground (arith, append-nil popped)
    consume-Inv (head_loaded r) i = ground (arith, append-nil popped)
    consume-Inv (head_copy r) i =
        let (v, e) =
          get_elem?_inside q.arrdata q.read_index
            (omega (arith, i.indexed.slots, i.indexed.read_in)) in
        ground
          (arith, append-nil popped, e, overflow_not_Addressable q q.read_index i.indexed.read_in)
    consume-Inv (finished st out) i = ground (arith, append-nil popped)
    consume-Inv (push_start _) i = absurd i.consumer
    consume-Inv (push_loaded _ _) i = absurd i.consumer
    consume-Inv (push_cas _ _) i = absurd i.consumer
    consume-Inv (push_copy _ _) i = absurd i.consumer
    consume-Inv (push_commit _ _) i = absurd i.consumer
    consume-Inv fault i = ground (arith, append-nil popped)
