-- ===== src/LfQueue/Spsc/Producer.antt =====
-- The producer's accesses keep the invariant.
use ztool_lib.Common.{
  ℕ, ◌≢◌, sym, ◌∙◌, List, [], ◌∷◌, ◌++◌, append-nil, append_assoc, set, get_elem?-set_self,
  get_elem?-set_ne, arith,
}
use ztool_lib.LfQueue.{
  Lfqueue, next_index, Pc, push_start, push_loaded, push_cas, push_copy, push_commit, pop_start,
  pop_loaded, pop_copy, pop_cas, head_start, head_loaded, head_copy, finished, fault, step,
}
use ztool_lib.LfQueue.Window.{contents}
use ztool_lib.LfQueue.Contents.{
  contents-commit, contents-store, store-IsIndexed, commit-IsIndexed, overflow_not_Addressable,
}
use ztool_lib.LfQueue.Spsc.{committed}
use ztool_lib.LfQueue.Spsc.Invariant.{ConsumerView, Inv}

module _ {A : Type 0} (q : Lfqueue A) where
  -- The consumer's view outlives a store to the free slot.
  store-ConsumerView :
      (c : Pc A) (v : A)
      → ConsumerView q c
      → ConsumerView (record q { arrdata = set q.arrdata q.max_read_index v }) c
  store-ConsumerView pop_start v h = h
  store-ConsumerView (pop_loaded r) v h = h
  store-ConsumerView (pop_copy r) v h = h
  store-ConsumerView (pop_cas r w) v h = (
    h.0,
    h.1,
    get_elem?-set_ne q.arrdata q.max_read_index q.read_index v (λ e. h.1 (sym e)) ∙ h.2,
  )
  store-ConsumerView head_start v h = h
  store-ConsumerView (head_loaded r) v h = h
  store-ConsumerView (head_copy r) v h = h
  store-ConsumerView (finished st out) v h = h
  store-ConsumerView (push_start _) v h = absurd h
  store-ConsumerView (push_loaded _ _) v h = absurd h
  store-ConsumerView (push_cas _ _) v h = absurd h
  store-ConsumerView (push_copy _ _) v h = absurd h
  store-ConsumerView (push_commit _ _) v h = absurd h
  store-ConsumerView fault v h = h

  -- It outlives a commit into a queue with room.
  commit-ConsumerView :
      (c : Pc A)
      → next_index q.max_read_index q.size ≢ q.read_index
      → ConsumerView q c
      → ConsumerView (record q { max_read_index = next_index q.max_read_index q.size }) c
  commit-ConsumerView pop_start n h = h
  commit-ConsumerView (pop_loaded r) n h = h
  commit-ConsumerView (pop_copy r) n h = (h.0, λ e. n (sym e))
  commit-ConsumerView (pop_cas r w) n h = (h.0, (λ e. n (sym e)), h.2)
  commit-ConsumerView head_start n h = h
  commit-ConsumerView (head_loaded r) n h = h
  commit-ConsumerView (head_copy r) n h = (h.0, λ e. n (sym e))
  commit-ConsumerView (finished st out) n h = h
  commit-ConsumerView (push_start _) n h = absurd h
  commit-ConsumerView (push_loaded _ _) n h = absurd h
  commit-ConsumerView (push_cas _ _) n h = absurd h
  commit-ConsumerView (push_copy _ _) n h = absurd h
  commit-ConsumerView (push_commit _ _) n h = absurd h
  commit-ConsumerView fault n h = h

  -- The consumer reads neither the write index nor the producer's locals.
  reserve-ConsumerView :
      (c : Pc A) (w : ℕ) → ConsumerView q c → ConsumerView (record q { write_index = w }) c
  reserve-ConsumerView pop_start w h = h
  reserve-ConsumerView (pop_loaded r) w h = h
  reserve-ConsumerView (pop_copy r) w h = h
  reserve-ConsumerView (pop_cas r v) w h = h
  reserve-ConsumerView head_start w h = h
  reserve-ConsumerView (head_loaded r) w h = h
  reserve-ConsumerView (head_copy r) w h = h
  reserve-ConsumerView (finished st out) w h = h
  reserve-ConsumerView (push_start _) w h = absurd h
  reserve-ConsumerView (push_loaded _ _) w h = absurd h
  reserve-ConsumerView (push_cas _ _) w h = absurd h
  reserve-ConsumerView (push_copy _ _) w h = absurd h
  reserve-ConsumerView (push_commit _ _) w h = absurd h
  reserve-ConsumerView fault w h = h

  module _ (c : Pc A) (pushed popped : List A) where
    -- The invariant after the producer's next access.
    abbrev pub Produced : Pc A → Type 0
    Produced p = Inv (step q p).0 (step q p).1 c (pushed ++ committed p (step q p).1) popped

    pub produce-Inv : (p : Pc A) → Inv q p c pushed popped → Produced p
    unfolding step
    produce-Inv (push_start v) i = ground (arith, append-nil pushed)
    produce-Inv (push_loaded v w) i = ground (arith, append-nil pushed)
    produce-Inv (push_cas v w) i = ground (
      arith,
      append-nil pushed,
      reserve-ConsumerView c (next_index q.max_read_index q.size) i.consumer,
    )
    produce-Inv (push_copy v w) i = ground (
      arith,
      overflow_not_Addressable q q.max_read_index i.indexed.max_in,
      append-nil pushed,
      i.indexed.slots,
      i.indexed.max_in,
      store-ConsumerView c v i.consumer,
      contents-store q v i.indexed,
      store-IsIndexed q q.max_read_index v i.indexed,
      get_elem?-set_self q.arrdata q.max_read_index v,
    )
    produce-Inv (push_commit v w) i = ground (
      arith,
      commit-ConsumerView c i.producer.2 i.consumer,
      contents-commit q v i.indexed i.producer.2 i.producer.3,
      commit-IsIndexed q i.indexed,
      append_assoc popped (contents q) (v ∷ []),
    )
    produce-Inv (finished st out) i = ground (arith, append-nil pushed)
    produce-Inv pop_start i = absurd i.producer
    produce-Inv (pop_loaded _) i = absurd i.producer
    produce-Inv (pop_copy _) i = absurd i.producer
    produce-Inv (pop_cas _ _) i = absurd i.producer
    produce-Inv head_start i = absurd i.producer
    produce-Inv (head_loaded _) i = absurd i.producer
    produce-Inv (head_copy _) i = absurd i.producer
    produce-Inv fault i = ground (arith, append-nil pushed)
