-- ===== src/LfQueue/Spsc/Progress.antt =====
-- With one producer and one consumer no access is retried.
use ztool_lib.Common.{ℕ, ◌<◌, ◌≡◌, [], arith}
use ztool_lib.LfQueue.{
  Lfqueue, Pc, push_start, push_loaded, push_cas, push_copy, push_commit, pop_start, pop_loaded,
  pop_copy, pop_cas, head_start, head_loaded, head_copy, finished, fault, step,
}
use ztool_lib.LfQueue.Window.{contents}
use ztool_lib.LfQueue.Sequential.{IsQuiet}
use ztool_lib.LfQueue.Spsc.{System, start, Reach, produce, consume}
use ztool_lib.LfQueue.Spsc.Invariant.{ProducerView, ConsumerView}
use ztool_lib.LfQueue.Spsc.Safety.{Reach-Inv}

module _ {A : Type 0} where
  -- The accesses that a call still makes, if none is retried.
  abbrev pub accesses_left : Pc A → ℕ
  accesses_left (push_start v) = 5
  accesses_left (push_loaded v w) = 4
  accesses_left (push_cas v w) = 3
  accesses_left (push_copy v w) = 2
  accesses_left (push_commit v w) = 1
  accesses_left pop_start = 4
  accesses_left (pop_loaded r) = 3
  accesses_left (pop_copy r) = 2
  accesses_left (pop_cas r v) = 1
  accesses_left head_start = 3
  accesses_left (head_loaded r) = 2
  accesses_left (head_copy r) = 1
  accesses_left (finished st out) = 0
  accesses_left fault = 0

  producer_advances :
      (q : Lfqueue A) (p : Pc A)
      → ProducerView q p
      → 0 < accesses_left p
      → accesses_left (step q p).1 < accesses_left p
  unfolding step
  producer_advances q (push_start v) h n = ground arith
  producer_advances q (push_loaded v w) h n = ground arith
  producer_advances q p h n = ground arith

  consumer_advances :
      (q : Lfqueue A) (c : Pc A)
      → ConsumerView q c
      → 0 < accesses_left c
      → accesses_left (step q c).1 < accesses_left c
  unfolding step
  consumer_advances q pop_start h n = ground arith
  consumer_advances q (pop_loaded r) h n = ground arith
  consumer_advances q c h n = ground arith

  -- In every state that one producer and one consumer reach from an empty queue, each access of a
  -- call in progress brings that call nearer its end, whatever the other thread does: a push
  -- returns after at most five accesses of its own, a pop after four, a head after three.
  pub spsc_wait_free :
      (q : Lfqueue A) (s : System A)
      → IsQuiet q
      → contents q ≡ []
      → Reach (start q) s
      → (0 < accesses_left s.producer
          → accesses_left (produce s).producer < accesses_left s.producer)
        × (0 < accesses_left s.consumer
            → accesses_left (consume s).consumer < accesses_left s.consumer)
  spsc_wait_free q s i e r =
      let v = Reach-Inv i e r in
      (producer_advances s.que s.producer v.producer, consumer_advances s.que s.consumer v.consumer)
