-- ===== src/LfQueue/Spsc/Safety.antt =====
-- What holds in every reachable state of one producer and one consumer.
use ztool_lib.Common.{◌<◌, ◌≡◌, ◌≢◌, [], ◌++◌, length, arith}
use ztool_lib.LfQueue.{Lfqueue, Pc, pop_copy, head_copy, fault, step}
use ztool_lib.LfQueue.Window.{contents, used-lt}
use ztool_lib.LfQueue.Contents.{length-contents, Addressable}
use ztool_lib.LfQueue.Sequential.{IsQuiet}
use ztool_lib.LfQueue.Spsc.{
  System, start, Step, Reach, call_push, call_pop, call_head, producer_moves, consumer_moves, here,
  later,
}
use ztool_lib.LfQueue.Spsc.Invariant.{Inv, ProducerView, ConsumerView}
use ztool_lib.LfQueue.Spsc.Producer.{produce-Inv}
use ztool_lib.LfQueue.Spsc.Consumer.{consume-Inv}

abbrev pub SystemInv : {A : Type 0} → System A → Type 0
SystemInv s = Inv s.que s.producer s.consumer s.pushed s.popped

module _ {A : Type 0} where
  start-Inv : (q : Lfqueue A) → IsQuiet q → contents q ≡ [] → SystemInv (start q)
  start-Inv q i e = ground arith

  Step-Inv : {s t : System A} → Step s t → SystemInv s → SystemInv t
  Step-Inv {s} (call_push v e) i = ground arith
  Step-Inv {s} (call_pop e) i = ground arith
  Step-Inv {s} (call_head e) i = ground arith
  Step-Inv {s} producer_moves i = produce-Inv s.que s.consumer s.pushed s.popped s.producer i
  Step-Inv {s} consumer_moves i = consume-Inv s.que s.producer s.pushed s.popped s.consumer i

  pub Reach-Inv :
      {q : Lfqueue A} {s : System A} → IsQuiet q → contents q ≡ [] → Reach (start q) s → SystemInv s
  Reach-Inv {q} i e here = start-Inv q i e
  Reach-Inv i e (later r st) = Step-Inv st (Reach-Inv i e r)

  no_fault-producer : (q : Lfqueue A) (p : Pc A) → Addressable q → ProducerView q p → p ≢ fault
  no_fault-producer q fault a h e = h a
  no_fault-producer q p a h e = cc

  no_fault-consumer : (q : Lfqueue A) (c : Pc A) → Addressable q → ConsumerView q c → c ≢ fault
  no_fault-consumer q fault a h e = h a
  no_fault-consumer q c a h e = cc

  -- No access changes the number of slots or the size of an element.
  step-Addressable : (q : Lfqueue A) (p : Pc A) → Addressable q → Addressable (step q p).0
  unfolding step
  step-Addressable q (pop_copy r) a = a
  step-Addressable q (head_copy r) a = a
  step-Addressable q p a = ground (arith, a)

  Reach-Addressable :
      {q : Lfqueue A} {s : System A} → Addressable q → Reach (start q) s → Addressable s.que
  Reach-Addressable a here = a
  Reach-Addressable a (later r (call_push v e)) = Reach-Addressable a r
  Reach-Addressable a (later r (call_pop e)) = Reach-Addressable a r
  Reach-Addressable a (later r (call_head e)) = Reach-Addressable a r
  Reach-Addressable a (later {t} r producer_moves) =
      step-Addressable t.que t.producer (Reach-Addressable a r)
  Reach-Addressable a (later {t} r consumer_moves) =
      step-Addressable t.que t.consumer (Reach-Addressable a r)

  -- In every state that one producer and one consumer reach from an empty queue whose slots have a
  -- size in bytes that fits in 32 bits, neither has left the slots, and the elements whose push was committed are those that pop has taken, followed by those in the window: nothing
  -- is lost, doubled or reordered.
  pub spsc_fifo :
      (q : Lfqueue A) (s : System A)
      → IsQuiet q
      → Addressable q
      → contents q ≡ []
      → Reach (start q) s
      → (s.pushed ≡ s.popped ++ contents s.que) × (s.producer ≢ fault) × (s.consumer ≢ fault)
  spsc_fifo q s i a e r =
      let v = Reach-Inv i e r in
      let k = Reach-Addressable a r in
      (
        v.fifo,
        no_fault-producer s.que s.producer k v.producer,
        no_fault-consumer s.que s.consumer k v.consumer,
      )

  -- In every state that they reach from an empty queue whose slots have a size in bytes that fits
  -- in 32 bits, neither thread has read or written outside the array, and the window holds
  -- fewer elements than the array has slots.
  pub spsc_bounds :
      (q : Lfqueue A) (s : System A)
      → IsQuiet q
      → Addressable q
      → contents q ≡ []
      → Reach (start q) s
      → (s.producer ≢ fault) × (s.consumer ≢ fault) × (length (contents s.que) < s.que.size)
  spsc_bounds q s i a e r =
      let v = Reach-Inv i e r in
      let k = Reach-Addressable a r in
      (
        no_fault-producer s.que s.producer k v.producer,
        no_fault-consumer s.que s.consumer k v.consumer,
        omega (
          arith,
          length-contents s.que v.indexed,
          used-lt s.que.read_index s.que.max_read_index s.que.size v.indexed.read_in
              v.indexed.max_in,
        ),
      )
