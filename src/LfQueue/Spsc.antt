-- ===== src/LfQueue/Spsc.antt =====
-- One producer thread and one consumer thread on a queue of lockfreequeue.c, interleaved in any
-- order at the accesses to shared memory. The two lists record what the calls have done so far.
pub mod Invariant
mod Producer
mod Consumer
pub mod Safety
pub mod Progress
use ztool_lib.Common.{ℕ, ◌≡◌, List, [], ◌∷◌, ◌++◌, Option, none, some, Bool, true, false}
use ztool_lib.LfQueue.{
  Lfqueue, Status, success, failure, Pc, push_start, push_loaded, push_cas, push_copy, push_commit,
  pop_start, pop_loaded, pop_copy, pop_cas, head_start, head_loaded, head_copy, finished, fault,
  step,
}

pub record System (A : Type 0) : Type 0 where
  pub que : Lfqueue A
  pub producer : Pc A
  pub consumer : Pc A
  -- the elements whose push has been committed, oldest first
  pub pushed : List A
  -- the elements that pop has taken, oldest first
  pub popped : List A

module _ {A : Type 0} where
  -- The element that a step commits, if it is the last step of a successful push.
  abbrev pub committed : Pc A → Pc A → List A
  committed (push_commit v w) (finished success out) = v ∷ []
  committed _ _ = []

  -- The element that a step takes, if it is the last step of a successful pop.
  abbrev pub taken : Pc A → Pc A → List A
  taken (pop_cas r v) (finished success out) = v ∷ []
  taken _ _ = []

  abbrev pub produce : System A → System A
  produce s =
      let (q, pc) = step s.que s.producer in
      record s { que = q; producer = pc; pushed = s.pushed ++ committed s.producer pc }

  abbrev pub consume : System A → System A
  consume s =
      let (q, pc) = step s.que s.consumer in
      record s { que = q; consumer = pc; popped = s.popped ++ taken s.consumer pc }

  -- A thread whose call has returned may make the next one; otherwise it makes its next access.
  pub data Step (s : System A) : System A → Type 0 where
    call_push :
        (v : A) {st : Status} {out : Option A}
        → s.producer ≡ finished st out
        → Step s (record s { producer = push_start v })
    call_pop :
        {st : Status} {out : Option A}
        → s.consumer ≡ finished st out
        → Step s (record s { consumer = pop_start })
    call_head :
        {st : Status} {out : Option A}
        → s.consumer ≡ finished st out
        → Step s (record s { consumer = head_start })
    producer_moves : Step s (produce s)
    consumer_moves : Step s (consume s)

  pub data Reach (s : System A) : System A → Type 0 where
    here : Reach s s
    later : {t u : System A} → Reach s t → Step t u → Reach s u

  -- Both threads idle on an empty queue.
  abbrev pub start : Lfqueue A → System A
  start q = record {
    que = q;
    producer = finished success none;
    consumer = finished success none;
    pushed = [];
    popped = [];
  }
