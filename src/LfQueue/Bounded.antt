-- ===== src/LfQueue/Bounded.antt =====
-- What the queue of lockfreequeue.c promises to one thread: a FIFO of at most `cap` elements.
use ztool_lib.Common.{ℕ, List, [], ◌∷◌, ◌++◌, Option, none, some, length, ltb, if◌then◌else◌}
use ztool_lib.LfQueue.{Status, success, failure}

module _ {A : Type 0} where
  unfoldable pub push : ℕ → List A → A → Status × List A
  push cap q x = if ltb (length q) cap then (success, q ++ x ∷ []) else (failure, q)

  unfoldable pub pop : List A → Status × Option A × List A
  pop [] = (failure, none, [])
  pop (x ∷ q) = (success, some x, q)

  unfoldable pub head : List A → Status × Option A
  head [] = (failure, none)
  head (x ∷ q) = (success, some x)
