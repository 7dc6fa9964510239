-- ===== src/Heap/Tests.antt =====
-- Runs of the heap, and the theorems at concrete inputs. An element is its own rank.
use Prim.Native.Nat.{compare}
use ztool_lib.Common.{ℕ, ◌<◌, ◌≤◌, ◌≡◌, refl, true, [], ◌∷◌, ◌==◌, if◌then◌else◌, arith, inr}
use ztool_lib.Common.Outcome.{Outcome, done, ◌>>=◌, Ends}
use ztool_lib.Heap.{
  Heap, heap_get, heap_set, heap_swap, bubble_up, max_heapify, larger, left_node, right_node,
  remove_at, heap_pop, heap_push, heap_remove, get_index,
}
use ztool_lib.Heap.Counting.{occurs}
use ztool_lib.Heap.Order.{Comparator, key}
use ztool_lib.Heap.Push.{IsValid, Pushed, heap_push_correct}
use ztool_lib.Heap.Extract.{Removed, heap_pop_correct, heap_remove_correct}

abbrev by_value : Comparator
by_value = record { cmp = compare; rank = λ x. x; agrees = λ x y. refl }

-- 9 over 5 and 7, in three places; each element carries its place.
abbrev three : Heap
three = record {
  avail = 3;
  curr = 3;
  h = 9 ∷ 5 ∷ 7 ∷ [];
  tracked = true;
  index = λ p. if p == 9 then 1 else if p == 5 then 2 else if p == 7 then 3 else 0;
}

three-IsValid : IsValid by_value three
three-IsValid = record {
  sized = omega arith;
  small = omega arith;
  ordered = λ c p q. ground (arith, λ (e : c ≡ 2). e);
  tracked_at = λ on c p q. ground arith;
}

heap_push_correct_example :
    Ends (Pushed by_value three 8) (heap_push compare true (0 ∷ 0 ∷ 0 ∷ 0 ∷ []) three 8)
unfolding occurs
heap_push_correct_example =
    heap_push_correct by_value true (0 ∷ 0 ∷ 0 ∷ 0 ∷ []) three 8 three-IsValid (omega arith)
      (inr (refl, refl, refl, omega arith)) (λ on. refl)

heap_pop_correct_example :
    Ends
      (λ r. Removed by_value three 1 r × ((c : ℕ) → 0 < c → c ≤ 3 → key by_value three c ≤ r.0))
      (heap_pop compare three)
heap_pop_correct_example = heap_pop_correct by_value three three-IsValid (omega arith)

heap_remove_correct_example : Ends (Removed by_value three 2) (heap_remove compare three 5)
heap_remove_correct_example =
    heap_remove_correct by_value three 2 three-IsValid refl (omega arith) (omega arith)
      (omega arith)

abbrev result : {A : Type 0} → Outcome (ℕ × A) → ℕ
result (done r) = r.0
result _ = 0

-- The element that heap_pop has returned keeps its index word: heap_remove of it then takes another
-- element out of the heap, here 7 for 9.
stale_index :
    (result (heap_pop compare three) ≡ 9)
    × (result (heap_pop compare three >>= λ r. heap_remove compare r.1 9) ≡ 7)
unfolding heap_pop heap_remove remove_at get_index bubble_up max_heapify larger heap_swap heap_get
    heap_set left_node right_node
stale_index = (refl, refl)
