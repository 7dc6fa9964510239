-- ===== src/Heap/Cells.antt =====
-- Reads, writes and swaps of the array of ztl_heap.c, inside its bounds.
use ztool_lib.Common.{
  ℕ, ◌-◌, ◌<◌, ◌≤◌, ◌≡◌, refl, true, length, get_or, set, length-set, get_elem?-eq-get_or,
  get_or-set_self, get_or-set_ne, ◌==◌, if◌then◌else◌, arith,
}
use native.Mathlib.Decide.{ℕ_discrete}
use ztool_lib.Common.Outcome.{done}
use ztool_lib.Heap.{Heap, heap_get, heap_set, heap_swap, set_index}
use ztool_lib.Heap.Counting.{occurs, occurs-set}

-- The element at place `i`, counted from 1.
abbrev pub elem_at : Heap → ℕ → ℕ
elem_at hp i = get_or hp.h (i - 1) 0

-- The places up to the current length lie in the array.
pub record IsSized (hp : Heap) : Type 0 where
  pub slots : length hp.h ≡ hp.avail
  pub fits : hp.curr ≤ hp.avail

pub stored : Heap → ℕ → ℕ → Heap
stored hp i elem = record hp {
  h = set hp.h (i - 1) elem;
  index = if hp.tracked then set_index hp.index elem i else hp.index;
}

pub swapped : Heap → ℕ → ℕ → Heap
unfolding stored
swapped hp i j = stored (stored hp i (elem_at hp j)) j (elem_at hp i)

pub heap_get-done :
    (hp : Heap) (i : ℕ) → 0 < i → i ≤ length hp.h → heap_get hp i ≡ done (elem_at hp i)
unfolding heap_get
heap_get-done hp i p q = ground (arith, get_elem?-eq-get_or hp.h (i - 1) 0)

pub heap_set-done :
    (hp : Heap) (i elem : ℕ)
    → 0 < i
    → i ≤ length hp.h
    → heap_set hp i elem ≡ done (stored hp i elem)
unfolding heap_set stored
heap_set-done hp i elem p q = ground arith

pub length-stored : (hp : Heap) (i elem : ℕ) → length (stored hp i elem).h ≡ length hp.h
unfolding stored
length-stored hp i elem = length-set hp.h (i - 1) elem

pub stored-h : (hp : Heap) (i elem : ℕ) → (stored hp i elem).h ≡ set hp.h (i - 1) elem
unfolding stored
stored-h hp i elem = refl

-- What a write leaves alone.
pub stored-frame :
    (hp : Heap) (i elem : ℕ)
    → ((stored hp i elem).curr ≡ hp.curr)
      × ((stored hp i elem).avail ≡ hp.avail)
      × ((stored hp i elem).tracked ≡ hp.tracked)
unfolding stored
stored-frame hp i elem = (refl, refl, refl)

pub elem_at-stored :
    (hp : Heap) (i elem c : ℕ)
    → 0 < i
    → i ≤ length hp.h
    → 0 < c
    → elem_at (stored hp i elem) c ≡ (if c == i then elem else elem_at hp c)
unfolding stored
elem_at-stored hp i elem c p q r = elim (ℕ_discrete c i) [
  | yes e ↦ ground (arith, get_or-set_self hp.h (i - 1) elem 0)
  | no ne ↦ ground (arith, get_or-set_ne hp.h (i - 1) (c - 1) elem 0)
]

pub index-stored :
    (hp : Heap) (i elem p : ℕ)
    → hp.tracked ≡ true
    → (stored hp i elem).index p ≡ (if p == elem then i else hp.index p)
unfolding stored
index-stored hp i elem p t = rw t

module _ (hp : Heap) (i j : ℕ) (pi : 0 < i) (hi : i ≤ length hp.h) (pj : 0 < j)
    (hj : j ≤ length hp.h) where
  pub heap_swap-done : heap_swap hp i j ≡ done (swapped hp i j)
  unfolding heap_swap swapped
  heap_swap-done = rw (
    heap_get-done hp i pi hi,
    heap_get-done hp j pj hj,
    heap_set-done hp i (elem_at hp j) pi hi,
    heap_set-done (stored hp i (elem_at hp j)) j (elem_at hp i) pj (rw length-stored hj),
  )

  pub elem_at-swapped :
      (c : ℕ)
      → 0 < c
      → elem_at (swapped hp i j) c
        ≡ (if c == j then elem_at hp i else if c == i then elem_at hp j else elem_at hp c)
  unfolding swapped
  elem_at-swapped c p = ground (
    arith,
    elem_at-stored (stored hp i (elem_at hp j)) j (elem_at hp i) c,
    elem_at-stored hp i (elem_at hp j) c,
    length-stored hp i (elem_at hp j),
  )

  pub swapped-frame :
      (length (swapped hp i j).h ≡ length hp.h)
      × ((swapped hp i j).curr ≡ hp.curr)
      × ((swapped hp i j).avail ≡ hp.avail)
      × ((swapped hp i j).tracked ≡ hp.tracked)
  unfolding swapped stored
  swapped-frame = (rw (length-set, length-set), refl, refl, refl)

  pub occurs-swapped : (e n : ℕ) → i ≤ n → j ≤ n → occurs e n (swapped hp i j).h ≡ occurs e n hp.h
  unfolding swapped stored
  occurs-swapped e n p q =
      let h' = set hp.h (i - 1) (elem_at hp j) in
      let size = length-set hp.h (i - 1) (elem_at hp j) in
      let first = occurs-set e n hp.h (i - 1) (elem_at hp j) (omega arith) (omega arith) in
      let second = occurs-set e n h' (j - 1) (elem_at hp i) (omega arith) (omega (arith, size)) in
      let kept : get_or h' (j - 1) 0 ≡ elem_at hp j = ground (
        arith,
        get_or-set_self hp.h (i - 1) (elem_at hp j) 0,
        get_or-set_ne hp.h (i - 1) (j - 1) (elem_at hp j) 0,
      ) in
      omega (arith, rw kept at second, first)

  pub index-swapped :
      (p : ℕ)
      → hp.tracked ≡ true
      → (swapped hp i j).index p
        ≡ (if p == elem_at hp i then j else if p == elem_at hp j then i else hp.index p)
  unfolding swapped stored
  index-swapped p t = rw t
