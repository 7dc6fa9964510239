-- ===== src/Heap/Extract.antt =====
-- What heap_pop, heap_remove and heap_peek of ztl_heap.c return and leave.
use native.Mathlib.Decide.{ℕ_discrete}
use ztool_lib.Common.{
  ℕ, zero, suc, ◌+◌, ◌-◌, ◌<◌, ◌≤◌, ◌≡◌, ◌≢◌, refl, sym, ap, subst, ◌∙◌, true, false, arith, le→ltb,
  ne→==,
}
use ztool_lib.Common.Outcome.{done, Ends, ends, Ends-weaken, Ends-bind}
use ztool_lib.Heap.{
  Heap, parent_node, remove_at, heap_pop, heap_remove, heap_peek, get_index, bubble_up,
}
use ztool_lib.Heap.Counting.{occurs, one}
use ztool_lib.Heap.Cells.{elem_at, heap_get-done, heap_set-done}
use ztool_lib.Heap.Order.{Comparator, key, IsOrdered, Rearranged, Rearranged-refl}
use ztool_lib.Heap.Up.{bubble_up_settles}
use ztool_lib.Heap.Down.{Sinking, max_heapify_orders}
use ztool_lib.Heap.Push.{IsValid}
use ztool_lib.Heap.Remove.{
  bubble_up_stays, cut, cut-frame, elem_at-cut, cut-Hole, cut-Sinking, Settled-Sinking,
  cut-IsTracked, occurs-cut,
}

get_index-tracked : (hp : Heap) (e : ℕ) → hp.tracked ≡ true → get_index hp e ≡ hp.index e
unfolding get_index
get_index-tracked hp e on = rw on

module _ (by : Comparator) where
  -- What a removal of place `i` leaves: the element that stood there, and a valid heap of the others.
  abbrev pub Removed : Heap → ℕ → ℕ × Heap → Type 0
  Removed hp i r =
      (r.0 ≡ elem_at hp i)
      × IsValid by r.1
      × (r.1.curr + 1 ≡ hp.curr)
      × ((e : ℕ) → occurs e r.1.curr r.1.h + one r.0 e ≡ occurs e hp.curr hp.h)

  module _ (hp : Heap) (i : ℕ) (v : IsValid by hp) (p : 0 < i) (h : i ≤ hp.curr) where
    -- bubble_up leaves a heap that max_heapify can order.
    bubbled :
        Ends
          (λ r. Sinking by r.1 r.0 × Rearranged (cut by hp i v p h) r.1)
          (bubble_up by.cmp (i + 1) (cut by hp i v p h) i)
    bubbled =
        let f = cut-frame by hp i v p h in
        elim (ℕ_discrete i hp.curr) [
          | yes last ↦
              let more : i + 1 ≡ suc i = omega arith in
              let stays : 1 < i
                  → key by (cut by hp i v p h) i ≤ key by (cut by hp i v p h) (parent_node i) =
                λ deep. ground (
                  arith,
                  elem_at-cut by hp i v p h i p,
                  elem_at-cut by hp i v p h (parent_node i) (omega arith),
                  v.ordered i deep h,
                ) in
              rw
                (
                  more,
                  bubble_up_stays by i (cut by hp i v p h) i p
                      (omega (arith, f.3, v.sized.slots, v.sized.fits)) stays,
                )
                (ends (cut-Sinking by hp i v p h last, Rearranged-refl (cut by hp i v p h)))
          | no inner ↦
              Ends-weaken
                (bubble_up_settles by false (i + 1) (cut by hp i v p h) i (omega arith)
                  (cut-Hole by hp i v p h (omega arith)))
                (λ r s. (Settled-Sinking by hp i v p h r.1 r.0 (s.1.same_avail ∙ f.1) s.0, s.1))
        ]

    remove_at_correct : Ends (Removed hp i) (remove_at by.cmp hp i)
    unfolding remove_at
    remove_at_correct =
        let f = cut-frame by hp i v p h in
        rw
          (
            le→ltb hp.curr i h,
            heap_get-done hp i p (omega (arith, v.sized.slots, v.sized.fits)),
            heap_get-done hp hp.curr (omega arith) (omega (arith, v.sized.slots, v.sized.fits)),
            heap_set-done (record hp { curr = hp.curr - 1 }) i (elem_at hp hp.curr) p
                (omega (arith, v.sized.slots, v.sized.fits)),
          )
          (Ends-bind bubbled λ r (sinking, moved).
            Ends-bind
              (max_heapify_orders by (hp.curr + 1) r.1 r.0 (omega arith)
                (omega (arith, moved.same_curr, f.0)) sinking)
              λ s (ordered, sized, sunk).
                let same_elems = λ (e : ℕ).
                  ap (λ k. occurs e k s.h) sunk.same_curr
                  ∙ sunk.same_elems e
                  ∙ ap (λ k. occurs e k r.1.h) moved.same_curr
                  ∙ moved.same_elems e
                  ∙ ap (λ k. occurs e k (cut by hp i v p h).h) f.0 in
                ends (
                  refl,
                  record {
                    sized = sized;
                    small = omega (arith, sunk.same_avail, sinking.small);
                    ordered = ordered;
                    tracked_at =
                        sunk.still_tracked (moved.still_tracked (cut-IsTracked by hp i v p h));
                  },
                  omega (arith, sunk.same_curr, moved.same_curr, f.0),
                  λ e. omega (arith, same_elems e, occurs-cut by hp i v p h e),
                ))

  -- In an ordered heap no element is larger than the first.
  root_largest :
      (fuel : ℕ) (hp : Heap) (c : ℕ)
      → IsOrdered by hp
      → c < fuel
      → 0 < c
      → c ≤ hp.curr
      → key by hp c ≤ key by hp 1
  root_largest zero hp c o f p q = absurd (omega arith)
  root_largest (suc fuel) hp c o f p q = elim (ℕ_discrete c 1) [
    | yes e ↦ rw e (omega arith)
    | no ne ↦ omega (
      arith,
      o c (omega arith) q,
      root_largest fuel hp (parent_node c) o (omega arith) (omega arith) (omega arith),
    )
  ]

  -- On a valid heap that is not empty heap_pop ends: it returns an element that no element of the
  -- heap exceeds, and leaves a valid heap, one shorter, of the others.
  pub heap_pop_correct :
      (hp : Heap)
      → IsValid by hp
      → 0 < hp.curr
      → Ends
          (λ r. Removed hp 1 r × ((c : ℕ) → 0 < c → c ≤ hp.curr → key by hp c ≤ by.rank r.0))
          (heap_pop by.cmp hp)
  unfolding heap_pop
  heap_pop_correct hp v p = Ends-weaken (remove_at_correct hp 1 v (omega arith) p) λ r s. (
    s,
    λ c q k.
        subst (λ x. key by hp c ≤ by.rank x) (sym s.0)
          (root_largest (suc c) hp c v.ordered (omega arith) q k),
  )

  -- Where the elements carry their places, heap_remove of an element of the heap ends: it returns
  -- that element and leaves a valid heap, one shorter, of the others.
  pub heap_remove_correct :
      (hp : Heap) (i : ℕ)
      → IsValid by hp
      → hp.tracked ≡ true
      → 0 < i
      → i ≤ hp.curr
      → elem_at hp i ≢ 0
      → Ends (Removed hp i) (heap_remove by.cmp hp (elem_at hp i))
  unfolding heap_remove
  heap_remove_correct hp i v on p h ne =
      let place = v.tracked_at on i p h in
      rw
        (
          ne→== (elem_at hp i) 0 ne,
          get_index-tracked hp (elem_at hp i) on,
          place,
          ne→== i 0 (omega arith),
        )
        (remove_at_correct hp i v p h)

  -- heap_pop of an empty heap, and heap_remove where the elements carry no place, return NULL and
  -- change nothing.
  pub heap_pop_nothing :
      (hp : Heap) (elem : ℕ)
      → (hp.curr ≡ 0 → heap_pop by.cmp hp ≡ done (0, hp))
        × (hp.tracked ≡ false → heap_remove by.cmp hp elem ≡ done (0, hp))
  unfolding heap_pop heap_remove remove_at get_index
  heap_pop_nothing hp elem = (λ z. ground arith, λ off. ground arith)

  -- heap_peek of the first place shows what heap_pop returns, and NULL for an empty heap.
  pub heap_peek-eq-pop :
      (hp : Heap) → IsValid by hp → Ends (λ r. heap_peek hp 1 ≡ done r.0) (heap_pop by.cmp hp)
  unfolding heap_peek
  heap_peek-eq-pop hp v = elim (ℕ_discrete hp.curr 0) [
    | yes e ↦ rw ((heap_pop_nothing hp 0).0 e) (ends (ground arith))
    | no ne ↦ Ends-weaken (heap_pop_correct hp v (omega arith)) λ r s. rw s.0.0 (
        ground
          (arith, heap_get-done hp 1 (omega arith) (omega (arith, v.sized.slots, v.sized.fits))))
  ]
