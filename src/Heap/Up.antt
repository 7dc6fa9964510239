-- ===== src/Heap/Up.antt =====
-- bubble_up of ztl_heap.c: it ends, keeps the elements, and leaves every edge in order but those
-- below the place where it stops.
use ztool_lib.Common.{
  ℕ, zero, suc, ◌<◌, ◌≤◌, ◌≡◌, ◌≢◌, Bool, true, length, ltb, arith, ltb→lt, ltb→le,
}
use ztool_lib.Common.Outcome.{Ends, ends, Ends-if, Ends-weaken}
use ztool_lib.Heap.{Heap, parent_node, bubble_up}
use ztool_lib.Heap.Cells.{
  IsSized, elem_at, swapped, heap_get-done, heap_swap-done, elem_at-swapped, swapped-frame,
}
use ztool_lib.Heap.Order.{
  Comparator, key, Rearranged, Rearranged-refl, Rearranged-trans, swapped-Rearranged,
}

module _ (by : Comparator) (strict : Bool) where
  -- Only the edges at `i` may be out of order, those below it only if not `strict`.
  pub record Hole (hp : Heap) (i : ℕ) : Type 0 where
    pub sized : IsSized hp
    pub positive : 0 < i
    pub inside : i ≤ hp.curr
    pub edges :
        (c : ℕ)
        → 1 < c
        → c ≤ hp.curr
        → c ≢ i
        → parent_node c ≢ i
        → key by hp c ≤ key by hp (parent_node c)
    pub bridged :
        (c : ℕ)
        → 1 < c
        → c ≤ hp.curr
        → parent_node c ≡ i
        → 1 < i
        → key by hp c ≤ key by hp (parent_node i)
    pub children :
        strict ≡ true
        → (c : ℕ) → 1 < c
        → c ≤ hp.curr
        → parent_node c ≡ i
        → key by hp c ≤ key by hp i

  -- The edge above `i` is in order too.
  pub record Settled (hp : Heap) (i : ℕ) : Type 0 where
    pub hole : Hole hp i
    pub above : 1 < i → key by hp i ≤ key by hp (parent_node i)

  -- Swapping the element with its smaller parent moves the hole up.
  swapped-Hole :
      (hp : Heap) (i : ℕ)
      → Hole hp i
      → 1 < i
      → key by hp (parent_node i) < key by hp i
      → Hole (swapped hp (parent_node i) i) (parent_node i)
  swapped-Hole hp i v deep below =
      let up_in : parent_node i ≤ length hp.h =
        omega (arith, v.sized.slots, v.sized.fits, v.inside) in
      let i_in : i ≤ length hp.h = omega (arith, v.sized.slots, v.sized.fits, v.inside) in
      let frame = swapped-frame hp (parent_node i) i (omega arith) up_in v.positive i_in in
      let at = elem_at-swapped hp (parent_node i) i (omega arith) up_in v.positive i_in in
      record {
        sized = omega (arith, frame.0, frame.1, frame.2, v.sized.slots, v.sized.fits);
        positive = omega arith;
        inside = omega (arith, frame.1, v.inside);
        edges =
            λ c p q r s. ground (arith, frame.1, at c, at (parent_node c), v.edges c, v.bridged c);
        bridged = λ c p q r s. ground (
          arith,
          frame.1,
          at c,
          at (parent_node (parent_node i)),
          v.edges c,
          v.edges (parent_node i),
        );
        children = λ st c p q r. ground (arith, frame.1, at c, at (parent_node i), v.edges c);
      }

  pub bubble_up_settles :
      (fuel : ℕ) (hp : Heap) (i : ℕ)
      → i < fuel
      → Hole hp i
      → Ends (λ r. Settled r.1 r.0 × Rearranged hp r.1) (bubble_up by.cmp fuel hp i)
  unfolding bubble_up
  bubble_up_settles zero hp i f v = absurd (omega arith)
  bubble_up_settles (suc fuel) hp i f v =
      Ends-if (ltb 1 i)
        (λ deep.
          let deep' = ltb→lt 1 i deep in
          let up_in : parent_node i ≤ length hp.h =
            omega (arith, v.sized.slots, v.sized.fits, v.inside) in
          let i_in : i ≤ length hp.h = omega (arith, v.sized.slots, v.sized.fits, v.inside) in
          rw
            (
              heap_get-done hp (parent_node i) (omega arith) up_in,
              heap_get-done hp i v.positive i_in,
              heap_swap-done hp (parent_node i) i (omega arith) up_in v.positive i_in,
              by.agrees (elem_at hp (parent_node i)) (elem_at hp i),
            )
            (Ends-if (ltb (key by hp (parent_node i)) (key by hp i))
              (λ below.
                Ends-weaken
                  (bubble_up_settles fuel (swapped hp (parent_node i) i) (parent_node i)
                    (omega arith) (swapped-Hole hp i v deep' (ltb→lt _ _ below)))
                  (λ r s. (
                    s.0,
                    Rearranged-trans
                        (swapped-Rearranged hp (parent_node i) i (omega arith)
                          (omega (arith, v.inside)) v.positive v.inside v.sized)
                        s.1,
                  )))
              (λ fine.
                ends (record { hole = v; above = λ _. ltb→le _ _ fine }, Rearranged-refl hp))))
        (λ root. ends (
          record { hole = v; above = λ d. absurd (omega (arith, ltb→le 1 i root)) },
          Rearranged-refl hp,
        ))
