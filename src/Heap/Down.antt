-- ===== src/Heap/Down.antt =====
-- max_heapify of ztl_heap.c: it ends, keeps the elements, and orders a heap in which only the edges
-- below one place are out of order.
use Prim.Native.Nat.{compare}
use ztool_lib.Common.{
  ℕ, zero, suc, ◌+◌, ◌*◌, ◌<◌, ◌≤◌, ◌≡◌, ◌≢◌, ◌⊎◌, length, ltb, leb, ◌==◌, if◌then◌else◌, arith,
  ==→ne, Bool-cases, inl, inr,
}
use ztool_lib.Common.Outcome.{done, Ends, ends, Ends-if, Ends-weaken}
use ztool_lib.Heap.{Heap, parent_node, left_node, right_node, larger, is_positive, max_heapify}
use ztool_lib.Heap.Cells.{
  IsSized, elem_at, swapped, heap_get-done, heap_swap-done, elem_at-swapped, swapped-frame,
}
use ztool_lib.Heap.Order.{
  Comparator, max_places, key, IsOrdered, Rearranged, Rearranged-refl, Rearranged-trans,
  swapped-Rearranged,
}

left_node_lem : (i : ℕ) → i < max_places → left_node i ≡ 2 * i
unfolding left_node
left_node_lem i h = omega arith

right_node_lem : (i : ℕ) → i < max_places → right_node i ≡ 2 * i + 1
unfolding right_node
right_node_lem i h = omega arith

module _ (by : Comparator) where
  -- Only the edges below `i` may be out of order.
  pub record Sinking (hp : Heap) (i : ℕ) : Type 0 where
    pub sized : IsSized hp
    pub small : hp.avail < max_places
    pub positive : 0 < i
    pub place : i ≤ hp.avail
    pub edges :
        (c : ℕ) → 1 < c → c ≤ hp.curr → parent_node c ≢ i → key by hp c ≤ key by hp (parent_node c)
    pub bridged :
        (c : ℕ)
        → 1 < c
        → c ≤ hp.curr
        → parent_node c ≡ i
        → 1 < i
        → key by hp c ≤ key by hp (parent_node i)

  -- `m` is the largest of `i` and its children.
  record IsLargest (hp : Heap) (i m : ℕ) : Type 0 where
    family : (m ≡ i) ⊎ ((parent_node m ≡ i) × (i < m) × (m ≤ hp.curr) × (key by hp i < key by hp m))
    least : (c : ℕ) → 1 < c → c ≤ hp.curr → parent_node c ≡ i → key by hp c ≤ key by hp m

  -- The place that one test of the children picks.
  abbrev pick : Heap → ℕ → ℕ → ℕ
  pick hp c m = if leb c hp.curr then (if ltb (key by hp m) (key by hp c) then c else m) else m

  is_positive-compare : (x y : ℕ) → is_positive (compare x y) ≡ ltb y x
  is_positive-compare x y = ground arith

  larger-done :
      (hp : Heap) (c m : ℕ)
      → IsSized hp
      → 0 < c
      → 0 < m
      → (c ≤ hp.curr → m ≤ hp.curr)
      → larger by.cmp hp c m ≡ done (pick hp c m)
  unfolding larger
  larger-done hp c m v p q in_range = elim (Bool-cases (leb c hp.curr)) [
    | inl e ↦
        let c_in : c ≤ hp.curr = ground arith in
        let m_in = in_range c_in in
        rw (
          e,
          heap_get-done hp c p (omega (arith, v.slots, v.fits)),
          heap_get-done hp m q (omega (arith, v.slots, v.fits)),
          by.agrees (elem_at hp c) (elem_at hp m),
          is_positive-compare,
        )
    | inr e ↦ rw e
  ]

  pick_left :
      (hp : Heap) (i : ℕ) → 2 * i ≤ hp.curr → key by hp (2 * i) ≤ key by hp (pick hp (2 * i) i)
  pick_left hp i p = ground arith

  pick_mono : (hp : Heap) (c m : ℕ) → key by hp m ≤ key by hp (pick hp c m)
  pick_mono hp c m = ground arith

  pick_new : (hp : Heap) (c m : ℕ) → c ≤ hp.curr → key by hp c ≤ key by hp (pick hp c m)
  pick_new hp c m p = ground arith

  pick-IsLargest :
      (hp : Heap) (i : ℕ) → 0 < i → IsLargest hp i (pick hp (2 * i + 1) (pick hp (2 * i) i))
  pick-IsLargest hp i p = record {
    family = ground arith;
    least = λ c q r s.
        let m = pick hp (2 * i) i in
        let which : (c ≡ 2 * i) ⊎ (c ≡ 2 * i + 1) = omega arith in
        elim which [
          | inl e ↦
              rw e (omega (arith, pick_new hp (2 * i) i (omega arith), pick_mono hp (2 * i + 1) m))
          | inr e ↦ rw e (pick_new hp (2 * i + 1) m (omega arith))
        ];
  }

  swapped-Sinking :
      (hp : Heap) (i m : ℕ)
      → Sinking hp i
      → parent_node m ≡ i
      → i < m
      → m ≤ hp.curr
      → key by hp i < key by hp m
      → ((c : ℕ) → 1 < c → c ≤ hp.curr → parent_node c ≡ i → key by hp c ≤ key by hp m)
      → Sinking (swapped hp i m) m
  swapped-Sinking hp i m v child deeper m_in below least =
      let i_in : i ≤ length hp.h = omega (arith, v.sized.slots, v.place) in
      let m_in' : m ≤ length hp.h = omega (arith, v.sized.slots, v.sized.fits) in
      let frame = swapped-frame hp i m v.positive i_in (omega arith) m_in' in
      let at = elem_at-swapped hp i m v.positive i_in (omega (arith, v.positive)) m_in' in
      record {
        sized = omega (arith, frame.0, frame.1, frame.2, v.sized.slots, v.sized.fits);
        small = omega (arith, frame.2, v.small);
        positive = omega arith;
        place = omega (arith, frame.2, v.sized.fits);
        edges = λ c p q r. ground (
          arith,
          v.positive,
          frame.1,
          at c,
          at (parent_node c),
          v.edges c,
          v.bridged c,
          v.bridged m,
          least c,
        );
        bridged =
            λ c p q r s. ground (arith, v.positive, frame.1, at c, at (parent_node m), v.edges c);
      }

  abbrev pub Sunk : Heap → Heap → Type 0
  Sunk hp r = IsOrdered by r × IsSized r × Rearranged hp r

  pub max_heapify_orders :
      (fuel : ℕ) (hp : Heap) (i : ℕ)
      → 0 < fuel
      → hp.curr < fuel + i
      → Sinking hp i
      → Ends (Sunk hp) (max_heapify by.cmp fuel hp i)
  unfolding max_heapify
  max_heapify_orders zero hp i n f v = absurd (omega arith)
  max_heapify_orders (suc fuel) hp i n f v =
      let l = pick hp (2 * i) i in
      let m = pick hp (2 * i + 1) l in
      let best = pick-IsLargest hp i v.positive in
      rw
        (
          left_node_lem i (omega (arith, v.small, v.place)),
          right_node_lem i (omega (arith, v.small, v.place)),
          larger-done hp (2 * i) i v.sized (omega (arith, v.positive)) v.positive
              (λ c. omega arith),
          larger-done hp (2 * i + 1) l v.sized (omega arith) (ground (arith, v.positive))
              (λ c. ground arith),
        )
        (Ends-if (m == i)
          (λ same.
            ends ((λ c p q. ground (arith, v.edges c, best.least c)), v.sized, Rearranged-refl hp))
          (λ other. elim best.family [
            | inl same ↦ absurd (==→ne m i other same)
            | inr (child, deeper, m_in, below) ↦
                let i_in : i ≤ length hp.h = omega (arith, v.sized.slots, v.place) in
                let m_in' : m ≤ length hp.h = omega (arith, v.sized.slots, v.sized.fits) in
                rw (heap_swap-done hp i m v.positive i_in (omega (arith, v.positive)) m_in') (
                  Ends-weaken
                    (max_heapify_orders fuel (swapped hp i m) m (omega arith)
                      (omega (
                        arith,
                        (swapped-frame hp i m v.positive i_in (omega (arith, v.positive)) m_in').1,
                      ))
                      (swapped-Sinking hp i m v child deeper m_in below best.least))
                    (λ r s. (
                      s.0,
                      s.1,
                      Rearranged-trans
                          (swapped-Rearranged hp i m v.positive (omega arith)
                            (omega (arith, v.positive)) m_in v.sized)
                          s.2,
                    )))
          ]))
