-- ===== src/Heap/Remove.antt =====
-- _heap_remove, heap_pop and heap_remove of ztl_heap.c.
use native.Mathlib.Decide.{ℕ_discrete, dec_lt}
use ztool_lib.Common.{
  ℕ, suc, ◌+◌, ◌-◌, ◌<◌, ◌≤◌, ◌≡◌, sym, ap, ◌∙◌, true, false, length, ◌==◌, if◌then◌else◌, arith,
  lt→ltb, le→ltb,
}
use ztool_lib.Common.Outcome.{done}
use ztool_lib.Heap.{Heap, parent_node, bubble_up}
use ztool_lib.Heap.Counting.{occurs, one, occurs-set, occurs-set_past, occurs-suc}
use ztool_lib.Heap.Cells.{
  IsSized, elem_at, stored, heap_get-done, elem_at-stored, length-stored, stored-frame, stored-h,
  index-stored,
}
use ztool_lib.Heap.Order.{Comparator, key, IsTracked}
use ztool_lib.Heap.Up.{Hole, Settled}
use ztool_lib.Heap.Down.{Sinking}
use ztool_lib.Heap.Push.{IsValid}

module _ (by : Comparator) where
  -- At a place whose upper edge is in order bubble_up stops at once.
  pub bubble_up_stays :
      (fuel : ℕ) (hp : Heap) (i : ℕ)
      → 0 < i
      → i ≤ length hp.h
      → (1 < i → key by hp i ≤ key by hp (parent_node i))
      → bubble_up by.cmp (suc fuel) hp i ≡ done (i, hp)
  unfolding bubble_up
  bubble_up_stays fuel hp i p q above = elim (dec_lt 1 i) [
    | yes deep ↦ rw (
      lt→ltb 1 i deep,
      heap_get-done hp (parent_node i) (omega arith) (omega arith),
      heap_get-done hp i p q,
      by.agrees (elem_at hp (parent_node i)) (elem_at hp i),
      le→ltb (key by hp (parent_node i)) (key by hp i) (above deep),
    )
    | no root ↦ rw (le→ltb 1 i (omega arith))
  ]

  module _ (hp : Heap) (i : ℕ) (v : IsValid by hp) (p : 0 < i) (h : i ≤ hp.curr) where
    -- The heap with the last element in place `i`, one element shorter.
    abbrev pub cut : Heap
    cut = stored (record hp { curr = hp.curr - 1 }) i (elem_at hp hp.curr)

    pub cut-frame :
        (cut.curr ≡ hp.curr - 1)
        × (cut.avail ≡ hp.avail)
        × (cut.tracked ≡ hp.tracked)
        × (length cut.h ≡ length hp.h)
    cut-frame =
        let f = stored-frame (record hp { curr = hp.curr - 1 }) i (elem_at hp hp.curr) in
        (f.0, f.1, f.2, length-stored (record hp { curr = hp.curr - 1 }) i (elem_at hp hp.curr))

    pub elem_at-cut :
        (c : ℕ) → 0 < c → elem_at cut c ≡ (if c == i then elem_at hp hp.curr else elem_at hp c)
    elem_at-cut c q =
        elem_at-stored (record hp { curr = hp.curr - 1 }) i (elem_at hp hp.curr) c p
          (omega (arith, v.sized.slots, v.sized.fits)) q

    pub cut-IsSized : IsSized cut
    cut-IsSized = let f = cut-frame in omega (arith, f.0, f.1, f.3, v.sized.slots, v.sized.fits)

    pub cut-Hole : i < hp.curr → Hole by false cut i
    cut-Hole inner =
        let f = cut-frame in
        record {
          sized = cut-IsSized;
          positive = p;
          inside = omega (arith, f.0);
          edges = λ c q k r s.
              ground (arith, f.0, elem_at-cut c, elem_at-cut (parent_node c), v.ordered c);
          bridged = λ c q k r s.
              ground
                (arith, f.0, elem_at-cut c, elem_at-cut (parent_node i), v.ordered c, v.ordered i);
          children = λ st. cc;
        }

    pub cut-Sinking : i ≡ hp.curr → Sinking by cut i
    cut-Sinking last =
        let f = cut-frame in
        record {
          sized = cut-IsSized;
          small = omega (arith, f.1, v.small);
          positive = p;
          place = omega (arith, f.1, v.sized.fits);
          edges = λ c q k r.
              ground (arith, f.0, elem_at-cut c, elem_at-cut (parent_node c), v.ordered c);
          bridged = λ c q k r s. absurd (omega (arith, f.0));
        }

    pub Settled-Sinking :
        (r : Heap) (at : ℕ) → r.avail ≡ hp.avail → Settled by false r at → Sinking by r at
    Settled-Sinking r at same s = record {
      sized = s.hole.sized;
      small = omega (arith, v.small);
      positive = s.hole.positive;
      place = omega (arith, s.hole.inside, s.hole.sized.fits);
      edges = λ c q k n. ground (arith, s.above, s.hole.edges c);
      bridged = s.hole.bridged;
    }

    pub cut-IsTracked : IsTracked cut
    cut-IsTracked on c q k =
        let f = cut-frame in
        let on' : hp.tracked ≡ true = sym f.2 ∙ on in
        let word =
          index-stored (record hp { curr = hp.curr - 1 }) i (elem_at hp hp.curr) (elem_at cut c)
            on' in
        ground (
          arith,
          f.0,
          word,
          elem_at-cut c q,
          v.tracked_at on' c q,
          v.tracked_at on' hp.curr (omega arith),
        )

    pub occurs-cut :
        (e : ℕ) → occurs e (hp.curr - 1) cut.h + one (elem_at hp i) e ≡ occurs e hp.curr hp.h
    occurs-cut e =
        let n = hp.curr - 1 in
        let more : hp.curr ≡ suc n = omega arith in
        let cells = stored-h (record hp { curr = n }) i (elem_at hp hp.curr) in
        let split =
          ap (λ k. occurs e k hp.h) more
          ∙ occurs-suc e n hp.h (omega (arith, v.sized.slots, v.sized.fits)) in
        elim (ℕ_discrete i hp.curr) [
          | yes last ↦ rw cells (
              omega (
                arith,
                split,
                ap (λ k. one (elem_at hp k) e) last,
                occurs-set_past e n hp.h (i - 1) (elem_at hp hp.curr) (omega arith),
              ))
          | no inner ↦ rw cells (
              omega (
                arith,
                split,
                occurs-set e n hp.h (i - 1) (elem_at hp hp.curr) (omega arith)
                    (omega (arith, v.sized.slots, v.sized.fits)),
              ))
        ]
