-- ===== src/Heap/Push.antt =====
-- heap_push of ztl_heap.c.
use ztool_lib.Common.{
  ℕ, ◌+◌, ◌-◌, ◌*◌, ◌^◌, ◌%◌, ◌<◌, ◌≤◌, ◌≡◌, ◌≢◌, ◌⊎◌, refl, sym, ap, ◌∙◌, Bool, true, false, List,
  [], ◌++◌, length, length-append, get_or-append, set, ◌==◌, if◌then◌else◌, arith, ne→==, ==_self,
  inl, inr,
}
use ztool_lib.Common.Outcome.{Outcome, done, ◌>>=◌, Ends, ends, Ends-weaken, Ends-bind}
use ztool_lib.Heap.{Heap, parent_node, heap_push, heap_set, bubble_up, grow_heap}
use ztool_lib.Heap.Counting.{occurs, one, occurs-append, occurs-append_new, occurs_at}
use ztool_lib.Heap.Cells.{
  IsSized, elem_at, stored, heap_set-done, elem_at-stored, length-stored, stored-frame, stored-h,
  index-stored,
}
use ztool_lib.Heap.Order.{Comparator, max_places, IsOrdered, IsTracked}
use ztool_lib.Heap.Up.{Hole, Settled, bubble_up_settles}

-- What every operation keeps.
pub record IsValid (by : Comparator) (hp : Heap) : Type 0 where
  pub sized : IsSized hp
  pub small : hp.avail < max_places
  pub ordered : IsOrdered by hp
  pub tracked_at : IsTracked hp

module _ (by : Comparator) where
  Settled-IsOrdered : (hp : Heap) (i : ℕ) → Settled by true hp i → IsOrdered by hp
  Settled-IsOrdered hp i s c p q =
      ground (arith, s.above, s.hole.edges c p q, s.hole.children refl c p q)

  module _ (q : Heap) (elem : ℕ) (v : IsValid by q) (room : q.curr < q.avail) where
    -- The heap with the new element in the first free place.
    abbrev placed : Heap
    placed = stored (record q { curr = q.curr + 1 }) (q.curr + 1) elem

    placed-frame :
        (placed.curr ≡ q.curr + 1)
        × (placed.avail ≡ q.avail)
        × (placed.tracked ≡ q.tracked)
        × (length placed.h ≡ length q.h)
    placed-frame =
        let f = stored-frame (record q { curr = q.curr + 1 }) (q.curr + 1) elem in
        (f.0, f.1, f.2, length-stored (record q { curr = q.curr + 1 }) (q.curr + 1) elem)

    elem_at-placed :
        (c : ℕ) → 0 < c → elem_at placed c ≡ (if c == q.curr + 1 then elem else elem_at q c)
    elem_at-placed c p =
        elem_at-stored (record q { curr = q.curr + 1 }) (q.curr + 1) elem c (omega arith)
          (omega (arith, v.sized.slots)) p

    placed-Hole : Hole by true placed (q.curr + 1)
    placed-Hole =
        let f = placed-frame in
        record {
          sized = omega (arith, f.0, f.1, f.3, v.sized.slots);
          positive = omega arith;
          inside = omega (arith, f.0);
          edges = λ c p k r s.
              ground (arith, f.0, elem_at-placed c, elem_at-placed (parent_node c), v.ordered c);
          bridged = λ c p k r s. absurd (omega (arith, f.0));
          children = λ st c p k r. absurd (omega (arith, f.0));
        }

    occurs-placed : (e : ℕ) → occurs e (q.curr + 1) placed.h ≡ occurs e q.curr q.h + one elem e
    occurs-placed e =
        let same : q.curr + 1 - 1 ≡ q.curr = omega arith in
        let cells : placed.h ≡ set q.h q.curr elem =
          stored-h (record q { curr = q.curr + 1 }) (q.curr + 1) elem
          ∙ ap (λ k. set q.h k elem) same in
        rw cells (occurs-append_new e q.curr q.h elem (omega (arith, v.sized.slots)))

    placed-IsTracked : (q.tracked ≡ true → occurs elem q.curr q.h ≡ 0) → IsTracked placed
    placed-IsTracked new on c p k =
        let f = placed-frame in
        let on' : q.tracked ≡ true = sym f.2 ∙ on in
        let word =
          index-stored (record q { curr = q.curr + 1 }) (q.curr + 1) elem (elem_at placed c) on' in
        ground (
          arith,
          f.0,
          word,
          elem_at-placed c p,
          v.tracked_at on' c p,
          v.sized.slots,
          new on',
          occurs_at elem q.curr q.h (c - 1),
        )

    -- The rest of heap_push, from a heap with a free place.
    abbrev place : Outcome (Bool × Heap)
    place = do
      hp' ← heap_set (record q { curr = q.curr + 1 }) (q.curr + 1) elem
      (at, hp'') ← bubble_up by.cmp (q.curr + 2) hp' (q.curr + 1)
      done (true, hp'')

    abbrev Grew : Bool × Heap → Type 0
    Grew r =
        (r.0 ≡ true)
        × IsValid by r.1
        × (r.1.curr ≡ q.curr + 1)
        × ((e : ℕ) → occurs e r.1.curr r.1.h ≡ occurs e q.curr q.h + one elem e)

    place-Grew : (q.tracked ≡ true → occurs elem q.curr q.h ≡ 0) → Ends Grew place
    place-Grew new =
        let f = placed-frame in
        rw
          (heap_set-done (record q { curr = q.curr + 1 }) (q.curr + 1) elem (omega arith)
            (omega (arith, v.sized.slots)))
          (Ends-bind
            (bubble_up_settles by true (q.curr + 2) placed (q.curr + 1) (omega arith) placed-Hole)
            λ r (settled, kept). ends (
              refl,
              record {
                sized = settled.hole.sized;
                small = omega (arith, kept.same_avail, f.1, v.small);
                ordered = Settled-IsOrdered r.1 r.0 settled;
                tracked_at = kept.still_tracked (placed-IsTracked new);
              },
              kept.same_curr ∙ f.0,
              λ e.
                  ap (λ k. occurs e k r.1.h) kept.same_curr
                  ∙ kept.same_elems e
                  ∙ ap (λ k. occurs e k placed.h) f.0
                  ∙ occurs-placed e,
            ))

  -- The heap after a successful realloc.
  abbrev enlarged : List ℕ → Heap → Heap
  enlarged more hp = record hp { avail = (hp.avail * 2 % 2 ^ 32 + 1) % 2 ^ 32; h = hp.h ++ more }

  enlarged-IsValid :
      (more : List ℕ) (hp : Heap)
      → IsValid by hp
      → length more ≡ hp.avail + 1
      → 2 * hp.avail + 1 < max_places
      → IsValid by (enlarged more hp) × (hp.avail < (enlarged more hp).avail)
  enlarged-IsValid more hp v size fits =
      let whole : (hp.avail * 2 % 2 ^ 32 + 1) % 2 ^ 32 ≡ 2 * hp.avail + 1 = omega arith in
      let old = λ (c : ℕ) (p : 0 < c) (k : c ≤ hp.curr).
        get_or-append hp.h more (c - 1) 0 (omega (arith, v.sized.slots, v.sized.fits)) in
      (
        record {
          sized = omega (arith, length-append hp.h more, whole, v.sized.slots, v.sized.fits);
          small = omega (arith, whole);
          ordered = λ c p k. ground (
            arith,
            old c (omega arith) k,
            old (parent_node c) (omega arith) (omega arith),
            v.ordered c p k,
          );
          tracked_at = λ on c p k. ap hp.index (old c p k) ∙ v.tracked_at on c p k;
        },
        omega (arith, whole),
      )

  -- There is a free place, or realloc gives the memory that grow_heap asks for.
  abbrev pub HasRoom : Bool → List ℕ → Heap → Type 0
  HasRoom allocated more hp =
      (hp.curr < hp.avail)
      ⊎ ((hp.curr ≡ hp.avail)
          × (allocated ≡ true)
          × (length more ≡ hp.avail + 1)
          × (2 * hp.avail + 1 < max_places))

  -- What heap_push leaves: success, a valid heap one longer, and the elements of before with `elem`.
  abbrev pub Pushed : Heap → ℕ → Bool × Heap → Type 0
  Pushed hp elem r =
      (r.0 ≡ true)
      × IsValid by r.1
      × (r.1.curr ≡ hp.curr + 1)
      × ((e : ℕ) → occurs e r.1.curr r.1.h ≡ occurs e hp.curr hp.h + one elem e)

  -- On a valid heap with room, heap_push of an element that is not NULL, and not in the heap if the
  -- elements carry their places, ends with success: the heap is valid and holds the elements of
  -- before and the new one.
  pub heap_push_correct :
      (allocated : Bool) (more : List ℕ) (hp : Heap) (elem : ℕ)
      → IsValid by hp
      → elem ≢ 0
      → HasRoom allocated more hp
      → (hp.tracked ≡ true → occurs elem hp.curr hp.h ≡ 0)
      → Ends (Pushed hp elem) (heap_push by.cmp allocated more hp elem)
  unfolding heap_push grow_heap
  heap_push_correct allocated more hp elem v ne (inl room) new =
      rw (ne→== elem 0 ne, ne→== hp.curr hp.avail (omega arith)) (place-Grew hp elem v room new)
  heap_push_correct allocated more hp elem v ne (inr (full, got, size, fits)) new =
      let (valid, longer) = enlarged-IsValid more hp v size fits in
      let kept = λ (e : ℕ). occurs-append e hp.curr hp.h more (omega (arith, v.sized.slots)) in
      let full' : hp.curr == hp.avail ≡ true = ground arith in
      rw (ne→== elem 0 ne, full', got)
        (Ends-weaken
          (place-Grew (enlarged more hp) elem valid (omega arith) (λ on. kept elem ∙ new on))
          (λ r g. (g.0, g.1, g.2, λ e. omega (arith, g.3 e, kept e))))

  -- heap_push refuses NULL and changes nothing. On a full heap for which realloc fails it reports
  -- failure, and the heap has then lost every element that it held.
  pub heap_push_failure :
      (allocated : Bool) (more : List ℕ) (hp : Heap) (elem : ℕ)
      → (elem ≡ 0 → heap_push by.cmp allocated more hp elem ≡ done (false, hp))
        × (elem ≢ 0
            → hp.curr ≡ hp.avail
            → allocated ≡ false
            → heap_push by.cmp allocated more hp elem
              ≡ done (false, record hp { avail = 0; curr = 0; h = [] }))
  unfolding heap_push grow_heap
  heap_push_failure allocated more hp elem =
      ((λ z. rw z), λ ne full no_memory. rw (ne→== elem 0 ne, full, ==_self, no_memory))
