-- ===== src/Heap/Order.antt =====
-- The order of ztl_heap.c, for a comparison that ranks the elements, and what a rearrangement keeps.
use Prim.Native.Nat.{compare, Ordering}
use ztool_lib.Common.{ℕ, ◌<◌, ◌≤◌, ◌≡◌, refl, sym, ◌∙◌, true, length, arith}
use ztool_lib.Heap.{Heap, parent_node}
use ztool_lib.Heap.Counting.{occurs}
use ztool_lib.Heap.Cells.{
  IsSized, elem_at, swapped, swapped-frame, occurs-swapped, elem_at-swapped, index-swapped,
}

-- A comparison function of the caller that orders the elements by a rank.
pub record Comparator : Type 0 where
  pub cmp : ℕ → ℕ → Ordering
  pub rank : ℕ → ℕ
  pub agrees : (x y : ℕ) → cmp x y ≡ compare (rank x) (rank y)

-- With fewer than 2^31 places no index computation wraps.
abbrev pub max_places : ℕ
max_places = 2147483648

module _ (by : Comparator) where
  abbrev pub key : Heap → ℕ → ℕ
  key hp i = by.rank (elem_at hp i)

  -- No element is larger than its parent.
  abbrev pub IsOrdered : Heap → Type 0
  IsOrdered hp = (c : ℕ) → 1 < c → c ≤ hp.curr → key hp c ≤ key hp (parent_node c)

-- Each element carries its place.
abbrev pub IsTracked : Heap → Type 0
IsTracked hp = hp.tracked ≡ true → (c : ℕ) → 0 < c → c ≤ hp.curr → hp.index (elem_at hp c) ≡ c

-- `r` holds the elements of `q` in the same memory.
pub record Rearranged (q r : Heap) : Type 0 where
  pub same_curr : r.curr ≡ q.curr
  pub same_avail : r.avail ≡ q.avail
  pub same_tracked : r.tracked ≡ q.tracked
  pub same_slots : length r.h ≡ length q.h
  pub same_elems : (e : ℕ) → occurs e q.curr r.h ≡ occurs e q.curr q.h
  pub still_tracked : IsTracked q → IsTracked r

pub Rearranged-refl : (q : Heap) → Rearranged q q
Rearranged-refl q = record {
  same_curr = refl;
  same_avail = refl;
  same_tracked = refl;
  same_slots = refl;
  same_elems = λ e. refl;
  still_tracked = λ t. t;
}

pub Rearranged-trans : {q r s : Heap} → Rearranged q r → Rearranged r s → Rearranged q s
Rearranged-trans {q} {r} {s} a b = record {
  same_curr = b.same_curr ∙ a.same_curr;
  same_avail = b.same_avail ∙ a.same_avail;
  same_tracked = b.same_tracked ∙ a.same_tracked;
  same_slots = b.same_slots ∙ a.same_slots;
  same_elems = λ e. rw a.same_curr at (b.same_elems e) ∙ a.same_elems e;
  still_tracked = λ t. b.still_tracked (a.still_tracked t);
}

module _ (hp : Heap) (i j : ℕ) (pi : 0 < i) (hi : i ≤ hp.curr) (pj : 0 < j) (hj : j ≤ hp.curr)
    (v : IsSized hp) where
  swapped-IsTracked : IsTracked hp → IsTracked (swapped hp i j)
  swapped-IsTracked t on c p q =
      let i_in : i ≤ length hp.h = omega (arith, v.slots, v.fits) in
      let j_in : j ≤ length hp.h = omega (arith, v.slots, v.fits) in
      let (size, same_curr, same_avail, same_tracked) = swapped-frame hp i j pi i_in pj j_in in
      let on' : hp.tracked ≡ true = sym same_tracked ∙ on in
      let here = elem_at-swapped hp i j pi i_in pj j_in c p in
      let word = index-swapped hp i j pi i_in pj j_in (elem_at (swapped hp i j) c) on' in
      ground (arith, t on' i pi hi, t on' j pj hj, t on' c p (omega arith), here, word)

  pub swapped-Rearranged : Rearranged hp (swapped hp i j)
  swapped-Rearranged =
      let frame =
        swapped-frame hp i j pi (omega (arith, v.slots, v.fits)) pj
          (omega (arith, v.slots, v.fits)) in
      record {
        same_curr = frame.1;
        same_avail = frame.2;
        same_tracked = frame.3;
        same_slots = frame.0;
        same_elems = λ e.
            occurs-swapped hp i j pi (omega (arith, v.slots, v.fits)) pj
              (omega (arith, v.slots, v.fits)) e hp.curr hi hj;
        still_tracked = swapped-IsTracked;
      }
