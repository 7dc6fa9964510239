-- ===== src/Heap.antt =====
-- src/ZToolLib/ztl_heap.c: a heap of pointers in an array that counts from 1. A pointer is a number,
-- 0 for NULL. The lock, which the operations do not take themselves, is left out.
pub mod Counting
pub mod Cells
pub mod Order
pub mod Up
pub mod Down
pub mod Push
pub mod Remove
pub mod Extract
mod Tests
use Prim.Native.Nat.{Ordering}
use ztool_lib.Common.{
  ℕ, zero, suc, ◌+◌, ◌-◌, ◌*◌, ◌/◌, ◌%◌, ◌^◌, ◌≤◌, ◌<◌, Bool, true, false, ◌&&◌, ◌||◌, List, [],
  ◌∷◌, ◌++◌, Option, none, some, length, get_elem?, set, replicate, ltb, leb, ◌==◌, if◌then◌else◌,
}
use ztool_lib.Common.Outcome.{Outcome, done, fault, out_of_fuel, ◌>>=◌}

-- `struct heap_st`. `tracked` is `offset >= 0`, and `index` is the index word that each element
-- then carries `offset` words after its start.
pub record Heap : Type 0 where
  pub avail : ℕ
  pub curr : ℕ
  pub h : List ℕ
  pub tracked : Bool
  pub index : ℕ → ℕ

pub left_node : ℕ → ℕ
left_node i = i * 2 % 2 ^ 32

pub right_node : ℕ → ℕ
right_node i = (i * 2 % 2 ^ 32 + 1) % 2 ^ 32

abbrev pub parent_node : ℕ → ℕ
parent_node i = i / 2

pub heap_get : Heap → ℕ → Outcome ℕ
heap_get hp i =
    if i == 0 then fault else elim (get_elem? hp.h (i - 1)) [ none ↦ fault | some p ↦ done p ]

abbrev pub set_index : (ℕ → ℕ) → ℕ → ℕ → ℕ → ℕ
set_index index elem i p = if p == elem then i else index p

pub heap_set : Heap → ℕ → ℕ → Outcome Heap
heap_set hp i elem =
    if ltb 0 i && leb i (length hp.h)
    then done (record hp {
      h = set hp.h (i - 1) elem;
      index = if hp.tracked then set_index hp.index elem i else hp.index;
    })
    else fault

-- get_index: 0 where the elements carry no index.
pub get_index : Heap → ℕ → ℕ
get_index hp elem = if hp.tracked then hp.index elem else 0

pub heap_swap : Heap → ℕ → ℕ → Outcome Heap
heap_swap hp i j = do
  tmp ← heap_get hp i
  other ← heap_get hp j
  hp' ← heap_set hp i other
  heap_set hp' j tmp

-- grow_heap: `allocated` says whether realloc succeeds, `more` is what the new memory holds. A
-- failure forgets the array.
pub grow_heap : Bool → List ℕ → Heap → Bool × Heap
grow_heap allocated more hp =
    if allocated
    then (true, record hp { avail = (hp.avail * 2 % 2 ^ 32 + 1) % 2 ^ 32; h = hp.h ++ more })
    else (false, record hp { avail = 0; curr = 0; h = [] })

abbrev pub is_negative : Ordering → Bool
is_negative o = elim o [ Ordering.lt ↦ true | _ ↦ false ]

abbrev pub is_positive : Ordering → Bool
is_positive o = elim o [ Ordering.gt ↦ true | _ ↦ false ]

-- The comparison of the caller: `lt` for a negative result, `gt` for a positive one.
module _ (cmp : ℕ → ℕ → Ordering) where
  pub bubble_up : ℕ → Heap → ℕ → Outcome (ℕ × Heap)
  bubble_up zero hp i = out_of_fuel
  bubble_up (suc fuel) hp i =
      let rise = heap_swap hp (parent_node i) i >>= λ hp'. bubble_up fuel hp' (parent_node i) in
      let loop : Outcome (ℕ × Heap) = do
        p ← heap_get hp (parent_node i)
        x ← heap_get hp i
        if is_negative (cmp p x) then rise else done (i, hp)
      in if ltb 1 i then loop else done (i, hp)

  -- The child `c` where it is present and larger than what stands at `m`, and `m` otherwise.
  pub larger : Heap → ℕ → ℕ → Outcome ℕ
  larger hp c m =
      if leb c hp.curr
      then (do x ← heap_get hp c; y ← heap_get hp m; done (if is_positive (cmp x y) then c else m))
      else done m

  pub max_heapify : ℕ → Heap → ℕ → Outcome Heap
  max_heapify zero hp i = out_of_fuel
  max_heapify (suc fuel) hp i = do
    l ← larger hp (left_node i) i
    m ← larger hp (right_node i) l
    let sink = heap_swap hp i m >>= λ hp'. max_heapify fuel hp' m
    if m == i then done hp else sink

  -- _heap_remove; the loops get the fuel that their bounds ask for.
  pub remove_at : Heap → ℕ → Outcome (ℕ × Heap)
  remove_at hp i =
      let body : Outcome (ℕ × Heap) = do
        ret ← heap_get hp i
        last ← heap_get hp hp.curr
        hp' ← heap_set (record hp { curr = hp.curr - 1 }) i last
        (at, hp'') ← bubble_up (i + 1) hp' i
        hp''' ← max_heapify (hp.curr + 1) hp'' at
        done (ret, hp''')
      in if ltb hp.curr i then done (0, hp) else body

  -- heap_push: false for -1.
  pub heap_push : Bool → List ℕ → Heap → ℕ → Outcome (Bool × Heap)
  heap_push allocated more hp elem =
      let (room, grown) = if hp.curr == hp.avail then grow_heap allocated more hp else (true, hp) in
      let body : Outcome (Bool × Heap) = do
        hp' ← heap_set (record grown { curr = grown.curr + 1 }) (grown.curr + 1) elem
        (at, hp'') ← bubble_up (grown.curr + 2) hp' (grown.curr + 1)
        done (true, hp'')
      in if elem == 0 then done (false, hp) else if room then body else done (false, grown)

  pub heap_pop : Heap → Outcome (ℕ × Heap)
  heap_pop hp = remove_at hp 1

  pub heap_remove : Heap → ℕ → Outcome (ℕ × Heap)
  heap_remove hp elem =
      if elem == 0
      then done (0, hp)
      else if get_index hp elem == 0
      then done (0, hp)
      else remove_at hp (get_index hp elem)

-- heap_peek, with NULL out of range.
pub heap_peek : Heap → ℕ → Outcome ℕ
unfolding heap_get
heap_peek hp index =
    if hp.curr == 0 || index == 0 || ltb hp.curr index then done 0 else heap_get hp index

pub heap_length : Heap → ℕ
heap_length hp = hp.curr

-- heap_new_at_mem with a comparison: a `height` of 0 stands for every height below 1. `allocated`
-- says whether calloc succeeds.
pub heap_new_at_mem : Bool → ℕ → Bool → Option Heap
heap_new_at_mem allocated height tracked =
    let rows : ℕ = if height == 0 then 8 else height in
    let slots = (rows * 2 - 1) % 2 ^ 32 in
    if allocated
    then some (record {
      avail = slots;
      curr = 0;
      h = replicate slots 0;
      tracked = tracked;
      index = λ _. 0;
    })
    else none
