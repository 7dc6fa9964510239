-- ===== src/Map/Clear.antt =====
-- cmap_clear of src/ZToolLib/ztl_map.c ends with an empty map.
use ztool_lib.Common.{ℕ, zero, suc, ◌+◌, ◌≤◌, ◌≡◌, refl, true, arith}
use ztool_lib.Common.Outcome.{Outcome, done, ◌>>=◌}
use ztool_lib.Rbtree.{Tree, leaf, node, count, IsSearch, Rbtree, IsRbtree}
use ztool_lib.Rbtree.Counts.{Occurs-root}
use ztool_lib.Map.{Cmap, clear_loop}

-- cmap_clear
unfoldable pub cmap_clear : Rbtree → ℕ → Cmap → Outcome Cmap
unfolding clear_loop
cmap_clear rb fuel m = do t ← clear_loop rb fuel m.rbtree; done (record m { rbtree = t; size = 0 })

module _ (rb : Rbtree) (laws : IsRbtree rb) where
  clear_loop_done :
      (fuel : ℕ) (t : Tree)
      → IsSearch t
      → count (λ _. true) t + 1 ≤ fuel
      → clear_loop rb fuel t ≡ done leaf
  unfolding clear_loop count
  clear_loop_done zero t s h = absurd (omega arith)
  clear_loop_done (suc fuel) leaf s h = refl
  clear_loop_done (suc fuel) (node l n r) s h =
      let t = node l n r in
      let there = Occurs-root l n r in
      let fewer = laws.removes.delete_count n t (λ _. true) s there in
      clear_loop_done fuel (rb.delete n t) (laws.removes.delete_search n t s there)
        (ground (arith, fewer, h))

  -- For tree operations that have the laws: cmap_clear on an ordered tree ends after as many
  -- rounds as there are nodes, with no node and the size 0.
  pub cmap_clear_ends :
      (fuel : ℕ) (m : Cmap)
      → IsSearch m.rbtree
      → count (λ _. true) m.rbtree + 1 ≤ fuel
      → cmap_clear rb fuel m ≡ done (record m { rbtree = leaf; size = 0 })
  unfolding cmap_clear
  cmap_clear_ends fuel m s h = rw (clear_loop_done fuel m.rbtree s h)
