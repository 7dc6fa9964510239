-- ===== src/Map/Tests.antt =====
-- Runs of the map, and the theorems at concrete maps.
use ztool_lib.Common.{
  ℕ, ◌≡◌, refl, ◌==◌, if◌then◌else◌, [], ◌∷◌, ◌++◌, length, take, drop, min, arith,
}
use ztool_lib.Common.Outcome.{done}
use ztool_lib.Rbtree.{Node, leaf, count, has_key, IsSearch}
use ztool_lib.Rbtree.Plain.{plain, plain-IsRbtree}
use ztool_lib.Map.{Cmap, rbtree_traverse, cmap_create, cmap_find, cmap_add, cmap_del, cmap_to_array}
use ztool_lib.Map.Find.{IsCmap}
use ztool_lib.Map.Update.{cmap_create-IsCmap, cmap_add_done, cmap_del_done}
use ztool_lib.Map.Clear.{cmap_clear, cmap_clear_ends}
use ztool_lib.Map.ToArray.{cmap_to_array-take}

abbrev one_pair : Cmap
one_pair = cmap_add plain (cmap_create 4) 7 70

one_pair-IsCmap : IsCmap one_pair
unfolding count cmap_create
one_pair-IsCmap =
    (cmap_add_done plain plain-IsRbtree (cmap_create 4) 7 70 (cmap_create-IsCmap 4) (omega arith)
      refl).0

abbrev two_pairs : Cmap
two_pairs = cmap_add plain one_pair 5 50

cmap_del_done_example :
    (m' : Cmap) × (cmap_del plain one_pair 7 ≡ (cmap_find one_pair 7, m'))
    × IsCmap m'
    × (count (has_key 7) m'.rbtree ≡ 0)
    × ((q : ℕ) → cmap_find m' q ≡ (if 7 == q then one_pair.invalid_value else cmap_find one_pair q))
cmap_del_done_example = cmap_del_done plain plain-IsRbtree one_pair 7 one_pair-IsCmap

one-IsSearch : IsSearch one_pair.rbtree
one-IsSearch = (let w = one_pair-IsCmap in w.search)

cmap_clear_ends_example :
    cmap_clear plain 2 one_pair ≡ done (record (one_pair) { rbtree = leaf; size = 0 })
unfolding count cmap_add plain cmap_create
cmap_clear_ends_example = cmap_clear_ends plain plain-IsRbtree 2 one_pair one-IsSearch (omega arith)

abbrev blank : Node
blank = record { key = 0; udata = 0 }

cmap_to_array-take_example : cmap_to_array two_pairs (blank ∷ []) (length (blank ∷ [])) ≡ (
  record (two_pairs) {
    access_index = min (length (rbtree_traverse two_pairs.rbtree)) (length (blank ∷ []));
  },
  take (length (blank ∷ [])) (rbtree_traverse two_pairs.rbtree)
      ++ drop (length (rbtree_traverse two_pairs.rbtree)) (blank ∷ []),
)
cmap_to_array-take_example = cmap_to_array-take two_pairs (blank ∷ [])

-- The traversal starts at the root, so an array that is too short gets its key and not the smallest.
two_pairs-front : (cmap_to_array two_pairs (blank ∷ []) 1).1 ≡ record { key = 7; udata = 70 } ∷ []
unfolding cmap_to_array cmap_add plain cmap_create
two_pairs-front = refl
