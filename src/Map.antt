-- ===== src/Map.antt =====
-- src/ZToolLib/ztl_map.c: a map and a set of 64-bit words on a tree whose operations are parameters.
-- The nodes of the pool are always there, and a value is the word in a node's user data.
pub mod Find
pub mod Update
pub mod Clear
pub mod ToArray
mod Tests
use ztool_lib.Common.{
  ℕ, zero, suc, ◌+◌, ◌-◌, ◌%◌, ◌^◌, Bool, true, false, ltb, leb, ◌==◌, not, if◌then◌else◌, Option,
  none, some, List, [], ◌∷◌, ◌++◌, set,
}
use ztool_lib.Common.Outcome.{Outcome, done, out_of_fuel}
use ztool_lib.Rbtree.{Node, Tree, leaf, node, cleared, Rbtree}

-- ZTL_MAP_INVALID_VALUE as a 64-bit word
abbrev pub invalid : ℕ
invalid = 2 ^ 64 - 1

-- cmap_st; of the idle nodes only their number counts. The size is the bit pattern of an int32_t, and
-- access_index stays below an array's size, an int.
pub record Cmap : Type 0 where
  pub rbtree : Tree
  pub idles : ℕ
  pub invalid_value : ℕ
  pub size : ℕ
  pub reserve : ℕ
  pub access_index : ℕ

-- _rbtree_find
unfoldable pub rbtree_find : Tree → ℕ → Option Node
rbtree_find leaf key = none
rbtree_find (node l n r) key =
    let left = rbtree_find l key in
    let right = rbtree_find r key in
    if n.key == key then some n else if ltb n.key key then right else left

-- _rbtree_traverse with a function: the nodes in the order of its calls.
unfoldable pub rbtree_traverse : Tree → List Node
rbtree_traverse leaf = []
rbtree_traverse (node l n r) = n ∷ (rbtree_traverse l ++ rbtree_traverse r)

-- _cmap_array_push
unfoldable pub array_push : Node → ℕ → ℕ × List Node → ℕ × List Node
array_push n arr_size (index, kv_array) =
    if leb arr_size index then (index, kv_array) else (index + 1, set kv_array index n)

-- The calls of _cmap_array_push.
unfoldable pub push_all : List Node → ℕ → ℕ × List Node → ℕ × List Node
unfolding array_push
push_all [] arr_size a = a
push_all (n ∷ ns) arr_size a = push_all ns arr_size (array_push n arr_size a)

-- cmap_create, where the pool is there.
unfoldable pub cmap_create : ℕ → Cmap
cmap_create reserve = record {
  rbtree = leaf;
  idles = reserve;
  invalid_value = invalid;
  size = 0;
  reserve = reserve;
  access_index = 0;
}

abbrev pub cmap_size : Cmap → ℕ
cmap_size m = m.size

abbrev pub cmap_empty : Cmap → Bool
cmap_empty m = m.size == 0

abbrev pub cmap_find_ex : Cmap → ℕ → Option Node
cmap_find_ex m key = rbtree_find m.rbtree key

unfoldable pub cmap_count : Cmap → ℕ → Bool
unfolding rbtree_find
cmap_count m key = elim (rbtree_find m.rbtree key) [ none ↦ false | some _ ↦ true ]

unfoldable pub cmap_find : Cmap → ℕ → ℕ
unfolding rbtree_find
cmap_find m key = elim (rbtree_find m.rbtree key) [ none ↦ m.invalid_value | some n ↦ n.udata ]

-- cmap_to_array
unfoldable pub cmap_to_array : Cmap → List Node → ℕ → Cmap × List Node
unfolding push_all rbtree_traverse
cmap_to_array m kv_array arr_size =
    let (index, kv) = push_all (rbtree_traverse m.rbtree) arr_size (0, kv_array) in
    (record m { access_index = index }, kv)

module _ (rb : Rbtree) where
  -- cmap_add_ex; ++size from 2^31 - 1 on goes to a negative number.
  unfoldable pub cmap_add_ex : Cmap → ℕ → Node → Cmap
  cmap_add_ex m key nodeval = record m {
    size = (m.size + 1) % 2 ^ 32;
    rbtree = rb.insert (record nodeval { key = key }) m.rbtree;
  }

  unfoldable pub cmap_add : Cmap → ℕ → ℕ → Cmap
  unfolding cmap_add_ex
  cmap_add m key value =
      cmap_add_ex (record m { idles = m.idles - 1 }) key (record { key = 0; udata = value })

  -- cmap_del_ex; rbtree_delete has cleared the key of the node that it returns.
  unfoldable pub cmap_del_ex : Cmap → ℕ → Option Node × Cmap
  unfolding rbtree_find
  cmap_del_ex m key = elim (cmap_find_ex m key) [
    | none ↦ (none, m)
    | some n ↦ (some (cleared n), record m { rbtree = rb.delete n m.rbtree; size = m.size - 1 })
  ]

  unfoldable pub cmap_del : Cmap → ℕ → ℕ × Cmap
  unfolding cmap_del_ex
  cmap_del m key =
      let (found, m') = cmap_del_ex m key in
      elim found [
        | none ↦ (m.invalid_value, m')
        | some n ↦ (n.udata, record m' { idles = m'.idles + 1 })
      ]

  -- The loop of cmap_clear deletes the root, on fuel.
  unfoldable pub clear_loop : ℕ → Tree → Outcome Tree
  clear_loop zero t = out_of_fuel
  clear_loop (suc fuel) leaf = done leaf
  clear_loop (suc fuel) (node l n r) = clear_loop fuel (rb.delete n (node l n r))

  -- cset_add, cset_del: false is the result -1.
  unfoldable pub cset_add : Cmap → ℕ → Cmap
  unfolding cmap_add
  cset_add s key = cmap_add s key 0

  unfoldable pub cset_del : Cmap → ℕ → Bool × Cmap
  unfolding cmap_del
  cset_del s key = let (value, s') = cmap_del s key in (not (value == s'.invalid_value), s')

abbrev pub cset_count : Cmap → ℕ → Bool
cset_count s key = cmap_count s key
