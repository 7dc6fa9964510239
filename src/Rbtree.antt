-- ===== src/Rbtree.antt =====
-- The trees of src/ZToolLib/ztl_rbtree.h, as its clients see them. The balancing is another
-- project's code, so the operations are parameters with the laws that the clients rely on.
pub mod Counts
pub mod Plain
use ztool_lib.Common.{
  ℕ, ◌+◌, ◌^◌, leb, ◌≤◌, ◌<◌, ◌≡◌, ◌≢◌, Bool, true, false, ltb, ◌==◌, if◌then◌else◌, Option, none,
  some,
}

-- rbtree_node_s, without the links. Nodes with the same key and user data are not told apart.
pub record Node : Type 0 where
  pub key : ℕ
  pub udata : ℕ

-- The root of rbtree_s with what its links lead to; a leaf is the sentinel.
pub data Tree : Type 0 where
  leaf : Tree
  node : (left : Tree) → Node → (right : Tree) → Tree

-- The number of nodes that pass a test.
unfoldable pub count : (Node → Bool) → Tree → ℕ
count p leaf = 0
count p (node l n r) = count p l + ((if p n then 1 else 0) + count p r)

unfoldable pub Occurs : Node → Tree → Type 0
Occurs n t = (p : Node → Bool) → p n ≡ true → 1 ≤ count p t

abbrev pub has_key : ℕ → Node → Bool
has_key k n = n.key == k

-- The keys on the left are at most the root's, and those on the right at least.
unfoldable pub IsSearch : Tree → Type 0
unfolding count
IsSearch leaf = Unit
IsSearch (node l n r) =
    ((k : ℕ) → n.key < k → count (has_key k) l ≡ 0)
    × ((k : ℕ) → k < n.key → count (has_key k) r ≡ 0)
    × IsSearch l
    × IsSearch r

-- rbtree_insert, rbtree_delete and rbtree_min of the root.
pub record Rbtree : Type 0 where
  pub insert : Node → Tree → Tree
  pub delete : Node → Tree → Tree
  pub minimum : Tree → Node

-- The node after rbtree_delete, which clears its key.
abbrev pub cleared : Node → Node
cleared n = record n { key = 0 }

-- What the clients rely on in rbtree_delete and rbtree_min.
pub record IsRemoving (rb : Rbtree) : Type 0 where
  pub delete_search : (n : Node) (t : Tree) → IsSearch t → Occurs n t → IsSearch (rb.delete n t)
  pub delete_count :
      (n : Node) (t : Tree) (p : Node → Bool)
      → IsSearch t
      → Occurs n t
      → (if p n then 1 else 0) + count p (rb.delete n t) ≡ count p t
  pub minimum_occurs : (t : Tree) → IsSearch t → t ≢ leaf → Occurs (rb.minimum t) t
  pub minimum_least :
      (t : Tree)
      → IsSearch t
      → t ≢ leaf
      → (k : ℕ) → k < (rb.minimum t).key
      → count (has_key k) t ≡ 0

-- What they rely on with rbtree_insert_value, which orders the keys as unsigned numbers.
pub record IsRbtree (rb : Rbtree) : Type 0 where
  pub removes : IsRemoving rb
  pub insert_search : (n : Node) (t : Tree) → IsSearch t → IsSearch (rb.insert n t)
  pub insert_count :
      (n : Node) (t : Tree) (p : Node → Bool)
      → IsSearch t
      → count p (rb.insert n t) ≡ (if p n then 1 else 0) + count p t

-- A key in the upper half of the 64-bit words.
abbrev pub is_late : Node → Bool
is_late n = leb (2 ^ 63) n.key

-- What they rely on with rbtree_insert_timer_value, which orders the keys by their signed difference:
-- between keys in the lower half of the words that is the order of the numbers.
pub record IsTimerTree (rb : Rbtree) : Type 0 where
  pub removes : IsRemoving rb
  pub insert_search :
      (n : Node) (t : Tree)
      → IsSearch t
      → count is_late t ≡ 0
      → n.key < 2 ^ 63
      → IsSearch (rb.insert n t)
  pub insert_count :
      (n : Node) (t : Tree) (p : Node → Bool)
      → IsSearch t
      → count is_late t ≡ 0
      → n.key < 2 ^ 63
      → count p (rb.insert n t) ≡ (if p n then 1 else 0) + count p t
