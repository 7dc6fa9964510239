-- ===== src/Mempool/Held.antt =====
-- A client of the pool of src/ZToolLib/ztl_mempool.c, and what holds of the pool in its runs.
use ztool_lib.Common.{
  ℕ, ◌+◌, ◌*◌, ◌^◌, ◌≤◌, ◌<◌, ◌≡◌, sym, subst, Bool, true, false, if◌then◌else◌, Option, none, some,
  List, [], ◌∷◌, length, arith, inl, inr, Bool-cases,
}
use ztool_lib.Mempool.{
  Node, Memblock, Mempool, returned, same, store, block_bytes, mp_alloc, mp_free, mp_create,
}

-- The pool and the entities that the client holds.
pub record Held : Type 0 where
  pub pool : Mempool
  pub out : List Node

unfoldable pub drop_node : Node → List Node → List Node
drop_node n [] = []
drop_node n (m ∷ ms) = if same n m then ms else m ∷ drop_node n ms

unfoldable pub occurs : Node → List Node → ℕ
occurs n [] = 0
occurs n (m ∷ ms) = (if same n m then 1 else 0) + occurs n ms

pub data Step : Held → Held → Type 0 where
  takes :
      {h : Held} (malloced : Bool) {n : Node} {p : Mempool}
      → mp_alloc malloced h.pool ≡ returned (some n) p
      → Step h (record { pool = p; out = n ∷ h.out })
  refused :
      {h : Held} (malloced : Bool) {p : Mempool}
      → mp_alloc malloced h.pool ≡ returned none p
      → Step h (record h { pool = p })
  gives :
      {h : Held} (n : Node) {p : Mempool}
      → 1 ≤ occurs n h.out
      → mp_free h.pool (some n) ≡ returned true p
      → Step h (record { pool = p; out = drop_node n h.out })
  writes :
      {h : Held} (n : Node) (word : Option Node)
      → 1 ≤ occurs n h.out
      → Step h (record h { pool = record (h.pool) { nextbuf = store h.pool.nextbuf n word } })

pub data Reachable (entity_size init_count : ℕ) : Held → Type 0 where
  created :
      (expand a b : Bool) {p : Mempool}
      → mp_create entity_size init_count expand a b ≡ some p
      → Reachable entity_size init_count (record { pool = p; out = [] })
  then_step :
      {h k : Held}
      → Reachable entity_size init_count h
      → Step h k
      → Reachable entity_size init_count k

-- The free list from a first node, along the words of the memory.
pub data Linked (m : Node → Option Node) : Option Node → List Node → Type 0 where
  end_of_list : Linked m none []
  node : {n : Node} {ns : List Node} → Linked m (m n) ns → Linked m (some n) (n ∷ ns)

-- The node has been carved from one of the blocks.
unfoldable pub Carved : ℕ → List Memblock → Node → Type 0
Carved count [] n = ⊥
Carved count (b ∷ bs) n =
    (n.block ≤ length bs) × (n.index < count) × (n.block ≡ length bs → n.index < b.curindex)

-- The first block has its size, and is not used beyond it.
unfoldable pub FirstBlock : ℕ → List Memblock → Type 0
FirstBlock count [] = Unit
FirstBlock count (b ∷ bs) = (b.count ≡ count) × (b.curindex ≤ count)

-- It has the bytes of its entities.
unfoldable pub HasBytes : ℕ → ℕ → List Memblock → Type 0
HasBytes entity_size count [] = Unit
HasBytes entity_size count (b ∷ bs) = b.size ≡ block_bytes entity_size count

pub record Sound (count : ℕ) (h : Held) (free : List Node) : Type 0 where
  pub positive : 1 ≤ count
  pub sized : h.pool.init_count ≡ count
  pub first : FirstBlock count h.pool.blocks
  pub bytes : HasBytes h.pool.entity_size count h.pool.blocks
  pub fits : h.pool.entity_size * count + 88 ≤ 2 ^ 32
  pub linked : Linked h.pool.nextbuf h.pool.freenodes free
  pub once : (n : Node) → occurs n free + occurs n h.out ≤ 1
  pub carved : (n : Node) → 1 ≤ occurs n free + occurs n h.out → Carved count h.pool.blocks n

pub same_self : (n : Node) → same n n ≡ true
same_self n = ground arith

pub same→eq : (a b : Node) → same a b ≡ true → a ≡ b
same→eq a b h = ground arith

pub store_other :
    (m : Node → Option Node) (n a : Node) (v : Option Node) → same n a ≡ false → store m n v a ≡ m a
store_other m n a v e = rw e

pub store_self : (m : Node → Option Node) (n : Node) (v : Option Node) → store m n v n ≡ v
store_self m n v = rw (same_self n)

-- A write into a node that is not on the free list leaves the list as it is.
pub Linked-store :
    (m : Node → Option Node) (first : Option Node) (free : List Node) (n : Node) (v : Option Node)
    → Linked m first free
    → occurs n free ≡ 0
    → Linked (store m n v) first free
unfolding occurs
Linked-store m none [] n v end_of_list z = end_of_list
Linked-store m none (_ ∷ ns) n v x z = elim x [ ]
Linked-store m (some a) [] n v x z = elim x [ ]
Linked-store m (some a) (_ ∷ ns) n v (node l) z = elim (Bool-cases (same n a)) [
  | inl e ↦ absurd (ground (arith, e, z))
  | inr e ↦ node (
      subst (λ x. Linked (store m n v) x ns) (sym (store_other m n a v e))
        (Linked-store m (m a) ns n v l (omega (arith, z))))
]

pub occurs-drop_node :
    (n m : Node) (ms : List Node)
    → 1 ≤ occurs n ms
    → occurs m (drop_node n ms) + (if same m n then 1 else 0) ≡ occurs m ms
unfolding occurs drop_node
occurs-drop_node n m [] h = absurd (omega arith)
occurs-drop_node n m (k ∷ ks) h = elim (Bool-cases (same n k)) [
  | inl e ↦
      subst
        (λ x.
          occurs m (if same n x then ks else x ∷ drop_node n ks) + (if same m n then 1 else 0)
          ≡ (if same m x then 1 else 0) + occurs m ks)
        (same→eq n k e) (rw (same_self n) (omega arith))
  | inr e ↦ rw e (omega (arith, occurs-drop_node n m ks (ground (arith, e, h))))
]
