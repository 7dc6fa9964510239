-- ===== src/Map/Find.antt =====
-- The search of src/ZToolLib/ztl_map.c.
use native.Mathlib.Decide.{ℕ_discrete}
use ztool_lib.Common.{
  ℕ, ◌+◌, ◌≤◌, ◌≡◌, ◌≢◌, refl, Bool, true, ltb, ◌==◌, ◌&&◌, none, some, arith, Bool-cases, inl, inr,
  ◌⊎◌,
}
use ztool_lib.Rbtree.{Node, Tree, leaf, node, count, Occurs, has_key, IsSearch}
use ztool_lib.Rbtree.Counts.{count-le, Occurs-root, Occurs-left, Occurs-right}
use ztool_lib.Map.{Cmap, rbtree_find, cmap_find}

-- The node that the search finds occurs with the key; where it finds none, no node has the key.
pub rbtree_find_done :
    (t : Tree) (key : ℕ)
    → IsSearch t
    → ((rbtree_find t key ≡ none) × (count (has_key key) t ≡ 0))
      ⊎ ((n : Node) × (rbtree_find t key ≡ some n) × Occurs n t × (n.key ≡ key))
unfolding rbtree_find count IsSearch
rbtree_find_done leaf key s = inl (refl, refl)
rbtree_find_done (node l n r) key (low, high, sl, sr) = elim (Bool-cases (n.key == key)) [
  | inl e ↦ inr (n, rw (e), Occurs-root l n r, ground (arith, e))
  | inr e ↦ elim (Bool-cases (ltb n.key key)) [
    | inl f ↦ elim (rbtree_find_done r key sr) [
      | inl (g, z) ↦ inl (rw (e, f) g, ground (arith, z, low key, f, e))
      | inr (m, g, o, k) ↦ inr (m, rw (e, f) g, Occurs-right m l n r o, k)
    ]
    | inr f ↦ elim (rbtree_find_done l key sl) [
      | inl (g, z) ↦ inl (rw (e, f) g, ground (arith, z, high key, f, e))
      | inr (m, g, o, k) ↦ inr (m, rw (e, f) g, Occurs-left m l n r o, k)
    ]
  ]
]

abbrev pub has_pair : ℕ → ℕ → Node → Bool
has_pair key value n = (n.key == key) && (n.udata == value)

pub count-pairs :
    (key v w : ℕ) (t : Tree)
    → v ≢ w
    → count (has_pair key v) t + count (has_pair key w) t ≤ count (has_key key) t
unfolding count
count-pairs key v w leaf ne = omega arith
count-pairs key v w (node l n r) ne =
    ground (arith, ne, count-pairs key v w l ne, count-pairs key v w r ne)

pub count-pair-le : (key v : ℕ) (t : Tree) → count (has_pair key v) t ≤ count (has_key key) t
count-pair-le key v t = count-le (has_pair key v) (has_key key) t (λ n h. ground arith)

-- A well-formed map of a tree, and one with a node at most for each key.
pub record IsCmap (m : Cmap) : Type 0 where
  pub search : IsSearch m.rbtree
  pub sized : m.size ≡ count (λ _. true) m.rbtree
  pub unique : (key : ℕ) → count (has_key key) m.rbtree ≤ 1

-- What cmap_find gives is in the tree, or the tree does not have the key.
pub cmap_find_done :
    (m : Cmap) (key : ℕ)
    → IsCmap m
    → ((cmap_find m key ≡ m.invalid_value) × (count (has_key key) m.rbtree ≡ 0))
      ⊎ (1 ≤ count (has_pair key (cmap_find m key)) m.rbtree)
unfolding cmap_find Occurs
cmap_find_done m key w = elim (rbtree_find_done m.rbtree key w.search) [
  | inl (e, z) ↦ inl (rw (cmap_find, e), z)
  | inr (n, e, o, k) ↦ inr (rw (cmap_find, e) (o (has_pair key n.udata) (ground (arith, k))))
]

-- The pair of a key decides what cmap_find gives.
pub cmap_find-pair :
    (m : Cmap) (key v : ℕ) → IsCmap m → 1 ≤ count (has_pair key v) m.rbtree → cmap_find m key ≡ v
cmap_find-pair m key v w h = elim (cmap_find_done m key w) [
  | inl (e, z) ↦ absurd (omega (arith, h, z, count-pair-le key v m.rbtree))
  | inr p ↦ elim (ℕ_discrete (cmap_find m key) v) [
    | yes e ↦ e
    | no ne ↦ absurd (omega (arith, count-pairs key (cmap_find m key) v m.rbtree ne, w.unique key))
  ]
]

pub cmap_find-none :
    (m : Cmap) (key : ℕ)
    → IsCmap m
    → count (has_key key) m.rbtree ≡ 0
    → cmap_find m key ≡ m.invalid_value
cmap_find-none m key w z = elim (cmap_find_done m key w) [
  | inl (e, _) ↦ e
  | inr p ↦ absurd (omega (arith, p, z, count-pair-le key (cmap_find m key) m.rbtree))
]
