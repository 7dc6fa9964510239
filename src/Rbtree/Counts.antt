-- ===== src/Rbtree/Counts.antt =====
-- The counts of nodes in the trees of src/ZToolLib/ztl_rbtree.h.
use ztool_lib.Common.{◌≤◌, ◌≡◌, ◌≢◌, refl, Bool, true, arith, Bool-cases, inl, inr, ◌⊎◌}
use ztool_lib.Rbtree.{Node, Tree, leaf, node, count, Occurs, has_key}

pub count-le :
    (p q : Node → Bool) (t : Tree) → ((n : Node) → p n ≡ true → q n ≡ true) → count p t ≤ count q t
unfolding count
count-le p q leaf h = omega arith
count-le p q (node l n r) h = ground (arith, count-le p q l h, count-le p q r h, h n)

pub tree-cases : (t : Tree) → (t ≡ leaf) ⊎ ((l : Tree) × (n : Node) × (r : Tree) × (t ≡ node l n r))
tree-cases leaf = inl refl
tree-cases (node l n r) = inr (l, n, r, refl)

pub Occurs-root : (l : Tree) (n : Node) (r : Tree) → Occurs n (node l n r)
unfolding Occurs count
Occurs-root l n r p h = ground (arith, h)

pub Occurs-left : (m : Node) (l : Tree) (n : Node) (r : Tree) → Occurs m l → Occurs m (node l n r)
unfolding Occurs count
Occurs-left m l n r o p h = omega (arith, o p h)

pub Occurs-right : (m : Node) (l : Tree) (n : Node) (r : Tree) → Occurs m r → Occurs m (node l n r)
unfolding Occurs count
Occurs-right m l n r o p h = omega (arith, o p h)

-- No node passes a test that no key allows.
pub count-eq-zero :
    (p : Node → Bool) (t : Tree)
    → ((n : Node) → p n ≡ true → count (has_key n.key) t ≡ 0)
    → count p t ≡ 0
unfolding count
count-eq-zero p leaf h = refl
count-eq-zero p (node l n r) h =
    let left : count p l ≡ 0 = count-eq-zero p l (λ m pm. omega (arith, h m pm)) in
    let right : count p r ≡ 0 = count-eq-zero p r (λ m pm. omega (arith, h m pm)) in
    elim (Bool-cases (p n)) [
      | inl e ↦ (let none_here = h n e in ground (arith, none_here))
      | inr e ↦ ground (arith, left, right, e)
    ]

pub node-ne-leaf : (l : Tree) (n : Node) (r : Tree) → node l n r ≢ leaf
node-ne-leaf l n r e = ground (arith, e)
