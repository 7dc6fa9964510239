-- ===== src/Rbtree/Plain.antt =====
-- Trees without balancing, which have the laws that the clients of src/ZToolLib/ztl_rbtree.h rely on.
use ztool_lib.Common.{
  ℕ, ◌+◌, ◌≤◌, ◌<◌, ◌≡◌, ◌≢◌, refl, ap, ap₂, Bool, true, ltb, ◌==◌, ◌&&◌, if◌then◌else◌, arith,
  Bool-cases, inl, inr,
}
use ztool_lib.Rbtree.{
  Node, Tree, leaf, node, count, Occurs, has_key, IsSearch, Rbtree, IsRemoving, IsRbtree,
  IsTimerTree,
}
use ztool_lib.Rbtree.Counts.{node-ne-leaf, Occurs-root, Occurs-left}

abbrev same : Node → Node → Bool
same m n = (m.key == n.key) && (m.udata == n.udata)

unfoldable pub insert : Node → Tree → Tree
insert m leaf = node leaf m leaf
insert m (node l n r) =
    let l' = insert m l in
    let r' = insert m r in if ltb m.key n.key then node l' n r else node l n r'

unfoldable pub join : Tree → Tree → Tree
join leaf r = r
join (node a n b) r = node a n (join b r)

unfoldable pub delete : Node → Tree → Tree
unfolding join count
delete m leaf = leaf
delete m (node l n r) =
    let l' = delete m l in
    let r' = delete m r in
    if same m n then join l r else if count (same m) l == 0 then node l n r' else node l' n r

-- A leftmost node; any node for a leaf.
unfoldable pub minimum : Tree → Node
minimum leaf = record { key = 0; udata = 0 }
minimum (node leaf n r) = n
minimum (node (node a m b) n r) = minimum (node a m b)

insert_count :
    (m : Node) (t : Tree) (p : Node → Bool)
    → count p (insert m t) ≡ (if p m then 1 else 0) + count p t
unfolding insert count
insert_count m leaf p = omega arith
insert_count m (node l n r) p = ground (arith, insert_count m l p, insert_count m r p)

insert-IsSearch : (m : Node) (t : Tree) → IsSearch t → IsSearch (insert m t)
unfolding insert count IsSearch
insert-IsSearch m leaf s = (λ k h. refl, λ k h. refl, tt, tt)
insert-IsSearch m (node l n r) (low, high, sl, sr) = elim (Bool-cases (ltb m.key n.key)) [
  | inl e ↦ rw (e) (
    λ k h. ground (arith, insert_count m l (has_key k), low k h),
    high,
    insert-IsSearch m l sl,
    sr,
  )
  | inr e ↦ rw (e) (
    low,
    λ k h. ground (arith, insert_count m r (has_key k), high k h),
    sl,
    insert-IsSearch m r sr,
  )
]

join_count : (l r : Tree) (p : Node → Bool) → count p (join l r) ≡ count p l + count p r
unfolding join count
join_count leaf r p = omega arith
join_count (node a n b) r p = omega (arith, join_count b r p)

join-IsSearch :
    (l r : Tree) (b : ℕ)
    → ((k : ℕ) → b < k → count (has_key k) l ≡ 0)
    → ((k : ℕ) → k < b → count (has_key k) r ≡ 0)
    → IsSearch l
    → IsSearch r
    → IsSearch (join l r)
unfolding join count IsSearch
join-IsSearch leaf r b hl hr sl sr = sr
join-IsSearch (node a n c) r b hl hr (low, high, sa, sc) sr =
    let below : n.key ≤ b = ground (arith, hl n.key) in
    (
      low,
      λ k h. omega (arith, join_count c r (has_key k), high k h, hr k (omega arith)),
      sa,
      join-IsSearch c r b (λ k h. omega (arith, hl k h)) hr sc sr,
    )

same_eq : (m n : Node) → same m n ≡ true → m ≡ n
same_eq m n h =
    let keys : m.key ≡ n.key = ground arith in
    let data_ : m.udata ≡ n.udata = ground arith in
    ap₂ (λ (k : ℕ) (u : ℕ). (let x : Node = record { key = k; udata = u } in x)) keys data_

delete_count :
    (m : Node) (t : Tree) (p : Node → Bool)
    → 1 ≤ count (same m) t
    → (if p m then 1 else 0) + count p (delete m t) ≡ count p t
unfolding delete count
delete_count m leaf p h = absurd (omega arith)
delete_count m (node l n r) p h = elim (Bool-cases (same m n)) [
  | inl e ↦
      (let equal : p m ≡ p n = ap p (same_eq m n e) in
        rw (e, equal) (omega (arith, join_count l r p)))
  | inr e ↦ elim (Bool-cases (count (same m) l == 0)) [
    | inl z ↦
        (let right : 1 ≤ count (same m) r = ground (arith, h, e, z) in
          rw (e, z) (omega (arith, delete_count m r p right)))
    | inr z ↦
        (let left : 1 ≤ count (same m) l = ground (arith, z) in
          rw (e, z) (omega (arith, delete_count m l p left)))
  ]
]

delete-IsSearch : (m : Node) (t : Tree) → IsSearch t → 1 ≤ count (same m) t → IsSearch (delete m t)
unfolding delete count IsSearch
delete-IsSearch m leaf s h = absurd (omega arith)
delete-IsSearch m (node l n r) (low, high, sl, sr) h = elim (Bool-cases (same m n)) [
  | inl e ↦ rw (e) (join-IsSearch l r n.key low high sl sr)
  | inr e ↦ elim (Bool-cases (count (same m) l == 0)) [
    | inl z ↦
        (let right : 1 ≤ count (same m) r = ground (arith, h, e, z) in
          rw (e, z)
            (
              low,
              λ k g. omega (arith, delete_count m r (has_key k) right, high k g),
              sl,
              delete-IsSearch m r sr right,
            ))
    | inr z ↦
        (let left : 1 ≤ count (same m) l = ground (arith, z) in
          rw (e, z)
            (
              λ k g. omega (arith, delete_count m l (has_key k) left, low k g),
              high,
              delete-IsSearch m l sl left,
              sr,
            ))
  ]
]

minimum_occurs : (t : Tree) → t ≢ leaf → Occurs (minimum t) t
unfolding minimum Occurs
minimum_occurs leaf h = absurd (h refl)
minimum_occurs (node leaf n r) h = Occurs-root leaf n r
minimum_occurs (node (node a m b) n r) h =
    Occurs-left (minimum (node a m b)) (node a m b) n r
      (minimum_occurs (node a m b) (node-ne-leaf a m b))

minimum_least :
    (t : Tree) → IsSearch t → t ≢ leaf → (k : ℕ) → k < (minimum t).key → count (has_key k) t ≡ 0
unfolding minimum IsSearch count Occurs
minimum_least leaf s h k g = absurd (h refl)
minimum_least (node leaf n r) (low, high, sl, sr) h k g = ground (arith, high k g)
minimum_least (node (node a m b) n r) (low, high, sl, sr) h k g =
    let least = minimum (node a m b) in
    let inner : count (has_key k) (node a m b) ≡ 0 =
      minimum_least (node a m b) sl (node-ne-leaf a m b) k g in
    let some_left : 1 ≤ count (has_key least.key) (node a m b) =
      minimum_occurs (node a m b) (node-ne-leaf a m b) (has_key least.key) (ground arith) in
    let above : least.key ≤ n.key = ground (arith, low least.key) in ground (arith, high k, inner)

unfoldable pub plain : Rbtree
unfolding insert delete minimum
plain = record { insert = insert; delete = delete; minimum = minimum }

same_self : (n : Node) → same n n ≡ true
same_self n = ground arith

plain-IsRemoving : IsRemoving plain
unfolding plain Occurs
plain-IsRemoving = record {
  delete_search = λ n t s o. delete-IsSearch n t s (o (same n) (same_self n));
  delete_count = λ n t p s o. delete_count n t p (o (same n) (same_self n));
  minimum_occurs = λ t _ h. minimum_occurs t h;
  minimum_least = minimum_least;
}

pub plain-IsTimerTree : IsTimerTree plain
unfolding plain
plain-IsTimerTree = record {
  removes = plain-IsRemoving;
  insert_search = λ n t s _ _. insert-IsSearch n t s;
  insert_count = λ n t p _ _ _. insert_count n t p;
}

pub plain-IsRbtree : IsRbtree plain
unfolding plain
plain-IsRbtree = record {
  removes = plain-IsRemoving;
  insert_search = insert-IsSearch;
  insert_count = λ n t p _. insert_count n t p;
}
