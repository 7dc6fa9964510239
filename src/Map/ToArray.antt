-- ===== src/Map/ToArray.antt =====
-- cmap_to_array of src/ZToolLib/ztl_map.c writes what the traversal meets, up to the size of the
-- array.
use ztool_lib.Common.{
  ℕ, zero, suc, ◌+◌, ◌≤◌, ◌≡◌, refl, sym, ap, ap₂, ◌∙◌, Bool, true, false, leb, if◌then◌else◌, List,
  [], ◌∷◌, ◌++◌, length, take, drop, set, min, length-append, append_assoc, append-nil, arith,
}
use ztool_lib.Rbtree.{Node, Tree, leaf, node, count}
use ztool_lib.Map.{Cmap, rbtree_traverse, array_push, push_all, cmap_to_array}

-- A write right after a prefix.
set-append :
    {A : Type 0} (xs : List A) (y z : A) (ys : List A)
    → set (xs ++ (y ∷ ys)) (length xs) z ≡ xs ++ (z ∷ ys)
set-append [] y z ys = refl
set-append (x ∷ xs) y z ys = ap (◌∷◌ x) (set-append xs y z ys)

-- The array after the pushes: the prefix that is there, the nodes that fit, and the old rest.
push_all-full :
    (ns : List Node) (arr_size index : ℕ) (kv : List Node)
    → arr_size ≤ index
    → push_all ns arr_size (index, kv) ≡ (index, kv)
unfolding push_all array_push
push_all-full [] arr_size index kv h = refl
push_all-full (n ∷ ns) arr_size index kv h =
    let full : leb arr_size index ≡ true = ground (arith, h) in
    rw (full) (push_all-full ns arr_size index kv h)

abbrev the_nodes : List Node → List Node
the_nodes xs = xs

take-nil : (n : ℕ) → take n (the_nodes []) ≡ []
take-nil zero = refl
take-nil (suc n) = refl

push_all-take :
    (ns front rest : List Node)
    → push_all ns (length front + length rest) (length front, front ++ rest) ≡ (
      length front + min (length ns) (length rest),
      (front ++ take (length rest) ns) ++ drop (length ns) rest,
    )
unfolding push_all array_push
push_all-take [] front rest =
    ap₂ (λ (i : ℕ) (xs : List Node). (i, xs)) (omega arith)
      (rw (take-nil (length rest), append-nil front))
push_all-take (n ∷ ns) front [] =
    push_all-full (n ∷ ns) (length front + 0) (length front) (front ++ []) (omega arith)
    ∙ ap₂ (λ (i : ℕ) (xs : List Node). (i, xs)) (omega arith) (sym (append-nil (front ++ [])))
push_all-take (n ∷ ns) front (r ∷ rest) =
    let one : List Node = n ∷ [] in
    let front' : List Node = front ++ one in
    let longer : length front' ≡ length front + 1 = length-append front one in
    let room : leb (length front + suc (length rest)) (length front) ≡ false = ground arith in
    let size : length front + suc (length rest) ≡ length front' + length rest =
      omega (arith, longer) in
    let pushed : array_push n (length front + suc (length rest)) (length front, front ++ (r ∷ rest))
        ≡ (length front', front' ++ rest) =
      rw (room) (
        ap₂ (λ (i : ℕ) (xs : List Node). (i, xs)) (sym longer)
          (set-append front r n rest ∙ sym (append_assoc front one rest))) in
    rw (pushed, size)
      (push_all-take ns front' rest
        ∙ ap₂ (λ (i : ℕ) (xs : List Node). (i, xs)) (omega (arith, longer))
            (ap (λ xs. xs ++ drop (length ns) rest)
              (append_assoc front one (take (length rest) ns))))

-- The traversal meets each node once.
unfoldable pub tally : (Node → Bool) → List Node → ℕ
tally p [] = 0
tally p (n ∷ ns) = (if p n then 1 else 0) + tally p ns

tally-append : (p : Node → Bool) (xs ys : List Node) → tally p (xs ++ ys) ≡ tally p xs + tally p ys
unfolding tally
tally-append p [] ys = omega arith
tally-append p (x ∷ xs) ys = omega (arith, tally-append p xs ys)

-- The traversal calls the function once with each node of the tree: by any test, as many of its
-- nodes pass as in the tree.
pub traverse-count : (t : Tree) (p : Node → Bool) → tally p (rbtree_traverse t) ≡ count p t
unfolding rbtree_traverse count tally
traverse-count leaf p = refl
traverse-count (node l n r) p = omega (
  arith,
  tally-append p (rbtree_traverse l) (rbtree_traverse r),
  traverse-count l p,
  traverse-count r p,
)

-- cmap_to_array with an array of arr_size pairs: the first pairs of the traversal that fit stand at
-- its front, the rest of the array is as it was, and the map only changes its access index.
pub cmap_to_array-take :
    (m : Cmap) (kv : List Node)
    → cmap_to_array m kv (length kv) ≡ (
      record m { access_index = min (length (rbtree_traverse m.rbtree)) (length kv) },
      take (length kv) (rbtree_traverse m.rbtree) ++ drop (length (rbtree_traverse m.rbtree)) kv,
    )
unfolding cmap_to_array
cmap_to_array-take m kv =
    let ns = rbtree_traverse m.rbtree in
    let pushed : push_all ns (length kv) (0, kv)
        ≡ (min (length ns) (length kv), take (length kv) ns ++ drop (length ns) kv) =
      ap (λ s. push_all ns s (0, kv)) (omega arith)
      ∙ push_all-take ns [] kv
      ∙ ap (λ (i : ℕ). (i, take (length kv) ns ++ drop (length ns) kv)) (omega arith) in
    ap (λ (r : ℕ × List Node). (record m { access_index = r.0 }, r.1)) pushed
