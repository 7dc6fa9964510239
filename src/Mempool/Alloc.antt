-- ===== src/Mempool/Alloc.antt =====
-- What one call of ztl_mp_alloc (src/ZToolLib/ztl_mempool.c) does to a sound pool.
use native.Mathlib.Decide.{dec_lt}
use ztool_lib.Common.{
  ◌*◌, ◌^◌, leb, ℕ, ◌+◌, ◌*◌, leb, ◌≤◌, ◌<◌, ◌≡◌, refl, sym, ap, subst, ◌∙◌, Bool, true, false,
  ◌==◌, if◌then◌else◌, Option, none, some, List, [], ◌∷◌, length, arith, tests, ◌⊎◌, inl, inr,
  Bool-cases, ne→==,
}
use ztool_lib.Mempool.{
  Node, Memblock, Mempool, Call, returned, null_access, spins, same, store, block_bytes,
  alloc_block, carve, exhausted, mp_alloc,
}
use ztool_lib.Mempool.Held.{
  Held, occurs, Linked, Carved, FirstBlock, HasBytes, Sound, same_self, same→eq, Linked-store,
  end_of_list, node,
}

pub Carved-index : (count : ℕ) (bs : List Memblock) (n : Node) → Carved count bs n → n.index < count
unfolding Carved
Carved-index count [] n c = absurd c
Carved-index count (b ∷ bs) n c = c.1

pub data Handed (count : ℕ) (out : List Node) : Call (Option Node) → Type 0 where
  handed :
      {n : Node} {p : Mempool} (free : List Node)
      → occurs n out ≡ 0
      → n.index < count
      → Sound count (record { pool = p; out = n ∷ out }) free
      → Handed count out (returned (some n) p)
  nothing :
      {p : Mempool} (free : List Node)
      → Sound count (record { pool = p; out = out }) free
      → Handed count out (returned none p)
  stops_null : Handed count out null_access
  stops_spin : Handed count out spins

-- The free list gives its first node.
pub take_Handed :
    (count : ℕ) (h : Held) (n : Node) (ns : List Node) (l : Bool) (f e : ℕ)
    → Sound count h (n ∷ ns)
    → Linked h.pool.nextbuf (h.pool.nextbuf n) ns
    → Handed count h.out (
        returned (some n) (record (h.pool) {
          locked = l;
          free_count = f;
          exposed_count = e;
          freenodes = h.pool.nextbuf n;
          nextbuf = store h.pool.nextbuf n none;
        }))
unfolding occurs
take_Handed count h n ns l f e s k =
    let self = same_self n in
    let mine : occurs n ns + occurs n h.out ≡ 0 = ground (arith, s.once n, self) in
    handed ns (omega (arith, mine))
      (Carved-index count h.pool.blocks n (s.carved n (ground (arith, self))))
      (record {
        positive = s.positive;
        sized = s.sized;
        first = s.first;
        bytes = s.bytes;
        fits = s.fits;
        linked = Linked-store h.pool.nextbuf (h.pool.nextbuf n) ns n none k (omega (arith, mine));
        once = λ m. omega (arith, s.once m);
        carved = λ m c. s.carved m (omega (arith, c));
      })

pub list-cases : {A : Type 0} (xs : List A) → (xs ≡ []) ⊎ ((x : A) × (ys : List A) × (xs ≡ x ∷ ys))
list-cases [] = inl refl
list-cases (x ∷ ys) = inr (x, ys, refl)

pub exhausted-eq :
    (mp : Mempool) (b : Memblock) (bs : List Memblock)
    → mp.blocks ≡ b ∷ bs
    → exhausted mp ≡ (b.curindex == b.count)
unfolding exhausted
exhausted-eq mp b bs e = rw e

product_le : (i count size : ℕ) → i ≤ count → i * size ≤ size * count
product_le i count size h = grind arith

-- The first entities of a block lie in its bytes.
bytes_inside :
    (i count size bytes : ℕ)
    → i ≤ count
    → bytes ≡ block_bytes size count
    → size * count + 88 ≤ 2 ^ 32
    → leb (i * size) bytes ≡ true
bytes_inside i count size bytes h e k =
    let within : i * size ≤ bytes = omega (arith, product_le i count size h, e, k) in ground arith

-- A block with room gives its next node, which no one has.
pub carve-Handed :
    (count : ℕ) (h : Held)
    → Sound count h []
    → h.pool.freenodes ≡ none
    → exhausted h.pool ≡ false
    → Handed count h.out (carve h.pool)
unfolding carve exhausted occurs Carved FirstBlock HasBytes
carve-Handed count h s none_free room = elim (list-cases h.pool.blocks) [
  | inl e ↦ rw e stops_null
  | inr (b, bs, e) ↦
      let fresh : Node = record { block = length bs; index = b.curindex } in
      let first = subst (λ x. FirstBlock count x) e s.first in
      let old : (m : Node) → 1 ≤ occurs m h.out → Carved count (b ∷ bs) m =
        λ m c. subst (λ x. Carved count x m) e (s.carved m (ground (arith, c))) in
      let cur : b.curindex < count =
        omega (tests, first.0, first.1, sym (exhausted-eq h.pool b bs e) ∙ room) in
      let new_one : occurs fresh h.out ≡ 0 = elim (dec_lt 0 (occurs fresh h.out)) [
        | yes k ↦ absurd (omega (arith, (old fresh k).2 refl))
        | no k ↦ omega (arith, k)
      ] in
      let size = subst (λ x. HasBytes h.pool.entity_size count x) e s.bytes in
      let inside : leb ((b.curindex + 1) * h.pool.entity_size) b.size ≡ true =
        bytes_inside (b.curindex + 1) count h.pool.entity_size b.size (omega (arith, cur)) size
          s.fits in
      rw (e, inside)
        ((handed [] new_one cur (record {
          positive = s.positive;
          sized = s.sized;
          first = (first.0, omega (arith, cur));
          bytes = size;
          fits = s.fits;
          linked = Linked-store h.pool.nextbuf h.pool.freenodes [] fresh none s.linked refl;
          once = λ m. elim (Bool-cases (same m fresh)) [
            | inl t ↦
                rw t
                  (omega (arith, subst (λ x. occurs x h.out ≡ 0) (sym (same→eq m fresh t)) new_one))
            | inr t ↦ rw t (omega (arith, s.once m))
          ];
          carved = λ m c. elim (Bool-cases (same m fresh)) [
            | inl t ↦
                subst (λ x. Carved count (record b { curindex = b.curindex + 1 } ∷ bs) x)
                  (sym (same→eq m fresh t)) (omega arith, cur, λ _. omega arith)
            | inr t ↦ let o = old m (ground (arith, c, t)) in (o.0, o.1, λ k. omega (arith, o.2 k))
          ];
        })))
]

pub Carved-block :
    (count : ℕ) (bs : List Memblock) (n : Node) → Carved count bs n → n.block < length bs
unfolding Carved
Carved-block count [] n c = absurd c
Carved-block count (b ∷ bs) n c = omega (arith, c.0)

-- A new block has room, and changes nothing else.
pub grown_Sound :
    (count : ℕ) (h : Held)
    → Sound count h []
    → Sound count
        (record h {
          pool = record (h.pool) {
            blocks =
                record {
                  curindex = 0;
                  count = h.pool.init_count;
                  size = block_bytes h.pool.entity_size h.pool.init_count;
                }
                ∷ h.pool.blocks;
          };
        })
        []
unfolding FirstBlock Carved HasBytes
grown_Sound count h s = record {
  positive = s.positive;
  sized = s.sized;
  first = (s.sized, omega arith);
  bytes = ap (λ c. block_bytes h.pool.entity_size c) s.sized;
  fits = s.fits;
  linked = s.linked;
  once = s.once;
  carved = λ m c.
      let o = s.carved m c in
      let b = Carved-block count h.pool.blocks m o in
      (omega (arith, b), Carved-index count h.pool.blocks m o, λ k. absurd (omega (arith, b, k)));
}

pub Linked-nil : (m : Node → Option Node) (first : Option Node) → Linked m first [] → first ≡ none
Linked-nil m none end_of_list = refl
Linked-nil m (some a) x = elim x [ ]

pub Linked-cons :
    (m : Node → Option Node) (first : Option Node) (n : Node) (ns : List Node)
    → Linked m first (n ∷ ns)
    → (first ≡ some n) × Linked m (m n) ns
Linked-cons m none n ns x = elim x [ ]
Linked-cons m (some a) _ ns (node l) = (refl, l)

pub Handed-if :
    {count : ℕ} {out : List Node} {x y : Call (Option Node)} (b : Bool)
    → (b ≡ true → Handed count out x)
    → (b ≡ false → Handed count out y)
    → Handed count out (if b then x else y)
Handed-if true f g = f refl
Handed-if false f g = g refl

-- The free list is empty.
pub Handed-exhausted :
    (count : ℕ) (h : Held) (malloced : Bool)
    → Sound count h []
    → h.pool.freenodes ≡ none
    → h.pool.locked ≡ false
    → Handed count h.out (mp_alloc malloced h.pool)
unfolding mp_alloc alloc_block
Handed-exhausted count h malloced s f l =
    rw (l, f)
      (elim (Bool-cases (exhausted h.pool)) [
        | inr room ↦ rw room (carve-Handed count h s f room)
        | inl full ↦ rw full (
            Handed-if h.pool.auto_expand
              (λ expands. elim (Bool-cases malloced) [
                | inr failed ↦ rw failed stops_null
                | inl ok ↦ rw ok (
                    carve-Handed count _ (grown_Sound count h s) f
                      (ne→== _ _ (omega (arith, s.positive, s.sized))))
              ])
              (λ fixed. nothing [] (record {
                positive = s.positive;
                sized = s.sized;
                first = s.first;
                bytes = s.bytes;
                fits = s.fits;
                linked = s.linked;
                once = s.once;
                carved = s.carved;
              })))
      ])

pub Handed-alloc :
    (count : ℕ) (h : Held) (free : List Node) (malloced : Bool)
    → Sound count h free
    → Handed count h.out (mp_alloc malloced h.pool)
unfolding mp_alloc
Handed-alloc count h [] malloced s = elim (Bool-cases h.pool.locked) [
  | inl l ↦ rw l stops_spin
  | inr l ↦
      Handed-exhausted count h malloced s (Linked-nil h.pool.nextbuf h.pool.freenodes s.linked) l
]
Handed-alloc count h (n ∷ ns) malloced s = elim (Bool-cases h.pool.locked) [
  | inl l ↦ rw l stops_spin
  | inr l ↦
      let k = Linked-cons h.pool.nextbuf h.pool.freenodes n ns s.linked in
      rw (l, k.0) (take_Handed count h n ns false _ _ s k.1)
]
