-- ===== src/Map/Update.antt =====
-- cmap_add and cmap_del of src/ZToolLib/ztl_map.c are the updates of a finite map.
use native.Mathlib.Decide.{ℕ_discrete}
use ztool_lib.Common.{
  ℕ, ◌+◌, ◌-◌, ◌^◌, ◌<◌, ◌≡◌, refl, sym, ap, ◌∙◌, Bool, true, ◌==◌, if◌then◌else◌, Option, none,
  some, arith, Bool-cases, inl, inr,
}
use ztool_lib.Rbtree.{Node, cleared, count, has_key, IsSearch, Rbtree, IsRbtree}
use ztool_lib.Map.{Cmap, rbtree_find, cmap_create, cmap_find, cmap_add, cmap_del, cmap_del_ex}
use ztool_lib.Map.Find.{
  rbtree_find_done, has_pair, IsCmap, cmap_find_done, cmap_find-pair, cmap_find-none,
}

-- A new map is well-formed.
pub cmap_create-IsCmap : (reserve : ℕ) → IsCmap (cmap_create reserve)
unfolding cmap_create IsSearch count
cmap_create-IsCmap reserve = record { search = tt; sized = refl; unique = λ key. omega arith }

module _ (rb : Rbtree) (laws : IsRbtree rb) where
  pub cmap_add_done :
      (m : Cmap) (key value : ℕ)
      → IsCmap m
      → m.size + 1 < 2 ^ 31
      → count (has_key key) m.rbtree ≡ 0
      → IsCmap (cmap_add rb m key value)
        × ((cmap_add rb m key value).size ≡ m.size + 1)
        × ((q : ℕ)
            → cmap_find (cmap_add rb m key value) q ≡ (if key == q then value else cmap_find m q))
  unfolding cmap_add
  cmap_add_done m key value w small new =
      let n : Node = record { key = key; udata = value } in
      let m' : Cmap = cmap_add rb m key value in
      let counts : (p : Node → Bool)
          → count p m'.rbtree ≡ (if p n then 1 else 0) + count p m.rbtree =
        λ p. laws.insert_count n m.rbtree p w.search in
      let w' : IsCmap m' = record {
        search = laws.insert_search n m.rbtree w.search;
        sized = ground (arith, counts (λ _. true), w.sized, small);
        unique = λ k. elim (ℕ_discrete key k) [
          | yes e ↦ rw⁻¹ (e) (ground (arith, counts (has_key key), new))
          | no ne ↦ ground (arith, ne, counts (has_key k), w.unique k)
        ];
      } in
      (
        w',
        omega (arith, small),
        λ q. elim (Bool-cases (key == q)) [
          | inl e ↦
              rw (e) (cmap_find-pair m' q value w' (ground (arith, e, counts (has_pair q value))))
          | inr e ↦ rw (e) (elim (cmap_find_done m q w) [
            | inl (f, z) ↦ cmap_find-none m' q w' (ground (arith, e, z, counts (has_key q))) ∙ sym f
            | inr h ↦
                cmap_find-pair m' q (cmap_find m q) w'
                  (omega (arith, h, counts (has_pair q (cmap_find m q))))
          ])
        ],
      )

  cmap_del-step :
      (m : Cmap) (key : ℕ) (o : Option Node)
      → rbtree_find m.rbtree key ≡ o
      → cmap_del rb m key ≡ elim o [
        | none ↦ (m.invalid_value, m)
        | some n ↦ (
          n.udata,
          record m { rbtree = rb.delete n m.rbtree; size = m.size - 1; idles = m.idles + 1 },
        )
      ]
  unfolding cmap_del cmap_del_ex
  cmap_del-step m key o e =
      let find : Option Node → Option Node × Cmap = λ o. elim o [
        | none ↦ (none, m)
        | some n ↦ (some (cleared n), record m { rbtree = rb.delete n m.rbtree; size = m.size - 1 })
      ] in
      let give : Option Node × Cmap → ℕ × Cmap = λ r. elim r.0 [
        | none ↦ (m.invalid_value, r.1)
        | some n ↦ (n.udata, record (r.1) { idles = r.1.idles + 1 })
      ] in
      let result : Option Node → ℕ × Cmap = λ o. elim o [
        | none ↦ (m.invalid_value, m)
        | some n ↦ (
          n.udata,
          record m { rbtree = rb.delete n m.rbtree; size = m.size - 1; idles = m.idles + 1 },
        )
      ] in
      let finish : give (find o) ≡ result o = elim o as (λ x. give (find x) ≡ result x) [
        | none ↦ refl
        | some n ↦ refl
      ] in
      ap (λ x. give (find x)) e ∙ finish

  -- For tree operations that have the laws: cmap_del on a well-formed map: it returns what
  -- cmap_find gives for the key, the map stays well-formed and no longer has the key, and gives
  -- for every other key what it gave before.
  pub cmap_del_done :
      (m : Cmap) (key : ℕ)
      → IsCmap m
      → (m' : Cmap) × (cmap_del rb m key ≡ (cmap_find m key, m'))
        × IsCmap m'
        × (count (has_key key) m'.rbtree ≡ 0)
        × ((q : ℕ) → cmap_find m' q ≡ (if key == q then m.invalid_value else cmap_find m q))
  unfolding cmap_find
  cmap_del_done m key w = elim (rbtree_find_done m.rbtree key w.search) [
    | inl (e, z) ↦ (
      m,
      cmap_del-step m key none e ∙ ap (λ v. (v, m)) (sym (cmap_find-none m key w z)),
      w,
      z,
      λ q. elim (Bool-cases (key == q)) [
        | inl f ↦ rw (f) (cmap_find-none m q w (ground (arith, f, z)))
        | inr f ↦ rw (f)
      ],
    )
    | inr (n, e, there, k) ↦
        (let m' : Cmap = record m {
          rbtree = rb.delete n m.rbtree;
          size = m.size - 1;
          idles = m.idles + 1;
        } in
          let counts : (p : Node → Bool)
              → (if p n then 1 else 0) + count p m'.rbtree ≡ count p m.rbtree =
            λ p. laws.removes.delete_count n m.rbtree p w.search there in
          let gives : cmap_find m key ≡ n.udata = rw (cmap_find, e) in
          let gone : count (has_key key) m'.rbtree ≡ 0 =
            ground (arith, k, counts (has_key key), w.unique key) in
          let w' : IsCmap m' = record {
            search = laws.removes.delete_search n m.rbtree w.search there;
            sized = ground (arith, counts (λ _. true), w.sized);
            unique = λ q. ground (arith, counts (has_key q), w.unique q);
          } in
          (
            m',
            cmap_del-step m key (some n) e ∙ ap (λ v. (v, m')) (sym gives),
            w',
            gone,
            λ q. elim (Bool-cases (key == q)) [
              | inl f ↦ rw (f) (cmap_find-none m' q w' (ground (arith, f, gone)))
              | inr f ↦ rw (f) (elim (cmap_find_done m q w) [
                | inl (g, z) ↦
                    cmap_find-none m' q w' (ground (arith, z, counts (has_key q))) ∙ sym g
                | inr h ↦
                    cmap_find-pair m' q (cmap_find m q) w'
                      (ground (arith, f, k, h, counts (has_pair q (cmap_find m q))))
              ])
            ],
          ))
  ]
