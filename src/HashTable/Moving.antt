-- ===== src/HashTable/Moving.antt =====
-- Moving a chain of src/ZToolLib/ztl_table.c to an array, and clearing its bucket.
use mathlib.Core.Option.{or_else}
use ztool_lib.Common.{
  ℕ, ◌+◌, ◌-◌, ◌%◌, ◌^◌, ◌<◌, ◌≡◌, refl, sym, ◌∙◌, List, [], ◌∷◌, length, arith, inl, inr,
}
use ztool_lib.Common.Outcome.{done, fault, out_of_fuel, ◌>>=◌}
use ztool_lib.HashTable.{Keys, Node, Intl, bucket, set_bucket, link_node, move_chain}
use ztool_lib.HashTable.Chains.{
  IsKeys, lookup, count, lookup-eq-none, count-cons, lookup-cons, count-one, or_else-none,
}
use ztool_lib.HashTable.Arrays.{chain, Stored, set_bucket_done, length-chain-le}
use ztool_lib.HashTable.Placed.{
  home, home-word, number, view, IsArray, Joined, chain-home, Stored-IsArray, link_node_done,
}

module _ {K V : Type 0} (ks : Keys K) (laws : IsKeys ks) where
  move_chain-link_node :
      (n : Node K V) (rest : List (Node K V)) (tip : Intl K V)
      → home ks tip n.key % 2 ^ 32 ≡ home ks tip n.key
      → move_chain ks (n ∷ rest) tip ≡ (link_node ks tip n >>= move_chain ks rest)
  unfolding move_chain link_node
  move_chain-link_node n rest tip word =
      let i = home ks tip n.key in
      rw word
        (elim (bucket tip i)
          as (λ b.
            (b >>= λ c.
            set_bucket tip i (n ∷ c) >>= λ t. move_chain ks rest (record t { used = t.used + 1 }))
            ≡ ((b >>= λ c. set_bucket tip i (n ∷ c) >>= λ t. done (record t { used = t.used + 1 }))
                >>= move_chain ks rest)) [
                  | done c ↦
                      (elim (set_bucket tip i (n ∷ c))
                        as (λ b.
                          (b >>= λ t. move_chain ks rest (record t { used = t.used + 1 })) ≡ (
                            (b >>= λ t. done (record t { used = t.used + 1 }))
                            >>= move_chain ks rest)) [
                              | done t ↦ refl
                              | fault ↦ refl
                              | out_of_fuel ↦ refl
                            ])
                  | fault ↦ refl
                  | out_of_fuel ↦ refl
                ])

  pub cons-Joined :
      (n : Node K V) (c : List (Node K V)) (tip mid tip' : Intl K V)
      → Joined ks (n ∷ []) tip mid
      → Joined ks c mid tip'
      → Joined ks (n ∷ c) tip tip'
  unfolding or_else
  cons-Joined n c tip mid tip' one rest = record {
    numbers = λ key. omega (arith, one.numbers key, rest.numbers key, count-cons ks key n c);
    views = λ key le.
        (let sums = one.numbers key in
          let step = count-cons ks key n c in
          let first : view ks mid key ≡ or_else (lookup ks key (n ∷ [])) (view ks tip key) =
            one.views key (omega arith) in
          let second : view ks tip' key ≡ or_else (lookup ks key c) (view ks mid key) =
            rest.views key (omega arith) in
          ground (
            arith,
            lookup-cons ks key n c,
            count-one ks key n,
            lookup-eq-none ks key c,
            first,
            second,
            step,
          ));
  }

  -- move_chain moves a chain into an array.
  pub move_chain_done :
      (c : List (Node K V)) (tip : Intl K V)
      → IsArray ks tip
      → (tip' : Intl K V) × (move_chain ks c tip ≡ done tip')
        × IsArray ks tip'
        × Joined ks c tip tip'
        × (tip'.used ≡ tip.used + length c)
  unfolding move_chain link_node count lookup or_else
  move_chain_done [] tip a =
      (tip, refl, a, record { numbers = λ key. omega arith; views = λ key _. refl }, omega arith)
  move_chain_done (n ∷ rest) tip a =
      let (mid, runs, a1, j1, u1) = link_node_done ks laws tip n a in
      let (tip', runs', a2, j2, u2) = move_chain_done rest mid a1 in
      (
        tip',
        move_chain-link_node n rest tip (home-word ks tip n.key a) ∙ rw (runs) runs',
        a2,
        cons-Joined n rest tip mid tip' j1 j2,
        omega (arith, u1, u2),
      )

  -- A bucket that is emptied gives its nodes back.
  pub clear_bucket_done :
      (tip : Intl K V) (i : ℕ)
      → IsArray ks tip
      → i < tip.size
      → (tip1 : Intl K V) × (set_bucket tip i [] ≡ done tip1)
        × Stored tip i [] tip1
        × IsArray ks (record tip1 { used = tip1.used - length (chain tip i) })
        × Joined ks (chain tip i) tip1 tip
  unfolding count lookup number view or_else
  clear_bucket_done tip i a within =
      let (tip1, runs, s) = set_bucket_done tip i [] a.held within in
      let fits = length-chain-le tip i in
      (
        tip1,
        runs,
        s,
        Stored-IsArray ks tip tip1 i (tip1.used - length (chain tip i)) [] a s
            (omega (arith, fits, s.used_same, a.used_total)) (λ key _. refl),
        record {
          numbers = λ key. elim (chain-home ks tip tip1 i [] key s) [
            | inl (e, f) ↦ rw (f, e) (omega arith)
            | inr (ne, f) ↦ rw (f, a.placed key i ne) (omega arith)
          ];
          views = λ key _. elim (chain-home ks tip tip1 i [] key s) [
            | inl (e, f) ↦ rw (f, sym e, or_else-none (lookup ks key (chain tip i)))
            | inr (ne, f) ↦ rw (f, lookup-eq-none ks key (chain tip i) (a.placed key i ne))
          ];
        },
      )
