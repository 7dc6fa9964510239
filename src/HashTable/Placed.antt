-- ===== src/HashTable/Placed.antt =====
-- The arrays of src/ZToolLib/ztl_table.c with every node in the chain of its hash: adding a node, moving
-- a chain and clearing one.
use Prim.Native.Nat.{bit_and}
use native.Mathlib.Decide.{ℕ_discrete}
use mathlib.Core.Option.{or_else}
use ztool_lib.Common.Mask.{bit_and-le}
use ztool_lib.Common.{
  ℕ, ◌+◌, ◌-◌, ◌%◌, ◌^◌, ◌≤◌, ◌<◌, ◌≡◌, ◌≢◌, refl, sym, ap, ◌∙◌, subst, true, Option, none, some,
  List, [], ◌∷◌, length, arith, inl, inr, ◌⊎◌, replicate, length-replicate,
}
use ztool_lib.Common.Outcome.{done}
use ztool_lib.HashTable.{Keys, Node, Intl, bucket, link_node}
use ztool_lib.HashTable.Chains.{
  IsKeys, lookup, count, lookup-eq-none, count_congr, count-cons, lookup-cons,
}
use ztool_lib.HashTable.Arrays.{
  chain, total, IsHeld, Stored, bucket_done, set_bucket_done, sum_lengths-replicate,
  get_or-replicate, chain-eq-empty,
}

module _ {K V : Type 0} (ks : Keys K) where
  -- The bucket of a key, its number of nodes, and the value that the array holds for it.
  abbrev pub home : Intl K V → K → ℕ
  home tip key = bit_and (ks.hash key) tip.sizemask

  unfoldable pub number : Intl K V → K → ℕ
  unfolding count chain
  number tip key = count ks key (chain tip (home tip key))

  unfoldable pub view : Intl K V → K → Option V
  unfolding lookup chain
  view tip key = lookup ks key (chain tip (home tip key))

  -- A well-formed array of buckets, as many as a 32-bit index reaches.
  pub record IsArray (tip : Intl K V) : Type 0 where
    pub held : IsHeld tip
    pub masked : tip.size ≡ tip.sizemask + 1
    pub word : tip.size ≤ 2 ^ 32
    pub used_total : tip.used ≡ total tip
    pub placed : (key : K) (i : ℕ) → i ≢ home tip key → count ks key (chain tip i) ≡ 0

  -- `tip'` holds the nodes of `c` besides those of `tip`.
  pub record Joined (c : List (Node K V)) (tip tip' : Intl K V) : Type 0 where
    pub numbers : (key : K) → number tip' key ≡ count ks key c + number tip key
    pub views :
        (key : K)
        → count ks key c + number tip key ≤ 1
        → view tip' key ≡ or_else (lookup ks key c) (view tip key)

  pub view-eq-none : (tip : Intl K V) (key : K) → number tip key ≡ 0 → view tip key ≡ none
  unfolding number view
  view-eq-none tip key h = lookup-eq-none ks key (chain tip (home tip key)) h

  pub home-lt-size : (tip : Intl K V) (key : K) → IsArray tip → home tip key < tip.size
  home-lt-size tip key a = omega (arith, a.masked, bit_and-le (ks.hash key) tip.sizemask)

  -- The index in 32 bits is the bucket.
  pub home-word : (tip : Intl K V) (key : K) → IsArray tip → home tip key % 2 ^ 32 ≡ home tip key
  home-word tip key a = omega (arith, home-lt-size tip key a, a.word)

  pub number-eq-zero : (tip : Intl K V) (key : K) → total tip ≡ 0 → number tip key ≡ 0
  unfolding number count
  number-eq-zero tip key h = rw (chain-eq-empty tip (home tip key) h)

  -- A new array of empty buckets.
  pub replicate-IsArray :
      (n : ℕ)
      → 1 ≤ n
      → n ≤ 2 ^ 32
      → IsArray (record { size = n; sizemask = n - 1; used = 0; buckets = some (replicate n []) })
  unfolding chain total IsHeld count
  replicate-IsArray n h k = record {
    held = (replicate n [], refl, length-replicate n []);
    masked = omega arith;
    word = k;
    used_total = sym (sum_lengths-replicate (Node K V) n);
    placed = λ key i ne. rw (get_or-replicate {A = Node K V} n i);
  }

  -- What a store does to the chain of a key, and that it keeps an array well-formed.
  pub chain-home :
      (tip tip' : Intl K V) (i : ℕ) (c : List (Node K V)) (key : K)
      → Stored tip i c tip'
      → ((i ≡ home tip key) × (chain tip' (home tip' key) ≡ c))
        ⊎ ((i ≢ home tip key) × (chain tip' (home tip' key) ≡ chain tip (home tip key)))
  chain-home tip tip' i c key s =
      let homes : home tip' key ≡ home tip key =
        ap (λ m. bit_and (ks.hash key) m) s.sizemask_same in
      elim (ℕ_discrete i (home tip key)) [
        | yes e ↦ inl (e, rw (homes, sym e) s.here)
        | no ne ↦ inr (ne, rw (homes) (s.other (home tip key) ne))
      ]

  pub Stored-IsArray :
      (tip tip' : Intl K V) (i used : ℕ) (c : List (Node K V))
      → IsArray tip
      → Stored tip i c tip'
      → used + length (chain tip i) ≡ tip.used + length c
      → ((key : K) → i ≢ home tip key → count ks key c ≡ 0)
      → IsArray (record tip' { used = used })
  unfolding IsHeld total chain
  Stored-IsArray tip tip' i used c a s h away =
      let homes : (key : K) → home tip' key ≡ home tip key =
        λ key. ap (λ m. bit_and (ks.hash key) m) s.sizemask_same in
      record {
        held = s.held;
        masked = omega (arith, a.masked, s.sizemask_same, s.size_same);
        word = omega (arith, a.word, s.size_same);
        used_total = omega (arith, a.used_total, s.totals);
        placed = λ key j ne.
            (let ne' : j ≢ home tip key = λ e. ne (e ∙ sym (homes key)) in
              elim (ℕ_discrete i j) [
                | yes e ↦
                    subst (λ m. count ks key (chain tip' m) ≡ 0) e
                      (rw (s.here) (away key (λ f. ne' (sym e ∙ f))))
                | no other ↦ rw (s.other j other) (a.placed key j ne')
              ]);
      }

module _ {K V : Type 0} (ks : Keys K) (laws : IsKeys ks) where
  pub home_congr : (tip : Intl K V) (a b : K) → ks.cmp a b ≡ true → home ks tip a ≡ home ks tip b
  home_congr tip a b e = ap (λ h. bit_and h tip.sizemask) (laws.hash_cmp a b e)

  pub number_congr :
      (tip : Intl K V) (a b : K) → ks.cmp a b ≡ true → number ks tip a ≡ number ks tip b
  unfolding number
  number_congr tip a b e =
      rw (home_congr tip a b e, count_congr ks laws a b e (chain tip (home ks tip b)))

  -- link_node puts a node into an array.
  pub link_node_done :
      (tip : Intl K V) (n : Node K V)
      → IsArray ks tip
      → (tip' : Intl K V) × (link_node ks tip n ≡ done tip')
        × IsArray ks tip'
        × Joined ks (n ∷ []) tip tip'
        × (tip'.used ≡ tip.used + 1)
  unfolding link_node count lookup number view chain or_else
  link_node_done tip n a =
      let i = home ks tip n.key in
      let within : i < tip.size = home-lt-size ks tip n.key a in
      let old = chain tip i in
      let (tip1, runs, s) = set_bucket_done tip i (n ∷ old) a.held within in
      let tip' : Intl K V = record tip1 { used = tip1.used + 1 } in
      let reads : bucket tip i ≡ done old = bucket_done tip i a.held within in
      let away : (key : K) → i ≢ home ks tip key → count ks key (n ∷ old) ≡ 0 =
        λ key ne. ground (arith, home_congr tip n.key key, a.placed key i ne) in
      (
        tip',
        rw (reads, runs),
        Stored-IsArray ks tip tip1 i (tip1.used + 1) (n ∷ old) a s (omega (arith, s.used_same))
            away,
        record {
          numbers = λ key. elim (chain-home ks tip tip1 i (n ∷ old) key s) [
            | inl (e, f) ↦ rw (f, sym e) (count-cons ks key n old)
            | inr (ne, f) ↦ rw (f) (ground (arith, home_congr tip n.key key))
          ];
          views = λ key _. elim (chain-home ks tip tip1 i (n ∷ old) key s) [
            | inl (e, f) ↦ rw (f, sym e) (lookup-cons ks key n old)
            | inr (ne, f) ↦ rw (f) (ground (arith, home_congr tip n.key key))
          ];
        },
        omega (arith, s.used_same),
      )
