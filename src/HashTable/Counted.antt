-- ===== src/HashTable/Counted.antt =====
-- What the rehashing of src/ZToolLib/ztl_table.c needs in order to end: arrays of buckets that have
-- their masks and count their nodes. It does not matter where the nodes stand.
use Prim.Native.Nat.{bit_and}
use native.Mathlib.Decide.{ℕ_discrete}
use ztool_lib.Common.Mask.{bit_and-le}
use ztool_lib.Common.{
  ℕ, ◌+◌, ◌-◌, ◌%◌, ◌^◌, ◌≤◌, ◌<◌, ◌≡◌, refl, ◌∙◌, subst, true, false, ◌==◌, none, some, List, [],
  ◌∷◌, length, arith, Bool-cases, inl, inr, ◌⊎◌,
}
use ztool_lib.Common.Outcome.{done}
use ztool_lib.HashTable.{
  Keys, Node, Intl, Table, reset, bucket, set_bucket, move_chain, next_bucket, rehash_round,
}
use ztool_lib.HashTable.Arrays.{
  chain, total, IsHeld, Stored, bucket_done, set_bucket_done, length-chain-le,
}
use ztool_lib.HashTable.NextBucket.{next_bucket_done}
use ztool_lib.HashTable.States.{IsClear}

module _ {K V : Type 0} where
  pub record IsCounted (tip : Intl K V) : Type 0 where
    pub held : IsHeld tip
    pub masked : tip.size ≡ tip.sizemask + 1
    pub used_total : tip.used ≡ total tip

  -- A table that is rehashing at an index.
  pub record IsMoving (t : Table K V) (i : ℕ) : Type 0 where
    pub first : IsCounted t.first
    pub second : IsCounted t.second
    pub clear : IsClear i t.first
    pub low : i ≤ t.first.size

  Stored-IsCounted :
      (tip tip' : Intl K V) (i used : ℕ) (c : List (Node K V))
      → IsCounted tip
      → Stored tip i c tip'
      → used + length (chain tip i) ≡ tip.used + length c
      → IsCounted (record tip' { used = used })
  unfolding IsHeld total chain
  Stored-IsCounted tip tip' i used c a s h = record {
    held = s.held;
    masked = omega (arith, a.masked, s.sizemask_same, s.size_same);
    used_total = omega (arith, a.used_total, s.totals, h);
  }

module _ {K V : Type 0} (ks : Keys K) where
  -- move_chain stays inside the array, whatever the index loses above 32 bits.
  move_chain-IsCounted :
      (c : List (Node K V)) (tip : Intl K V)
      → IsCounted tip
      → (tip' : Intl K V) × (move_chain ks c tip ≡ done tip') × IsCounted tip'
  unfolding move_chain
  move_chain-IsCounted [] tip a = (tip, refl, a)
  move_chain-IsCounted (n ∷ rest) tip a =
      let i = bit_and (ks.hash n.key) tip.sizemask % 2 ^ 32 in
      let within : i < tip.size =
        omega (arith, a.masked, bit_and-le (ks.hash n.key) tip.sizemask) in
      let old = chain tip i in
      let (tip1, runs, s) = set_bucket_done tip i (n ∷ old) a.held within in
      let reads : bucket tip i ≡ done old = bucket_done tip i a.held within in
      let a1 =
        Stored-IsCounted tip tip1 i (tip1.used + 1) (n ∷ old) a s (omega (arith, s.used_same)) in
      let (tip2, runs', a2) = move_chain-IsCounted rest (record tip1 { used = tip1.used + 1 }) a1 in
      (tip2, rw (reads, runs) runs', a2)

  pub rehash_round-else :
      (t : Table K V) (i at : ℕ) (second first : Intl K V)
      → 1 ≤ t.first.used
      → next_bucket (t.first.size + 1) t.first i ≡ done at
      → bucket t.first at ≡ done (chain t.first at)
      → move_chain ks (chain t.first at) t.second ≡ done second
      → set_bucket t.first at [] ≡ done first
      → rehash_round ks t i
        ≡ done (
          true,
          record t {
            first = record first { used = first.used - length (chain t.first at) };
            second = second;
            rehashidx = some (at + 1);
          },
        )
  unfolding rehash_round
  rehash_round-else t i at second first h e1 e2 e3 e4 =
      let left : (t.first.used == 0) ≡ false = ground arith in rw (left, e1, e2, e3, e4)

  -- A round either finishes the rehashing or goes on at a later index.
  pub round_Moved :
      (t : Table K V) (i : ℕ)
      → IsMoving t i
      → t.rehashidx ≡ some i
      → ((t' : Table K V) × (rehash_round ks t i ≡ done (false, t')) × (t'.rehashidx ≡ none))
        ⊎ ((t' : Table K V) × (rehash_round ks t i ≡ done (true, t'))
            × (j : ℕ) × (t'.rehashidx ≡ some j)
            × IsMoving t' j
            × (i < j)
            × (t'.first.size ≡ t.first.size))
  unfolding rehash_round IsClear chain
  round_Moved t i w e = elim (Bool-cases (t.first.used == 0)) [
    | inl empty ↦
        inl (record t { first = t.second; second = reset; rehashidx = none }, rw (empty), refl)
    | inr left ↦
        let some_left : 1 ≤ t.first.used = ground arith in
        let (at, finds, from, upto, clear') =
          next_bucket_done (t.first.size + 1) t.first i w.first.held
            (omega (arith, w.first.used_total)) w.clear (omega arith) in
        let c = chain t.first at in
        let reads = bucket_done t.first at w.first.held upto in
        let (second, moves, b) = move_chain-IsCounted c t.second w.second in
        let (first, clears, s) = set_bucket_done t.first at [] w.first.held upto in
        let used = first.used - length c in
        inr (
          _,
          rehash_round-else t i at second first some_left finds reads moves clears,
          at + 1,
          refl,
          record {
            first =
                Stored-IsCounted t.first first at used [] w.first s
                  (omega (arith, s.used_same, w.first.used_total, length-chain-le t.first at));
            second = b;
            clear = λ j k. (elim (ℕ_discrete at j) [
              | yes f ↦ subst (λ m. chain first m ≡ []) f s.here
              | no ne ↦ s.other j ne ∙ clear' j (omega arith)
            ]);
            low = omega (arith, s.size_same);
          },
          omega arith,
          s.size_same,
        )
  ]
