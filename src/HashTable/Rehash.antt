-- ===== src/HashTable/Rehash.antt =====
-- The steps of the rehashing of src/ZToolLib/ztl_table.c.
use native.Mathlib.Decide.{ℕ_discrete}
use mathlib.Core.Option.{or_else}
use ztool_lib.Common.{
  ℕ, zero, suc, ◌+◌, ◌-◌, ◌≤◌, ◌<◌, ◌≡◌, ◌≢◌, refl, sym, ap₂, ◌∙◌, subst, Bool, true, false, ◌==◌,
  if◌then◌else◌, Option, none, some, List, [], length, arith, Bool-cases, option-cases, inl, inr,
  ◌⊎◌,
}
use ztool_lib.Common.Outcome.{Outcome, done, ◌>>=◌}
use ztool_lib.HashTable.{
  Keys, Node, Intl, Table, reset, table_length, rehash_round, table_rehash, rehash_step,
}
use ztool_lib.HashTable.Chains.{IsKeys, lookup, lookup-eq-none, or_else-none}
use ztool_lib.HashTable.Arrays.{chain, bucket_done, length-chain-le}
use ztool_lib.HashTable.Placed.{number, view, view-eq-none, number-eq-zero, Joined}
use ztool_lib.HashTable.Moving.{move_chain_done, clear_bucket_done}
use ztool_lib.HashTable.States.{
  IsClear, IsReset, IsShaped, IsTable, value_of, IsArray-buckets, IsShaped_moving, number_reset,
}
use ztool_lib.HashTable.NextBucket.{next_bucket_done}
use ztool_lib.HashTable.Counted.{rehash_round-else, IsMoving, round_Moved}

module _ {K V : Type 0} (ks : Keys K) where
  -- What a round of rehashing gives.
  pub record Round (t : Table K V) (i : ℕ) (more : Bool) (t' : Table K V) : Type 0 where
    pub is_table : IsTable ks t'
    pub values : (key : K) → value_of ks t' key ≡ value_of ks t key
    pub has_array : t'.first.buckets ≢ none
    pub same_length : table_length t' ≡ table_length t
    pub next :
        ((more ≡ false) × (t'.rehashidx ≡ none))
        ⊎ ((more ≡ true)
            × (j : ℕ) × (t'.rehashidx ≡ some j)
            × (i < j)
            × (j ≤ t.first.size)
            × (t'.first.size ≡ t.first.size))

  -- The end of the rehashing.
  last-Round :
      (t : Table K V) (i : ℕ)
      → IsTable ks t
      → t.rehashidx ≡ some i
      → t.first.used ≡ 0
      → Round t i false (record t { first = t.second; second = reset; rehashidx = none })
  unfolding value_of IsShaped IsReset
  last-Round t i w e h =
      let (a, b, clear, low) = IsShaped_moving ks t i w e in
      let gone : (key : K) → number ks t.first key ≡ 0 =
        λ key. number-eq-zero ks t.first key (sym a.used_total ∙ h) in
      let zeros : (key : K) → number ks (reset {V = V}) key ≡ 0 =
        λ key. number_reset ks (reset {V = V}) key (refl, refl, refl) in
      record {
        is_table = record {
          shaped = (inl b, (refl, refl, refl));
          unique = λ key. omega (arith, w.unique key, zeros key);
          reserved = λ f. absurd (IsArray-buckets ks t.second b f);
        };
        values = λ key.
            (let second = view-eq-none ks (reset {V = V}) key (zeros key) in
              rw (second, view-eq-none ks t.first key (gone key))
                (or_else-none (view ks t.second key)));
        has_array = IsArray-buckets ks t.second b;
        same_length = omega (arith, h);
        next = inl (refl, refl);
      }

module _ {K V : Type 0} (ks : Keys K) where
  -- In a table that is rehashing at index i, with arrays of buckets that have their masks and count
  -- their nodes, table_rehash with at least size + 1 - i rounds, for the size of the first array,
  -- finishes the rehashing, whatever the keys and the number of buckets.
  pub table_rehash_ends :
      (n : ℕ) (t : Table K V) (i : ℕ)
      → IsMoving t i
      → t.rehashidx ≡ some i
      → t.first.size + 1 ≤ n + i
      → (t' : Table K V) × (table_rehash ks n t ≡ done (false, t')) × (t'.rehashidx ≡ none)
  unfolding table_rehash
  table_rehash_ends zero t i w e h = absurd (omega (arith, w.low))
  table_rehash_ends (suc n) t i w e h = elim (round_Moved ks t i w e) [
    | inl (t1, runs, over) ↦ (t1, rw (e, runs), over)
    | inr (t1, runs, j, e', w', up, same) ↦
        (let (t2, runs', over) = table_rehash_ends n t1 j w' e' (omega (arith, same)) in
          (t2, rw (e, runs) runs', over))
  ]

module _ {K V : Type 0} (ks : Keys K) (laws : IsKeys ks) where
  -- Moving the nodes of a chain changes neither their number nor what is found.
  moved_view :
      (c : List (Node K V)) (first first' second second' : Intl K V) (key : K)
      → Joined ks c first' first
      → Joined ks c second second'
      → number ks first key + number ks second key ≤ 1
      → (number ks first' key + number ks second' key ≤ 1)
        × (or_else (view ks first' key) (view ks second' key)
            ≡ or_else (view ks first key) (view ks second key))
  unfolding or_else
  moved_view c first first' second second' key j j' unique =
      let n1 = j.numbers key in
      let n2 = j'.numbers key in
      let v1 : view ks first key ≡ or_else (lookup ks key c) (view ks first' key) =
        j.views key (omega arith) in
      let v2 : view ks second' key ≡ or_else (lookup ks key c) (view ks second key) =
        j'.views key (omega arith) in
      (
        omega arith,
        ground (arith, v1, v2, n1, n2, view-eq-none ks first' key, lookup-eq-none ks key c),
      )

  move-Round :
      (t : Table K V) (i : ℕ)
      → IsTable ks t
      → t.rehashidx ≡ some i
      → 1 ≤ t.first.used
      → (t' : Table K V) × (rehash_round ks t i ≡ done (true, t')) × Round ks t i true t'
  unfolding value_of IsShaped IsClear number
  move-Round t i w e h =
      let (a, b, clear, low) = IsShaped_moving ks t i w e in
      let (at, finds, from, upto, clear') =
        next_bucket_done (t.first.size + 1) t.first i a.held (omega (arith, a.used_total)) clear
          (omega arith) in
      let c = chain t.first at in
      let reads = bucket_done t.first at a.held upto in
      let (second, moves, b', jb, more) = move_chain_done ks laws c t.second b in
      let (first, clears, s, a', ja) = clear_bucket_done ks laws t.first at a upto in
      let below : IsClear (at + 1) first = λ j k. (elim (ℕ_discrete at j) [
        | yes f ↦ subst (λ m. chain first m ≡ []) f s.here
        | no ne ↦ s.other j ne ∙ clear' j (omega arith)
      ]) in
      let keeps : (key : K)
          → (number ks first key + number ks second key ≤ 1)
            × (or_else (view ks first key) (view ks second key)
                ≡ or_else (view ks t.first key) (view ks t.second key)) =
        λ key. moved_view c t.first first t.second second key ja jb (w.unique key) in
      (
        _,
        rehash_round-else ks t i at second first h finds reads moves clears,
        record {
          is_table = record {
            shaped = (a', b', below, omega (arith, s.size_same));
            unique = λ key. (keeps key).0;
            reserved = λ f.
                absurd (IsArray-buckets ks (record first { used = first.used - length c }) a' f);
          };
          values = λ key. (keeps key).1;
          has_array = IsArray-buckets ks (record first { used = first.used - length c }) a';
          same_length = omega (arith, more, s.used_same, a.used_total, length-chain-le t.first at);
          next = inr (refl, at + 1, refl, omega arith, omega arith, s.size_same);
        },
      )

  -- One round of table_rehash.
  pub rehash_round_done :
      (t : Table K V) (i : ℕ)
      → IsTable ks t
      → t.rehashidx ≡ some i
      → (more : Bool) × (t' : Table K V) × (rehash_round ks t i ≡ done (more, t'))
        × Round ks t i more t'
  unfolding rehash_round
  rehash_round_done t i w e = elim (Bool-cases (t.first.used == 0)) [
    | inl empty ↦ (false, _, rw (empty), last-Round ks t i w e (ground arith))
    | inr left ↦ (let (t', runs, r) = move-Round t i w e (ground arith) in (true, t', runs, r))
  ]

  -- For keys whose comparison is an equivalence that the hash respects: table_rehash ends for any
  -- number of rounds on a well-formed table: it keeps the table well-formed, the value of every
  -- key, the number of nodes, and that there is a first array; where it tells of no more work, no rehashing is left.
  pub table_rehash_done :
      (n : ℕ) (t : Table K V)
      → IsTable ks t
      → (more : Bool) × (t' : Table K V) × (table_rehash ks n t ≡ done (more, t'))
        × IsTable ks t'
        × ((key : K) → value_of ks t' key ≡ value_of ks t key)
        × (t.first.buckets ≢ none → t'.first.buckets ≢ none)
        × (table_length t' ≡ table_length t)
        × ((more ≡ true) ⊎ (t'.rehashidx ≡ none))
  unfolding table_rehash
  table_rehash_done zero t w = elim (option-cases t.rehashidx) [
    | inl e ↦ (false, t, rw (e), w, λ key. refl, λ h. h, refl, inr e)
    | inr (i, e) ↦ (true, t, rw (e), w, λ key. refl, λ h. h, refl, inl refl)
  ]
  table_rehash_done (suc n) t w = elim (option-cases t.rehashidx) [
    | inl e ↦ (false, t, rw (e), w, λ key. refl, λ h. h, refl, inr e)
    | inr (i, e) ↦
        (let (more, t1, runs, r) = rehash_round_done t i w e in
          elim r.next [
            | inl (stop, over) ↦ (
              false,
              t1,
              rw (e, runs, stop),
              r.is_table,
              r.values,
              λ _. r.has_array,
              r.same_length,
              inr over,
            )
            | inr (go, _, _, _, _, _) ↦
                (let (more', t2, runs', w', values, has, size, end) =
                    table_rehash_done n t1 r.is_table in
                  (
                    more',
                    t2,
                    rw (e, runs, go) runs',
                    w',
                    λ key. values key ∙ r.values key,
                    λ _. has r.has_array,
                    size ∙ r.same_length,
                    end,
                  ))
          ])
  ]

  rehash_step-rehash :
      (t : Table K V) (i : ℕ)
      → t.rehashidx ≡ some i
      → (t.iterators == 0) ≡ true
      → rehash_step ks t ≡ (table_rehash ks 1 t >>= λ r. done r.1)
  unfolding rehash_step
  rehash_step-rehash t i e free =
      let round : Outcome (Table K V) = table_rehash ks 1 t >>= λ r. done r.1 in
      let pick : Option ℕ → Bool → Outcome (Table K V) =
        λ o b. elim o [ none ↦ done t | some _ ↦ if b then round else done t ] in
      ap₂ pick e free

  pub rehash_step_done :
      (t : Table K V)
      → IsTable ks t
      → (t' : Table K V) × (rehash_step ks t ≡ done t')
        × IsTable ks t'
        × ((key : K) → value_of ks t' key ≡ value_of ks t key)
        × (t.first.buckets ≢ none → t'.first.buckets ≢ none)
        × (table_length t' ≡ table_length t)
  unfolding rehash_step
  rehash_step_done t w = elim (option-cases t.rehashidx) [
    | inl e ↦ (t, rw (e), w, λ key. refl, λ h. h, refl)
    | inr (i, e) ↦ elim (Bool-cases (t.iterators == 0)) [
      | inl free ↦
          (let (more, t', runs, w', values, has, size, _) = table_rehash_done 1 t w in
            let step : rehash_step ks t ≡ (table_rehash ks 1 t >>= λ r. done r.1) =
              rehash_step-rehash t i e free in
            (t', step ∙ rw (runs), w', values, has, size))
      | inr kept ↦ (t, rw (e, kept), w, λ key. refl, λ h. h, refl)
    ]
  ]
