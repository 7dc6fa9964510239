-- ===== src/HashTable/Assign.antt =====
-- table_insert of src/ZToolLib/ztl_table.c for a key that the table holds.
use mathlib.Core.Option.{or_else}
use ztool_lib.Common.{
  ◌%◌, ◌^◌, ℕ, ◌<◌, ◌≡◌, ◌≢◌, sym, ap, ◌∙◌, if◌then◌else◌, Option, none, some, List, length, arith,
  option-cases, inl, inr,
}
use ztool_lib.Common.Outcome.{Outcome, done, ◌>>=◌}
use ztool_lib.HashTable.{
  Keys, Node, Intl, Table, table_length, bucket, set_bucket, find_node, assign_node, assign_both,
}
use ztool_lib.HashTable.Chains.{
  IsKeys, count, count-eq-zero, lookup-assign_node, count-assign_node, length-assign_node,
}
use ztool_lib.HashTable.Arrays.{chain, Stored, bucket_done, set_bucket_done}
use ztool_lib.HashTable.Placed.{
  home, home-lt-size, home-word, home_congr, number_congr, number, view, view-eq-none, IsArray,
  chain-home, Stored-IsArray,
}
use ztool_lib.HashTable.Lookup.{Found, in_first, in_second}
use ztool_lib.HashTable.States.{
  IsClear, IsReset, IsShaped, IsTable, value_of, IsArray-buckets, IsShaped_moving, IsShaped_whole,
  update,
}

module _ {K V : Type 0} (ks : Keys K) (laws : IsKeys ks) (key : K) (value : V) where
  -- A store of the assigned chain.
  assigned :
      (tip : Intl K V) (n : Node K V)
      → IsArray ks tip
      → find_node ks key (chain tip (home ks tip key)) ≡ some n
      → (tip' : Intl K V) × (set_bucket tip
            (home ks tip key)
            (assign_node ks key value (chain tip (home ks tip key)))
          ≡ done tip')
        × IsArray ks tip'
        × Stored tip (home ks tip key) (assign_node ks key value (chain tip (home ks tip key))) tip'
        × ((q : K) → number ks tip' q ≡ number ks tip q)
        × ((q : K) → view ks tip' q ≡ (if ks.cmp key q then some value else view ks tip q))
  unfolding number view
  assigned tip n a found =
      let i = home ks tip key in
      let old = chain tip i in
      let c = assign_node ks key value old in
      let within = home-lt-size ks tip key a in
      let (tip', runs, s) = set_bucket_done tip i c a.held within in
      let same : length c ≡ length old = length-assign_node ks key value old in
      let away : (q : K) → i ≢ home ks tip q → count ks q c ≡ 0 =
        λ q ne. count-assign_node ks laws key q value old ∙ a.placed q i ne in
      (
        tip',
        runs,
        Stored-IsArray ks tip tip' i tip'.used c a s (omega (arith, s.used_same, same)) away,
        s,
        λ q. elim (chain-home ks tip tip' i c q s) [
          | inl (e, f) ↦ rw (f, sym e) (count-assign_node ks laws key q value old)
          | inr (ne, f) ↦ rw (f)
        ],
        λ q. elim (chain-home ks tip tip' i c q s) [
          | inl (e, f) ↦ rw (f, sym e) (lookup-assign_node ks laws key q value old n found)
          | inr (ne, f) ↦ rw (f) (ground (arith, home_congr ks laws tip key q))
        ],
      )

  assigned_first :
      (t : Table K V) (first' : Intl K V) (n : Node K V) (c : List (Node K V))
      → IsTable ks t
      → find_node ks key (chain t.first (home ks t.first key)) ≡ some n
      → IsArray ks first'
      → Stored t.first (home ks t.first key) c first'
      → IsShaped ks (record t { first = first' })
  unfolding IsShaped IsClear find_node
  assigned_first t first' n c w found a' s = elim (option-cases t.rehashidx) [
    | inl stop ↦ (let (_, r) = IsShaped_whole ks t w stop in rw (stop) (inl a', r))
    | inr (i, go) ↦
        (let (a, b, clear, low) = IsShaped_moving ks t i w go in
          let lost : (j : ℕ) → j < i → home ks t.first key ≢ j = λ j k e.
            (let gone : find_node ks key (chain t.first (home ks t.first key)) ≡ none =
                rw (e, clear j k) in
              ground (arith, found, gone)) in
          let clear' : IsClear i first' = λ j k. s.other j (lost j k) ∙ clear j k in
          rw (go) (a', b, clear', omega (arith, low, s.size_same)))
  ]

  assigned_second :
      (t : Table K V) (second' : Intl K V)
      → IsTable ks t
      → IsArray ks t.second
      → IsArray ks second'
      → IsShaped ks (record t { second = second' })
  unfolding IsShaped IsReset
  assigned_second t second' w b b' = elim (option-cases t.rehashidx) [
    | inl stop ↦
        (let (_, (e, _, _)) = IsShaped_whole ks t w stop in
          absurd (IsArray-buckets ks t.second b e))
    | inr (i, go) ↦
        (let (a, _, clear, low) = IsShaped_moving ks t i w go in rw (go) (a, b', clear, low))
  ]

  -- The assignment to the node that was found.
  pub assign_both_done :
      (t : Table K V) (n : Node K V)
      → IsTable ks t
      → Found ks t key (some n)
      → (t' : Table K V) × (assign_both ks t key value ≡ done t')
        × IsTable ks t'
        × ((q : K) → value_of ks t' q ≡ update ks key value (value_of ks t) q)
        × (table_length t' ≡ table_length t)
  unfolding assign_both value_of update or_else number
  assign_both_done t n w place =
      let i = home ks t.first key in
      let j = home ks t.second key in
      let c = chain t.first i in
      let one : Outcome (Table K V) =
        set_bucket t.first (i % 2 ^ 32) (assign_node ks key value c) >>= λ first.
        done (record t { first = first }) in
      let store : List (Node K V) → Outcome (Table K V) = λ d.
        set_bucket t.second (j % 2 ^ 32) (assign_node ks key value d) >>= λ second.
        done (record t { second = second }) in
      let pick : Option (Node K V) → Outcome (Table K V) =
        λ o. elim o [ some _ ↦ one | none ↦ bucket t.second (j % 2 ^ 32) >>= store ] in
      let step : IsArray ks t.first → assign_both ks t key value ≡ pick (find_node ks key c) = λ a.
        (let reads = bucket_done t.first i a.held (home-lt-size ks t.first key a) in
          rw (home-word ks t.first key a, reads)) in
      elim place [
        | in_first _ a found ↦
            (let (first', stores, a', s, numbers, views) = assigned t.first n a found in
              (
                record t { first = first' },
                step a ∙ ap pick found ∙ rw (home-word ks t.first key a, stores),
                record {
                  shaped = assigned_first t first' n (assign_node ks key value c) w found a' s;
                  unique = λ q. omega (arith, w.unique q, numbers q);
                  reserved = λ f. absurd (IsArray-buckets ks first' a' f);
                },
                λ q. ground (arith, views q),
                omega (arith, s.used_same),
              ))
        | in_second _ a b lost found ↦
            (let reads = bucket_done t.second j b.held (home-lt-size ks t.second key b) in
              let (second', stores, b', s, numbers, views) = assigned t.second n b found in
              let zero_here : number ks t.first key ≡ 0 = count-eq-zero ks key c lost in
              (
                record t { second = second' },
                step a ∙ ap pick lost ∙ rw (home-word ks t.second key b, reads, stores),
                record {
                  shaped = assigned_second t second' w b b';
                  unique = λ q. omega (arith, w.unique q, numbers q);
                  reserved = w.reserved;
                },
                λ q.
                    (let gone = view-eq-none ks t.first q in
                      let same = number_congr ks laws t.first key q in
                      ground (arith, views q, zero_here, gone, same)),
                omega (arith, s.used_same),
              ))
      ]
