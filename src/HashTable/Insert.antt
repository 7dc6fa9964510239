-- ===== src/HashTable/Insert.antt =====
-- table_insert of src/ZToolLib/ztl_table.c is the update of a finite map.
use mathlib.Core.Option
use mathlib.Core.Option.{or_else}
use ztool_lib.Common.{
  ℕ, ◌+◌, ◌^◌, ◌≤◌, ◌≡◌, ◌≢◌, sym, ap, ◌∙◌, subst, true, if◌then◌else◌, Option, none, some, [], ◌∷◌,
  arith, option-cases, inl, inr,
}
use ztool_lib.Common.Outcome.{Outcome, done, ◌>>=◌}
use ztool_lib.HashTable.{
  Keys, Node, Intl, Table, table_length, assign_both, link_node, link_new, insert_new, table_insert,
}
use ztool_lib.HashTable.Chains.{IsKeys, lookup, count}
use ztool_lib.HashTable.Placed.{number_congr, number, view, view-eq-none, Joined, link_node_done}
use ztool_lib.HashTable.Lookup.{Found, Found-missing, table_find_done, value_of-Found}
use ztool_lib.HashTable.Expand.{expand_if_needed_done}
use ztool_lib.HashTable.States.{
  IsShaped, IsTable, value_of, IsArray-buckets, IsShaped_moving, IsShaped_whole, update,
}
use ztool_lib.HashTable.Assign.{assign_both_done}

module _ {K V : Type 0} (ks : Keys K) (laws : IsKeys ks) (key : K) (value : V) where
  abbrev fresh : Node K V
  fresh = record { key = key; value = value }

  linked_first :
      (first first' second : Intl K V) (q : K)
      → Joined ks (fresh ∷ []) first first'
      → number ks first key + number ks second key ≡ 0
      → number ks first q + number ks second q ≤ 1
      → (number ks first' q + number ks second q ≤ 1)
        × (or_else (view ks first' q) (view ks second q)
            ≡ (if ks.cmp key q then some value else or_else (view ks first q) (view ks second q)))
  unfolding or_else count lookup
  linked_first first first' second q j new unique =
      let n = j.numbers q in
      let same : ks.cmp key q ≡ true → number ks first q + number ks second q ≡ 0 = λ e.
        omega (arith, number_congr ks laws first key q e, number_congr ks laws second key q e) in
      let v : view ks first' q ≡ or_else (lookup ks q (fresh ∷ [])) (view ks first q) =
        j.views q (ground (arith, same, unique)) in
      (ground (arith, same, unique, n), ground (arith, v, same))

  linked_second :
      (first second second' : Intl K V) (q : K)
      → Joined ks (fresh ∷ []) second second'
      → number ks first key + number ks second key ≡ 0
      → number ks first q + number ks second q ≤ 1
      → (number ks first q + number ks second' q ≤ 1)
        × (or_else (view ks first q) (view ks second' q)
            ≡ (if ks.cmp key q then some value else or_else (view ks first q) (view ks second q)))
  unfolding or_else count lookup
  linked_second first second second' q j new unique =
      let n = j.numbers q in
      let same : ks.cmp key q ≡ true → number ks first q + number ks second q ≡ 0 = λ e.
        omega (arith, number_congr ks laws first key q e, number_congr ks laws second key q e) in
      let v : view ks second' q ≡ or_else (lookup ks q (fresh ∷ [])) (view ks second q) =
        j.views q (ground (arith, same, unique)) in
      let gone = view-eq-none ks first q in
      (ground (arith, same, unique, n), ground (arith, v, same, gone))

  link_new_done :
      (t : Table K V)
      → IsTable ks t
      → t.first.buckets ≢ none
      → number ks t.first key + number ks t.second key ≡ 0
      → (t' : Table K V) × (link_new ks t fresh ≡ done t')
        × IsTable ks t'
        × ((q : K) → value_of ks t' q ≡ update ks key value (value_of ks t) q)
        × (table_length t' ≡ table_length t + 1)
  unfolding link_new IsShaped value_of update
  link_new_done t w has new =
      let one : Outcome (Table K V) =
        link_node ks t.first fresh >>= λ first. done (record t { first = first }) in
      let two : Outcome (Table K V) =
        link_node ks t.second fresh >>= λ second. done (record t { second = second }) in
      let pick : Option ℕ → Outcome (Table K V) = λ o. elim o [ none ↦ one | some _ ↦ two ] in
      elim (option-cases t.rehashidx) [
        | inl stop ↦
            (let (first, r) = IsShaped_whole ks t w stop in
              elim first [
                | inr (e, _, _) ↦ absurd (has e)
                | inl a ↦
                    (let (first', links, a', j, one_more) =
                        link_node_done ks laws t.first fresh a in
                      let step : link_new ks t fresh ≡ one = ap pick stop in
                      (
                        record t { first = first' },
                        step ∙ rw (links),
                        record {
                          shaped = rw (stop) (inl a', r);
                          unique =
                              λ q. (linked_first t.first first' t.second q j new (w.unique q)).0;
                          reserved = λ f. absurd (IsArray-buckets ks first' a' f);
                        },
                        λ q. (linked_first t.first first' t.second q j new (w.unique q)).1,
                        omega (arith, one_more),
                      ))
              ])
        | inr (i, go) ↦
            (let (a, b, clear, low) = IsShaped_moving ks t i w go in
              let (second', links, b', j, one_more) = link_node_done ks laws t.second fresh b in
              let step : link_new ks t fresh ≡ two = ap pick go in
              (
                record t { second = second' },
                step ∙ rw (links),
                record {
                  shaped = rw (go) (a, b', clear, low);
                  unique = λ q. (linked_second t.first t.second second' q j new (w.unique q)).0;
                  reserved = w.reserved;
                },
                λ q. (linked_second t.first t.second second' q j new (w.unique q)).1,
                omega (arith, one_more),
              ))
      ]

  insert_new_done :
      (t : Table K V) (v0 : V)
      → IsTable ks t
      → table_length t ≤ 2 ^ 30
      → number ks t.first key + number ks t.second key ≡ 0
      → (t' : Table K V) × (insert_new ks true (some v0) t key value ≡ done (true, t'))
        × IsTable ks t'
        × ((q : K) → value_of ks t' q ≡ update ks key value (value_of ks t) q)
        × (table_length t' ≡ table_length t + 1)
  unfolding insert_new update
  insert_new_done t v0 w few new =
      let (grown, runs, x) = expand_if_needed_done ks t w few in
      let (t', links, w', values, one_more) =
        link_new_done grown x.is_table x.has_array (x.numbers key ∙ new) in
      (
        t',
        rw (runs, links),
        w',
        λ q. values q ∙ ap (λ o. if ks.cmp key q then some value else o) (x.values q),
        omega (arith, one_more, x.same_length),
      )

  -- For keys whose comparison is an equivalence that the hash respects: table_insert on a well-
  -- formed table of at most 2^30 nodes, where there is memory for a node and for the buckets: it ends, keeps the table
  -- well-formed, and gives the key and the keys equal to it the value, while every other key keeps
  -- its own; if the key had a value, that one is returned;
  -- the table has at most one node more.
  pub table_insert_done :
      (t : Table K V) (v0 : V)
      → IsTable ks t
      → table_length t ≤ 2 ^ 30
      → (r : Option V) × (t' : Table K V) × (table_insert ks true (some v0) t key value
          ≡ done (r, t'))
        × IsTable ks t'
        × ((q : K) → value_of ks t' q ≡ update ks key value (value_of ks t) q)
        × ((old : V) → value_of ks t key ≡ some old → r ≡ some old)
        × (table_length t' ≤ table_length t + 1)
  unfolding table_insert update
  table_insert_done t v0 w few =
      let (o, t1, runs, w1, values, found, kept) = table_find_done ks laws t key w in
      let known : Option.map (λ n. n.value) o ≡ value_of ks t key =
        value_of-Found ks t1 key o found ∙ values key in
      let set_key : (q : K)
          → update ks key value (value_of ks t1) q ≡ update ks key value (value_of ks t) q =
        λ q. ap (λ m. if ks.cmp key q then some value else m) (values q) in
      let rest : Option (Node K V) → Outcome (Option V × Table K V) = λ o. elim o [
        | some n ↦ assign_both ks t1 key value >>= λ t2. done (some n.value, t2)
        | none ↦ insert_new ks true (some v0) t1 key value >>= λ p.
            done (if p.0 then some v0 else none, p.1)
      ] in
      let step : table_insert ks true (some v0) t key value ≡ rest o = rw (runs) in
      elim (option-cases o) [
        | inr (n, e) ↦
            (let place : Found ks t1 key (some n) = subst (λ m. Found ks t1 key m) e found in
              let (t2, runs', w2, values', size) =
                assign_both_done ks laws key value t1 n w1 place in
              let held : some n.value ≡ value_of ks t key =
                sym (ap (λ m. Option.map (λ n. n.value) m) e) ∙ known in
              (
                some n.value,
                t2,
                step ∙ ap rest e ∙ rw (runs'),
                w2,
                λ q. values' q ∙ set_key q,
                λ old h. held ∙ h,
                omega (arith, size, kept),
              ))
        | inl e ↦
            (let new = Found-missing ks t1 key (subst (λ m. Found ks t1 key m) e found) in
              let (t2, runs', w2, values', size) =
                insert_new_done t1 v0 w1 (omega (arith, few, kept)) new in
              let empty : none ≡ value_of ks t key =
                sym (ap (λ m. Option.map (λ n. n.value) m) e) ∙ known in
              (
                some v0,
                t2,
                step ∙ ap rest e ∙ rw (runs'),
                w2,
                λ q. values' q ∙ set_key q,
                λ old h. absurd (ground (arith, empty, h)),
                omega (arith, size, kept),
              ))
      ]
