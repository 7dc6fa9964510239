-- ===== src/HashTable/Lookup.antt =====
-- table_find of src/ZToolLib/ztl_table.c finds what the table stands for.
use mathlib.Core.Option
use mathlib.Core.Option.{or_else}
use ztool_lib.Common.{
  ℕ, ◌+◌, ◌%◌, ◌^◌, ◌≡◌, ◌≢◌, refl, ap, ap₂, ◌∙◌, Option, none, some, arith, option-cases, inl, inr,
}
use ztool_lib.Common.Outcome.{Outcome, done, ◌>>=◌}
use ztool_lib.HashTable.{
  Keys, Node, Table, table_length, bucket, find_node, find_both, table_find, rehash_step,
}
use ztool_lib.HashTable.Chains.{IsKeys, count, count-eq-zero, lookup-eq-find_node}
use ztool_lib.HashTable.Arrays.{chain, bucket_done}
use ztool_lib.HashTable.Placed.{home, home-lt-size, home-word, number, view, view-eq-none, IsArray}
use ztool_lib.HashTable.Rehash.{rehash_step_done}
use ztool_lib.HashTable.States.{
  IsTable, IsReset, value_of, IsArray-buckets, IsShaped_moving, IsShaped_whole, number_reset,
}

module _ {K V : Type 0} (ks : Keys K) where
  -- Where find_both finds a node, and what it then knows.
  pub data Found (t : Table K V) (key : K) : Option (Node K V) → Type 0 where
    in_first :
        (n : Node K V)
        → IsArray ks t.first
        → find_node ks key (chain t.first (home ks t.first key)) ≡ some n
        → Found t key (some n)
    in_second :
        (n : Node K V)
        → IsArray ks t.first
        → IsArray ks t.second
        → find_node ks key (chain t.first (home ks t.first key)) ≡ none
        → find_node ks key (chain t.second (home ks t.second key)) ≡ some n
        → Found t key (some n)
    missing : number ks t.first key ≡ 0 → number ks t.second key ≡ 0 → Found t key none

  pub Found-missing :
      (t : Table K V) (key : K)
      → Found t key none
      → number ks t.first key + number ks t.second key ≡ 0
  Found-missing t key (missing n1 n2) = omega (arith, n1, n2)

  pub value_of-Found :
      (t : Table K V) (key : K) (o : Option (Node K V))
      → Found t key o
      → Option.map (λ n. n.value) o ≡ value_of ks t key
  unfolding value_of view or_else
  value_of-Found t key _ (in_first n a e) =
      rw (lookup-eq-find_node ks key (chain t.first (home ks t.first key)), e)
  value_of-Found t key _ (in_second n a b e f) = rw (
    lookup-eq-find_node ks key (chain t.first (home ks t.first key)),
    e,
    lookup-eq-find_node ks key (chain t.second (home ks t.second key)),
    f,
  )
  value_of-Found t key _ (missing n1 n2) =
      rw (view-eq-none ks t.first key n1, view-eq-none ks t.second key n2)

  pub find_both_done :
      (t : Table K V) (key : K)
      → IsTable ks t
      → t.first.buckets ≢ none
      → (o : Option (Node K V)) × (find_both ks t key ≡ done o) × Found t key o
  unfolding find_both number IsReset
  find_both_done t key w some_array =
      let i = home ks t.first key in
      let j = home ks t.second key in
      let search : IsArray ks t.first
          → (o : Option (Node K V)) × (find_both ks t key ≡ done o) × Found t key o =
        λ a.
          (let reads = bucket_done t.first i a.held (home-lt-size ks t.first key a) in
            let second : Outcome (Option (Node K V)) =
              bucket t.second (j % 2 ^ 32) >>= λ d. done (find_node ks key d) in
            let pick : Option (Node K V) → Option ℕ → Outcome (Option (Node K V)) = λ o r. elim o [
              | some n ↦ done (some n)
              | none ↦ elim r [ none ↦ done none | some _ ↦ second ]
            ] in
            let step : find_both ks t key ≡ pick (find_node ks key (chain t.first i)) t.rehashidx =
              rw (home-word ks t.first key a, reads) in
            elim (option-cases (find_node ks key (chain t.first i))) [
              | inr (n, e) ↦ (some n, step ∙ ap (λ o. pick o t.rehashidx) e, in_first n a e)
              | inl e ↦ elim (option-cases t.rehashidx) [
                | inl stop ↦
                    (let (_, r) = IsShaped_whole ks t w stop in
                      (
                        none,
                        step ∙ ap₂ pick e stop,
                        missing (count-eq-zero ks key (chain t.first i) e)
                            (number_reset ks t.second key r),
                      ))
                | inr (at, go) ↦
                    (let (_, b, _, _) = IsShaped_moving ks t at w go in
                      let reads' = bucket_done t.second j b.held (home-lt-size ks t.second key b) in
                      let step' : find_both ks t key ≡ done (find_node ks key (chain t.second j)) =
                        step ∙ ap₂ pick e go ∙ rw (home-word ks t.second key b, reads') in
                      elim (option-cases (find_node ks key (chain t.second j))) [
                        | inr (n, f) ↦ (some n, step' ∙ ap done f, in_second n a b e f)
                        | inl f ↦ (
                          none,
                          step' ∙ ap done f,
                          missing (count-eq-zero ks key (chain t.first i) e)
                              (count-eq-zero ks key (chain t.second j) f),
                        )
                      ])
              ]
            ]) in
      elim (option-cases t.rehashidx) [
        | inl stop ↦
            (let (first, _) = IsShaped_whole ks t w stop in
              elim first [ inl a ↦ search a | inr (e, _, _) ↦ absurd (some_array e) ])
        | inr (at, go) ↦ search (IsShaped_moving ks t at w go).0
      ]

module _ {K V : Type 0} (ks : Keys K) (laws : IsKeys ks) where
  no_second :
      (t : Table K V) (key : K) → IsTable ks t → t.first.buckets ≡ none → number ks t.second key ≡ 0
  no_second t key w e = elim (option-cases t.rehashidx) [
    | inl stop ↦ (let (_, r) = IsShaped_whole ks t w stop in number_reset ks t.second key r)
    | inr (i, go) ↦
        (let (a, _, _, _) = IsShaped_moving ks t i w go in absurd (IsArray-buckets ks t.first a e))
  ]

  -- table_find ends with the node it finds in the table after its step of rehashing, which stands
  -- for the same map.
  pub table_find_done :
      (t : Table K V) (key : K)
      → IsTable ks t
      → (o : Option (Node K V)) × (t' : Table K V) × (table_find ks t key ≡ done (o, t'))
        × IsTable ks t'
        × ((q : K) → value_of ks t' q ≡ value_of ks t q)
        × Found ks t' key o
        × (table_length t' ≡ table_length t)
  unfolding table_find number chain count
  table_find_done t key w = elim (option-cases t.first.buckets) [
    | inl e ↦ (none, t, rw (e), w, λ q. refl, missing (rw (e)) (no_second t key w e), refl)
    | inr (bs, e) ↦
        (let (t', runs, w', values, has, keeps) = rehash_step_done ks laws t w in
          let (o, runs', found) = find_both_done ks t' key w' (has (λ f. ground (arith, e, f))) in
          let search : Outcome (Option (Node K V) × Table K V) =
            rehash_step ks t >>= λ t1. find_both ks t1 key >>= λ n. done (n, t1) in
          let step : table_find ks t key ≡ search =
            ap (λ o. elim o [ none ↦ done (none, t) | some _ ↦ search ]) e in
          (o, t', step ∙ rw (runs, runs'), w', values, found, keeps))
  ]
