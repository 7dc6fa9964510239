-- ===== src/HashTable/NextBucket.antt =====
-- The search of table_rehash in src/ZToolLib/ztl_table.c for the next bucket that is not empty.
use ztool_lib.Common.{
  ℕ, zero, suc, ◌+◌, ◌≤◌, ◌<◌, ◌≡◌, subst, ltb, [], arith, Bool-cases, list-cases, inl, inr,
}
use ztool_lib.Common.Outcome.{done}
use ztool_lib.HashTable.{Intl, next_bucket}
use ztool_lib.HashTable.Arrays.{chain, total, IsHeld, bucket_done, total-eq-zero}
use ztool_lib.HashTable.States.{IsClear}

module _ {K V : Type 0} where
  -- The search for the next bucket ends at a bucket of the array, if there is a node left.
  pub next_bucket_done :
      (fuel : ℕ) (tip : Intl K V) (i : ℕ)
      → IsHeld tip
      → 1 ≤ total tip
      → IsClear i tip
      → tip.size + 1 ≤ fuel + i
      → (at : ℕ) × (next_bucket fuel tip i ≡ done at) × (i ≤ at) × (at < tip.size) × IsClear at tip
  unfolding next_bucket IsClear
  next_bucket_done zero tip i h left clear enough =
      absurd (omega (arith, total-eq-zero tip h (λ j k. clear j (omega arith))))
  next_bucket_done (suc fuel) tip i h left clear enough = elim (Bool-cases (ltb i tip.size)) [
    | inl inside ↦
        (let within : i < tip.size = ground arith in
          let reads = bucket_done tip i h within in
          elim (list-cases (chain tip i)) [
            | inl e ↦
                (let clear' : IsClear (i + 1) tip = λ j k. (elim (Bool-cases (ltb j i)) [
                  | inl below ↦ clear j (ground arith)
                  | inr above ↦
                      (let same : i ≡ j = ground arith in subst (λ m. chain tip m ≡ []) same e)
                ]) in
                  let (at, runs, from, upto, clear'') =
                    next_bucket_done fuel tip (i + 1) h left clear' (omega arith) in
                  (at, rw (reads, e) runs, omega arith, upto, clear''))
            | inr (n, rest, e) ↦ (i, rw (reads, e), omega arith, within, clear)
          ])
    | inr outside ↦
        (let past : tip.size ≤ i = ground arith in
          absurd (omega (arith, total-eq-zero tip h (λ j k. clear j (omega arith)))))
  ]
