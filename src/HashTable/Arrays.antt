-- ===== src/HashTable/Arrays.antt =====
-- The arrays of buckets of src/ZToolLib/ztl_table.c: what a read and a store do.
use ztool_lib.Common.{
  ℕ, zero, suc, ◌+◌, ◌≤◌, ◌<◌, ◌≡◌, ◌≢◌, refl, sym, ap, ◌∙◌, true, ltb, none, some, List, [], ◌∷◌,
  length, arith, get_or, set, replicate, length-set, get_or-set_self, get_or-set_ne, get_elem?,
  get_elem?-eq-get_or,
}
use ztool_lib.Common.Outcome.{Outcome, done, fault}
use ztool_lib.HashTable.{Node, Intl, bucket, set_bucket}

module _ {A : Type 0} where
  abbrev nothing : List A
  nothing = []

  -- The number of elements of all lists.
  unfoldable pub sum_lengths : List (List A) → ℕ
  sum_lengths [] = 0
  sum_lengths (c ∷ cs) = length c + sum_lengths cs

  pub sum_lengths-set :
      (cs : List (List A)) (i : ℕ) (c : List A)
      → i < length cs
      → sum_lengths (set cs i c) + length (get_or cs i []) ≡ sum_lengths cs + length c
  unfolding sum_lengths
  sum_lengths-set [] i c h = absurd (omega arith)
  sum_lengths-set (x ∷ cs) zero c h = omega arith
  sum_lengths-set (x ∷ cs) (suc i) c h = omega (arith, sum_lengths-set cs i c (omega arith))

  pub length-get_or-le : (cs : List (List A)) (i : ℕ) → length (get_or cs i []) ≤ sum_lengths cs
  unfolding sum_lengths
  length-get_or-le [] i = omega arith
  length-get_or-le (x ∷ cs) zero = omega arith
  length-get_or-le (x ∷ cs) (suc i) = omega (arith, length-get_or-le cs i)

  pub sum_lengths-eq-zero :
      (cs : List (List A)) → ((i : ℕ) → i < length cs → get_or cs i [] ≡ []) → sum_lengths cs ≡ 0
  unfolding sum_lengths
  sum_lengths-eq-zero [] h = refl
  sum_lengths-eq-zero (x ∷ cs) h =
      let first : length x ≡ 0 = ap length (h 0 (omega arith)) in
      omega (arith, first, sum_lengths-eq-zero cs (λ i k. h (suc i) (omega arith)))

  pub get_or-replicate : (n i : ℕ) → get_or (replicate n nothing) i [] ≡ []
  get_or-replicate zero i = refl
  get_or-replicate (suc n) zero = refl
  get_or-replicate (suc n) (suc i) = get_or-replicate n i

  pub length-eq-zero : (xs : List A) → length xs ≡ 0 → xs ≡ []
  length-eq-zero [] h = refl
  length-eq-zero (x ∷ xs) h = absurd (omega arith)

pub sum_lengths-replicate : (A : Type 0) (n : ℕ) → sum_lengths (replicate n (nothing {A = A})) ≡ 0
unfolding sum_lengths
sum_lengths-replicate A zero = refl
sum_lengths-replicate A (suc n) = omega (arith, sum_lengths-replicate A n)

module _ {K V : Type 0} where
  -- A chain of an array, empty outside it, and the number of all nodes.
  unfoldable pub chain : Intl K V → ℕ → List (Node K V)
  chain tip i = elim tip.buckets [ none ↦ [] | some bs ↦ get_or bs i [] ]

  unfoldable pub total : Intl K V → ℕ
  unfolding sum_lengths
  total tip = elim tip.buckets [ none ↦ 0 | some bs ↦ sum_lengths bs ]

  unfoldable pub IsHeld : Intl K V → Type 0
  IsHeld tip = (bs : List (List (Node K V))) × (tip.buckets ≡ some bs) × (length bs ≡ tip.size)

  -- What holds of an array after a store of a chain into one bucket.
  pub record Stored (tip : Intl K V) (i : ℕ) (c : List (Node K V)) (tip' : Intl K V) : Type 0 where
    pub held : IsHeld tip'
    pub here : chain tip' i ≡ c
    pub other : (j : ℕ) → i ≢ j → chain tip' j ≡ chain tip j
    pub sizemask_same : tip'.sizemask ≡ tip.sizemask
    pub size_same : tip'.size ≡ tip.size
    pub used_same : tip'.used ≡ tip.used
    pub totals : total tip' + length (chain tip i) ≡ total tip + length c

  pub bucket_done :
      (tip : Intl K V) (i : ℕ) → IsHeld tip → i < tip.size → bucket tip i ≡ done (chain tip i)
  unfolding bucket chain IsHeld
  bucket_done tip i (bs, e, l) h =
      let read : Outcome (List (Node K V)) = elim (get_elem? bs i) [
        | none ↦ fault
        | some c ↦ done c
      ] in
      let step : read ≡ done (get_or bs i []) =
        ap (λ o. elim o [ none ↦ fault | some c ↦ done c ])
          (get_elem?-eq-get_or bs i [] (omega (arith, l))) in
      rw (e) step

  pub set_bucket_done :
      (tip : Intl K V) (i : ℕ) (c : List (Node K V))
      → IsHeld tip
      → i < tip.size
      → (tip' : Intl K V) × (set_bucket tip i c ≡ done tip') × Stored tip i c tip'
  unfolding set_bucket chain IsHeld total
  set_bucket_done tip i c (bs, e, l) h =
      let tip' : Intl K V = record tip { buckets = some (set bs i c) } in
      let within : i < length bs = omega (arith, l) in
      let ltb_true : ltb i (length bs) ≡ true = ground arith in
      let runs : set_bucket tip i c ≡ done tip' = rw (e, ltb_true) in
      (
        tip',
        runs,
        record {
          held = (set bs i c, refl, length-set bs i c ∙ l);
          here = get_or-set_self bs i c [] within;
          other = λ j ne. rw (e, get_or-set_ne bs i j c [] ne);
          sizemask_same = refl;
          size_same = refl;
          used_same = refl;
          totals = rw (e, sum_lengths-set bs i c within);
        },
      )

  pub total-eq-zero :
      (tip : Intl K V) → IsHeld tip → ((i : ℕ) → i < tip.size → chain tip i ≡ []) → total tip ≡ 0
  unfolding chain IsHeld total
  total-eq-zero tip (bs, e, l) h =
      let empty : (i : ℕ) → i < length bs → get_or bs i [] ≡ [] = λ i k.
        (let same : chain tip i ≡ get_or bs i [] = rw (e) in sym same ∙ h i (omega (arith, l))) in
      rw (e, sum_lengths-eq-zero bs empty)

  pub length-chain-le : (tip : Intl K V) (i : ℕ) → length (chain tip i) ≤ total tip
  unfolding chain total
  length-chain-le tip i =
      elim tip.buckets
        as (λ o.
          length (elim o [ none ↦ [] | some bs ↦ get_or bs i [] ])
          ≤ elim o [ none ↦ 0 | some bs ↦ sum_lengths bs ]) [
            | none ↦ omega arith
            | some bs ↦ length-get_or-le bs i
          ]

  pub chain-eq-empty : (tip : Intl K V) (i : ℕ) → total tip ≡ 0 → chain tip i ≡ []
  chain-eq-empty tip i h = length-eq-zero (chain tip i) (omega (arith, length-chain-le tip i))
