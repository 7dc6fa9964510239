-- ===== src/HashTable/States.antt =====
-- The well-formed states of the table of src/ZToolLib/ztl_table.c and the finite maps that they stand
-- for.
use mathlib.Core.Option.{or_else}
use ztool_lib.Common.{
  ℕ, ◌+◌, ◌^◌, ◌≤◌, ◌<◌, ◌≡◌, ◌≢◌, subst, if◌then◌else◌, Option, none, some, [], arith, ◌⊎◌,
}
use ztool_lib.HashTable.{Keys, Intl, Table}
use ztool_lib.HashTable.Chains.{count}
use ztool_lib.HashTable.Arrays.{chain, IsHeld}
use ztool_lib.HashTable.Placed.{number, view, IsArray}

module _ {K V : Type 0} where
  unfoldable pub IsClear : ℕ → Intl K V → Type 0
  IsClear i tip = (j : ℕ) → j < i → chain tip j ≡ []

  unfoldable pub IsReset : Intl K V → Type 0
  IsReset tip = (tip.buckets ≡ none) × (tip.size ≡ 0) × (tip.used ≡ 0)

module _ {K V : Type 0} (ks : Keys K) where
  -- A table that is not rehashing holds its first array or none; while it rehashes, the first array
  -- is empty below the index.
  unfoldable pub IsShaped : Table K V → Type 0
  unfolding IsClear IsReset
  IsShaped t = elim t.rehashidx [
    | none ↦ (IsArray ks t.first ⊎ IsReset t.first) × IsReset t.second
    | some i ↦ IsArray ks t.first × IsArray ks t.second × IsClear i t.first × (i ≤ t.first.size)
  ]

  -- A well-formed table has at most one node of each key; before its first array it does not ask for
  -- more than 2^31 buckets.
  pub record IsTable (t : Table K V) : Type 0 where
    pub shaped : IsShaped t
    pub unique : (key : K) → number ks t.first key + number ks t.second key ≤ 1
    pub reserved : t.first.buckets ≡ none → t.reserve_size ≤ 2 ^ 31

  -- The finite map that a table stands for.
  unfoldable pub value_of : Table K V → K → Option V
  unfolding view or_else
  value_of t key = or_else (view ks t.first key) (view ks t.second key)

  pub IsShaped_moving :
      (t : Table K V) (i : ℕ)
      → IsTable t
      → t.rehashidx ≡ some i
      → IsArray ks t.first × IsArray ks t.second × IsClear i t.first × (i ≤ t.first.size)
  unfolding IsShaped
  IsShaped_moving t i w e =
      subst
        (λ o. elim o [
          | none ↦ (IsArray ks t.first ⊎ IsReset t.first) × IsReset t.second
          | some i ↦
              IsArray ks t.first × IsArray ks t.second × IsClear i t.first × (i ≤ t.first.size)
        ])
        e w.shaped

  pub IsShaped_whole :
      (t : Table K V)
      → IsTable t
      → t.rehashidx ≡ none
      → (IsArray ks t.first ⊎ IsReset t.first) × IsReset t.second
  unfolding IsShaped
  IsShaped_whole t w e =
      subst
        (λ o. elim o [
          | none ↦ (IsArray ks t.first ⊎ IsReset t.first) × IsReset t.second
          | some i ↦
              IsArray ks t.first × IsArray ks t.second × IsClear i t.first × (i ≤ t.first.size)
        ])
        e w.shaped

  pub IsArray-buckets : (tip : Intl K V) → IsArray ks tip → tip.buckets ≢ none
  unfolding IsHeld
  IsArray-buckets tip a e = (let (bs, f, _) = a.held in ground (arith, e, f))

  pub number_reset : (tip : Intl K V) (key : K) → IsReset tip → number ks tip key ≡ 0
  unfolding number chain IsReset count
  number_reset tip key (e, _, _) = rw (e)

module _ {K V : Type 0} (ks : Keys K) (key : K) (value : V) where
  -- The map with one key set.
  unfoldable pub update : (K → Option V) → K → Option V
  update m q = if ks.cmp key q then some value else m q
