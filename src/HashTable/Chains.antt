-- ===== src/HashTable/Chains.antt =====
-- The chains of the table of src/ZToolLib/ztl_table.c.
use mathlib.Core.Option
use mathlib.Core.Option.{or_else}
use ztool_lib.Common.{
  ℕ, ◌+◌, ◌≡◌, refl, true, if◌then◌else◌, Option, none, some, List, [], ◌∷◌, length, arith, ◌⊎◌,
}
use ztool_lib.HashTable.{Keys, Node, find_node, assign_node}

-- What the functions that table_new is given have to be: cmp is 0 on an equivalence of keys, and
-- equivalent keys have one hash.
pub record IsKeys {K : Type 0} (ks : Keys K) : Type 0 where
  pub cmp_refl : (a : K) → ks.cmp a a ≡ true
  pub cmp_symm : (a b : K) → ks.cmp a b ≡ ks.cmp b a
  pub cmp_trans : (a b c : K) → ks.cmp a b ≡ true → ks.cmp b c ≡ true → ks.cmp a c ≡ true
  pub hash_cmp : (a b : K) → ks.cmp a b ≡ true → ks.hash a ≡ ks.hash b

pub or_else-none : {A : Type 0} (o : Option A) → or_else o none ≡ o
unfolding or_else
or_else-none none = refl
or_else-none (some a) = refl

module _ {K V : Type 0} (ks : Keys K) where
  -- The value that a chain holds for a key.
  unfoldable pub lookup : K → List (Node K V) → Option V
  lookup key [] = none
  lookup key (n ∷ rest) = if ks.cmp n.key key then some n.value else lookup key rest

  -- The number of nodes of a chain with the key.
  unfoldable pub count : K → List (Node K V) → ℕ
  count key [] = 0
  count key (n ∷ rest) = (if ks.cmp n.key key then 1 else 0) + count key rest

  pub lookup-eq-find_node :
      (key : K) (c : List (Node K V))
      → lookup key c ≡ Option.map (λ n. n.value) (find_node ks key c)
  unfolding lookup find_node
  lookup-eq-find_node key [] = refl
  lookup-eq-find_node key (n ∷ rest) = ground (arith, lookup-eq-find_node key rest)

  pub count-eq-zero : (key : K) (c : List (Node K V)) → find_node ks key c ≡ none → count key c ≡ 0
  unfolding count find_node
  count-eq-zero key [] h = refl
  count-eq-zero key (n ∷ rest) h = ground (arith, count-eq-zero key rest)

  pub count-cons :
      (key : K) (n : Node K V) (c : List (Node K V))
      → count key (n ∷ c) ≡ count key (n ∷ []) + count key c
  unfolding count
  count-cons key n c = omega arith

  pub lookup-cons :
      (key : K) (n : Node K V) (c : List (Node K V))
      → lookup key (n ∷ c) ≡ or_else (lookup key (n ∷ [])) (lookup key c)
  unfolding lookup or_else
  lookup-cons key n c = ground arith

  -- One node of a key is found.
  pub count-one :
      (key : K) (n : Node K V)
      → ((count key (n ∷ []) ≡ 1) × (lookup key (n ∷ []) ≡ some n.value))
        ⊎ ((count key (n ∷ []) ≡ 0) × (lookup key (n ∷ []) ≡ none))
  unfolding count lookup
  count-one key n = ground arith

  pub lookup-eq-none : (key : K) (c : List (Node K V)) → count key c ≡ 0 → lookup key c ≡ none
  unfolding count lookup
  lookup-eq-none key [] h = refl
  lookup-eq-none key (n ∷ rest) h = ground (arith, lookup-eq-none key rest)

module _ {K : Type 0} (ks : Keys K) (laws : IsKeys ks) (key other : K) where
  pub cmp_congr : (a : K) → ks.cmp key other ≡ true → ks.cmp a key ≡ ks.cmp a other
  cmp_congr a e =
      ground
        (arith, laws.cmp_trans a key other, laws.cmp_trans a other key, laws.cmp_symm key other)

module _ {K V : Type 0} (ks : Keys K) (laws : IsKeys ks) (key other : K) where
  pub count_congr :
      ks.cmp key other ≡ true → (c : List (Node K V)) → count ks key c ≡ count ks other c
  unfolding count
  count_congr e [] = refl
  count_congr e (m ∷ rest) = ground (arith, count_congr e rest, cmp_congr ks laws key other m.key)

  pub lookup-assign_node :
      (value : V) (c : List (Node K V)) (n : Node K V)
      → find_node ks key c ≡ some n
      → lookup ks other (assign_node ks key value c)
        ≡ (if ks.cmp key other then some value else lookup ks other c)
  unfolding lookup assign_node find_node
  lookup-assign_node value [] n h = cc
  lookup-assign_node value (m ∷ rest) n h = ground (
    arith,
    lookup-assign_node value rest n,
    cmp_congr ks laws key other m.key,
    laws.cmp_trans key m.key other,
    laws.cmp_symm m.key key,
  )

  pub count-assign_node :
      (value : V) (c : List (Node K V))
      → count ks other (assign_node ks key value c) ≡ count ks other c
  unfolding count assign_node
  count-assign_node value [] = refl
  count-assign_node value (m ∷ rest) = ground (arith, count-assign_node value rest)

module _ {K V : Type 0} (ks : Keys K) where
  pub length-assign_node :
      (key : K) (value : V) (c : List (Node K V)) → length (assign_node ks key value c) ≡ length c
  unfolding assign_node
  length-assign_node key value [] = refl
  length-assign_node key value (m ∷ rest) = ground (arith, length-assign_node key value rest)
