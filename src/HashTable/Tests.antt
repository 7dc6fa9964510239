-- ===== src/HashTable/Tests.antt =====
-- Runs of the hash table, and the theorems at concrete tables.
use ztool_lib.Common.{
  ℕ, ◌≡◌, ◌≢◌, ◌≤◌, ◌%◌, refl, sym, ap, subst, Bool, true, false, ◌==◌, Option, none, some, [], ◌∷◌,
  arith, ◌⊎◌,
}
use ztool_lib.Common.Outcome.{done, fault, out_of_fuel}
use ztool_lib.HashTable.{
  Keys, Node, Intl, Table, table_length, table_new, link_node, table_get_value, table_insert,
  table_rehash,
}
use ztool_lib.HashTable.Chains.{IsKeys, count}
use ztool_lib.HashTable.Placed.{IsArray, number, replicate-IsArray, link_node_done, number-eq-zero}
use ztool_lib.HashTable.Rehash.{table_rehash_done, table_rehash_ends}
use ztool_lib.HashTable.Counted.{IsMoving}
use ztool_lib.HashTable.States.{IsTable, IsClear, IsShaped, value_of}
use ztool_lib.HashTable.Insert.{table_insert_done}
use ztool_lib.HashTable.States.{update}
use ztool_lib.HashTable.Insertions.{
  insert_all, first_value, table_get_value_done, table_get_value-insert_all,
}

-- Numbers as keys, with a hash that collides.
abbrev keys : Keys ℕ
keys = record { cmp = ◌==◌; hash = λ n. n % 3 }

keys-IsKeys : IsKeys keys
keys-IsKeys = record {
  cmp_refl = λ a. ground arith;
  cmp_symm = λ a b. ground arith;
  cmp_trans = λ a b c h k. ground arith;
  hash_cmp = λ a b h. (let e : a ≡ b = ground arith in ap (λ n. n % 3) e);
}

-- A table with one node of key 7 in its first array, in the middle of a rehashing.
abbrev two_buckets : Intl ℕ ℕ
two_buckets = record {
  size = 2;
  sizemask = 1;
  used = 1;
  buckets = some ([] ∷ (record { key = 7; value = 70 } ∷ []) ∷ []);
}

abbrev four_buckets : Intl ℕ ℕ
four_buckets = record { size = 4; sizemask = 3; used = 0; buckets = some ([] ∷ [] ∷ [] ∷ [] ∷ []) }

abbrev halfway : Table ℕ ℕ
halfway = record (table_new) { first = two_buckets; second = four_buckets; rehashidx = some 0 }

empty_four : IsArray keys four_buckets
empty_four = replicate-IsArray keys 4 (omega arith) (omega arith)

abbrev node : Node ℕ ℕ
node = record { key = 7; value = 70 }

two_buckets_linked : IsArray keys two_buckets × ((q : ℕ) → number keys two_buckets q ≤ 1)
unfolding link_node count
two_buckets_linked =
    let empty : Intl ℕ ℕ = record {
      size = 2;
      sizemask = 1;
      used = 0;
      buckets = some ([] ∷ [] ∷ []);
    } in
    let fine : IsArray keys empty = replicate-IsArray keys 2 (omega arith) (omega arith) in
    let (tip, runs, a, j, _) = link_node_done keys keys-IsKeys empty node fine in
    let same : tip ≡ two_buckets =
      sym (ap (λ o. elim o [ done x ↦ x | fault ↦ empty | out_of_fuel ↦ empty ]) runs) in
    let once : (q : ℕ) → number keys tip q ≤ 1 =
      λ q. ground (arith, j.numbers q, number-eq-zero keys empty q (sym fine.used_total)) in
    subst (λ t. IsArray keys t × ((q : ℕ) → number keys t q ≤ 1)) same (a, once)

halfway-IsTable : IsTable keys halfway
unfolding IsShaped IsClear
halfway-IsTable =
    let (a, once) = two_buckets_linked in
    record {
      shaped = (a, empty_four, λ j k. absurd (omega arith), omega arith);
      unique = λ q.
          omega (arith, once q, number-eq-zero keys four_buckets q (sym empty_four.used_total));
      reserved = λ _. omega arith;
    }

halfway-IsMoving : IsMoving halfway 0
unfolding IsClear
halfway-IsMoving =
    let (a, _) = two_buckets_linked in
    record {
      first = record { held = a.held; masked = a.masked; used_total = a.used_total };
      second = record {
        held = empty_four.held;
        masked = empty_four.masked;
        used_total = empty_four.used_total;
      };
      clear = λ j k. absurd (omega arith);
      low = omega arith;
    }

table_rehash_ends_example :
    (t : Table ℕ ℕ) × (table_rehash keys 3 halfway ≡ done (false, t)) × (t.rehashidx ≡ none)
table_rehash_ends_example = table_rehash_ends keys 3 halfway 0 halfway-IsMoving refl (omega arith)

table_rehash_done_example :
    (more : Bool) × (t' : Table ℕ ℕ) × (table_rehash keys 1 halfway ≡ done (more, t'))
    × IsTable keys t'
    × ((key : ℕ) → value_of keys t' key ≡ value_of keys halfway key)
    × (halfway.first.buckets ≢ none → t'.first.buckets ≢ none)
    × (table_length t' ≡ 1)
    × ((more ≡ true) ⊎ (t'.rehashidx ≡ none))
table_rehash_done_example = table_rehash_done keys keys-IsKeys 1 halfway halfway-IsTable

table_get_value_done_example :
    (t' : Table ℕ ℕ) × (table_get_value keys halfway 7 ≡ done (value_of keys halfway 7, t'))
    × IsTable keys t'
    × ((q : ℕ) → value_of keys t' q ≡ value_of keys halfway q)
table_get_value_done_example = table_get_value_done keys keys-IsKeys halfway 7 halfway-IsTable

table_insert_done_example :
    (r : Option ℕ) × (t' : Table ℕ ℕ) × (table_insert keys true (some 0) halfway 4 40
      ≡ done (r, t'))
    × IsTable keys t'
    × ((q : ℕ) → value_of keys t' q ≡ update keys 4 40 (value_of keys halfway) q)
    × ((old : ℕ) → value_of keys halfway 4 ≡ some old → r ≡ some old)
    × (table_length t' ≤ 2)
table_insert_done_example =
    table_insert_done keys keys-IsKeys 4 40 halfway 0 halfway-IsTable (omega arith)

table_get_value-insert_all_example :
    (t : Table ℕ ℕ) × (insert_all keys 0 ((4, 40) ∷ (7, 70) ∷ (4, 41) ∷ []) table_new ≡ done t)
    × (t' : Table ℕ ℕ) × (table_get_value keys t 4
        ≡ done (first_value keys ((4, 40) ∷ (7, 70) ∷ (4, 41) ∷ []) 4, t'))
table_get_value-insert_all_example =
    table_get_value-insert_all keys keys-IsKeys 0 ((4, 40) ∷ (7, 70) ∷ (4, 41) ∷ []) 4 (omega arith)

-- The lookup of a key in the middle of a rehashing.
halfway_finds :
    table_get_value keys halfway 7
    ≡ done (
      some 70,
      record (table_new) {
        first = record { size = 2; sizemask = 1; used = 0; buckets = some ([] ∷ [] ∷ []) };
        second = record {
          size = 4;
          sizemask = 3;
          used = 1;
          buckets = some ([] ∷ (node ∷ []) ∷ [] ∷ [] ∷ []);
        };
        rehashidx = some 2;
      },
    )
unfolding table_get_value
halfway_finds = refl
