-- ===== src/HashTable/Insertions.antt =====
-- The table of src/ZToolLib/ztl_table.c from its creation: a sequence of table_insert, then
-- table_get_value.
use mathlib.Core.Option
use mathlib.Core.Option.{or_else}
use ztool_lib.Common.{
  ◌^◌, ◌≤◌, length, ◌≡◌, refl, ap, ◌∙◌, true, Option, none, some, List, [], ◌∷◌, arith, inr,
  if◌then◌else◌,
}
use ztool_lib.Common.Outcome.{Outcome, done, ◌>>=◌}
use ztool_lib.HashTable.{Keys, Table, table_length, table_new, reset, table_get_value, table_insert}
use ztool_lib.HashTable.Chains.{IsKeys}
use ztool_lib.HashTable.States.{IsTable, IsReset, IsShaped, value_of, number_reset}
use ztool_lib.HashTable.Lookup.{table_find_done, value_of-Found}
use ztool_lib.HashTable.Insert.{table_insert_done}
use ztool_lib.HashTable.States.{update}

-- A new table is well-formed.
pub table_new-IsTable : {K : Type 0} (V : Type 0) (ks : Keys K) → IsTable ks (table_new {V = V})
unfolding IsShaped IsReset
table_new-IsTable V ks =
    let empty : IsReset (reset {V = V}) = (refl, refl, refl) in
    record {
      shaped = (inr empty, empty);
      unique = λ key. omega (arith, number_reset ks (reset {V = V}) key empty);
      reserved = λ _. omega arith;
    }

module _ {K V : Type 0} (ks : Keys K) where
  -- The insertions of a list, from its last entry to its first.
  unfoldable pub insert_all : V → List (K × V) → Table K V → Outcome (Table K V)
  unfolding table_insert
  insert_all v0 [] t = done t
  insert_all v0 ((key, value) ∷ rest) t = do
    t1 ← insert_all v0 rest t
    (_, t2) ← table_insert ks true (some v0) t1 key value
    done t2

  -- The value of the first entry with the key.
  unfoldable pub first_value : List (K × V) → K → Option V
  first_value [] q = none
  first_value ((key, value) ∷ rest) q = if ks.cmp key q then some value else first_value rest q

module _ {K V : Type 0} (ks : Keys K) (laws : IsKeys ks) where
  -- For keys whose comparison is an equivalence that the hash respects: on a well-formed table,
  -- table_get_value ends with the value that the table stands for, and its step of rehashing keeps
  -- the table well-formed and every value.
  pub table_get_value_done :
      (t : Table K V) (key : K)
      → IsTable ks t
      → (t' : Table K V) × (table_get_value ks t key ≡ done (value_of ks t key, t'))
        × IsTable ks t'
        × ((q : K) → value_of ks t' q ≡ value_of ks t q)
  unfolding table_get_value
  table_get_value_done t key w =
      let (o, t', runs, w', values, found, _) = table_find_done ks laws t key w in
      let known : Option.map (λ n. n.value) o ≡ value_of ks t key =
        value_of-Found ks t' key o found ∙ values key in
      (t', rw (runs, known), w', values)

  insert_all_done :
      (v0 : V) (xs : List (K × V))
      → length xs ≤ 2 ^ 30
      → (t : Table K V) × (insert_all ks v0 xs table_new ≡ done t)
        × IsTable ks t
        × ((q : K) → value_of ks t q ≡ first_value ks xs q)
        × (table_length t ≤ length xs)
  unfolding insert_all first_value update value_of
  insert_all_done v0 [] few = (table_new, refl, table_new-IsTable V ks, λ q. refl, omega arith)
  insert_all_done v0 ((key, value) ∷ rest) few =
      let (t1, runs, w, values, upto) = insert_all_done v0 rest (omega (arith, few)) in
      let (r, t2, runs', w', values', _, one_more) =
        table_insert_done ks laws key value t1 v0 w (omega (arith, few, upto)) in
      (
        t2,
        rw (runs, runs'),
        w',
        λ q. values' q ∙ ap (λ m. if ks.cmp key q then some value else m) (values q),
        omega (arith, upto, one_more),
      )

  -- For keys whose comparison is an equivalence that the hash respects: any sequence of at most
  -- 2^30 insertions into a new table ends, where there is memory, and then table_get_value gives the value that
  -- was inserted last for the key, or NULL for a key that was not inserted.
  pub table_get_value-insert_all :
      (v0 : V) (xs : List (K × V)) (q : K)
      → length xs ≤ 2 ^ 30
      → (t : Table K V) × (insert_all ks v0 xs table_new ≡ done t)
        × (t' : Table K V) × (table_get_value ks t q ≡ done (first_value ks xs q, t'))
  table_get_value-insert_all v0 xs q few =
      let (t, runs, w, values, _) = insert_all_done v0 xs few in
      let (t', gets, _, _) = table_get_value_done t q w in (t, runs, t', rw⁻¹ (values q) gets)
