-- ===== src/HashTable.antt =====
-- src/ZToolLib/ztl_table.c: a hash table with chains that grows by moving one bucket at a time from
-- its first array of buckets to its second. A key stands for the pointer with its size, and a bucket
-- for its chain of nodes.

use Prim.Native.Nat.{bit_and}
pub mod Chains
pub mod Arrays
pub mod Placed
pub mod Moving
pub mod States
pub mod NextBucket
pub mod Counted
pub mod Rehash
pub mod Lookup
pub mod Expand
pub mod Assign
pub mod Insert
pub mod Insertions
mod Tests
use mathlib.Core.Option
use ztool_lib.Common.{
  ℕ, zero, suc, ◌+◌, ◌-◌, ◌*◌, ◌/◌, ◌%◌, ◌^◌, ◌≤◌, ◌<◌, Bool, true, false, ◌||◌, ◌&&◌, not, ltb,
  leb, ◌==◌, if◌then◌else◌, Option, none, some, List, [], ◌∷◌, length, get_elem?, set, replicate,
}
use ztool_lib.Common.Outcome.{Outcome, done, fault, out_of_fuel, ◌>>=◌}

-- The functions that table_new is given: whether cmp is 0, and the hash.
pub record Keys (K : Type 0) : Type 0 where
  pub cmp : K → K → Bool
  pub hash : K → ℕ

-- table_node_st
pub record Node (K V : Type 0) : Type 0 where
  pub key : K
  pub value : V

-- table_intl_t; no buckets are a null pointer.
pub record Intl (K V : Type 0) : Type 0 where
  pub size : ℕ
  pub sizemask : ℕ
  pub used : ℕ
  pub buckets : Option (List (List (Node K V)))

-- table_st, without the locks, the iterator and the idle nodes that only table_remove fills. A
-- rehashidx of -1 is none.
pub record Table (K V : Type 0) : Type 0 where
  pub first : Intl K V
  pub second : Intl K V
  pub rehashidx : Option ℕ
  pub iterators : ℕ
  pub can_resize : Bool
  pub reserve_size : ℕ

abbrev pub init_size : ℕ
init_size = 128

-- table_reset
abbrev pub reset : {K V : Type 0} → Intl K V
reset = record { size = 0; sizemask = 0; used = 0; buckets = none }

-- The fields that table_new sets.
abbrev pub table_new : {K V : Type 0} → Table K V
table_new = record {
  first = reset;
  second = reset;
  rehashidx = none;
  iterators = 0;
  can_resize = true;
  reserve_size = init_size;
}

-- The loop of table_next_power doubles i; a size above LONG_MAX gives LONG_MAX.
unfoldable pub power_loop : ℕ → ℕ → ℕ → ℕ
power_loop zero i size = i
power_loop (suc fuel) i size =
    let rest = power_loop fuel (i * 2) size in if leb size i then i else rest

unfoldable pub table_next_power : ℕ → ℕ
unfolding power_loop
table_next_power size = if ltb (2 ^ 63 - 1) size then 2 ^ 63 - 1 else power_loop 64 init_size size

module _ {K V : Type 0} where
  abbrev pub table_size : Table K V → ℕ
  table_size t = t.first.size + t.second.size

  abbrev pub table_length : Table K V → ℕ
  table_length t = t.first.used + t.second.used

  -- A bucket of an array, and a store into one; a null array or an index outside it is a fault.
  unfoldable pub bucket : Intl K V → ℕ → Outcome (List (Node K V))
  bucket tip i = elim tip.buckets [
    | none ↦ fault
    | some bs ↦ elim (get_elem? bs i) [ none ↦ fault | some c ↦ done c ]
  ]

  unfoldable pub set_bucket : Intl K V → ℕ → List (Node K V) → Outcome (Intl K V)
  set_bucket tip i c = elim tip.buckets [
    | none ↦ fault
    | some bs ↦
        if ltb i (length bs) then done (record tip { buckets = some (set bs i c) }) else fault
  ]

  -- table_expand: false is the result -1. `allocated` tells whether CALLOC gives the buckets.
  unfoldable pub table_expand : Bool → Table K V → ℕ → Bool × Table K V
  unfolding table_next_power
  table_expand allocated t size =
      let n = table_next_power size in
      let ti : Intl K V = record {
        size = n;
        sizemask = n - 1;
        used = 0;
        buckets = some (replicate n []);
      } in
      let grown : Table K V = elim t.first.buckets [
        | none ↦ record t { reserve_size = n; first = ti }
        | some _ ↦ record t { reserve_size = n; second = ti; rehashidx = some 0 }
      ] in
      let fails : Bool = elim t.rehashidx [ none ↦ ltb size t.first.used | some _ ↦ true ] in
      if fails then (false, t) else if allocated then (true, grown) else (false, t)

  -- table_resize
  unfoldable pub table_resize : Bool → Table K V → Bool × Table K V
  unfolding table_expand
  table_resize allocated t =
      let size = if ltb t.first.used init_size then init_size else t.first.used in
      let fails : Bool = elim t.rehashidx [ none ↦ not t.can_resize | some _ ↦ true ] in
      if fails then (false, t) else table_expand allocated t size

  -- table_expand_if_needed
  unfoldable pub expand_if_needed : Bool → Table K V → Bool × Table K V
  unfolding table_expand
  expand_if_needed allocated t = elim t.rehashidx [
    | some _ ↦ (true, t)
    | none ↦
        if t.first.size == 0
        then table_expand allocated t t.reserve_size
        else if leb t.first.size t.first.used
            && (t.can_resize || ltb 5 (t.first.used / t.first.size))
        then table_expand allocated t (t.first.used * 2)
        else (true, t)
  ]

  -- The loop of table_find over one chain.
  unfoldable pub find_node : Keys K → K → List (Node K V) → Option (Node K V)
  find_node ks key [] = none
  find_node ks key (n ∷ rest) =
      let found = find_node ks key rest in if ks.cmp n.key key then some n else found

  -- The inner loop of table_rehash moves a chain to the second array, node by node; its index is an
  -- unsigned of 32 bits.
  unfoldable pub move_chain : Keys K → List (Node K V) → Intl K V → Outcome (Intl K V)
  unfolding bucket set_bucket
  move_chain ks [] tip = done tip
  move_chain ks (n ∷ rest) tip =
      let index = bit_and (ks.hash n.key) tip.sizemask % 2 ^ 32 in
      do
        chain ← bucket tip index
        tip' ← set_bucket tip index (n ∷ chain)
        move_chain ks rest (record tip' { used = tip'.used + 1 })

  -- The search for the next bucket that is not empty, on fuel.
  unfoldable pub next_bucket : ℕ → Intl K V → ℕ → Outcome ℕ
  unfolding bucket
  next_bucket zero tip i = out_of_fuel
  next_bucket (suc fuel) tip i =
      let rest = next_bucket fuel tip (i + 1) in
      bucket tip i >>= λ c. elim c [ [] ↦ rest | _ ∷ _ ↦ done i ]

  -- One round of table_rehash: whether there are still keys to move, and the table.
  unfoldable pub rehash_round : Keys K → Table K V → ℕ → Outcome (Bool × Table K V)
  unfolding next_bucket bucket move_chain set_bucket
  rehash_round ks t i =
      let move : Outcome (Bool × Table K V) = do
        at ← next_bucket (t.first.size + 1) t.first i
        chain ← bucket t.first at
        second ← move_chain ks chain t.second
        first ← set_bucket t.first at []
        done (
          true,
          record t {
            first = record first { used = first.used - length chain };
            second = second;
            rehashidx = some (at + 1);
          },
        )
      in if t.first.used == 0
        then done (false, record t { first = t.second; second = reset; rehashidx = none })
        else move

  -- table_rehash
  unfoldable pub table_rehash : Keys K → ℕ → Table K V → Outcome (Bool × Table K V)
  unfolding rehash_round
  table_rehash ks zero t = elim t.rehashidx [ none ↦ done (false, t) | some _ ↦ done (true, t) ]
  table_rehash ks (suc n) t = elim t.rehashidx [
    | none ↦ done (false, t)
    | some i ↦ do
      (more, t') ← rehash_round ks t i
      if more then table_rehash ks n t' else done (false, t')
  ]

  -- table_rehash_step, where table_find and table_remove call it.
  unfoldable pub rehash_step : Keys K → Table K V → Outcome (Table K V)
  unfolding table_rehash
  rehash_step ks t = elim t.rehashidx [
    | none ↦ done t
    | some _ ↦ if t.iterators == 0 then (table_rehash ks 1 t >>= λ r. done r.1) else done t
  ]

  -- The two rounds of the loop of table_find, with a uint32_t index.
  unfoldable pub find_both : Keys K → Table K V → K → Outcome (Option (Node K V))
  unfolding bucket find_node
  find_both ks t key = do
    c ← bucket t.first (bit_and (ks.hash key) t.first.sizemask % 2 ^ 32)
    elim (find_node ks key c) [
      | some n ↦ done (some n)
      | none ↦ elim t.rehashidx [
        | none ↦ done none
        | some _ ↦ do
          d ← bucket t.second (bit_and (ks.hash key) t.second.sizemask % 2 ^ 32)
          done (find_node ks key d)
      ]
    ]

  -- table_find: the node, and the table after the step of rehashing.
  unfoldable pub table_find : Keys K → Table K V → K → Outcome (Option (Node K V) × Table K V)
  unfolding rehash_step find_both
  table_find ks t key = elim t.first.buckets [
    | none ↦ done (none, t)
    | some _ ↦ do t' ← rehash_step ks t; n ← find_both ks t' key; done (n, t')
  ]

  -- table_get_value
  unfoldable pub table_get_value : Keys K → Table K V → K → Outcome (Option V × Table K V)
  unfolding table_find
  table_get_value ks t key = do
    (n, t') ← table_find ks t key
    done (Option.map (λ m. m.value) n, t')

  -- The end of table_insert_raw puts a new node at the head of its chain; its index is an unsigned
  -- long.
  unfoldable pub link_node : Keys K → Intl K V → Node K V → Outcome (Intl K V)
  unfolding bucket set_bucket
  link_node ks tip n =
      let index = bit_and (ks.hash n.key) tip.sizemask in
      do
        chain ← bucket tip index
        tip' ← set_bucket tip index (n ∷ chain)
        done (record tip' { used = tip'.used + 1 })

  -- It takes the second array while the table rehashes.
  unfoldable pub link_new : Keys K → Table K V → Node K V → Outcome (Table K V)
  unfolding link_node
  link_new ks t n = elim t.rehashidx [
    | none ↦ do first ← link_node ks t.first n; done (record t { first = first })
    | some _ ↦ do second ← link_node ks t.second n; done (record t { second = second })
  ]

  -- The value that table_insert writes into the node that was found.
  unfoldable pub assign_node : Keys K → K → V → List (Node K V) → List (Node K V)
  assign_node ks key value [] = []
  assign_node ks key value (n ∷ rest) =
      let rest' = assign_node ks key value rest in
      if ks.cmp n.key key then record n { value = value } ∷ rest else n ∷ rest'

  -- The write of table_insert into the node that table_find found, at the index that it found it.
  unfoldable pub assign_both : Keys K → Table K V → K → V → Outcome (Table K V)
  unfolding bucket set_bucket find_node assign_node
  assign_both ks t key value = do
    let i = bit_and (ks.hash key) t.first.sizemask % 2 ^ 32
    let j = bit_and (ks.hash key) t.second.sizemask % 2 ^ 32
    c ← bucket t.first i
    elim (find_node ks key c) [
      | some _ ↦ do
        first ← set_bucket t.first i (assign_node ks key value c)
        done (record t { first = first })
      | none ↦ do
        d ← bucket t.second j
        second ← set_bucket t.second j (assign_node ks key value d)
        done (record t { second = second })
    ]

  -- The part of table_insert_raw that makes a node, and the write of table_insert into it: false
  -- is a failure. `node` is what the memory of a new node holds as its value, or none where the
  -- pool has no memory.
  unfoldable pub insert_new :
      Keys K → Bool → Option V → Table K V → K → V → Outcome (Bool × Table K V)
  unfolding expand_if_needed link_new
  insert_new ks allocated node t key value =
      let (room, grown) = expand_if_needed allocated t in
      let fresh : Node K V = record { key = key; value = value } in
      let linked : Outcome (Bool × Table K V) = link_new ks grown fresh >>= λ t'. done (true, t') in
      if room
      then (elim node [ none ↦ done (false, grown) | some _ ↦ linked ])
      else done (false, grown)

  -- table_insert: the value that it returns, or none for NULL, and the table. The value of a new
  -- node is read before it is written.
  unfoldable pub table_insert :
      Keys K → Bool → Option V → Table K V → K → V → Outcome (Option V × Table K V)
  unfolding table_find assign_both insert_new
  table_insert ks allocated node t key value = do
    (found, t') ← table_find ks t key
    elim found [
      | some n ↦ do t'' ← assign_both ks t' key value; done (some n.value, t'')
      | none ↦ do
        (made, t'') ← insert_new ks allocated node t' key value
        done (if made then node else none, t'')
    ]
