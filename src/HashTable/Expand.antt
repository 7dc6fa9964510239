-- ===== src/HashTable/Expand.antt =====
-- The growth of the table of src/ZToolLib/ztl_table.c: table_expand_if_needed makes room for one
-- more node.
use ztool_lib.Common.{
  ℕ, zero, suc, ◌+◌, ◌-◌, ◌*◌, ◌/◌, ◌^◌, ◌≤◌, ◌≡◌, ◌≢◌, refl, sym, ap, ap₂, ◌∙◌, Bool, true, false,
  ◌==◌, ◌&&◌, ◌||◌, ltb, leb, if◌then◌else◌, Option, none, some, List, [], arith, Bool-cases,
  option-cases, inl, inr, replicate,
}
use ztool_lib.HashTable.{
  Keys, Node, Intl, Table, table_length, init_size, power_loop, table_next_power, table_expand,
  expand_if_needed,
}
use ztool_lib.HashTable.Arrays.{IsHeld}
use ztool_lib.HashTable.Placed.{number, view-eq-none, number-eq-zero, replicate-IsArray}
use ztool_lib.HashTable.States.{
  IsTable, IsReset, IsClear, IsShaped, value_of, IsArray-buckets, IsShaped_moving, IsShaped_whole,
  number_reset,
}

pub power_loop-ge : (fuel i size : ℕ) → i ≤ power_loop fuel i size
unfolding power_loop
power_loop-ge zero i size = omega arith
power_loop-ge (suc fuel) i size = ground (arith, power_loop-ge fuel (i * 2) size)

pub table_next_power-ge-one : (size : ℕ) → 1 ≤ table_next_power size
unfolding table_next_power
table_next_power-ge-one size = ground (arith, power_loop-ge 64 init_size size)

power_loop-le : (fuel i size : ℕ) → i ≤ 2 ^ 32 → size ≤ 2 ^ 31 → power_loop fuel i size ≤ 2 ^ 32
unfolding power_loop
power_loop-le zero i size h k = h
power_loop-le (suc fuel) i size h k = elim (Bool-cases (leb size i)) [
  | inl e ↦ rw (e) h
  | inr e ↦ rw (e) (power_loop-le fuel (i * 2) size (ground (arith, e, k)) k)
]

-- A size up to 2^31 is rounded to at most 2^32 buckets.
table_next_power-le : (size : ℕ) → size ≤ 2 ^ 31 → table_next_power size ≤ 2 ^ 32
unfolding table_next_power
table_next_power-le size h =
    let small : ltb (2 ^ 63 - 1) size ≡ false = ground arith in
    rw (small) (power_loop-le 64 init_size size (omega arith) h)

abbrev empty_array : {K V : Type 0} → ℕ → Intl K V
empty_array n = record { size = n; sizemask = n - 1; used = 0; buckets = some (replicate n []) }

number-empty_array :
    {K : Type 0} (V : Type 0) (ks : Keys K) (n : ℕ) (key : K)
    → 1 ≤ n
    → n ≤ 2 ^ 32
    → number ks (empty_array {V = V} n) key ≡ 0
number-empty_array V ks n key h k =
    number-eq-zero ks (empty_array n) key (sym (replicate-IsArray {V = V} ks n h k).used_total)

module _ {K V : Type 0} (ks : Keys K) where
  -- What growing a table gives.
  pub record Expanded (t t' : Table K V) : Type 0 where
    pub is_table : IsTable ks t'
    pub values : (key : K) → value_of ks t' key ≡ value_of ks t key
    pub numbers :
        (key : K)
        → number ks t'.first key + number ks t'.second key
          ≡ number ks t.first key + number ks t.second key
    pub has_array : t'.first.buckets ≢ none
    pub same_length : table_length t' ≡ table_length t

  -- table_expand gives a new second array, or the first one of an empty table.
  pub table_expand_done :
      (t : Table K V) (size : ℕ)
      → IsTable ks t
      → t.rehashidx ≡ none
      → t.first.used ≤ size
      → size ≤ 2 ^ 31
      → (t' : Table K V) × (table_expand true t size ≡ (true, t')) × Expanded t t'
  unfolding table_expand IsHeld IsShaped IsReset IsClear value_of
  table_expand_done t size w stop fits bounded =
      let n = table_next_power size in
      let one = table_next_power-ge-one size in
      let word = table_next_power-le size bounded in
      let ti : Intl K V = empty_array n in
      let new = replicate-IsArray {V = V} ks n one word in
      let none_new : (key : K) → number ks ti key ≡ 0 =
        λ key. number-empty_array V ks n key one word in
      let (first, r) = IsShaped_whole ks t w stop in
      let none_second : (key : K) → number ks t.second key ≡ 0 =
        λ key. number_reset ks t.second key r in
      let unused : ltb size t.first.used ≡ false = ground arith in
      let grow : Option (List (List (Node K V))) → Table K V = λ c. elim c [
        | none ↦ record t { reserve_size = n; first = ti }
        | some _ ↦ record t { reserve_size = n; second = ti; rehashidx = some 0 }
      ] in
      let step : table_expand true t size ≡ (true, grow t.first.buckets) =
        ap₂
          (λ o b.
            if (elim o [ none ↦ b | some _ ↦ true ])
            then (false, t)
            else (true, grow t.first.buckets))
          stop unused in
      elim first [
        | inl a ↦
            (let (bs, e, _) = a.held in
              (
                record t { reserve_size = n; second = ti; rehashidx = some 0 },
                step ∙ ap (λ c. (true, grow c)) e,
                record {
                  is_table = record {
                    shaped = (a, new, λ j k. absurd (omega arith), omega arith);
                    unique = λ key. omega (arith, w.unique key, none_new key);
                    reserved = λ f. absurd (IsArray-buckets ks t.first a f);
                  };
                  values = λ key. rw (
                    view-eq-none ks ti key (none_new key),
                    view-eq-none ks t.second key (none_second key),
                  );
                  numbers = λ key. omega (arith, none_new key, none_second key);
                  has_array = IsArray-buckets ks t.first a;
                  same_length = omega (arith, r.2);
                },
              ))
        | inr (e, z, u) ↦ (
          record t { reserve_size = n; first = ti },
          step ∙ ap (λ c. (true, grow c)) e,
          record {
            is_table = record {
              shaped = rw (stop) (inl new, r);
              unique = λ key. omega (arith, w.unique key, none_new key);
              reserved = λ f. absurd (IsArray-buckets ks ti new f);
            };
            values = λ key. rw (
              view-eq-none ks ti key (none_new key),
              view-eq-none ks t.first key (number_reset ks t.first key (e, z, u)),
            );
            numbers = λ key. omega (arith, none_new key, number_reset ks t.first key (e, z, u));
            has_array = IsArray-buckets ks ti new;
            same_length = omega (arith, u);
          },
        )
      ]

  -- table_expand_if_needed on a table of at most 2^30 nodes, where the memory is there, never fails.
  pub expand_if_needed_done :
      (t : Table K V)
      → IsTable ks t
      → table_length t ≤ 2 ^ 30
      → (t' : Table K V) × (expand_if_needed true t ≡ (true, t')) × Expanded t t'
  unfolding expand_if_needed IsReset
  expand_if_needed_done t w few =
      let same : t.first.buckets ≢ none → Expanded t t = λ h. record {
        is_table = w;
        values = λ key. refl;
        numbers = λ key. refl;
        has_array = h;
        same_length = refl;
      } in
      elim (option-cases t.rehashidx) [
        | inr (i, go) ↦
            (let (a, _, _, _) = IsShaped_moving ks t i w go in
              (t, rw (go), same (IsArray-buckets ks t.first a)))
        | inl stop ↦
            (let (first, _) = IsShaped_whole ks t w stop in
              let room : Bool =
                leb t.first.size t.first.used
                && (t.can_resize || ltb 5 (t.first.used / t.first.size)) in
              let start = table_expand true t t.reserve_size in
              let double = table_expand true t (t.first.used * 2) in
              let step : expand_if_needed true t
                  ≡ (if t.first.size == 0 then start else if room then double else (true, t)) =
                ap
                  (λ o. elim o [
                    | some _ ↦ (true, t)
                    | none ↦ if t.first.size == 0 then start else if room then double else (true, t)
                  ])
                  stop in
              let branch : Bool → Bool → Bool × Table K V =
                λ b c. if b then start else if c then double else (true, t) in
              elim first [
                | inl a ↦
                    (let nonempty : (t.first.size == 0) ≡ false = ground (arith, a.masked) in
                      elim (Bool-cases room) [
                        | inl e ↦
                            (let (t', runs, x) =
                                table_expand_done t (t.first.used * 2) w stop (omega arith)
                                  (omega (arith, few)) in
                              (t', step ∙ ap₂ branch nonempty e ∙ runs, x))
                        | inr e ↦
                            (t, step ∙ ap₂ branch nonempty e, same (IsArray-buckets ks t.first a))
                      ])
                | inr (f, z, u) ↦
                    (let (t', runs, x) =
                        table_expand_done t t.reserve_size w stop (omega (arith, u))
                          (w.reserved f) in
                      let empty : (t.first.size == 0) ≡ true = ground arith in
                      (t', step ∙ ap (λ b. branch b room) empty ∙ runs, x))
              ])
      ]
