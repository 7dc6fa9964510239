-- ===== src/Array.antt =====
-- src/ZToolLib/ztl_array.c, for an array outside a pool (its `pool` is NULL). The memory of the
-- elements is a list of slots of the size of one element; none is a slot that has not been written.
-- Sizes and offsets in bytes are uint32_t.
pub mod Contents
mod Tests
use ztool_lib.Common.{
  ℕ, zero, suc, ◌+◌, ◌-◌, ◌*◌, ◌/◌, ◌%◌, ◌^◌, ◌≤◌, ◌<◌, Bool, true, false, ltb, leb, ◌==◌, ◌&&◌,
  if◌then◌else◌, Option, none, some, List, [], ◌∷◌, ◌++◌, length, take, drop, get_or, set,
  replicate,
}
use ztool_lib.Common.Memory.{resize, slots}
use ztool_lib.Common.Outcome.{Outcome, done, fault, out_of_fuel}

-- ztl_array_t
pub record Array (A : Type 0) : Type 0 where
  pub nelts : ℕ
  pub nalloc : ℕ
  pub eltsize : ℕ
  pub elts : List (Option A)

module _ {A : Type 0} where
  -- memmove of n slots from the slot behind i to slot i; `remove_slot` looks at the size in bytes.
  unfoldable pub move_down : ℕ → ℕ → List A → List A
  move_down zero n [] = []
  move_down zero n (x ∷ xs) = take n xs ++ drop n (x ∷ xs)
  move_down (suc i) n [] = []
  move_down (suc i) n (x ∷ xs) = x ∷ move_down i n xs

-- _ztl_array_init, ztl_array_create and ztl_array_init, where malloc gives the memory or does not.
unfoldable pub array_create : {A : Type 0} → Bool → ℕ → ℕ → Option (Array A)
array_create malloced num eltsize =
    if malloced
    then some (record { nelts = 0; nalloc = num; eltsize = eltsize; elts = replicate num none })
    else none

module _ {A : Type 0} where
  -- ztl_array_clear
  unfoldable pub array_clear : Array A → Array A
  array_clear arr = record arr { nelts = 0 }

  -- ztl_array_reserve: none is the result false, which leaves the array as it was. The product
  -- reserve_num * eltsize that realloc is asked for is a uint32_t.
  unfoldable pub array_reserve : Bool → Array A → ℕ → Option (Array A)
  unfolding resize slots
  array_reserve realloced arr reserve_num =
      if ltb arr.nalloc reserve_num
      then (if realloced
          then some (record arr {
            nalloc = reserve_num;
            elts = resize none (slots arr.eltsize reserve_num) arr.elts;
          })
          else none)
      else some arr

  -- The room that ztl_array_push and ztl_array_push_n ask for when the array is too full.
  unfoldable pub ensure_room : Bool → Array A → Bool → Option (Array A)
  unfolding array_reserve
  ensure_room realloced arr full =
      if full then array_reserve realloced arr (arr.nalloc * 2 % 2 ^ 32) else some arr

  -- ztl_array_push: the index of the slot that it returns.
  unfoldable pub array_push : Bool → Array A → Option (ℕ × Array A)
  unfolding ensure_room
  array_push realloced arr = elim (ensure_room realloced arr (arr.nelts == arr.nalloc)) [
    | none ↦ none
    | some a ↦ some (a.nelts, record a { nelts = a.nelts + 1 })
  ]

  -- ztl_array_push_n, with the sums in 32 bits
  unfoldable pub array_push_n : Bool → Array A → ℕ → Option (ℕ × Array A)
  unfolding ensure_room
  array_push_n realloced arr n =
      elim (ensure_room realloced arr (ltb arr.nalloc ((arr.nelts + n) % 2 ^ 32))) [
        | none ↦ none
        | some a ↦ some (a.nelts, record a { nelts = (a.nelts + n) % 2 ^ 32 })
      ]

  -- ztl_array_push_back; a write outside the memory, or at an offset that does not fit in a
  -- uint32_t, is a fault.
  unfoldable pub array_push_back : Bool → Array A → A → Outcome (Bool × Array A)
  unfolding array_push
  array_push_back realloced arr elem = elim (array_push realloced arr) [
    | none ↦ done (false, arr)
    | some p ↦
        if ltb p.0 (length p.1.elts) && ltb (p.0 * p.1.eltsize) (2 ^ 32)
        then done (true, record (p.1) { elts = set p.1.elts p.0 (some elem) })
        else fault
  ]

  -- ztl_array_pop_back: the index of the element.
  unfoldable pub array_pop_back : Array A → Option ℕ × Array A
  array_pop_back arr =
      if ltb 0 arr.nelts
      then (some (arr.nelts - 1), record arr { nelts = arr.nelts - 1 })
      else (none, arr)

  -- The loop of ztl_array_find, from index x on, over the slots in use.
  unfoldable pub find_loop : (Option A → Bool) → ℕ → List (Option A) → Option ℕ
  find_loop cmp x [] = none
  find_loop cmp x (actual ∷ rest) =
      let found = find_loop cmp (x + 1) rest in if cmp actual then some x else found

  -- ztl_array_find, with the test that cmp makes on an element.
  unfoldable pub array_find : (Option A → Bool) → Array A → Option ℕ
  unfolding find_loop
  array_find cmp arr = find_loop cmp 0 (take arr.nelts arr.elts)

  -- The move and the new count of ztl_array_remove_index and ztl_array_remove_value, on unsigned
  -- 32-bit numbers; a move beyond the memory, or with a size or an offset in bytes that does not
  -- fit in a uint32_t, is a fault.
  unfoldable pub remove_slot : Array A → ℕ → Outcome (Array A)
  unfolding move_down
  remove_slot arr index =
      let last = (arr.nelts + 2 ^ 32 - 1) % 2 ^ 32 in
      let count = (last + 2 ^ 32 - index) % 2 ^ 32 in
      if index == last
      then done (record arr { nelts = last })
      else if leb (index + 1 + count) (length arr.elts)
          && ltb ((index + 1 + count) * arr.eltsize) (2 ^ 32)
      then done (record arr { nelts = last; elts = move_down index count arr.elts })
      else fault

  -- ztl_array_remove_index: none is the result NULL.
  unfoldable pub array_remove_index : Array A → ℕ → Outcome (Option (Array A))
  unfolding remove_slot
  array_remove_index arr index =
      if ltb arr.nelts index then done none else (elim (remove_slot arr index) [
        | done a ↦ done (some a)
        | fault ↦ fault
        | out_of_fuel ↦ out_of_fuel
      ])

  -- ztl_array_remove_value
  unfoldable pub array_remove_value : (Option A → Bool) → Array A → Outcome (Array A)
  unfolding array_find remove_slot
  array_remove_value cmp arr = elim (array_find cmp arr) [
    | none ↦ done arr
    | some x ↦ remove_slot arr x
  ]
