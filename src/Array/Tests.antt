-- ===== src/Array/Tests.antt =====
-- Runs of the array functions, and the theorems at concrete arrays.
use ztool_lib.Common.{ℕ, ◌≡◌, refl, true, none, some, [], ◌∷◌, arith}
use ztool_lib.Common.Outcome.{fault, Ends}
use ztool_lib.Array.{
  Array, array_push_back, array_push, ensure_room, array_reserve, array_remove_index, remove_slot,
  array_push_n,
}
use ztool_lib.Array.Contents.{
  IsArray, Appended, Removed, array_push_back-appends, array_remove_index-removes,
}

abbrev full_pair : Array ℕ
full_pair = record { nelts = 2; nalloc = 2; eltsize = 8; elts = some 5 ∷ some 6 ∷ [] }

full_pair-IsArray : IsArray full_pair
full_pair-IsArray = record {
  slots = refl;
  fits = omega arith;
  positive = omega arith;
  sized = omega arith;
  bounded = omega arith;
  bytes = omega arith;
}

array_push_back-appends_example : Ends (Appended full_pair 7) (array_push_back true full_pair 7)
array_push_back-appends_example = array_push_back-appends full_pair 7 full_pair-IsArray

array_remove_index-removes_example : Ends (Removed full_pair 0) (array_remove_index full_pair 0)
array_remove_index-removes_example =
    array_remove_index-removes full_pair 0 full_pair-IsArray (omega arith)

-- An array that was made for no elements: the first push writes outside its memory.
abbrev empty_array : Array ℕ
empty_array = record { nelts = 0; nalloc = 0; eltsize = 8; elts = [] }

empty_push : array_push_back true empty_array 7 ≡ fault
unfolding array_push_back array_push ensure_room array_reserve
empty_push = refl

-- The index behind the last element passes the guard, and the move leaves the memory.
remove_behind : array_remove_index full_pair 2 ≡ fault
unfolding array_remove_index remove_slot
remove_behind = refl

-- Five elements pushed at once into two slots: the array has room for four.
push_n_short :
    array_push_n true full_pair 5
    ≡ some (
      2,
      record { nelts = 7; nalloc = 4; eltsize = 8; elts = some 5 ∷ some 6 ∷ none ∷ none ∷ [] },
    )
unfolding array_push_n ensure_room array_reserve
push_n_short = refl
