-- ===== src/Array/Contents.antt =====
-- The array of src/ZToolLib/ztl_array.c as the sequence of its elements.
use ztool_lib.Common.{
  ℕ, zero, suc, ◌+◌, ◌-◌, ◌*◌, ◌%◌, ◌^◌, ◌≤◌, ◌<◌, ◌≡◌, refl, sym, ap, subst, ◌∙◌, Bool, true, leb,
  ◌==◌, if◌then◌else◌, Option, none, some, List, [], ◌∷◌, ◌++◌, length, take, drop, set, arith,
  tests, Bool-cases, inl, inr, length-append, length-set, length-take, length-drop, lt→ltb, le→ltb,
  ==→eq,
}
use ztool_lib.Common.Memory.{resize, take-resize, length-resize, slots_whole, bytes_le}
use ztool_lib.Common.Outcome.{Outcome, done, fault, out_of_fuel, Ends, ends}
use ztool_lib.Array.{
  Array, move_down, array_reserve, ensure_room, array_push, array_push_back, remove_slot,
  array_remove_index,
}

le→leb : (n m : ℕ) → n ≤ m → leb n m ≡ true
le→leb n m h = ground arith

module _ {A : Type 0} where
  abbrev pub contents : Array A → List (Option A)
  contents arr = take arr.nelts arr.elts

  pub record IsArray (arr : Array A) : Type 0 where
    pub slots : length arr.elts ≡ arr.nalloc
    pub fits : arr.nelts ≤ arr.nalloc
    pub positive : 1 ≤ arr.nalloc
    pub sized : 1 ≤ arr.eltsize
    pub bounded : arr.nalloc * 2 < 2 ^ 32
    pub bytes : arr.nalloc * 2 * arr.eltsize < 2 ^ 32

  take-set :
      (xs : List (Option A)) (n : ℕ) (v : Option A)
      → n < length xs
      → take (n + 1) (set xs n v) ≡ take n xs ++ v ∷ []
  take-set xs n v h =
      let one_more : suc n ≡ n + 1 = omega arith in
      subst (λ k. take k (set xs n v) ≡ take n xs ++ v ∷ []) one_more (go xs n h)
    where
      go :
          (ys : List (Option A)) (k : ℕ)
          → k < length ys
          → take (suc k) (set ys k v) ≡ take k ys ++ v ∷ []
      go [] k p = absurd (omega arith)
      go (y ∷ ys) zero p = refl
      go (y ∷ ys) (suc k) p = ap (◌∷◌ y) (go ys k (omega arith))

  take-append : (n : ℕ) (xs ys : List (Option A)) → n ≤ length xs → take n (xs ++ ys) ≡ take n xs
  take-append zero xs ys h = refl
  take-append (suc n) [] ys h = absurd (omega arith)
  take-append (suc n) (x ∷ xs) ys h = ap (◌∷◌ x) (take-append n xs ys (omega arith))

  -- The elements without the one at an index.
  pub without : ℕ → List (Option A) → List (Option A)
  without i [] = []
  without zero (x ∷ xs) = xs
  without (suc i) (x ∷ xs) = x ∷ without i xs

  take-take : (n : ℕ) (xs : List (Option A)) → take n (take n xs) ≡ take n xs
  take-take zero xs = refl
  take-take (suc n) [] = refl
  take-take (suc n) (x ∷ xs) = ap (◌∷◌ x) (take-take n xs)

  take-move_down :
      (i n k : ℕ) (xs : List (Option A))
      → k ≡ i + n
      → k < length xs
      → take k (move_down i n xs) ≡ without i (take (suc k) xs)
  unfolding move_down without
  take-move_down i n k [] e h = absurd (omega arith)
  take-move_down zero n k (x ∷ xs) e h =
      let m : n ≡ k = omega (arith, e) in
      rw m (
        take-append k (take k xs) (drop k (x ∷ xs)) (omega (arith, length-take k xs (omega arith)))
        ∙ take-take k xs)
  take-move_down (suc i) n zero (x ∷ xs) e h = absurd (omega (arith, e))
  take-move_down (suc i) n (suc k) (x ∷ xs) e h =
      ap (◌∷◌ x) (take-move_down i n k xs (omega (arith, e)) (omega arith))

  length-move_down :
      (i n : ℕ) (xs : List (Option A))
      → i + 1 + n ≤ length xs
      → length (move_down i n xs) ≡ length xs
  unfolding move_down
  length-move_down i n [] h = absurd (omega arith)
  length-move_down zero n (x ∷ xs) h = omega (
    arith,
    length-append (take n xs) (drop n (x ∷ xs)),
    length-take n xs (omega arith),
    length-drop n (x ∷ xs),
  )
  length-move_down (suc i) n (x ∷ xs) h = ap suc (length-move_down i n xs (omega arith))

  -- The array after the room is ensured for one more element.
  record Roomy (arr a : Array A) : Type 0 where
    slots : length a.elts ≡ a.nalloc
    room : a.nelts < a.nalloc
    count : a.nelts ≡ arr.nelts
    kept : contents a ≡ contents arr
    size : a.nelts * a.eltsize < 2 ^ 32

  -- ztl_array_push asks for room for twice the slots.
  grown_Roomy :
      (arr : Array A)
      → IsArray arr
      → arr.nelts ≡ arr.nalloc
      → Roomy arr
          (record arr { nalloc = arr.nalloc * 2; elts = resize none (arr.nalloc * 2) arr.elts })
  grown_Roomy arr v full = record {
    slots = length-resize none (arr.nalloc * 2) arr.elts;
    room = omega (arith, v.positive, full);
    count = refl;
    kept =
        take-resize none arr.nelts (arr.nalloc * 2) arr.elts (omega (arith, v.fits))
          (omega (arith, v.slots, v.fits));
    size =
        omega
          (arith, v.bytes, bytes_le arr.nelts (arr.nalloc * 2) arr.eltsize (omega (arith, v.fits)));
  }

  -- The array that ztl_array_push works on.
  abbrev roomed : Array A → Array A
  roomed arr =
      if arr.nelts == arr.nalloc
      then record arr { nalloc = arr.nalloc * 2; elts = resize none (arr.nalloc * 2) arr.elts }
      else arr

  roomed-Roomy : (arr : Array A) → IsArray arr → Roomy arr (roomed arr)
  roomed-Roomy arr v = elim (Bool-cases (arr.nelts == arr.nalloc)) [
    | inl full ↦ rw full (grown_Roomy arr v (omega (tests, full)))
    | inr free ↦ rw free (record {
      slots = v.slots;
      room = omega (tests, free, v.fits);
      count = refl;
      kept = refl;
      size =
          omega (
            arith,
            v.bytes,
            bytes_le arr.nelts (arr.nalloc * 2) arr.eltsize (omega (arith, v.fits)),
          );
    })
  ]

  ensure_room-roomed :
      (arr : Array A)
      → IsArray arr
      → ensure_room true arr (arr.nelts == arr.nalloc) ≡ some (roomed arr)
  unfolding ensure_room array_reserve
  ensure_room-roomed arr v = elim (Bool-cases (arr.nelts == arr.nalloc)) [
    | inr free ↦ rw free refl
    | inl full ↦
        let size : arr.nalloc * 2 % 2 ^ 32 ≡ arr.nalloc * 2 = omega (arith, v.bounded) in
        rw
          (
            full,
            size,
            lt→ltb arr.nalloc (arr.nalloc * 2) (omega (arith, v.positive)),
            slots_whole arr.eltsize (arr.nalloc * 2) v.sized v.bytes,
          )
          refl
  ]

  array_push-roomed :
      (arr : Array A)
      → IsArray arr
      → array_push true arr
        ≡ some ((roomed arr).nelts, record (roomed arr) { nelts = (roomed arr).nelts + 1 })
  unfolding array_push
  array_push-roomed arr v = rw (array_push, ensure_room-roomed arr v) refl

  -- What ztl_array_push_back leaves.
  pub Appended : Array A → A → Bool × Array A → Type 0
  Appended arr elem (ok, a) =
      (ok ≡ true)
      × (contents a ≡ contents arr ++ some elem ∷ [])
      × (length a.elts ≡ a.nalloc)
      × (a.nelts ≤ a.nalloc)

  -- ztl_array_push_back on an array of at least one and less than 2^31 slots, where twice the slots
  -- take less than 2^32 bytes and realloc gives the memory that is asked for, writes inside the memory, returns true and appends the element
  -- to the elements of the array.
  pub array_push_back-appends :
      (arr : Array A) (elem : A)
      → IsArray arr
      → Ends (Appended arr elem) (array_push_back true arr elem)
  unfolding array_push_back Appended
  array_push_back-appends arr elem v =
      let r = roomed-Roomy arr v in
      rw
        (
          array_push_back,
          array_push-roomed arr v,
          lt→ltb (roomed arr).nelts (length (roomed arr).elts) (omega (arith, r.slots, r.room)),
          lt→ltb ((roomed arr).nelts * (roomed arr).eltsize) (2 ^ 32) r.size,
        )
        (ends (
          refl,
          take-set (roomed arr).elts (roomed arr).nelts (some elem) (omega (arith, r.slots, r.room))
              ∙ ap (λ x. x ++ some elem ∷ []) r.kept,
          length-set (roomed arr).elts (roomed arr).nelts (some elem) ∙ r.slots,
          omega (arith, r.room),
        ))

  without_last :
      (k : ℕ) (xs : List (Option A)) → k < length xs → take k xs ≡ without k (take (suc k) xs)
  unfolding without
  without_last k [] h = absurd (omega arith)
  without_last zero (x ∷ xs) h = refl
  without_last (suc k) (x ∷ xs) h = ap (◌∷◌ x) (without_last k xs (omega arith))

  -- What ztl_array_remove_index leaves.
  pub Removed : Array A → ℕ → Option (Array A) → Type 0
  Removed arr index none = ⊥
  Removed arr index (some a) =
      (contents a ≡ without index (contents arr))
      × (length a.elts ≡ a.nalloc)
      × (a.nelts + 1 ≡ arr.nelts)

  remove_slot-removes :
      (arr : Array A) (index : ℕ)
      → IsArray arr
      → index < arr.nelts
      → Ends (λ a. Removed arr index (some a)) (remove_slot arr index)
  unfolding remove_slot Removed
  remove_slot-removes arr index v h =
      let nelts = arr.nelts in
      let k = nelts - 1 in
      let last : (nelts + 2 ^ 32 - 1) % 2 ^ 32 ≡ k = omega (arith, h, v.fits, v.bounded) in
      let count : (k + 2 ^ 32 - index) % 2 ^ 32 ≡ k - index = omega (arith, h, v.fits, v.bounded) in
      let one_more : suc k ≡ nelts = omega (arith, h) in
      rw (remove_slot, last, count)
        (elim (Bool-cases (index == k)) [
          | inl e ↦
              let same = ==→eq index k e in
              rw e (
                ends (
                  subst (λ n. take k arr.elts ≡ without index (take n arr.elts)) one_more
                      (subst (λ i. take k arr.elts ≡ without i (take (suc k) arr.elts)) (sym same)
                        (without_last k arr.elts (omega (arith, h, v.fits, v.slots)))),
                  v.slots,
                  omega (arith, h),
                ))
          | inr e ↦
              rw
                (
                  e,
                  le→leb (index + 1 + (k - index)) (length arr.elts)
                      (omega (arith, h, v.fits, v.slots)),
                  lt→ltb ((index + 1 + (k - index)) * arr.eltsize) (2 ^ 32) (
                      omega (
                        arith,
                        v.bytes,
                        bytes_le (index + 1 + (k - index)) (arr.nalloc * 2) arr.eltsize
                            (omega (arith, h, v.fits)),
                      )),
                )
                (ends (
                  subst
                      (λ n.
                        take k (move_down index (k - index) arr.elts)
                        ≡ without index (take n arr.elts))
                      one_more
                      (take-move_down index (k - index) k arr.elts (omega (arith, h))
                        (omega (arith, h, v.fits, v.slots))),
                  length-move_down index (k - index) arr.elts (omega (arith, h, v.fits, v.slots))
                      ∙ v.slots,
                  omega (arith, h),
                ))
        ])

  kept_some :
      (arr : Array A) (index : ℕ) (m : Outcome (Array A))
      → Ends (λ a. Removed arr index (some a)) m
      → Ends
          (Removed arr index)
          (elim m [ done a ↦ done (some a) | fault ↦ fault | out_of_fuel ↦ out_of_fuel ])
  kept_some arr index _ (ends r) = ends r

  -- ztl_array_remove_index at the index of an element, in an array of less than 2^31 slots, twice
  -- which take less than 2^32 bytes, moves inside the memory and leaves the other elements in their order.
  pub array_remove_index-removes :
      (arr : Array A) (index : ℕ)
      → IsArray arr
      → index < arr.nelts
      → Ends (Removed arr index) (array_remove_index arr index)
  unfolding array_remove_index
  array_remove_index-removes arr index v h =
      rw (le→ltb arr.nelts index (omega (arith, h)))
        (kept_some arr index (remove_slot arr index) (remove_slot-removes arr index v h))
