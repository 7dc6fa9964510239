-- ===== src/Vector/Contents.antt =====
-- The elements of the vector of src/ZToolLib/ztl_vector.c, and what adding one does.
use ztool_lib.Common.{
  ℕ, ◌+◌, ◌*◌, ◌%◌, ◌^◌, ◌≤◌, ◌<◌, ◌≡◌, refl, ap, sym, subst, ◌∙◌, true, false, ltb, leb, ◌==◌,
  List, [], ◌∷◌, ◌++◌, length, take, set, length-set, arith, Bool-cases, inl, inr,
}
use ztool_lib.Common.Memory.{resize, take-set, take-resize, length-resize, slots_whole, bytes_le}
use ztool_lib.Common.Outcome.{done, fault}
use ztool_lib.Vector.{Cvector, align, cvector_reserve, check_reserve, cvector_push}

align-ge : (n : ℕ) → n ≤ align n 4
unfolding align
align-ge n = omega arith

align-lt : (n : ℕ) → align n 4 < n + 4
unfolding align
align-lt n = omega arith

module _ {A : Type 0} where
  abbrev pub contents : Cvector A → List A
  contents vec = take vec.nelts vec.elts

  -- The elements fit in the capacity, and the capacity in the memory; the capacity is below 2^31,
  -- and its size in bytes below 2^32.
  pub record IsCvector (vec : Cvector A) : Type 0 where
    pub used : vec.nelts ≤ vec.nalloc
    pub held : vec.nalloc ≤ length vec.elts
    pub sized : 1 ≤ vec.eltsize
    pub counted : vec.nalloc < 2 ^ 31
    pub bytes : vec.nalloc * vec.eltsize < 2 ^ 32

  -- The check before a push makes room and keeps the elements, where realloc succeeds.
  check_reserve_done :
      (junk : A) (vec : Cvector A)
      → IsCvector vec
      → 1 ≤ vec.nalloc
      → vec.nalloc * 2 + 4 ≤ 2 ^ 31
      → (vec.nalloc * 2 + 3) * vec.eltsize < 2 ^ 32
      → (room : Cvector A) × (check_reserve true junk vec ≡ room)
        × (room.nelts ≡ vec.nelts)
        × (vec.nelts < room.nalloc)
        × (room.nalloc ≤ length room.elts)
        × (room.eltsize ≡ vec.eltsize)
        × (room.nalloc < 2 ^ 31)
        × (room.nalloc * vec.eltsize < 2 ^ 32)
        × (take vec.nelts room.elts ≡ contents vec)
  unfolding check_reserve cvector_reserve
  check_reserve_done junk vec w some_room small bytes =
      elim (Bool-cases (vec.nelts == vec.nalloc)) [
        | inr e ↦
            (vec, rw (e), refl, ground (arith, e, w.used), w.held, refl, w.counted, w.bytes, refl)
        | inl e ↦
            (let num = align (vec.nalloc * 2) 4 in
              let wide = align-ge (vec.nalloc * 2) in
              let narrow = align-lt (vec.nalloc * 2) in
              let grows : leb num vec.nalloc ≡ false = ground (arith, wide, some_room) in
              let doubled : vec.nalloc * 2 % 2 ^ 32 ≡ vec.nalloc * 2 = omega (arith, small) in
              let aligned : align (vec.nalloc * 2) 4 % 2 ^ 32 ≡ align (vec.nalloc * 2) 4 =
                omega (arith, narrow, small) in
              let fit : num * vec.eltsize < 2 ^ 32 = omega (
                arith,
                bytes,
                bytes_le num (vec.nalloc * 2 + 3) vec.eltsize (omega (arith, narrow)),
              ) in
              let whole = slots_whole vec.eltsize num w.sized fit in
              (
                record vec { elts = resize junk num vec.elts; nalloc = num },
                rw (e, doubled, aligned, grows, whole),
                refl,
                ground (arith, e, wide, some_room),
                omega (arith, length-resize junk num vec.elts),
                refl,
                omega (arith, narrow, small),
                fit,
                take-resize junk vec.nelts num vec.elts (omega (arith, wide, w.used))
                    (omega (arith, w.used, w.held)),
              ))
      ]

  -- cvector_push on a well-formed vector with a capacity of at least 1, where twice the capacity,
  -- with up to three slots more, is below 2^31 and below 2^32 bytes, and where realloc succeeds: it
  -- stays inside the memory, adds the element at the end and keeps the vector well-formed.
  pub cvector_push-appends :
      (junk : A) (vec : Cvector A) (val : A)
      → IsCvector vec
      → 1 ≤ vec.nalloc
      → vec.nalloc * 2 + 4 ≤ 2 ^ 31
      → (vec.nalloc * 2 + 3) * vec.eltsize < 2 ^ 32
      → (vec' : Cvector A) × (cvector_push true junk vec val ≡ done vec')
        × IsCvector vec'
        × (contents vec' ≡ contents vec ++ (val ∷ []))
  unfolding cvector_push
  cvector_push-appends junk vec val w some_room small bytes =
      let (room, runs, same, fits, held, size, count, fit, keeps) =
        check_reserve_done junk vec w some_room small bytes in
      let inside : ltb room.nelts (length room.elts) ≡ true = ground (arith, same, fits, held) in
      (
        record room { elts = set room.elts room.nelts val; nelts = room.nelts + 1 },
        rw (runs, inside),
        record {
          used = omega (arith, same, fits);
          held = omega (arith, held, length-set room.elts room.nelts val);
          sized = omega (arith, w.sized, size);
          counted = count;
          bytes = subst (λ s. room.nalloc * s < 2 ^ 32) (sym size) fit;
        },
        take-set room.elts room.nelts val (omega (arith, same, fits, held))
            ∙ ap (λ xs. xs ++ (val ∷ [])) (ap (λ n. take n room.elts) same ∙ keeps),
      )

  -- cvector_push on a full vector of less than 2^31 - 1 slots, where realloc fails: the failure is not looked at, and the element
  -- is written past the end of the memory when the memory has no more slots than the capacity.
  pub cvector_push-fault :
      (junk : A) (vec : Cvector A) (val : A)
      → vec.nelts ≡ vec.nalloc
      → 1 ≤ vec.nalloc
      → length vec.elts ≡ vec.nalloc
      → vec.nalloc * 2 + 4 ≤ 2 ^ 32
      → cvector_push false junk vec val ≡ fault
  unfolding cvector_push check_reserve cvector_reserve
  cvector_push-fault junk vec val full some_room tight small =
      let e : (vec.nelts == vec.nalloc) ≡ true = ground (arith, full) in
      let doubled : vec.nalloc * 2 % 2 ^ 32 ≡ vec.nalloc * 2 = omega (arith, small) in
      let aligned : align (vec.nalloc * 2) 4 % 2 ^ 32 ≡ align (vec.nalloc * 2) 4 =
        omega (arith, align-lt (vec.nalloc * 2), small) in
      let grows : leb (align (vec.nalloc * 2) 4) vec.nalloc ≡ false =
        ground (arith, align-ge (vec.nalloc * 2), some_room) in
      let outside : ltb vec.nelts (length vec.elts) ≡ false = ground (arith, full, tight) in
      rw (e, doubled, aligned, grows, outside)
