-- ===== src/Vector/Remove.antt =====
-- cvector_remove of src/ZToolLib/ztl_vector.c, with the memmove that it makes after it has lowered
-- the count.
use ztool_lib.Common.{
  ℕ, zero, suc, ◌+◌, ◌-◌, ◌*◌, ◌^◌, ◌||◌, lt→ltb, ◌≤◌, ◌<◌, ◌≡◌, ◌≢◌, refl, sym, ap, ap₂, ◌∙◌, true,
  false, ltb, leb, List, [], ◌∷◌, ◌++◌, length, take, drop, arith, Bool-cases, inl, inr, ◌⊎◌,
}
use ztool_lib.Common.Int.{pos}
use ztool_lib.Common.Memory.{bytes_le}
use ztool_lib.Common.Outcome.{done, fault}
use ztool_lib.Vector.{Cvector, memmove, cvector_remove}
use ztool_lib.Vector.Contents.{contents, IsCvector}

module _ {A : Type 0} where
  -- A list without the element at an index.
  unfoldable pub without : ℕ → List A → List A
  without i [] = []
  without zero (x ∷ xs) = xs
  without (suc i) (x ∷ xs) = x ∷ without i xs

  take-take_append :
      (k n : ℕ) (xs r : List A) → k ≤ n → k ≤ length xs → take k (take n xs ++ r) ≡ take k xs
  take-take_append zero n xs r h g = refl
  take-take_append (suc k) zero xs r h g = absurd (omega arith)
  take-take_append (suc k) (suc n) [] r h g = absurd (omega arith)
  take-take_append (suc k) (suc n) (x ∷ xs) r h g =
      ap (◌∷◌ x) (take-take_append k n xs r (omega arith) (omega arith))

  -- What the move leaves at the front of the memory.
  take-moved :
      (i k n : ℕ) (xs r : List A)
      → i ≤ k
      → k ≤ i + n
      → suc k ≤ length xs
      → take k (take i xs ++ (take n (drop (suc i) xs) ++ r)) ≡ without i (take (suc k) xs)
  unfolding without
  take-moved i k n [] r h g l = absurd (omega arith)
  take-moved zero k n (x ∷ xs) r h g l = take-take_append k n xs r (omega arith) (omega arith)
  take-moved (suc i) zero n (x ∷ xs) r h g l = absurd (omega arith)
  take-moved (suc i) (suc k) n (x ∷ xs) r h g l =
      ap (◌∷◌ x) (take-moved i k n xs r (omega arith) (omega arith) (omega arith))

  -- The last element is the one that goes.
  without-last : (k : ℕ) (xs : List A) → suc k ≤ length xs → without k (take (suc k) xs) ≡ take k xs
  unfolding without
  without-last k [] h = absurd (omega arith)
  without-last zero (x ∷ xs) h = refl
  without-last (suc k) (x ∷ xs) h = ap (◌∷◌ x) (without-last k xs (omega arith))

  memmove_done :
      (xs : List A) (i n : ℕ)
      → i + 1 + n ≤ length xs
      → memmove xs i (i + 1) n ≡ done (take i xs ++ (take n (drop (suc i) xs) ++ drop (i + n) xs))
  unfolding memmove
  memmove_done xs i n h =
      let fits : leb (i + 1 + n) (length xs) ≡ true = ground arith in
      let e : i + 1 ≡ suc i = omega arith in
      rw (fits) (ap (λ j. done (take i xs ++ (take n (drop j xs) ++ drop (i + n) xs))) e)

  memmove_fault : (xs : List A) (i n : ℕ) → length xs < i + 1 + n → memmove xs i (i + 1) n ≡ fault
  unfolding memmove
  memmove_fault xs i n h =
      let tight : leb (i + 1 + n) (length xs) ≡ false = ground arith in rw (tight)

  -- cvector_remove of an index inside a well-formed vector, other than the last but one. When the
  -- move stays inside the memory, it takes out the element at the index; otherwise, which needs an
  -- index below the last but one, it reads past the end of the memory.
  pub cvector_remove-without :
      (vec : Cvector A) (i : ℕ)
      → IsCvector vec
      → i < vec.nelts
      → i + 2 ≢ vec.nelts
      → ((vec' : Cvector A) × (cvector_remove vec (pos i) ≡ done (true, vec'))
          × (contents vec' ≡ without i (contents vec))
          × (vec'.nelts + 1 ≡ vec.nelts))
        ⊎ ((length vec.elts < i + vec.nelts)
            × (i + 2 < vec.nelts)
            × (cvector_remove vec (pos i) ≡ fault))
  unfolding cvector_remove
  cvector_remove-without vec i w inside other =
      let left = vec.nelts - 1 in
      let size : ltb (left * vec.eltsize) (2 ^ 32) ≡ true =
        lt→ltb _ _
          (omega (arith, w.bytes, bytes_le left vec.nalloc vec.eltsize (omega (arith, w.used)))) in
      let whole : suc left ≡ vec.nelts = omega arith in
      let long : suc left ≤ length vec.elts = omega (arith, w.used, w.held) in
      let kept : (leb vec.nelts i || leb (2 ^ 31) vec.nelts) ≡ false =
        ground (arith, w.used, w.counted) in
      elim (Bool-cases (ltb i (left - 1))) [
        | inr last ↦
            (let same : i ≡ left = ground (arith, last, other) in
              inl (
                record vec { nelts = left },
                rw (kept, last),
                sym (without-last left vec.elts long)
                    ∙ ap₂ (λ k n. without k (take n vec.elts)) (sym same) whole,
                omega arith,
              ))
        | inl before ↦ elim (Bool-cases (leb (i + 1 + left) (length vec.elts))) [
          | inl fits ↦ inl (
            record vec {
              elts =
                  take i vec.elts
                  ++ (take left (drop (suc i) vec.elts) ++ drop (i + left) vec.elts);
              nelts = left;
            },
            rw (kept, before, size, memmove_done vec.elts i left (ground (arith, fits))),
            take-moved i left left vec.elts (drop (i + left) vec.elts) (ground (arith, before))
                  (omega arith) long
                ∙ ap (λ n. without i (take n vec.elts)) whole,
            omega arith,
          )
          | inr tight ↦ inr (
            ground (arith, tight),
            ground (arith, before),
            rw (kept, before, size, memmove_fault vec.elts i left (ground (arith, tight))),
          )
        ]
      ]

  -- cvector_remove of the last but one element of a well-formed vector takes out the last element in
  -- its place.
  pub cvector_remove-last_but_one :
      (vec : Cvector A) (i : ℕ)
      → IsCvector vec
      → i + 2 ≡ vec.nelts
      → (vec' : Cvector A) × (cvector_remove vec (pos i) ≡ done (true, vec'))
        × (contents vec' ≡ without (i + 1) (contents vec))
  unfolding cvector_remove
  cvector_remove-last_but_one vec i w h =
      let left = vec.nelts - 1 in
      let kept : (leb vec.nelts i || leb (2 ^ 31) vec.nelts) ≡ false =
        ground (arith, w.used, w.counted) in
      let still : ltb i (left - 1) ≡ false = ground arith in
      let whole : suc left ≡ vec.nelts = omega arith in
      let place : left ≡ i + 1 = omega arith in
      (
        record vec { nelts = left },
        rw (kept, still),
        sym (without-last left vec.elts (omega (arith, w.used, w.held)))
            ∙ ap₂ (λ k n. without k (take n vec.elts)) place whole,
      )
