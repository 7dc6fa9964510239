-- ===== src/Vector/Tests.antt =====
-- Runs of the vector, and the theorems at concrete vectors.
use ztool_lib.Common.{ℕ, ◌+◌, ◌≡◌, ◌<◌, refl, true, [], ◌∷◌, ◌++◌, length, arith, ◌⊎◌}
use ztool_lib.Common.Int.{pos}
use ztool_lib.Common.Outcome.{done, fault}
use ztool_lib.Vector.{Cvector, cvector_push, cvector_remove}
use ztool_lib.Vector.Contents.{contents, IsCvector, cvector_push-appends}
use ztool_lib.Common.Memory.{put}
use ztool_lib.Vector.Bytes.{copy_elem, copy_elem-eq-put}
use ztool_lib.Vector.Remove.{without, cvector_remove-without, cvector_remove-last_but_one}

-- A full vector of four elements.
abbrev four : Cvector ℕ
four = record { elts = 10 ∷ 20 ∷ 30 ∷ 40 ∷ []; nelts = 4; nalloc = 4; eltsize = 4 }

four-IsCvector : IsCvector four
four-IsCvector = record {
  used = omega arith;
  held = omega arith;
  sized = omega arith;
  counted = omega arith;
  bytes = omega arith;
}

cvector_push-appends_example :
    (vec' : Cvector ℕ) × (cvector_push true 0 four 50 ≡ done vec')
    × IsCvector vec'
    × (contents vec' ≡ contents four ++ (50 ∷ []))
cvector_push-appends_example =
    cvector_push-appends 0 four 50 four-IsCvector (omega arith) (omega arith) (omega arith)

cvector_remove-without_example :
    ((vec' : Cvector ℕ) × (cvector_remove four (pos 0) ≡ done (true, vec'))
      × (contents vec' ≡ without 0 (contents four))
      × (vec'.nelts + 1 ≡ four.nelts))
    ⊎ ((length four.elts < 0 + four.nelts)
        × (0 + 2 < four.nelts)
        × (cvector_remove four (pos 0) ≡ fault))
cvector_remove-without_example =
    cvector_remove-without four 0 four-IsCvector (omega arith) (omega arith)

cvector_remove-last_but_one_example :
    (vec' : Cvector ℕ) × (cvector_remove four (pos 2) ≡ done (true, vec'))
    × (contents vec' ≡ without (2 + 1) (contents four))
cvector_remove-last_but_one_example =
    cvector_remove-last_but_one four 2 four-IsCvector (omega arith)

-- The second of four elements of a full vector: the move reads one slot past the end.
four_overruns : cvector_remove four (pos 1) ≡ fault
unfolding cvector_remove
four_overruns = refl

-- The third of four elements: the fourth is lost.
four_loses :
    cvector_remove four (pos 2)
    ≡ done (true, record { elts = 10 ∷ 20 ∷ 30 ∷ 40 ∷ []; nelts = 3; nalloc = 4; eltsize = 4 })
unfolding cvector_remove
four_loses = refl

copy_elem-eq-put_example :
    copy_elem 3 (0 ∷ 0 ∷ 0 ∷ 0 ∷ 0 ∷ []) 1 (7 ∷ 8 ∷ 9 ∷ [])
    ≡ put (0 ∷ 0 ∷ 0 ∷ 0 ∷ 0 ∷ []) 1 (7 ∷ 8 ∷ 9 ∷ [])
copy_elem-eq-put_example =
    copy_elem-eq-put 3 (0 ∷ 0 ∷ 0 ∷ 0 ∷ 0 ∷ []) 1 (7 ∷ 8 ∷ 9 ∷ []) (omega arith) refl
