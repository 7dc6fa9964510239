-- ===== src/Buffer/Tests.antt =====
-- Runs of the buffer, and the theorems at concrete buffers.
use ztool_lib.Common.{◌+◌, ◌^◌, ◌≡◌, refl, true, false, [], ◌∷◌, ◌++◌, take, drop, arith}
use ztool_lib.Common.Outcome.{done}
use ztool_lib.Buffer.{Buffer, roundup, buffer_insert, buffer_fill, buffer_erase}
use ztool_lib.Buffer.Contents.{IsBuffer, buffer_insert-inserts}

-- Three bytes in a block of four.
abbrev three_bytes : Buffer
three_bytes = record { data_ = 1 ∷ 2 ∷ 3 ∷ 0 ∷ []; size = 3; capacity = 4; const_addr = false }

three_bytes-IsBuffer : IsBuffer three_bytes
three_bytes-IsBuffer = record { fits = omega arith; held = refl; own = refl }

buffer_insert-inserts_example :
    (zbuf' : Buffer) × (buffer_insert true 0 three_bytes 1 (8 ∷ 9 ∷ []) ≡ done zbuf')
    × IsBuffer zbuf'
    × (take zbuf'.size zbuf'.data_
        ≡ take 1 (take three_bytes.size three_bytes.data_)
          ++ ((8 ∷ 9 ∷ []) ++ drop 1 (take three_bytes.size three_bytes.data_)))
buffer_insert-inserts_example =
    buffer_insert-inserts 0 three_bytes 1 (8 ∷ 9 ∷ []) three_bytes-IsBuffer (omega arith)
      (omega arith)

-- Two copies of a byte, and two bytes taken out.
three_bytes_filled :
    buffer_fill true 0 three_bytes 1 2 (7 ∷ [])
    ≡ done (record {
      data_ = 1 ∷ 7 ∷ 7 ∷ 2 ∷ 3 ∷ 0 ∷ 0 ∷ 0 ∷ [];
      size = 5;
      capacity = 8;
      const_addr = false;
    })
unfolding buffer_fill
three_bytes_filled = refl

three_bytes_erased :
    buffer_erase three_bytes 0 2
    ≡ done (record { data_ = 3 ∷ 2 ∷ 3 ∷ 0 ∷ []; size = 1; capacity = 4; const_addr = false })
unfolding buffer_erase
three_bytes_erased = refl

-- A capacity above 2^31 is rounded to 0.
roundup_wraps : roundup (2 ^ 31 + 1) ≡ 0
unfolding roundup
roundup_wraps = refl
