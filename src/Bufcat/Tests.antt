-- ===== src/Bufcat/Tests.antt =====
-- Runs of the buffer of texts, and the theorems at concrete buffers.
use ztool_lib.Common.{◌≡◌, refl, true, false, some, [], ◌∷◌, ◌++◌, arith}
use ztool_lib.Common.Outcome.{done, fault}
use ztool_lib.Bufcat.{Bufcat, bufcat_str_len, bufcat_printed}
use ztool_lib.Bufcat.Append.{
  IsBufcat, text_of, joint, bufcat_str_len-appends, bufcat_printed-appends,
}

-- A buffer of four characters that holds "ab", with the separator "|".
abbrev small : Bufcat
small = record {
  buf = some (97 ∷ 98 ∷ 0 ∷ 0 ∷ []);
  len = 2;
  capacity = 4;
  alloced = true;
  sep = 124 ∷ [];
}

small-IsBufcat : IsBufcat small
small-IsBufcat = record {
  block = 97 ∷ 98 ∷ 0 ∷ 0 ∷ [];
  held = refl;
  sized = refl;
  inside = omega arith;
  grows = refl;
  short = omega arith;
  roomy = omega arith;
}

bufcat_str_len-appends_example :
    (bc' : Bufcat) × (bufcat_str_len true 0 small (99 ∷ 100 ∷ []) ≡ done (true, bc'))
    × IsBufcat bc'
    × (text_of bc' ≡ text_of small ++ (joint small ++ (99 ∷ 100 ∷ [])))
    × (bc'.sep ≡ small.sep)
bufcat_str_len-appends_example = bufcat_str_len-appends 0 small (99 ∷ 100 ∷ []) small-IsBufcat

bufcat_printed-appends_example :
    (bc' : Bufcat) × (bufcat_printed true 0 small 12 (45 ∷ 55 ∷ []) ≡ done (true, bc'))
    × IsBufcat bc'
    × (text_of bc' ≡ text_of small ++ (joint small ++ (45 ∷ 55 ∷ [])))
bufcat_printed-appends_example =
    bufcat_printed-appends 0 small 12 (45 ∷ 55 ∷ []) small-IsBufcat (omega arith)

-- A separator of three characters is written over the start of the text.
abbrev wide : Bufcat
wide = record {
  buf = some (97 ∷ 98 ∷ 99 ∷ 100 ∷ 0 ∷ 0 ∷ 0 ∷ 0 ∷ 0 ∷ []);
  len = 4;
  capacity = 9;
  alloced = true;
  sep = 45 ∷ 61 ∷ 45 ∷ [];
}

wide_overwrites :
    bufcat_str_len true 0 wide (120 ∷ [])
    ≡ done (
      true,
      record (wide) { buf = some (45 ∷ 61 ∷ 45 ∷ 100 ∷ 0 ∷ 0 ∷ 0 ∷ 120 ∷ 0 ∷ []); len = 8 },
    )
unfolding bufcat_str_len
wide_overwrites = refl

-- A buffer that the caller gave is written past its end.
given_overflows : bufcat_str_len true 0 (record (small) { alloced = false }) (99 ∷ 100 ∷ []) ≡ fault
unfolding bufcat_str_len
given_overflows = refl
