-- ===== src/MsgBuffer/Tests.antt =====
-- Runs of the message buffer, and the theorems at concrete buffers.
use ztool_lib.Common.{
  ℕ, ◌+◌, ◌≡◌, ◌<◌, refl, true, false, List, [], ◌∷◌, ◌++◌, length, take, drop, arith, ◌⊎◌,
}
use ztool_lib.Common.Outcome.{done}
use ztool_lib.MsgBuffer.{MsgBuffer, mb_alloc, mb_append, mb_insert, mb_decref_release}
use ztool_lib.MsgBuffer.Body.{IsMsgBuffer, content, mb_append_done, mb_insert_done}
use ztool_lib.MsgBuffer.References.{releases, releases-frees}

-- Two bytes in a buffer of five, with three references.
abbrev two_bytes : MsgBuffer
two_bytes = record {
  body_size = 5;
  used = 2;
  refcount = 3;
  body = 1 ∷ 2 ∷ 0 ∷ 0 ∷ 0 ∷ 0 ∷ 0 ∷ 0 ∷ [];
  freed = false;
}

two_bytes-IsMsgBuffer : IsMsgBuffer two_bytes
two_bytes-IsMsgBuffer = record { fits = omega arith; held = omega arith; word = omega arith }

abbrev the_text : List ℕ
the_text = 8 ∷ 9 ∷ []

mb_append_done_example :
    ((two_bytes.body_size < two_bytes.used + length (the_text))
      × (mb_append two_bytes the_text ≡ done (false, two_bytes)))
    ⊎ ((zmb' : MsgBuffer) × (mb_append two_bytes the_text ≡ done (true, zmb'))
        × IsMsgBuffer zmb'
        × (content zmb' ≡ content two_bytes ++ the_text)
        × (zmb'.refcount ≡ two_bytes.refcount))
mb_append_done_example = mb_append_done two_bytes the_text two_bytes-IsMsgBuffer

mb_insert_done_example :
    (zmb' : MsgBuffer) × (mb_insert two_bytes 1 the_text ≡ done (true, zmb'))
    × (take (two_bytes.used + length the_text) zmb'.body
        ≡ take 1 two_bytes.body ++ (the_text ++ drop 1 (content two_bytes)))
    × (zmb'.used ≡ two_bytes.used)
mb_insert_done_example =
    mb_insert_done two_bytes 1 the_text two_bytes-IsMsgBuffer (omega arith) (omega arith)

releases-frees_example :
    ((releases 2 two_bytes).freed ≡ false)
    × ((releases 2 two_bytes).refcount ≡ 1)
    × ((mb_decref_release (releases 2 two_bytes)).1.freed ≡ true)
releases-frees_example = releases-frees 2 two_bytes refl (omega arith) refl

-- A buffer from ztl_mb_alloc has no reference, so that the first release does not free it.
alloc_leaks : (mb_decref_release (mb_alloc 0 8)).1.freed ≡ false
unfolding mb_decref_release mb_alloc
alloc_leaks = refl
