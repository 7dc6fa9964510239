-- ===== src/MsgBuffer/References.antt =====
-- The references of the buffer of src/ZToolLib/ztl_msg_buffer.c.
use ztool_lib.Common.{ℕ, zero, suc, ◌+◌, ◌^◌, ◌<◌, ◌≡◌, true, false, ◌==◌, arith}
use ztool_lib.MsgBuffer.{MsgBuffer, mb_decref_release}

-- The buffer after a number of calls of ztl_mb_decref_release.
unfoldable pub releases : ℕ → MsgBuffer → MsgBuffer
unfolding mb_decref_release
releases zero zmb = zmb
releases (suc n) zmb = releases n (mb_decref_release zmb).1

-- A buffer with n + 1 references that is not freed: after n releases it is still there with one
-- reference, and the next one frees it.
pub releases-frees :
    (n : ℕ) (zmb : MsgBuffer)
    → zmb.refcount ≡ n + 1
    → n + 1 < 2 ^ 32
    → zmb.freed ≡ false
    → ((releases n zmb).freed ≡ false)
      × ((releases n zmb).refcount ≡ 1)
      × ((mb_decref_release (releases n zmb)).1.freed ≡ true)
unfolding releases mb_decref_release
releases-frees zero zmb e small here =
    let last : (zmb.refcount == 1) ≡ true = ground (arith, e) in
    (here, omega (arith, e), ground (arith, last))
releases-frees (suc n) zmb e small here =
    let more : (zmb.refcount == 1) ≡ false = ground (arith, e) in
    releases-frees n (mb_decref_release zmb).1 (omega (arith, e, small)) (omega (arith, small))
      (ground (arith, more, here))
