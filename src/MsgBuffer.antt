-- ===== src/MsgBuffer.antt =====
-- src/ZToolLib/ztl_msg_buffer.c: a buffer with a count of references. The body is the memory behind
-- the header; the links and the fields that only the user sets are left out.
pub mod Body
pub mod References
mod Tests
use ztool_lib.Common.{
  ℕ, zero, suc, ◌+◌, ◌-◌, ◌%◌, ◌^◌, Bool, true, false, ltb, leb, ◌==◌, ◌||◌, if◌then◌else◌, List,
  [], ◌∷◌, ◌++◌, length, take, drop, replicate,
}
use ztool_lib.Common.Int.{ℤ, pos, negsuc}
use ztool_lib.Common.Memory.{put}
use ztool_lib.Common.Outcome.{Outcome, done, fault, ◌>>=◌}
use ztool_lib.Vector.{align}

-- ztl_msg_buffer_st; `freed` tells whether cleanup was called.
pub record MsgBuffer : Type 0 where
  pub body_size : ℕ
  pub used : ℕ
  pub refcount : ℕ
  pub body : List ℕ
  pub freed : Bool

-- ztl_mb_alloc, which takes its fields from ztl_mb_init. The header has 64 bytes; the
-- number of bytes is cut to a uint32_t.
unfoldable pub mb_alloc : ℕ → ℕ → MsgBuffer
unfolding align
mb_alloc junk body_size = record {
  body_size = body_size;
  used = 0;
  refcount = 0;
  body = replicate (align (64 + body_size) 8 % 2 ^ 32 - 64) junk;
  freed = false;
}

-- ztl_mb_clone
unfoldable pub mb_clone : ℕ → MsgBuffer → Outcome MsgBuffer
unfolding mb_alloc put
mb_clone junk zmb = do
  body ← put (mb_alloc junk zmb.body_size).body 0 (take zmb.body_size zmb.body)
  done (record zmb { body = body; refcount = 1; freed = false })

-- ztl_mb_addref: the old count.
unfoldable pub mb_addref : MsgBuffer → ℕ → ℕ × MsgBuffer
mb_addref zmb delta = (zmb.refcount, record zmb { refcount = (zmb.refcount + delta) % 2 ^ 32 })

-- ztl_mb_decref_release: the new count.
unfoldable pub mb_decref_release : MsgBuffer → ℕ × MsgBuffer
mb_decref_release zmb =
    let left = (zmb.refcount + 2 ^ 32 - 1) % 2 ^ 32 in
    (left, record zmb { refcount = left; freed = zmb.freed || (zmb.refcount == 1) })

-- ztl_mb_avail, on 32-bit words
unfoldable pub mb_avail : MsgBuffer → ℕ
mb_avail zmb = (zmb.body_size + 2 ^ 32 - zmb.used) % 2 ^ 32

-- ztl_mb_append; false is ZTL_ERR_OutOfMem.
unfoldable pub mb_append : MsgBuffer → List ℕ → Outcome (Bool × MsgBuffer)
unfolding mb_avail put
mb_append zmb text =
    let stored : Outcome (Bool × MsgBuffer) = do
      body ← put zmb.body zmb.used text
      done (true, record zmb { body = body; used = (zmb.used + length text) % 2 ^ 32 })
    in if ltb (mb_avail zmb) (length text) then done (false, zmb) else stored

-- memmove of n bytes to the right, by `size`.
unfoldable pub shift : List ℕ → ℕ → ℕ → ℕ → Outcome (List ℕ)
shift body index size n =
    if leb (index + size + n) (length body)
    then done
        (take (index + size) body ++ (take n (drop index body) ++ drop (index + size + n) body))
    else fault

-- ztl_mb_insert; false is ZTL_ERR_OutOfMem.
unfoldable pub mb_insert : MsgBuffer → ℕ → List ℕ → Outcome (Bool × MsgBuffer)
unfolding mb_avail put shift
mb_insert zmb index text =
    let stored : Outcome (Bool × MsgBuffer) = do
      moved ← shift zmb.body index (length text) ((zmb.used + 2 ^ 32 - index) % 2 ^ 32)
      body ← put moved index text
      done (true, record zmb { body = body })
    in if ltb (mb_avail zmb) (length text) then done (false, zmb) else stored

-- ztl_mb_update_used, on a 32-bit word.
unfoldable pub mb_update_used : MsgBuffer → ℤ → MsgBuffer
mb_update_used zmb (pos n) = record zmb { used = (zmb.used + n) % 2 ^ 32 }
mb_update_used zmb (negsuc n) = record zmb { used = (zmb.used + 2 ^ 32 - (n + 1)) % 2 ^ 32 }
