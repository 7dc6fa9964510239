-- ===== src/Mempool/Tests.antt =====
-- Runs of the memory pool, and the theorems at concrete pools.
use ztool_lib.Common.{ℕ, ◌≡◌, refl, true, false, Option, none, some, []}
use ztool_lib.Mempool.{
  Node, Mempool, Call, returned, null_access, spins, outside, alloc_block, carve, exhausted,
  mp_alloc, mp_free, mp_create,
}
use ztool_lib.Mempool.Stuck.{mempool_stuck}

abbrev slot : ℕ → Node
slot i = record { block = 0; index = i }

abbrev blank : Mempool
blank = record {
  entity_size = 0;
  init_count = 0;
  auto_expand = false;
  exposed_count = 0;
  free_count = 0;
  locked = false;
  blocks = [];
  freenodes = none;
  nextbuf = λ _. none;
}

abbrev pool_or : Option Mempool → Mempool
pool_or none = blank
pool_or (some p) = p

abbrev pool_after : Call (Option Node) → Mempool
pool_after (returned _ p) = p
pool_after null_access = blank
pool_after spins = blank
pool_after outside = blank

-- A pool of two entities that does not expand, and the pool after one and after two of them.
abbrev small : Mempool
small = pool_or (mp_create 8 2 false true true)

abbrev one_out : Mempool
one_out = pool_after (mp_alloc true small)

abbrev two_out : Mempool
two_out = pool_after (mp_alloc true one_out)

second_entity : mp_alloc true one_out ≡ returned (some (slot 1)) two_out
unfolding mp_create mp_alloc mp_free alloc_block carve exhausted
second_entity = refl

refused_third : mp_alloc true two_out ≡ returned none (record two_out { locked = true })
unfolding mp_create mp_alloc mp_free alloc_block carve exhausted
refused_third = refl

mempool_stuck_example :
    (mp_alloc true (record two_out { locked = true }) ≡ spins)
    × (mp_free (record two_out { locked = true }) (some (slot 0)) ≡ spins)
mempool_stuck_example =
    mempool_stuck two_out (record two_out { locked = true }) true true (slot 0) refused_third

-- A pool that is to expand follows the null pointer of a block that malloc did not give.
abbrev expanding : Mempool
expanding = record two_out { auto_expand = true }

null_block : mp_alloc false expanding ≡ null_access
unfolding mp_create mp_alloc mp_free alloc_block carve exhausted
null_block = refl
