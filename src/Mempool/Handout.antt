-- ===== src/Mempool/Handout.antt =====
-- What ztl_mp_alloc hands out in any run of a client that frees only what it holds and writes only
-- into what it holds.
use ztool_lib.Common.{
  ℕ, ◌+◌, ◌*◌, ◌/◌, ◌<◌, ◌≡◌, Bool, true, false, Option, none, some, List, [], ◌∷◌,
}
use ztool_lib.Mempool.{
  Node, Mempool, Call, returned, null_access, spins, outside, block_bytes, mp_free,
}
use ztool_lib.Mempool.Held.{Held, occurs, Sound}

abbrev Kept : ℕ → Held → Type 0
Kept count h = (free : List Node) × Sound count h free

data Given (count : ℕ) (out : List Node) : Call Bool → Type 0 where
  given :
      {p : Mempool}
      → Kept count (record { pool = p; out = out })
      → Given count out (returned true p)
  given_spin : Given count out spins

data Made (count : ℕ) : Option Mempool → Type 0 where
  made : {p : Mempool} → Kept count (record { pool = p; out = [] }) → Made count (some p)
  not_made : Made count none

abbrev kept_pool : Call Bool → Option Mempool
kept_pool c = elim c [ returned _ r ↦ some r | _ ↦ none ]

abbrev finish : Call (Option Node) → Option Mempool
finish c = elim c [ returned n m ↦ kept_pool (mp_free m n) | _ ↦ none ]

-- The pool before ztl_mp_create takes its first entity.
abbrev pool_of : ℕ → ℕ → Bool → Mempool
pool_of entity_size init_count expand = record {
  entity_size = (entity_size + 7) / 8 * 8;
  init_count = init_count;
  auto_expand = expand;
  exposed_count = 0;
  free_count = 0;
  locked = false;
  blocks =
      record {
        curindex = 0;
        count = init_count;
        size = block_bytes ((entity_size + 7) / 8 * 8) init_count;
      }
      ∷ [];
  freenodes = none;
  nextbuf = λ _. none;
}

-- What a call of ztl_mp_alloc may give a client that holds some entities: no address outside the
-- bytes of the block, and an entity only if the client does not hold it and if it is one of those of
-- its block.
pub IsHandout : List Node → ℕ → Call (Option Node) → Type 0
IsHandout out count (returned (some n) p) = (occurs n out ≡ 0) × (n.index < count)
IsHandout out count (returned none p) = Unit
IsHandout out count null_access = Unit
IsHandout out count spins = Unit
IsHandout out count outside = ⊥
