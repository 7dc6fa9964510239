-- ===== src/Mempool.antt =====
-- src/ZToolLib/ztl_mempool.c: a pool of entities of one size, carved from blocks, with a list of
-- freed entities that is linked through the entities themselves.
pub mod Held
pub mod Alloc
pub mod Handout
pub mod Stuck
mod Tests
use ztool_lib.Common.{
  ℕ, zero, suc, ◌+◌, ◌-◌, ◌*◌, ◌/◌, ◌%◌, ◌^◌, Bool, true, false, ◌&&◌, ltb, leb, ◌==◌, ◌||◌,
  if◌then◌else◌, Option, none, some, List, [], ◌∷◌, length,
}

-- The address of an entity: the number of its block, from 0 for the first one that was allocated,
-- and its place in the block.
pub record Node : Type 0 where
  pub block : ℕ
  pub index : ℕ

-- ztl_memblock_t, less the link to the next block; `size` is the number of bytes that it
-- has for entities.
pub record Memblock : Type 0 where
  pub curindex : ℕ
  pub count : ℕ
  pub size : ℕ

-- struct ztl_mempool_st: the blocks, last allocated first; `nextbuf` is the word at the start of
-- each entity, which the client may write while the entity is its own.
pub record Mempool : Type 0 where
  pub entity_size : ℕ
  pub init_count : ℕ
  pub auto_expand : Bool
  pub exposed_count : ℕ
  pub free_count : ℕ
  pub locked : Bool
  pub blocks : List Memblock
  pub freenodes : Option Node
  pub nextbuf : Node → Option Node

-- How a call ends: it returns, it follows a null pointer, it spins for ever on the lock, or it
-- reaches an entity that does not lie in the bytes of its block.
pub data Call (A : Type 0) : Type 0 where
  returned : A → Mempool → Call A
  null_access : Call A
  spins : Call A
  outside : Call A

abbrev pub same : Node → Node → Bool
same a b = (a.block == b.block) && (a.index == b.index)

abbrev pub store : (Node → Option Node) → Node → Option Node → Node → Option Node
store m a v b = if same a b then v else m b

-- atomic_add and atomic_dec on a uint32_t.
abbrev pub add_1 : ℕ → ℕ
add_1 n = (n + 1) % 2 ^ 32

abbrev pub dec_1 : ℕ → ℕ
dec_1 n = (n + 2 ^ 32 - 1) % 2 ^ 32

-- The bytes behind the header of a block: the product of the size and the count of entities, the sum
-- and the number rounded up to 64 are cut to 32 bits. sizeof(ztl_memblock_t) is 24, and the entities
-- start at 16.
abbrev pub block_bytes : ℕ → ℕ → ℕ
block_bytes entity_size count =
    ((entity_size * count % 2 ^ 32 + 24) % 2 ^ 32 + 63) / 64 * 64 % 2 ^ 32 - 16

-- _alloc_block, which fails as malloc does.
pub alloc_block : Bool → Mempool → Option Mempool
alloc_block malloced mp =
    if malloced
    then some (record mp {
      blocks =
          record {
            curindex = 0;
            count = mp.init_count;
            size = block_bytes mp.entity_size mp.init_count;
          }
          ∷ mp.blocks;
    })
    else none

-- The end of ztl_mp_alloc, after the lock is released.
abbrev expose : Node → Mempool → Call (Option Node)
expose n mp = returned (some n) (record mp {
  locked = false;
  exposed_count = add_1 mp.exposed_count;
  nextbuf = store mp.nextbuf n none;
})

-- ztl_mp_alloc carves the next entity of the first block, at the offset curindex * nEntitySize.
pub carve : Mempool → Call (Option Node)
carve mp = elim mp.blocks [
  | [] ↦ null_access
  | b ∷ bs ↦
      if leb ((b.curindex + 1) * mp.entity_size) b.size
      then expose (record { block = length bs; index = b.curindex })
          (record mp { blocks = record b { curindex = b.curindex + 1 } ∷ bs })
      else outside
]

-- The first block has no entity left.
pub exhausted : Mempool → Bool
exhausted mp = elim mp.blocks [ [] ↦ false | b ∷ bs ↦ b.curindex == b.count ]

-- ztl_mp_alloc; `malloced` tells whether malloc gives a block if it is asked for one. A call that
-- finds the pool exhausted and not to be expanded returns NULL with the lock taken.
pub mp_alloc : Bool → Mempool → Call (Option Node)
unfolding carve exhausted alloc_block
mp_alloc malloced mp = if mp.locked then spins else (elim mp.freenodes [
  | some n ↦ expose n (record mp { freenodes = mp.nextbuf n; free_count = dec_1 mp.free_count })
  | none ↦
      if exhausted mp
      then (if mp.auto_expand
          then (elim (alloc_block malloced mp) [ none ↦ null_access | some m ↦ carve m ])
          else returned none (record mp { locked = true }))
      else carve mp
])

-- ztl_mp_free
pub mp_free : Mempool → Option Node → Call Bool
mp_free mp none = returned true mp
mp_free mp (some n) =
    if mp.locked
    then spins
    else returned true (record mp {
      nextbuf = store mp.nextbuf n mp.freenodes;
      freenodes = some n;
      free_count = add_1 mp.free_count;
      exposed_count = dec_1 mp.exposed_count;
    })

-- ztl_mp_create, for the results of its two calls of malloc; it takes one entity and frees it.
pub mp_create : ℕ → ℕ → Bool → Bool → Bool → Option Mempool
unfolding alloc_block mp_alloc mp_free
mp_create entity_size init_count auto_expand malloced_pool malloced_block =
    let empty : Mempool = record {
      entity_size = (entity_size + 7) / 8 * 8;
      init_count = init_count;
      auto_expand = auto_expand;
      exposed_count = 0;
      free_count = 0;
      locked = false;
      blocks = [];
      freenodes = none;
      nextbuf = λ _. none;
    } in
    if ltb entity_size 4 || ltb init_count 1
    then none
    else if malloced_pool
    then (elim (alloc_block malloced_block empty) [
      | none ↦ none
      | some mp ↦ elim (mp_alloc true mp) [
        | returned n m ↦ elim (mp_free m n) [ returned _ r ↦ some r | _ ↦ none ]
        | _ ↦ none
      ]
    ])
    else none

-- ztl_mp_entity_size and ztl_mp_exposed
abbrev pub mp_entity_size : Mempool → ℕ
mp_entity_size mp = mp.entity_size

abbrev pub mp_exposed : Mempool → ℕ
mp_exposed mp = mp.exposed_count
