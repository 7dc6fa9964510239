-- ===== src/Lib.antt =====
-- ZToolLib, a C library of containers, queues, locks, text and time helpers (src/ZToolLib).
--
-- Most parts stand alone. ztl_evtimer.c and ztl_map.c keep their elements in the tree of
-- ztl_rbtree.h, ztl_mempool.c takes its word of ztl_locks.c around each call, and the date
-- functions of ztl_times.c use the C library's time_t. Each C function has a definition of its name
-- without the prefix, on a record of its structure that it returns changed. Locks and the queue are
-- programs of single accesses to shared memory, and their runs are step relations of any
-- interleaving.
--
-- - Common: lists under native indices as C arrays, integers, and how code ends: with a result,
--   with an access outside its memory, or without fuel. Threads holds what step relations share.
-- - LfQueue: src/ZToolLib/lockfreequeue.c. `step` is one access of lfqueue_push, lfqueue_pop or
--   lfqueue_head. Spsc is a producer and a consumer on one queue, Sequential one thread, and
--   Bounded the queue that they refine.
-- - Heap: src/ZToolLib/ztl_heap.c, a binary heap in an array, with the index word that the heap
--   writes into its elements.
-- - Array: src/ZToolLib/ztl_array.c, for arrays that are not in a pool.
-- - Vector: src/ZToolLib/ztl_vector.c, with a memory of slots.
-- - HashTable: src/ZToolLib/ztl_table.c, the table of chains that moves its buckets one by one to a
--   larger array. Chains, Arrays, Placed and Moving are its parts, States its well-formed states,
--   Counted what its rehashing needs to end, Rehash, Lookup, Expand, Assign and Insert its operations, and Insertions the table from its
--   creation on.
-- - Rbtree: src/ZToolLib/ztl_rbtree.h, the trees of the next two parts, with operations that are
--   parameters. Plain is a tree that has the laws.
-- - Evtimer: src/ZToolLib/ztl_evtimer.c, the timers. Expire and Add are its calls.
-- - Map: src/ZToolLib/ztl_map.c, the map of words and the set.
-- - Bufcat: src/ZToolLib/ztl_bufcat.c, texts joined in a buffer.
-- - MsgBuffer: src/ZToolLib/ztl_msg_buffer.c, a body of bytes with a count of references.
-- - Buffer: src/ZToolLib/ztl_buffer.c, a buffer that grows to powers of two.
-- - Mempool: src/ZToolLib/ztl_mempool.c. Held is a client that takes, writes and frees entities.
-- - Locks: src/ZToolLib/ztl_locks.c, the spin lock and the read-write lock for n threads.
-- - Base64: src/ZToolLib/ztl_base64.c. Hash: src/ZToolLib/ztl_hash.c.
-- - Utils: src/ZToolLib/ztl_utils.c. Search is binary_search, Numbers and Decimal the numbers, Text
--   and Pieces the strings.
-- - Times: src/ZToolLib/ztl_times.c. Civil is the calendar, NextDate and PrevDate the days next to
--   a date, Clock the times of day, Minutes the range of minutes.
--
-- Fuel: bubble_up gets one more than the index that it starts from, which it halves; max_heapify
-- one more than the number of elements, above which no index goes; the binary search one more than
-- the number of elements, which each round lowers; get_next_power and table_next_power 64, the bits
-- of their type; the search for the next bucket one more than the number of buckets;
-- ztl_evtimer_expire and cmap_clear one more than the number of nodes; a call of the queue in one
-- thread the number of its accesses. Where a theorem says that the code ends, the fuel is enough.
--
-- Bounds: counts, byte sizes and byte offsets that the code keeps in 32 bits are cut to 32 bits in
-- the definitions, or a value that does not fit ends the call with a fault where the code would
-- leave its memory. The theorems carry the bounds under which nothing is cut: LfQueue.Contents.
-- Addressable for the slots of the queue, Array.Contents.IsArray, Vector.Contents.IsCvector,
-- HashTable.Placed.IsArray (at most 2^32 buckets) and 2^30 nodes for the table's growth, 2^30 bytes
-- for the buffer with its capacity of 31 bits.
--
-- Parameters: malloc and realloc succeed or fail as an argument says; the heap's comparison is an
-- argument with laws, and so are the comparison and the hash of the table's keys
-- (HashTable.Chains.IsKeys); the operations of the red-black tree are a record, and Rbtree.IsRbtree
-- (rbtree_insert_value, for the map) and Rbtree.IsTimerTree (rbtree_insert_timer_value, for the
-- timers) say what its clients rely on; mktime, localtime and the steps of a day are fields of
-- Times.CTime, and Times.Civil.StepsDays says what the date functions rely on.
--
-- Not modelled: the copies of nginx, redis and cJSON code, sockets, event loops, logging, shared
-- memory, threads and Windows support, which are other projects' code or system calls; ciphers and
-- digests; the removal from the table and its iterators; and the bit set, the linked lists and the
-- queues that wait.
pub mod Common
pub mod LfQueue
pub mod Heap
pub mod Array
pub mod Vector
pub mod HashTable
pub mod Rbtree
pub mod Evtimer
pub mod Map
pub mod Bufcat
pub mod MsgBuffer
pub mod Buffer
pub mod Mempool
pub mod Locks
pub mod Base64
pub mod Hash
pub mod Utils
pub mod Times
