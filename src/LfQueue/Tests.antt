-- ===== src/LfQueue/Tests.antt =====
-- Runs of the queue, and the theorems at concrete inputs.
use ztool_lib.Common.{ℕ, ◌^◌, ◌≡◌, ◌<◌, ◌≢◌, refl, [], ◌∷◌, ◌++◌, none, some, length, arith}
use ztool_lib.LfQueue.{
  Lfqueue, success, failure, next_index, push, pop, memory_size, Pc, push_start, push_cas, fault,
  step, run,
}
use ztool_lib.LfQueue.Bounded
use ztool_lib.LfQueue.Window.{contents}
use ztool_lib.LfQueue.Sequential.{IsQuiet, push_refines, pop_refines}
use ztool_lib.LfQueue.Spsc.{
  System, start, Reach, call_push, call_pop, producer_moves, consumer_moves, here, later, produce,
  consume,
}
use ztool_lib.LfQueue.Spsc.Safety.{spsc_fifo, spsc_bounds}
use ztool_lib.LfQueue.Spsc.Progress.{spsc_wait_free, accesses_left}

-- Three slots, with 8 and 9 in the last and the first.
abbrev wrapped : Lfqueue ℕ
wrapped = record {
  read_index = 2;
  write_index = 1;
  max_read_index = 1;
  array_size = 3;
  arrdata = 9 ∷ 7 ∷ 8 ∷ [];
  eltsize = 4;
  size = 3;
}

abbrev fresh : Lfqueue ℕ
fresh = record wrapped { read_index = 0; write_index = 0; max_read_index = 0 }

wrapped-IsQuiet : IsQuiet wrapped
wrapped-IsQuiet = omega arith

fresh-IsQuiet : IsQuiet fresh
fresh-IsQuiet = omega arith

contents-wrapped : contents wrapped ≡ 8 ∷ 9 ∷ []
unfolding next_index
contents-wrapped = refl

pop-wrapped : pop wrapped ≡ some (success, some 8, record wrapped { read_index = 0 })
unfolding pop
pop-wrapped = refl

push-wrapped : push wrapped 5 ≡ some (failure, none, wrapped)
unfolding push
push-wrapped = refl

push_refines_example :
    (q' : Lfqueue ℕ) × (push wrapped 5 ≡ some ((Bounded.push 2 (contents wrapped) 5).0, none, q'))
    × (contents q' ≡ (Bounded.push 2 (contents wrapped) 5).1)
    × IsQuiet q'
    × (q'.size ≡ 3)
    × (q'.eltsize ≡ 4)
push_refines_example = push_refines wrapped 5 wrapped-IsQuiet (omega arith)

pop_refines_example :
    (q' : Lfqueue ℕ) × (pop wrapped
      ≡ some ((Bounded.pop (contents wrapped)).0, (Bounded.pop (contents wrapped)).1, q'))
    × (contents q' ≡ (Bounded.pop (contents wrapped)).2)
    × IsQuiet q'
    × (q'.size ≡ 3)
    × (q'.eltsize ≡ 4)
pop_refines_example = pop_refines wrapped wrapped-IsQuiet (omega arith)

-- With 2^29 elements of eight bytes the product wraps, and the size is that of an empty array.
memory_size_wraps : memory_size (2 ^ 29) 8 ≡ 64
unfolding memory_size
memory_size_wraps = refl

-- The producer has pushed 4 and is in its second call, the consumer has looked at the index.
abbrev between : System ℕ
between = record {
  que = record fresh { write_index = 1; max_read_index = 1; arrdata = 4 ∷ 7 ∷ 8 ∷ [] };
  producer = push_start 6;
  consumer = Pc.pop_loaded 0;
  pushed = 4 ∷ [];
  popped = [];
}

between-Reach : Reach (start fresh) between
unfolding step
between-Reach =
    let one = later here (call_push 4 refl) in
    let pushed =
      later
        (later (later (later (later one producer_moves) producer_moves) producer_moves)
          producer_moves)
        producer_moves in
    later (later (later pushed (call_pop refl)) consumer_moves) (call_push 6 refl)

spsc_fifo_example :
    (between.pushed ≡ between.popped ++ contents between.que)
    × (between.producer ≢ fault)
    × (between.consumer ≢ fault)
spsc_fifo_example = spsc_fifo fresh between fresh-IsQuiet (omega arith) refl between-Reach

spsc_bounds_example :
    (between.producer ≢ fault) × (between.consumer ≢ fault) × (length (contents between.que) < 3)
spsc_bounds_example = spsc_bounds fresh between fresh-IsQuiet (omega arith) refl between-Reach

spsc_wait_free_example :
    (0 < 5 → accesses_left (produce between).producer < 5)
    × (0 < 3 → accesses_left (consume between).consumer < 3)
spsc_wait_free_example = spsc_wait_free fresh between fresh-IsQuiet refl between-Reach

-- Two slots, one of them usable.
abbrev pair : Lfqueue ℕ
pair = record fresh { arrdata = 0 ∷ 0 ∷ []; size = 2 }

-- A second producer has seen the indices of `pair` and waits before its compare-and-swap of 0, with
-- element 1. The others push 2, pop it and push 3: the write index is 0 again.
abbrev around : Lfqueue ℕ
around = record pair { read_index = 1; write_index = 0; max_read_index = 0; arrdata = 2 ∷ 3 ∷ [] }

around-run :
    (push pair 2
      ≡ some (
        success,
        none,
        record pair { write_index = 1; max_read_index = 1; arrdata = 2 ∷ 0 ∷ [] },
      ))
    × (pop (record pair { write_index = 1; max_read_index = 1; arrdata = 2 ∷ 0 ∷ [] })
        ≡ some (
          success,
          some 2,
          record pair { read_index = 1; write_index = 1; max_read_index = 1; arrdata = 2 ∷ 0 ∷ [] },
        ))
    × (push
          (record pair {
            read_index = 1;
            write_index = 1;
            max_read_index = 1;
            arrdata = 2 ∷ 0 ∷ [];
          })
          3
        ≡ some (success, none, around))
unfolding push pop
around-run = (refl, refl, refl)

-- The stale compare-and-swap wins although the queue is full: the call reports success, and the
-- queue is then empty with 1 and 3 lost.
stale_push_wins :
    (run 4 around (push_cas 1 0)
      ≡ some (
        success,
        none,
        record around { write_index = 1; max_read_index = 1; arrdata = 1 ∷ 3 ∷ [] },
      ))
    × (pop (record around { write_index = 1; max_read_index = 1; arrdata = 1 ∷ 3 ∷ [] })
        ≡ some (
          failure,
          none,
          record around { write_index = 1; max_read_index = 1; arrdata = 1 ∷ 3 ∷ [] },
        ))
unfolding pop
stale_push_wins = (refl, refl)
