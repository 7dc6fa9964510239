-- ===== src/LfQueue/Sequential.antt =====
-- One thread at a time: between calls the queue of lockfreequeue.c is the bounded queue of its
-- window. A call that nobody interrupts ends within the fuel and leaves no reservation behind.
use ztool_lib.Common.{
  ℕ, ◌-◌, ◌*◌, ◌^◌, ltb, ◌≡◌, ◌≢◌, ◌<◌, refl, true, List, [], Option, none, some, length, get_elem?,
  set, get_elem?-set_self, get_elem?_inside, length-set, ◌==◌, arith, ◌≡◌,
}
use native.Mathlib.Decide.{ℕ_discrete}
use ztool_lib.LfQueue.{
  Lfqueue, Status, success, failure, next_index, create, push, pop, head, queue_size, empty,
}
use ztool_lib.LfQueue.Bounded
use ztool_lib.LfQueue.Window.{contents, next_index-lt, next_index-eq_iff_full, used-lt}
use ztool_lib.LfQueue.Contents.{
  IsIndexed, Addressable, offset_fits, length-contents, contents-commit, contents-store,
  contents-take, contents-nil, store-IsIndexed,
}

-- A queue that no call is working on.
pub record IsQuiet {A : Type 0} (q : Lfqueue A) : Type 0 where
  pub indexed : IsIndexed q
  pub committed : q.write_index ≡ q.max_read_index

module _ {A : Type 0} where
  -- The state after a push that finds room.
  abbrev pushed : Lfqueue A → A → Lfqueue A
  pushed q v = record q {
    write_index = next_index q.write_index q.size;
    max_read_index = next_index q.write_index q.size;
    arrdata = set q.arrdata q.write_index v;
  }

  push-full :
      (q : Lfqueue A) (v : A)
      → next_index q.write_index q.size ≡ q.read_index
      → push q v ≡ some (failure, none, q)
  unfolding push
  push-full q v e = ground arith

  push-room :
      (q : Lfqueue A) (v : A)
      → IsQuiet q
      → Addressable q
      → next_index q.write_index q.size ≢ q.read_index
      → push q v ≡ some (success, none, pushed q v)
  unfolding push
  push-room q v i a e =
      let fits : ltb (q.write_index * q.eltsize) (2 ^ 32) ≡ true =
        offset_fits q q.write_index (omega (arith, i.committed, i.indexed.max_in)) a in
      ground (arith, i.indexed.slots, i.indexed.max_in, fits)

  -- A call of lfqueue_push on a quiet queue, whose slots have a size in bytes that fits in 32 bits,
  -- ends: it returns the status of the bounded queue with
  -- one place less than the array, holds that queue's elements after it, and is quiet again.
  pub push_refines :
      (q : Lfqueue A) (v : A)
      → IsQuiet q
      → Addressable q
      → (q' : Lfqueue A) × (push q v
          ≡ some ((Bounded.push (q.size - 1) (contents q) v).0, none, q'))
        × (contents q' ≡ (Bounded.push (q.size - 1) (contents q) v).1)
        × IsQuiet q'
        × (q'.size ≡ q.size)
        × (q'.eltsize ≡ q.eltsize)
  unfolding Bounded.push
  push_refines q v x a =
      let i = x.indexed in
      let stored = record q { arrdata = set q.arrdata q.max_read_index v } in
      let full =
        next_index-eq_iff_full q.read_index q.max_read_index q.size i.read_in i.max_in i.small in
      let many = length-contents q i in
      let few = used-lt q.read_index q.max_read_index q.size i.read_in i.max_in in
      elim (ℕ_discrete (next_index q.write_index q.size) q.read_index) [
        | yes e ↦ (
          q,
          ground (arith, push-full q v e, full.0, x.committed),
          ground (arith, full.0, x.committed),
          x,
          refl,
          refl,
        )
        | no e ↦ (
          pushed q v,
          ground (arith, push-room q v x a e, full.1, x.committed),
          ground (
            arith,
            full.1,
            x.committed,
            contents-store q v i,
            contents-commit stored v (store-IsIndexed q q.max_read_index v i),
            get_elem?-set_self q.arrdata q.max_read_index v,
          ),
          ground (
            arith,
            length-set q.arrdata q.write_index v,
            next_index-lt q.write_index q.size,
            x.committed,
          ),
          refl,
          refl,
        )
      ]

  pop-empty : (q : Lfqueue A) → q.read_index ≡ q.max_read_index → pop q ≡ some (failure, none, q)
  unfolding pop
  pop-empty q e = ground arith

  pop-front :
      (q : Lfqueue A) (v : A)
      → q.read_index ≢ q.max_read_index
      → ltb (q.read_index * q.eltsize) (2 ^ 32) ≡ true
      → get_elem? q.arrdata q.read_index ≡ some v
      → pop q ≡ some (success, some v, record q { read_index = next_index q.read_index q.size })
  unfolding pop
  pop-front q v ne fits e = ground arith

  -- A call of lfqueue_pop on a quiet queue, whose slots have a size in bytes that fits in 32 bits,
  -- ends: it returns the status and the element of the
  -- bounded queue, leaves that queue's elements, and is quiet again.
  pub pop_refines :
      (q : Lfqueue A)
      → IsQuiet q
      → Addressable q
      → (q' : Lfqueue A) × (pop q
          ≡ some ((Bounded.pop (contents q)).0, (Bounded.pop (contents q)).1, q'))
        × (contents q' ≡ (Bounded.pop (contents q)).2)
        × IsQuiet q'
        × (q'.size ≡ q.size)
        × (q'.eltsize ≡ q.eltsize)
  unfolding Bounded.pop
  pop_refines q x a =
      let i = x.indexed in
      let (v, e) = get_elem?_inside q.arrdata q.read_index (omega (arith, i.slots, i.read_in)) in
      let fits = offset_fits q q.read_index i.read_in a in
      elim (ℕ_discrete q.read_index q.max_read_index) [
        | yes empty ↦ (
          q,
          rw (contents-nil q empty) (pop-empty q empty),
          rw (contents-nil q empty),
          x,
          refl,
          refl,
        )
        | no some_left ↦ (
          record q { read_index = next_index q.read_index q.size },
          rw (contents-take q v i some_left e) (pop-front q v some_left fits e),
          rw (contents-take q v i some_left e),
          ground (arith, next_index-lt q.read_index q.size),
          refl,
          refl,
        )
      ]

  head-empty : (q : Lfqueue A) → q.read_index ≡ q.max_read_index → head q ≡ some (failure, none, q)
  unfolding head
  head-empty q e = ground arith

  head-front :
      (q : Lfqueue A) (v : A)
      → q.read_index ≢ q.max_read_index
      → ltb (q.read_index * q.eltsize) (2 ^ 32) ≡ true
      → get_elem? q.arrdata q.read_index ≡ some v
      → head q ≡ some (success, some v, q)
  unfolding head
  head-front q v ne fits e = ground arith

  -- lfqueue_head shows the element that the next lfqueue_pop returns, with its status, and changes
  -- nothing, where the slots have a size in bytes that fits in 32 bits.
  pub head-eq-pop :
      (q : Lfqueue A)
      → IsQuiet q
      → Addressable q
      → (s : Status) × (out : Option A) × (q' : Lfqueue A) × (pop q ≡ some (s, out, q'))
        × (head q ≡ some (s, out, q))
  head-eq-pop q x a =
      let i = x.indexed in
      let (v, e) = get_elem?_inside q.arrdata q.read_index (omega (arith, i.slots, i.read_in)) in
      let fits = offset_fits q q.read_index i.read_in a in
      elim (ℕ_discrete q.read_index q.max_read_index) [
        | yes empty ↦ (failure, none, q, pop-empty q empty, head-empty q empty)
        | no some_left ↦ (
          success,
          some v,
          record q { read_index = next_index q.read_index q.size },
          pop-front q v some_left fits e,
          head-front q v some_left fits e,
        )
      ]

  -- On a quiet queue lfqueue_size is the number of elements, and lfqueue_empty tells whether it is
  -- zero.
  pub queue_size-eq-length :
      (q : Lfqueue A)
      → IsQuiet q
      → (queue_size q ≡ length (contents q)) × (empty q ≡ (length (contents q) == 0))
  unfolding queue_size empty
  queue_size-eq-length q x =
      let i = x.indexed in
      let many = length-contents q i in
      (
        ground (arith, x.committed, i.read_in, i.max_in, i.small),
        ground (arith, x.committed, i.read_in, i.max_in, i.small),
      )

  -- A new queue of at least one slot is quiet and empty.
  pub create-IsQuiet :
      (quesize elemsize : ℕ) (storage : List A) (q : Lfqueue A)
      → 0 < quesize
      → quesize < 2 ^ 32
      → length storage ≡ quesize
      → create true quesize elemsize storage ≡ some q
      → IsQuiet q × (contents q ≡ []) × (q.size ≡ quesize)
  unfolding create
  create-IsQuiet quesize elemsize storage q pos small e made = ground arith
