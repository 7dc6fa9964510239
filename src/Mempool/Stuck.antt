-- ===== src/Mempool/Stuck.antt =====
-- The path of ztl_mp_alloc in src/ZToolLib/ztl_mempool.c that returns with the lock taken.
use ztool_lib.Common.{
  ◌+◌, ◌*◌, leb, ◌≡◌, refl, subst, Bool, true, false, if◌then◌else◌, Option, none, some, inl, inr,
  list-cases, option-cases,
}
use ztool_lib.Mempool.{
  Node, Mempool, Call, returned, null_access, spins, outside, alloc_block, carve, exhausted,
  mp_alloc, mp_free,
}

-- A call that returns NULL leaves the lock taken.
data Latches : Call (Option Node) → Type 0 where
  some_node : {n : Node} {p : Mempool} → Latches (returned (some n) p)
  latched : {p : Mempool} → p.locked ≡ true → Latches (returned none p)
  no_return_null : Latches null_access
  no_return_spin : Latches spins
  no_return_outside : Latches outside

Latches-inverse : (p : Mempool) → Latches (returned none p) → p.locked ≡ true
Latches-inverse p (latched e) = e

Latches-if :
    {x y : Call (Option Node)} (b : Bool) → Latches x → Latches y → Latches (if b then x else y)
Latches-if true x y = x
Latches-if false x y = y

Latches-carve : (mp : Mempool) → Latches (carve mp)
unfolding carve
Latches-carve mp = elim (list-cases mp.blocks) [
  | inl e ↦ rw e no_return_null
  | inr (b, bs, e) ↦
      rw e (Latches-if (leb ((b.curindex + 1) * mp.entity_size) b.size) some_node no_return_outside)
]

Latches-alloc : (mp : Mempool) (malloced : Bool) → Latches (mp_alloc malloced mp)
unfolding mp_alloc
Latches-alloc mp malloced = Latches-if mp.locked no_return_spin (elim (option-cases mp.freenodes) [
  | inr (n, e) ↦ rw e some_node
  | inl e ↦ rw e (
      Latches-if (exhausted mp)
        (Latches-if mp.auto_expand
          (elim (option-cases (alloc_block malloced mp)) [
            | inl f ↦ rw f no_return_null
            | inr (m, f) ↦ rw f (Latches-carve m)
          ])
          (latched refl))
        (Latches-carve mp))
])

-- After a call of ztl_mp_alloc that returns NULL every later call of ztl_mp_alloc, and every call
-- of ztl_mp_free on an entity, spins for ever on the lock.
pub mempool_stuck :
    (mp p : Mempool) (a b : Bool) (n : Node)
    → mp_alloc a mp ≡ returned none p
    → (mp_alloc b p ≡ spins) × (mp_free p (some n) ≡ spins)
unfolding mp_alloc mp_free
mempool_stuck mp p a b n e =
    let l = Latches-inverse p (subst (λ c. Latches c) e (Latches-alloc mp a)) in
    (rw l refl, rw l refl)
