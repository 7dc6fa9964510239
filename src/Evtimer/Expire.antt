-- ===== src/Evtimer/Expire.antt =====
-- ztl_evtimer_expire of src/ZToolLib/ztl_evtimer.c calls the handler with the timers that are due.
use ztool_lib.Common.{
  ℕ, zero, suc, ◌+◌, ◌-◌, ◌%◌, ◌^◌, ◌≤◌, ◌<◌, ◌≡◌, ◌≢◌, refl, ap, Bool, true, ltb, leb,
  if◌then◌else◌, map, List, [], ◌∷◌, arith, Bool-cases, inl, inr, ◌⊎◌,
}
use ztool_lib.Common.Outcome.{done}
use ztool_lib.Rbtree.{
  Node, Tree, leaf, node, count, Occurs, has_key, IsSearch, Rbtree, IsRemoving, cleared, is_late,
}
use ztool_lib.Rbtree.Counts.{count-eq-zero, node-ne-leaf}
use ztool_lib.Evtimer.{
  Evtimer, Next, no_timer, due_in, difference, is_after, expire_loop, evtimer_expire,
}

pub difference-later : (a b : ℕ) → a < 2 ^ 63 → b ≤ a → difference a b ≡ a - b
unfolding difference
difference-later a b h k = omega arith

pub is_after-ltb : (a b : ℕ) → a < 2 ^ 63 → b < 2 ^ 63 → is_after a b ≡ ltb b a
unfolding is_after difference
is_after-ltb a b h k = ground arith

-- The number of nodes of a list that pass a test.
unfoldable pub tally : (Node → Bool) → List Node → ℕ
tally p [] = 0
tally p (n ∷ ns) = (if p n then 1 else 0) + tally p ns

-- The keys do not decrease, from a first bound on.
unfoldable pub IsAscending : ℕ → List Node → Type 0
IsAscending low [] = Unit
IsAscending low (n ∷ ns) = (low ≤ n.key) × IsAscending n.key ns

-- What a call at the time `now` gives for the timers `t`: it calls the handler with the timers that
-- are due, and leaves the others.
pub record Expired (now : ℕ) (t : Tree) (fired : List Node) (next : Next) (left : Tree)
    : Type 0 where
  pub each : (p : Node → Bool) → tally p fired + count p left ≡ count p t
  pub due : tally (λ n. ltb now n.key) fired ≡ 0
  pub pending : count (λ n. leb n.key now) left ≡ 0
  pub result :
      ((left ≡ leaf) × (next ≡ no_timer))
      ⊎ ((n : Node) × Occurs n left
          × ((k : ℕ) → k < n.key → count (has_key k) left ≡ 0)
          × (next ≡ due_in ((n.key - now) % 2 ^ 32)))

module _ (rb : Rbtree) (laws : IsRemoving rb) (now : ℕ) (clock : now < 2 ^ 63) where
  expire_loop_done :
      (fuel low : ℕ) (t : Tree)
      → IsSearch t
      → count is_late t ≡ 0
      → count (λ _. true) t + 1 ≤ fuel
      → ((k : ℕ) → k < low → count (has_key k) t ≡ 0)
      → (timers : List Node) × (next : Next) × (left : Tree) × (expire_loop rb fuel now t
          ≡ done (map cleared timers, next, left))
        × Expired now t timers next left
        × IsAscending low timers
  unfolding expire_loop tally IsAscending Occurs count
  expire_loop_done zero low t s early enough bound = absurd (omega arith)
  expire_loop_done (suc fuel) low leaf s early enough bound = (
    [],
    no_timer,
    leaf,
    refl,
    record { each = λ p. omega arith; due = refl; pending = refl; result = inl (refl, refl) },
    tt,
  )
  expire_loop_done (suc fuel) low (node a m b) s early enough bound =
      let t = node a m b in
      let full : t ≢ leaf = node-ne-leaf a m b in
      let n = rb.minimum t in
      let there = laws.minimum_occurs t s full in
      let least = laws.minimum_least t s full in
      let soon : n.key < 2 ^ 63 = ground (arith, there is_late) in
      let lower : low ≤ n.key = ground (arith, there (has_key n.key), bound n.key) in
      let after : is_after n.key now ≡ ltb now n.key = is_after-ltb n.key now soon clock in
      elim (Bool-cases (ltb now n.key)) [
        | inl e ↦ (
          [],
          _,
          t,
          rw (after, e),
          record {
            each = λ p. omega arith;
            due = refl;
            pending =
                count-eq-zero (λ x. leb x.key now) t (λ x h. least x.key (ground (arith, e, h)));
            result = inr (
              n,
              there,
              least,
              ap (λ d. due_in (d % 2 ^ 32)) (difference-later n.key now soon (ground (arith, e))),
            );
          },
          tt,
        )
        | inr e ↦
            (let t1 = rb.delete n t in
              let counts : (p : Node → Bool) → (if p n then 1 else 0) + count p t1 ≡ count p t =
                λ p. laws.delete_count n t p s there in
              let (fired, next, left, runs, x, up) =
                expire_loop_done fuel n.key t1 (laws.delete_search n t s there)
                  (omega (arith, counts is_late, early))
                  (ground (arith, counts (λ _. true), enough))
                  (λ k h. omega (arith, counts (has_key k), least k h)) in
              (
                n ∷ fired,
                next,
                left,
                rw (after, e, runs),
                record {
                  each = λ p. ground (arith, x.each p, counts p);
                  due = ground (arith, x.due, e);
                  pending = x.pending;
                  result = x.result;
                },
                (lower, up),
              ))
      ]

  -- For removals and a minimum that have the laws: ztl_evtimer_expire, on an ordered tree, for times
  -- below 2^63 and one round more than there are timers: it ends; the handler is called with every
  -- timer that is due and with no other, in the order of their times, each with its key cleared, the
  -- other timers stay, and
  -- the result is the time from now to the first of them, cut to 32 bits, or ZTL_ERR_Empty when
  -- none is left; the count of timers is not changed.
  pub evtimer_expire_done :
      (et : Evtimer) (fuel : ℕ)
      → IsSearch et.event_timers
      → count is_late et.event_timers ≡ 0
      → count (λ _. true) et.event_timers + 1 ≤ fuel
      → (timers : List Node) × (next : Next) × (et' : Evtimer) × (evtimer_expire rb fuel et now
          ≡ done (map cleared timers, next, et'))
        × Expired now et.event_timers timers next et'.event_timers
        × IsAscending 0 timers
        × (et'.count ≡ et.count)
        × (et'.last_time ≡ now)
  unfolding evtimer_expire
  evtimer_expire_done et fuel s early enough =
      let (fired, next, left, runs, x, up) =
        expire_loop_done fuel 0 et.event_timers s early enough (λ k h. absurd (omega arith)) in
      (
        fired,
        next,
        record et { last_time = now; event_timers = left },
        rw (runs),
        x,
        up,
        refl,
        refl,
      )
