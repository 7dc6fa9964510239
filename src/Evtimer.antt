-- ===== src/Evtimer.antt =====
-- src/ZToolLib/ztl_evtimer.c: timers in a tree by the time at which they are due. Times are 64-bit
-- words that may go round, and the tree's operations are parameters. A handler is taken to leave the
-- timers alone: the model gives the list of its calls.
pub mod Expire
pub mod Add
mod Tests
use ztool_lib.Common.{
  ℕ, zero, suc, ◌+◌, ◌-◌, ◌%◌, ◌^◌, Bool, true, false, ltb, leb, ◌==◌, ◌&&◌, if◌then◌else◌, Option,
  none, some, List, [], ◌∷◌,
}
use ztool_lib.Common.Outcome.{Outcome, done, out_of_fuel, ◌>>=◌}
use ztool_lib.Rbtree.{Node, Tree, leaf, node, cleared, Rbtree}

abbrev pub lazy_delay : ℕ
lazy_delay = 300

-- ztl_evtimer_s
pub record Evtimer : Type 0 where
  pub last_time : ℕ
  pub count : ℕ
  pub event_timers : Tree

-- ztl_evtimer_init
abbrev pub evtimer_init : Evtimer
evtimer_init = record { last_time = 0; count = 0; event_timers = leaf }

-- ztl_evtimer_update_time
unfoldable pub evtimer_update_time : Evtimer → ℕ → Evtimer
evtimer_update_time et currtime = record et { last_time = currtime }

-- The difference of two 64-bit times, and whether it is positive as a signed number.
unfoldable pub difference : ℕ → ℕ → ℕ
difference a b = (a + 2 ^ 64 - b) % 2 ^ 64

unfoldable pub is_after : ℕ → ℕ → Bool
unfolding difference
is_after a b = ltb 0 (difference a b) && ltb (difference a b) (2 ^ 63)

-- Whether the absolute value of a difference, cut to 32 bits, is below the delay.
unfoldable pub is_near : ℕ → ℕ → Bool
unfolding difference
is_near a b =
    let low = difference a b % 2 ^ 32 in
    ltb (if ltb low (2 ^ 31) then low else 2 ^ 32 - low) lazy_delay

-- What ztl_evtimer_add returns: ZTL_ERR_InvalidParam, 1 or 0.
pub data Added : Type 0 where
  invalid_param : Added
  kept : Added
  added : Added

-- What ztl_evtimer_expire returns: ZTL_ERR_Empty, or the time to the next timer.
pub data Next : Type 0 where
  no_timer : Next
  due_in : ℕ → Next

module _ (rb : Rbtree) where
  -- ztl_evtimer_del
  unfoldable pub evtimer_del : Evtimer → Node → Evtimer
  evtimer_del et timer = record et {
    count = (et.count + 2 ^ 32 - 1) % 2 ^ 32;
    event_timers = rb.delete timer et.event_timers;
  }

  -- ztl_evtimer_add: the timer is given with its key, which the call changes.
  unfoldable pub evtimer_add : Evtimer → Node → ℕ → Bool → Added × Node × Evtimer
  unfolding is_near evtimer_del
  evtimer_add et timer timeout_ms timerset =
      let key = (et.last_time + timeout_ms) % 2 ^ 64 in
      let timer' : Node = record timer { key = key } in
      let insert : Evtimer → Evtimer = λ e. record e {
        count = (e.count + 1) % 2 ^ 32;
        event_timers = rb.insert timer' e.event_timers;
      } in
      if timeout_ms == 0
      then (invalid_param, timer, et)
      else if timerset
      then (if is_near key timer.key
          then (kept, timer, et)
          else (added, timer', insert (evtimer_del et timer)))
      else (added, timer', insert et)

  -- ztl_evtimer_min
  unfoldable pub evtimer_min : Evtimer → Option Node
  evtimer_min et = elim et.event_timers [
    | leaf ↦ none
    | node l n r ↦ some (rb.minimum (node l n r))
  ]

  -- ztl_evtimer_min_ms: none is the result -1. The argument currtime is read but has no effect.
  unfoldable pub evtimer_min_ms : Evtimer → ℕ → Option ℕ
  unfolding evtimer_min difference
  evtimer_min_ms et currtime = elim (evtimer_min et) [
    | none ↦ none
    | some n ↦ some (difference n.key et.last_time)
  ]

  -- The loop of ztl_evtimer_expire, on fuel: the timers that the handler is called with, with the key
  -- that rbtree_delete has cleared, the result and the timers that are left.
  unfoldable pub expire_loop : ℕ → ℕ → Tree → Outcome (List Node × Next × Tree)
  unfolding is_after difference
  expire_loop zero now t = out_of_fuel
  expire_loop (suc fuel) now t =
      let n = rb.minimum t in
      let rest = expire_loop fuel now (rb.delete n t) in
      let fire : Outcome (List Node × Next × Tree) = do
        (fired, next, left) ← rest
        done (cleared n ∷ fired, next, left)
      in let wait : Outcome (List Node × Next × Tree) =
          done ([], due_in (difference n.key now % 2 ^ 32), t) in
        elim t [
          | leaf ↦ done ([], no_timer, leaf)
          | node _ _ _ ↦ if is_after n.key now then wait else fire
        ]

  -- ztl_evtimer_expire
  unfoldable pub evtimer_expire : ℕ → Evtimer → ℕ → Outcome (List Node × Next × Evtimer)
  unfolding expire_loop
  evtimer_expire fuel et currtime = do
    (fired, next, left) ← expire_loop fuel currtime et.event_timers
    done (fired, next, record et { last_time = currtime; event_timers = left })
