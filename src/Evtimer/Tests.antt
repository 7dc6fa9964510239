-- ===== src/Evtimer/Tests.antt =====
-- Runs of the timers, and the theorems at concrete timers.
use ztool_lib.Common.{ℕ, ◌≡◌, refl, map, List, [], ◌∷◌, arith}
use ztool_lib.Common.Outcome.{done}
use ztool_lib.Rbtree.{Node, cleared, leaf, node, count, IsSearch}
use ztool_lib.Rbtree.Plain.{plain, plain-IsTimerTree}
use ztool_lib.Evtimer.{Evtimer, Next, due_in, evtimer_expire}
use ztool_lib.Evtimer.Expire.{Expired, IsAscending, evtimer_expire_done}

abbrev timer : ℕ → ℕ → Node
timer k u = record { key = k; udata = u }

-- Timers that are due at 1500, 1000 and 2000.
abbrev three : Evtimer
three = record {
  last_time = 900;
  count = 3;
  event_timers =
      node (node leaf (timer 1000 1) leaf) (timer 1500 2) (node leaf (timer 2000 3) leaf);
}

three-IsSearch : IsSearch three.event_timers
unfolding IsSearch count
three-IsSearch = (
  λ k h. ground arith,
  λ k h. ground arith,
  (λ k h. refl, λ k h. refl, tt, tt),
  (λ k h. refl, λ k h. refl, tt, tt),
)

evtimer_expire_done_example :
    (timers : List Node) × (next : Next) × (et' : Evtimer) × (evtimer_expire plain 4 three 1600
      ≡ done (map cleared timers, next, et'))
    × Expired 1600 three.event_timers timers next et'.event_timers
    × IsAscending 0 timers
    × (et'.count ≡ three.count)
    × (et'.last_time ≡ 1600)
unfolding count
evtimer_expire_done_example =
    evtimer_expire_done plain plain-IsTimerTree.removes 1600 (omega arith) three 4 three-IsSearch
      refl (omega arith)

abbrev three_thousand : ℕ
three_thousand = 3000

-- Two timers are due at 1600, and are seen with their keys cleared; the third is 400 away; the count still says 3.
three_expire :
    evtimer_expire plain 4 three 1600
    ≡ done (
      timer 0 1 ∷ timer 0 2 ∷ [],
      due_in 400,
      record { last_time = 1600; count = 3; event_timers = node leaf (timer 2000 3) leaf },
    )
unfolding evtimer_expire plain
three_expire = refl
