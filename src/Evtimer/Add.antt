-- ===== src/Evtimer/Add.antt =====
-- ztl_evtimer_add of src/ZToolLib/ztl_evtimer.c for a timer that is set, and for a new one.
use ztool_lib.Common.{ℕ, ◌+◌, ◌%◌, ◌^◌}
use ztool_lib.Rbtree.{Node, Rbtree}
use ztool_lib.Evtimer.{Evtimer}

-- The node that is put in for a timer.
unfoldable pub renewed : Evtimer → Node → ℕ → Node
renewed et timer timeout_ms = record timer { key = (et.last_time + timeout_ms) % 2 ^ 64 }
