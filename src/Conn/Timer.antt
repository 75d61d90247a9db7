-- ===== src/Conn/Timer.antt =====
-- conn.go: the timer that keeps two attempts apart (`startTimer`, `stopTimer` and its callback).
use chrome.Base.{true, false}
use chrome.Conn.State.{State, off, ticking, fired, wg_add, wg_done}

unfoldable pub start_timer : State → State
unfolding wg_add
start_timer s = record (wg_add s) { newconn = false; timer_running = true; timer = ticking }

-- The callback, and `stopTimer` when it comes before it: attempts may start again.
unfoldable pub timer_over : State → State
unfolding wg_done
timer_over s = record (wg_done s) { newconn = true; timer_running = false; timer = off }

unfoldable pub stop_timer : State → State
unfolding timer_over
stop_timer s = elim s.timer [ off ↦ s | ticking ↦ timer_over s | fired ↦ s ]

unfoldable pub timer_fires : State → State
timer_fires s = elim s.timer [ off ↦ s | ticking ↦ record s { timer = fired } | fired ↦ s ]

-- The function that the timer spawned runs.
unfoldable pub timer_runs : State → State
unfolding timer_over
timer_runs s = elim s.timer [ off ↦ s | ticking ↦ s | fired ↦ timer_over s ]
