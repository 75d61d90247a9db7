-- ===== src/Conn/Loop.antt =====
-- conn.go: the loop that starts attempts (`startConnLoop`) and the start of an attempt (`newConn`).
use chrome.Base.{◌+◌, true, not, [], ◌∷◌, ◌++◌, ◌==◌, if◌then◌else◌}
use chrome.Base.Int.{pos, leb_ℤ}
use chrome.Conn.Options.{ConnOptions}
use chrome.Conn.State.{
  State, LoopPc, guard, timer_wait, closing_wait, ended, max_attempts, new_attempt,
}
use chrome.Conn.Timer.{start_timer, stop_timer}

unfoldable pub new_conn : State → State
unfolding new_attempt
new_conn s = record s {
  connections = s.connections + 1;
  attempts = s.attempts + 1;
  all = s.all ++ (new_attempt ∷ []);
}

-- `awaitTimer` and what follows it in the loop.
unfoldable pub after_wait : State → State
unfolding start_timer
after_wait s =
    if s.timer_running then record s { pc = timer_wait } else start_timer (record s { pc = guard })

-- `awaitTimer` and what follows it in the deferred block.
unfoldable pub after_close : State → State
after_close s =
    if s.timer_running
    then record s { pc = closing_wait }
    else record s { pc = ended; loop_done = true }

unfoldable pub break_loop : State → State
break_loop s = after_close (stop_timer s)

unfoldable pub start_attempt : State → State
start_attempt s = after_wait (stop_timer (new_conn s))

-- The head of the loop, and the rest of a round if it passes.
unfoldable pub run_guard : ConnOptions → State → State
run_guard opts s =
    if s.loop_stop
    then break_loop s
    else if not s.newconn
    then s
    else if leb_ℤ opts.parallel (pos s.connections)
    then s
    else if leb_ℤ opts.max_attempts (pos s.attempts)
    then (if not (s.connections == 0)
        then s
        else break_loop (record s { events = s.events ++ (max_attempts ∷ []) }))
    else start_attempt s

-- The coroutine goes on from where it stands.
unfoldable pub resume : ConnOptions → LoopPc → State → State
resume opts guard s = run_guard opts s
resume opts timer_wait s = after_wait s
resume opts closing_wait s = after_close s
resume opts ended s = s

unfoldable pub run_loop : ConnOptions → State → State
unfolding resume
run_loop opts s = resume opts s.pc s
