-- ===== src/Conn/Step.antt =====
-- conn.go: the events of one `NewConn` in any order.
use chrome.Base.{ℕ, Bool, List, [], ◌∷◌, Option, none, some, get_elem?}
use chrome.Conn.Options.{ConnOptions}
use chrome.Conn.State.{State, Attempt}
use chrome.Conn.Timer.{timer_fires, timer_runs}
use chrome.Conn.Request.{read_request}
use chrome.Conn.Loop.{run_loop}
use chrome.Conn.Attempt.{
  dial_returns, first_byte, start_relay, relay_returns, finish_attempt, time_out, cancel_loser,
  run_after_func, run_sender, write_returns,
}

-- What the coroutine of an attempt, its sender, its context and its connection do.
pub data Act : Type 0 where
  dials : Bool → Bool → Act
  answers : Bool → Act
  relays hangs_up finishes times_out loses is_done sends : Act
  wrote : ℕ → Bool → Act

pub data Event : Type 0 where
  loop_runs interval_ends interval_told : Event
  reads : ℕ → Bool → Event
  acts : ℕ → Act → Event

unfoldable pub act : ℕ → Act → Attempt → State → State
unfolding dial_returns first_byte start_relay relay_returns finish_attempt time_out cancel_loser
    run_after_func run_sender write_returns
act i (dials got close_conn) a s = dial_returns i got close_conn a s
act i (answers err) a s = first_byte i err a s
act i relays a s = start_relay i a s
act i hangs_up a s = relay_returns i a s
act i finishes a s = finish_attempt i a s
act i times_out a s = time_out i a s
act i loses a s = cancel_loser i a s
act i is_done a s = run_after_func i a s
act i sends a s = run_sender i a s
act i (wrote n err) a s = write_returns i n err a s

-- An act of an attempt that was not made is none.
abbrev pub on_attempt : Option Attempt → (Attempt → State → State) → State → State
on_attempt none f s = s
on_attempt (some a) f s = f a s

unfoldable pub step : ConnOptions → Event → State → State
step opts loop_runs s = run_loop opts s
step opts interval_ends s = timer_fires s
step opts interval_told s = timer_runs s
step opts (reads n err) s = read_request n err s
step opts (acts i x) s = on_attempt (get_elem? s.all i) (act i x) s

unfoldable pub run : ConnOptions → List Event → State → State
run opts [] s = s
run opts (e ∷ es) s = run opts es (step opts e s)
