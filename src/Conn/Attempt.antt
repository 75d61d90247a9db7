-- ===== src/Conn/Attempt.antt =====
-- conn.go: the coroutine of one attempt, with the one that sends the request on its connection, its
-- context and its timer.
use chrome.Base.{
  ℕ, ◌+◌, ◌-◌, Bool, true, false, not, ◌&&◌, ◌||◌, [], ◌∷◌, ◌++◌, length, take, drop, min, set,
  ◌==◌, if◌then◌else◌,
}
use chrome.Conn.State.{
  State, Attempt, dialing, trying, winning, relaying, closing, over, Sender, unstarted, waits,
  send_done, writes, AfterFunc, unset, armed, started, finished, response, wg_add, wg_done,
}
use chrome.Conn.Request.{stop_conn_loop, stop_reading}

-- The attempt at a place is now this one.
abbrev pub put : ℕ → Attempt → State → State
put i a s = record s { all = set s.all i a }

-- `cancel`: a function that waits for the context is started.
abbrev pub when_canceled : AfterFunc → AfterFunc
when_canceled unset = unset
when_canceled armed = started
when_canceled started = started
when_canceled finished = finished

unfoldable pub cancel : Attempt → Attempt
cancel a = record a { canceled = true; after_func = when_canceled a.after_func }

unfoldable pub stop_sending : Attempt → Attempt
stop_sending a = record a { write_expired = true; send_stop = true }

-- `stopAfterFunc`: a function that has not started will not, and then `Done` is called for it.
abbrev pub when_stopped : AfterFunc → AfterFunc
when_stopped unset = unset
when_stopped armed = finished
when_stopped started = started
when_stopped finished = finished

unfoldable pub release : AfterFunc → State → State
unfolding wg_done
release unset s = s
release armed s = wg_done s
release started s = s
release finished s = s

unfoldable pub stop_after_func : Attempt → Attempt
stop_after_func a = record a { after_func = when_stopped a.after_func }

-- The attempt ends: what it does at once in its deferred block, before it waits there.
unfoldable pub close_attempt : ℕ → Attempt → State → State
unfolding stop_sending stop_after_func release
close_attempt i a s =
    put i (stop_after_func (stop_sending (record a { phase = closing }))) (release a.after_func s)

-- The deferred block of the whole attempt.
unfoldable pub end_attempt : ℕ → Attempt → State → State
unfolding cancel
end_attempt i a s =
    put i (record (cancel a) { phase = over; closed = a.connected; timer_live = false })
      (record s { connections = s.connections - 1 })

-- A connection is there: the sender starts, and a function waits for the context.
unfoldable pub start_trying : Attempt → Attempt
start_trying a = record a {
  connected = true;
  phase = trying;
  sender = waits;
  after_func = if a.canceled then started else armed;
}

-- `getRemote` returns: whether it has a connection, and whether its error is `CloseConn`.
unfoldable pub dial_returns : ℕ → Bool → Bool → Attempt → State → State
unfolding stop_reading end_attempt start_trying wg_add
dial_returns i got close_conn a s =
    let s' : State = if close_conn then stop_reading s else s in
    elim a.phase [
      | dialing ↦ if got then put i (start_trying a) (wg_add s') else end_attempt i a s'
      | trying ↦ s
      | winning ↦ s
      | relaying ↦ s
      | closing ↦ s
      | over ↦ s
    ]

unfoldable pub win : ℕ → Attempt → State → State
unfolding stop_sending stop_after_func release stop_reading stop_conn_loop
win i a s =
    put i (stop_after_func (stop_sending (record a { phase = winning; is_winner = true }))) (
      release a.after_func (
        stop_reading
          (stop_conn_loop (record s { has_winner = true; events = s.events ++ (response ∷ []) }))))

-- The first byte is there, or an error.
unfoldable pub first_byte : ℕ → Bool → Attempt → State → State
unfolding close_attempt win
first_byte i err a s = elim a.phase [
  | dialing ↦ s
  | trying ↦
      if err || not a.timer_live
      then close_attempt i a s
      else if s.has_winner
      then close_attempt i (record a { timer_live = false }) s
      else win i (record a { timer_live = false }) s
  | winning ↦ s
  | relaying ↦ s
  | closing ↦ s
  | over ↦ s
]

abbrev pub is_send_done : Sender → Bool
is_send_done unstarted = false
is_send_done waits = false
is_send_done send_done = true
is_send_done (writes bs) = false

abbrev pub is_finished : AfterFunc → Bool
is_finished unset = false
is_finished armed = false
is_finished started = false
is_finished finished = true

-- The winner has waited for all that it waits for, and the relay starts.
unfoldable pub start_relay : ℕ → Attempt → State → State
start_relay i a s = elim a.phase [
  | dialing ↦ s
  | trying ↦ s
  | winning ↦
      if s.loop_done && s.read_done && is_send_done a.sender && is_finished a.after_func
      then put i
          (record a {
            phase = relaying;
            read_expired = false;
            write_expired = false;
            prefix = drop a.sent s.request;
          })
          (record s { pipe_expired = false })
      else s
  | relaying ↦ s
  | closing ↦ s
  | over ↦ s
]

-- The relay is over.
unfoldable pub relay_returns : ℕ → Attempt → State → State
unfolding close_attempt
relay_returns i a s = elim a.phase [
  | dialing ↦ s
  | trying ↦ s
  | winning ↦ s
  | relaying ↦ close_attempt i a s
  | closing ↦ s
  | over ↦ s
]

-- The deferred block has waited for the sender and for the function that waits for the context.
unfoldable pub finish_attempt : ℕ → Attempt → State → State
unfolding end_attempt
finish_attempt i a s = elim a.phase [
  | dialing ↦ s
  | trying ↦ s
  | winning ↦ s
  | relaying ↦ s
  | closing ↦ if is_send_done a.sender && is_finished a.after_func then end_attempt i a s else s
  | over ↦ s
]

-- The timer of the attempt fires and calls `cancel`, which is one event here.
unfoldable pub time_out : ℕ → Attempt → State → State
unfolding cancel
time_out i a s = if a.timer_live then put i (cancel (record a { timer_live = false })) s else s

-- The coroutine that waits for the end of the loop calls `cancel` for an attempt that did not win.
unfoldable pub cancel_loser : ℕ → Attempt → State → State
unfolding cancel
cancel_loser i a s = if s.loop_done && not a.is_winner then put i (cancel a) s else s

-- The function that waited for the context runs, up to the `Done` that it spawns. In between, only its
-- deadline is set, which no other step looks at before it has finished.
unfoldable pub run_after_func : ℕ → Attempt → State → State
unfolding wg_done
run_after_func i a s = elim a.after_func [
  | unset ↦ s
  | armed ↦ s
  | started ↦ put i (record a { after_func = finished; read_expired = true }) (wg_done s)
  | finished ↦ s
]

-- The sender runs: it stops, waits for more of the request, or begins to write what it has.
unfoldable pub run_sender : ℕ → Attempt → State → State
run_sender i a s = elim a.sender [
  | unstarted ↦ s
  | waits ↦
      if a.send_stop
      then put i (record a { sender = send_done }) s
      else if a.sent == length s.request
      then s
      else put i (record a { sender = writes (drop a.sent s.request) }) s
  | send_done ↦ s
  | writes bs ↦ s
]

-- The write returns how much it wrote, which is no more than it was given, and an error or not.
unfoldable pub write_returns : ℕ → ℕ → Bool → Attempt → State → State
write_returns i n err a s = elim a.sender [
  | unstarted ↦ s
  | waits ↦ s
  | send_done ↦ s
  | writes bs ↦
      let m = min n (length bs) in
      put i
        (record a {
          wire = a.wire ++ take m bs;
          sent = a.sent + m;
          sender = if err then send_done else waits;
        })
        s
]
