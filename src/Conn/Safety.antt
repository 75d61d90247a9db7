-- ===== src/Conn/Safety.antt =====
-- What holds of a `NewConn` after any events: what it tells, its limits, its wait group, and that
-- the winner gets the request whole.
use mathlib.Core.List.{append_assoc}
use chrome.Base.{
  ℕ, ◌+◌, ◌<◌, ◌≡◌, sym, ap, ◌∙◌, true, false, ◌&&◌, List, ◌++◌, length, sum_by, get_elem?, some,
  arith, All-get_elem?,
}
use chrome.Base.Int.{pos, ◌≤ℤ◌}
use chrome.Conn.Options.{ConnOptions, conn_options}
use chrome.Conn.State.{State, Attempt, relaying, over, init}
use chrome.Conn.Step.{Event, run}
use chrome.Conn.Request.{max_request_size, conn_buf_size}
use chrome.Conn.Acted.{live, owes, one_if, Stage}
use chrome.Conn.Invariant.{Sound, Told}
use chrome.Conn.Invariant.Runs.{reached-Inv}

-- The state after these events, from the start.
abbrev pub reached : ConnOptions → ConnOptions → List ℕ → List Event → State
reached given stored stream es = run (conn_options given stored) es (init stream)

module _ (given stored : ConnOptions) (stream : List ℕ) (es : List Event) where
  -- After any events from the start of a NewConn with whatever options, no more attempts are
  -- alive than Parallel and no more were made than MaxAttempts, as the defaults give them, and
  -- the two counters are the numbers of attempts that are not over and of attempts.
  pub within_limits :
      let s = reached given stored stream es in
      let opts = conn_options given stored in
      (pos s.connections ≤ℤ opts.parallel)
      × (pos s.attempts ≤ℤ opts.max_attempts)
      × (s.connections ≡ sum_by (λ a. live a.phase) s.all)
      × (s.attempts ≡ length s.all)
  within_limits =
      let c = (reached-Inv given stored stream es).counts in (c.room, c.limit, c.counted, c.made)

  -- After any events from the start of a NewConn, either nothing was told and no attempt has
  -- won, or only the response was told, an attempt has won and the loop is told to stop, or
  -- only the end of all attempts was told, when none has won, none is alive and the loop
  -- leaves; and the number of attempts that won is 1 or 0 as the flag says.
  pub one_event :
      let s = reached given stored stream es in
      Told s × (sum_by (λ a. one_if a.is_winner) s.all ≡ one_if s.has_winner)
  one_event = let w = (reached-Inv given stored stream es).winner in (w.told, w.winners)

  -- Over the calls of Add and Done that NewConn makes itself, and not those that WaitGroup.Go
  -- makes for each goroutine it starts and ends: after any events from the start of a NewConn,
  -- no Done has come without an Add before it that it answers, and the Adds without a Done so
  -- far are one for each timer between attempts that runs and one for each function for a
  -- context that is still to call Done.
  pub waits_counted :
      let s = reached given stored stream es in
      (s.panicked ≡ false)
      × (s.pending ≡ one_if s.timer_running + sum_by (λ a. owes a.after_func) s.all)
  waits_counted = let w = (reached-Inv given stored stream es).waits in (w.calm, w.owed)

  -- After any events from the start of a NewConn, the bytes held of the request, followed by
  -- what is left in the pipe, are the stream that the client writes, and they are fewer than
  -- the limit of a request and one buffer together.
  pub request_bounded :
      let s = reached given stored stream es in
      (s.request ++ s.input ≡ stream) × (length s.request < max_request_size + conn_buf_size)
  request_bounded = let r = (reached-Inv given stored stream es).reads in (r.whole, r.bounded)

  module _ (i : ℕ) (a : Attempt)
      (here : get_elem? (reached given stored stream es).all i ≡ some a) where
    stage :
        let s = reached given stored stream es in
        Stage s.request (s.loop_done && s.read_done) a.phase a
    stage =
        let s = reached given stored stream es in
        (All-get_elem? (Sound s.request (s.loop_done && s.read_done)) s.all i a
          (reached-Inv given stored stream es).sound here).1

    -- After any events from the start of a NewConn, an attempt that is over has closed its
    -- connection if it had one, its timer is stopped, and no function for its context is left
    -- to run.
    pub over_closed :
        a.phase ≡ over → (a.closed ≡ a.connected) × (a.timer_live ≡ false) × (owes a.after_func ≡ 0)
    over_closed e = ground (arith, stage)

    -- After any events from the start of a NewConn, an attempt that relays has been sent the
    -- first bytes of the stream that the client writes, and the bytes that its relay is to send
    -- first, followed by what is left in the pipe, are the rest of that stream: nothing is lost
    -- or sent twice; then the loop and the reader have ended, the attempt is the winner, and
    -- its connection has no deadline in the past.
    pub relay_gets_stream :
        a.phase ≡ relaying
        → let s = reached given stored stream es in
          (a.wire ++ (a.prefix ++ s.input) ≡ stream)
          × (s.loop_done ≡ true)
          × (s.read_done ≡ true)
          × (a.is_winner ≡ true)
          × (a.read_expired ≡ false)
          × (a.write_expired ≡ false)
    relay_gets_stream e =
        let s = reached given stored stream es in
        let whole : a.wire ++ a.prefix ≡ s.request = ground (arith, stage) in
        (
          sym (append_assoc a.wire a.prefix s.input)
              ∙ ap (λ zs. zs ++ s.input) whole
              ∙ (reached-Inv given stored stream es).reads.whole,
          ground (arith, stage),
          ground (arith, stage),
          ground (arith, stage),
          ground (arith, stage),
          ground (arith, stage),
        )
