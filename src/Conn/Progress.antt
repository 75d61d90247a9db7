-- ===== src/Conn/Progress.antt =====
-- Nothing that the winner waits for can keep it waiting: the loop, the reader, its sender and the
-- function for its context all end once they run, and then the relay starts.
use chrome.Base.{
  ℕ, ◌+◌, ◌≡◌, refl, true, false, ◌&&◌, ◌⊎◌, inl, inr, List, [], ◌∷◌, All-get_elem?, ◌∙◌, ◌++◌,
  take, min, drop, length, get_elem?, get_elem?-set_there, some, arith, sum_by-ge,
}
use chrome.Conn.Options.{ConnOptions, conn_options}
use chrome.Conn.State.{
  State, Attempt, winning, relaying, Sender, unstarted, waits, send_done, writes, AfterFunc, unset,
  armed, started, finished, Timer, off, ticking, fired, LoopPc, guard, timer_wait, closing_wait,
  ended, wg_add, wg_done,
}
use chrome.Conn.Timer.{start_timer, timer_over, stop_timer, timer_fires, timer_runs}
use chrome.Conn.Request.{read_request, stop_conn_loop}
use chrome.Conn.Attempt.{
  is_send_done, is_finished, start_relay, run_after_func, run_sender, write_returns,
}
use chrome.Conn.Loop.{after_wait, after_close, break_loop, run_guard, resume, run_loop}
use chrome.Conn.Step.{
  Event, loop_runs, interval_ends, interval_told, reads, acts, relays, is_done, sends, wrote, act,
  step, run,
}
use chrome.Conn.Acted.{one_if, Stage, Stopping}
use chrome.Conn.Invariant.{Sound, Inv}
use chrome.Conn.Invariant.Runs.{reached-Inv}
use chrome.Conn.Safety.{reached}

-- The loop runs, with its timer, until it has ended.
abbrev pub loop_events : List Event
loop_events = loop_runs ∷ interval_ends ∷ interval_told ∷ loop_runs ∷ loop_runs ∷ []

-- An attempt that has won, in a state where the loop and the reader are done.
record Ready (i : ℕ) (a : Attempt) (s : State) : Type 0 where
  here : get_elem? s.all i ≡ some a
  wins : a.phase ≡ winning
  stopping : Stopping a
  loop_over : s.loop_done ≡ true
  read_over : s.read_done ≡ true

module _ (opts : ConnOptions) where
  loop_ends :
      (stream : List ℕ) (p : LoopPc) (t : Timer) (s : State)
      → s.pc ≡ p
      → s.timer ≡ t
      → s.loop_stop ≡ true
      → Inv opts stream s
      → let s' = run opts loop_events s in (s'.loop_done ≡ true) × (s'.all ≡ s.all)
  unfolding run step run_loop resume run_guard after_wait after_close break_loop stop_timer
      start_timer timer_over timer_fires timer_runs wg_add wg_done
  loop_ends stream guard off s e f stop inv = ground arith
  loop_ends stream guard ticking s e f stop inv = ground arith
  loop_ends stream guard fired s e f stop inv = ground arith
  loop_ends stream timer_wait off s e f stop inv = ground arith
  loop_ends stream timer_wait ticking s e f stop inv = ground arith
  loop_ends stream timer_wait fired s e f stop inv = ground arith
  loop_ends stream closing_wait off s e f stop inv = ground arith
  loop_ends stream closing_wait ticking s e f stop inv = ground arith
  loop_ends stream closing_wait fired s e f stop inv = ground arith
  loop_ends stream ended off s e f stop inv = ground arith
  loop_ends stream ended ticking s e f stop inv = ground arith
  loop_ends stream ended fired s e f stop inv = ground arith

  -- The reader's read fails, and the reader ends.
  reader_ends :
      (s : State)
      → let s' = step opts (reads 0 true) s in
        (s'.read_done ≡ true) × (s'.loop_done ≡ s.loop_done) × (s'.all ≡ s.all)
  unfolding step read_request stop_conn_loop
  reader_ends s = ground arith

  module _ (i : ℕ) where
    write_ends :
        (t : Sender) (a : Attempt) (s : State)
        → a.sender ≡ t
        → Ready i a s
        → (a' : Attempt) × Ready i a' (step opts (acts i (wrote 0 true)) s)
          × ((a'.sender ≡ waits) ⊎ (a'.sender ≡ send_done))
    unfolding step act write_returns
    write_ends unstarted a s e r = absurd (ground arith)
    write_ends waits a s e r = (a, rw r.here (ground arith), inl e)
    write_ends send_done a s e r = (a, rw r.here (ground arith), inr e)
    write_ends (writes bs) a s e r =
        let a' : Attempt = record a {
          wire = a.wire ++ take (min 0 (length bs)) bs;
          sent = a.sent + min 0 (length bs);
          sender = send_done;
        } in
        (a', rw r.here (ground (arith, get_elem?-set_there s.all i a a' r.here)), inr refl)

    sender_ends :
        (a : Attempt) (s : State)
        → Ready i a s
        → (a.sender ≡ waits) ⊎ (a.sender ≡ send_done)
        → (a' : Attempt) × Ready i a' (step opts (acts i sends) s) × (is_send_done a'.sender ≡ true)
    unfolding step act run_sender
    sender_ends a s r (inl e) =
        let a' : Attempt = record a { sender = send_done } in
        (a', rw r.here (ground (arith, get_elem?-set_there s.all i a a' r.here)), refl)
    sender_ends a s r (inr e) = (a, rw r.here (ground arith), ground arith)

    after_func_ends :
        (f : AfterFunc) (a : Attempt) (s : State)
        → a.after_func ≡ f
        → Ready i a s
        → is_send_done a.sender ≡ true
        → (a' : Attempt) × Ready i a' (step opts (acts i is_done) s)
          × (is_send_done a'.sender ≡ true)
          × (is_finished a'.after_func ≡ true)
    unfolding step act run_after_func wg_done
    after_func_ends unset a s e r d = absurd (ground arith)
    after_func_ends armed a s e r d = absurd (ground arith)
    after_func_ends started a s e r d =
        let a' : Attempt = record a { after_func = finished; read_expired = true } in
        (a', rw r.here (ground (arith, get_elem?-set_there s.all i a a' r.here)), d, refl)
    after_func_ends finished a s e r d = (a, rw r.here (ground arith), d, ground arith)

    relay_starts :
        (a : Attempt) (s : State)
        → Ready i a s
        → is_send_done a.sender ≡ true
        → is_finished a.after_func ≡ true
        → (a' : Attempt) × (get_elem? (step opts (acts i relays) s).all i ≡ some a')
          × (a'.phase ≡ relaying)
    unfolding step act start_relay
    relay_starts a s r d f =
        let a' : Attempt = record a {
          phase = relaying;
          read_expired = false;
          write_expired = false;
          prefix = drop a.sent s.request;
        } in
        (a', rw r.here (ground (arith, get_elem?-set_there s.all i a a' r.here)), refl)

-- What the winner at a place waits for, and then its relay.
abbrev pub to_relay : ℕ → List Event
to_relay i =
    loop_events
    ++ (reads 0 true ∷ acts i (wrote 0 true) ∷ acts i sends ∷ acts i is_done ∷ acts i relays ∷ [])

module _ (given stored : ConnOptions) (stream : List ℕ) (es : List Event) (i : ℕ) (a : Attempt)
    (here : get_elem? (reached given stored stream es).all i ≡ some a)
    (wins : a.phase ≡ winning) where
  winner_Ready :
      let opts = conn_options given stored in
      let s = reached given stored stream es in
      Ready i a (step opts (reads 0 true) (run opts loop_events s))
  winner_Ready =
      let opts = conn_options given stored in
      let s = reached given stored stream es in
      let inv = reached-Inv given stored stream es in
      let stage : Stage s.request (s.loop_done && s.read_done) a.phase a =
        (All-get_elem? (Sound s.request (s.loop_done && s.read_done)) s.all i a inv.sound here).1 in
      let won : s.loop_stop ≡ true = ground (
        arith,
        sum_by-ge (λ b. one_if b.is_winner) s.all i a here,
        inv.winner.winners,
        inv.winner.told,
      ) in
      let loop = loop_ends opts stream s.pc s.timer s refl refl won inv in
      let reader = reader_ends opts (run opts loop_events s) in
      record {
        here = rw (reader.2, loop.1) here;
        wins = wins;
        stopping = ground arith;
        loop_over = reader.1 ∙ loop.0;
        read_over = reader.0;
      }

  -- After any events from the start of a NewConn, if an attempt has won and waits, then once
  -- the loop and its timer run, the read of the request and a write under way fail, and the
  -- function for the context runs, that attempt relays: nothing it waits for waits for it.
  pub winner_relays :
      (a' : Attempt) × (get_elem?
          (run (conn_options given stored) (to_relay i) (reached given stored stream es)).all
          i
        ≡ some a')
      × (a'.phase ≡ relaying)
  unfolding run
  winner_relays =
      let opts = conn_options given stored in
      let s0 = step opts (reads 0 true) (run opts loop_events (reached given stored stream es)) in
      let (a1, r1, d1) = write_ends opts i a.sender a s0 refl winner_Ready in
      let s1 = step opts (acts i (wrote 0 true)) s0 in
      let (a2, r2, d2) = sender_ends opts i a1 s1 r1 d1 in
      let s2 = step opts (acts i sends) s1 in
      let (a3, r3, d3, f3) = after_func_ends opts i a2.after_func a2 s2 refl r2 d2 in
      relay_starts opts i a3 (step opts (acts i is_done) s2) r3 d3 f3
