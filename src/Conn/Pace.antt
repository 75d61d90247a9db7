-- ===== src/Conn/Pace.antt =====
-- Two attempts are an interval apart: while the timer runs, no attempt starts.
use chrome.Base.Int.{leb_ℤ, pos}
use chrome.Base.{
  if_intro, not, ◌≢◌, ◌++◌, ◌==◌, ℕ, ◌≡◌, refl, Bool, true, false, ◌⊎◌, inl, inr, List, [], ◌∷◌,
  All, get_elem?, arith, Option-cases,
}
use chrome.Conn.Options.{ConnOptions, conn_options}
use chrome.Conn.State.{
  State, Timer, off, ticking, fired, LoopPc, guard, timer_wait, closing_wait, ended, wg_add,
  wg_done, max_attempts,
}
use chrome.Conn.Timer.{start_timer, timer_over, stop_timer, timer_fires, timer_runs}
use chrome.Conn.Request.{read_request, stop_conn_loop}
use chrome.Conn.Loop.{
  new_conn, after_wait, after_close, break_loop, run_guard, resume, run_loop, start_attempt,
}
use chrome.Conn.Step.{Event, loop_runs, interval_ends, interval_told, reads, acts, step, run}
use chrome.Conn.Acted.Acts.{act-Outcome}
use chrome.Conn.Invariant.{is_leaving, Inv}
use chrome.Conn.Invariant.Acts.{Due-Inv}
use chrome.Conn.Invariant.Runs.{step-Inv, reached-Inv}
use chrome.Conn.Safety.{reached}

abbrev pub ends_interval : Event → Bool
ends_interval loop_runs = false
ends_interval interval_ends = true
ends_interval interval_told = false
ends_interval (reads n err) = false
ends_interval (acts i x) = false

-- The timer runs, or the loop is on its way out.
abbrev Held : ℕ → State → Type 0
Held k s = (s.attempts ≡ k) × ((s.timer ≡ ticking) ⊎ (is_leaving s.pc ≡ true))

module _ (opts : ConnOptions) (stream : List ℕ) (k : ℕ) where
  break_loop-Held : (t : Timer) (s : State) → s.timer ≡ t → s.attempts ≡ k → Held k (break_loop s)
  unfolding break_loop stop_timer timer_over wg_done after_close
  break_loop-Held ticking s e h = ground arith
  break_loop-Held t s e h = ground arith

  resume-Held :
      (p : LoopPc) (s : State) → s.pc ≡ p → Inv opts stream s → Held k s → Held k (resume opts p s)
  unfolding resume run_guard after_wait after_close
  resume-Held guard s e inv h = ground (arith, break_loop-Held s.timer s refl h.0)
  resume-Held timer_wait s e inv h = ground arith
  resume-Held closing_wait s e inv h = ground arith
  resume-Held ended s e inv h = h

  step-Held :
      (e : Event) (s : State)
      → ends_interval e ≡ false
      → Inv opts stream s
      → Held k s
      → Held k (step opts e s)
  unfolding step run_loop timer_runs timer_over wg_done read_request stop_conn_loop
  step-Held loop_runs s e inv h = resume-Held s.pc s refl inv h
  step-Held interval_ends s e inv h = absurd (cc e)
  step-Held interval_told s e inv h = told s.timer refl
    where
      told : (t : Timer) → s.timer ≡ t → Held k (timer_runs s)
      told fired f = ground arith
      told t f = ground arith
  step-Held (reads n err) s e inv h = ground arith
  step-Held (acts i x) s e inv h = elim (Option-cases (get_elem? s.all i)) [
    | inl missing ↦ rw missing h
    | inr (a, here) ↦ elim (act-Outcome i x a s (Due-Inv opts stream i a s here inv)) [
      | inl same ↦ rw here (rw same h)
      | inr (a', acted, sent, stage) ↦ rw here (ground (arith, acted.kept))
    ]
  ]

  -- Without the end of the interval among the events, no attempt is added.
  run-Held :
      (es : List Event) (s : State)
      → All (λ e. ends_interval e ≡ false) es
      → Inv opts stream s
      → Held k s
      → Held k (run opts es s)
  unfolding run
  run-Held [] s none inv h = h
  run-Held (e ∷ es) s none inv h =
      run-Held es (step opts e s) none.1 (step-Inv opts stream e s inv) (step-Held e s none.0 inv h)

break_loop-attempts : (t : Timer) (s : State) → s.timer ≡ t → (break_loop s).attempts ≡ s.attempts
unfolding break_loop stop_timer timer_over wg_done after_close
break_loop-attempts ticking s e = ground arith
break_loop-attempts t s e = ground arith

start_attempt-timer :
    (s : State) → s.timer ≡ off → s.timer_running ≡ false → (start_attempt s).timer ≡ ticking
unfolding start_attempt new_conn stop_timer after_wait start_timer wg_add
start_attempt-timer s e r = ground arith

module _ (opts : ConnOptions) (stream : List ℕ) where
  -- A run of the loop from its head leaves the number of attempts, or the timer runs.
  resume-starts :
      (p : LoopPc) (s : State)
      → s.pc ≡ p
      → Inv opts stream s
      → ((resume opts p s).attempts ≡ s.attempts) ⊎ ((resume opts p s).timer ≡ ticking)
  unfolding resume run_guard after_wait after_close start_timer wg_add
  resume-starts guard s e inv =
      if_intro Good s.loop_stop _ _ (λ stop. inl (break_loop-attempts s.timer s refl))
        λ going.
          if_intro Good (not s.newconn) _ _ (λ early. inl refl)
            λ due.
              if_intro Good (leb_ℤ opts.parallel (pos s.connections)) _ _ (λ full. inl refl)
                λ room.
                  if_intro Good (leb_ℤ opts.max_attempts (pos s.attempts)) _ _
                    (λ last.
                      if_intro Good (not (s.connections == 0)) _ _ (λ trying. inl refl)
                        (λ none_left. inl (
                          break_loop-attempts s.timer
                            (record s { events = s.events ++ (max_attempts ∷ []) }) refl)))
                    (λ more. inr (start_attempt-timer s (is_off s.timer refl due) (ground arith)))
    where
      Good : State → Type 0
      Good s' = (s'.attempts ≡ s.attempts) ⊎ (s'.timer ≡ ticking)

      is_off : (t : Timer) → s.timer ≡ t → not s.newconn ≡ false → s.timer ≡ off
      is_off off e due = e
      is_off t e due = ground arith
  resume-starts timer_wait s e inv = ground arith
  resume-starts closing_wait s e inv = ground arith
  resume-starts ended s e inv = inl refl

  step-starts :
      (e : Event) (s : State)
      → Inv opts stream s
      → ((step opts e s).attempts ≡ s.attempts) ⊎ ((step opts e s).timer ≡ ticking)
  unfolding step run_loop timer_fires timer_runs timer_over wg_done read_request stop_conn_loop
  step-starts loop_runs s inv = resume-starts s.pc s refl inv
  step-starts interval_ends s inv = inl (fires s.timer refl)
    where
      fires : (t : Timer) → s.timer ≡ t → (timer_fires s).attempts ≡ s.attempts
      fires ticking f = ground arith
      fires t f = ground arith
  step-starts interval_told s inv = inl (told s.timer refl)
    where
      told : (t : Timer) → s.timer ≡ t → (timer_runs s).attempts ≡ s.attempts
      told fired f = ground arith
      told t f = ground arith
  step-starts (reads n err) s inv = ground arith
  step-starts (acts i x) s inv = inl (elim (Option-cases (get_elem? s.all i)) [
    | inl missing ↦ rw missing refl
    | inr (a, here) ↦ elim (act-Outcome i x a s (Due-Inv opts stream i a s here inv)) [
      | inl same ↦ rw here (rw same refl)
      | inr (a', acted, sent, stage) ↦ rw here acted.kept.attempts
    ]
  ])

module _ (given stored : ConnOptions) (stream : List ℕ) (before : List Event) (e : Event)
    (after : List Event) where
  -- After any events from the start of a NewConn, if an event makes another attempt, then no
  -- further attempt is made as long as the interval does not end, whatever else happens.
  pub attempts_apart :
      let opts = conn_options given stored in
      let s = reached given stored stream before in
      (step opts e s).attempts ≢ s.attempts
      → All (λ e. ends_interval e ≡ false) after
      → (run opts after (step opts e s)).attempts ≡ (step opts e s).attempts
  attempts_apart starts none =
      let opts = conn_options given stored in
      let s = reached given stored stream before in
      let inv = reached-Inv given stored stream before in
      let s' = step opts e s in
      (run-Held opts stream s'.attempts after s' none (step-Inv opts stream e s inv)
        (refl, ground (arith, step-starts opts stream e s inv))).0
