-- ===== src/Conn/Invariant/Loop.antt =====
-- The loop and its timer keep the invariant.
use chrome.Base.{
  ℕ, ◌≡◌, refl, true, false, not, ◌&&◌, inl, inr, List, [], ◌∷◌, ◌++◌, length-append, All-append,
  sum_by, sum_by-append, arith, Bool-cases, if_intro, ◌==◌,
}
use chrome.Base.Int.{pos, leb_ℤ}
use chrome.Conn.Options.{ConnOptions}
use chrome.Conn.State.{
  State, Timer, off, ticking, fired, LoopPc, guard, timer_wait, closing_wait, ended, new_attempt,
  max_attempts, wg_add, wg_done,
}
use chrome.Conn.Timer.{start_timer, timer_over, stop_timer, timer_fires, timer_runs}
use chrome.Conn.Loop.{
  new_conn, after_wait, after_close, break_loop, start_attempt, run_guard, resume,
}
use chrome.Conn.Invariant.Ready.{AllSound-ready}
use chrome.Conn.Acted.{live, owes, one_if}
use chrome.Conn.Invariant.{Counts, is_leaving, Waits, ToldAs, Reading, Sound, AllSound, Inv}

module _ (opts : ConnOptions) (stream : List ℕ) where
  pub stop_timer-Inv :
      (t : Timer) (s : State) → s.timer ≡ t → Inv opts stream s → Inv opts stream (stop_timer s)
  unfolding stop_timer timer_over wg_done
  stop_timer-Inv ticking s e inv = ground arith
  stop_timer-Inv t s e inv = ground arith

  pub timer_fires-Inv :
      (t : Timer) (s : State) → s.timer ≡ t → Inv opts stream s → Inv opts stream (timer_fires s)
  unfolding timer_fires
  timer_fires-Inv ticking s e inv = ground arith
  timer_fires-Inv t s e inv = ground arith

  pub timer_runs-Inv :
      (t : Timer) (s : State) → s.timer ≡ t → Inv opts stream s → Inv opts stream (timer_runs s)
  unfolding timer_runs timer_over wg_done
  timer_runs-Inv fired s e inv = ground arith
  timer_runs-Inv t s e inv = ground arith

  -- What holds when the loop is about to be left.
  record Leaves (s : State) : Type 0 where
    counts : Counts opts s
    waits : Waits s
    winners : sum_by (λ a. one_if a.is_winner) s.all ≡ one_if s.has_winner
    told : ToldAs true s
    reads : Reading stream s
    sound : AllSound s
    inside : s.loop_done ≡ false

  after_close-Inv : (s : State) → Leaves s → Inv opts stream (after_close s)
  unfolding after_close
  after_close-Inv s h = elim (Bool-cases s.timer_running) [
    | inl running ↦ rw running (record {
      counts = ground arith;
      waits = ground arith;
      winner = ground arith;
      reads = ground arith;
      sound = h.sound;
    })
    | inr stopped ↦ rw stopped (record {
      counts = ground arith;
      waits = ground arith;
      winner = ground arith;
      reads = ground arith;
      sound =
          AllSound-ready s.request (s.loop_done && s.read_done) s.read_done s.all
            (λ e. ground arith) h.sound;
    })
  ]

  stop_timer-Leaves : (t : Timer) (s : State) → s.timer ≡ t → Leaves s → Leaves (stop_timer s)
  unfolding stop_timer timer_over wg_done
  stop_timer-Leaves ticking s e h = ground arith
  stop_timer-Leaves t s e h = ground arith

  break_loop-Inv : (s : State) → Leaves s → Inv opts stream (break_loop s)
  unfolding break_loop
  break_loop-Inv s h = after_close-Inv (stop_timer s) (stop_timer-Leaves s.timer s refl h)

  -- A new attempt, at the head of the loop and within the limits.
  new_conn-Inv :
      (s : State)
      → s.pc ≡ guard
      → s.loop_stop ≡ false
      → leb_ℤ opts.parallel (pos s.connections) ≡ false
      → leb_ℤ opts.max_attempts (pos s.attempts) ≡ false
      → Inv opts stream s
      → Inv opts stream (new_conn s)
  unfolding new_conn new_attempt
  new_conn-Inv s h stop room limit inv = record {
    counts = ground (
      arith,
      sum_by-append (λ a. live a.phase) s.all (new_attempt ∷ []),
      length-append s.all (new_attempt ∷ []),
    );
    waits = ground (arith, sum_by-append (λ a. owes a.after_func) s.all (new_attempt ∷ []));
    winner = ground (arith, sum_by-append (λ a. one_if a.is_winner) s.all (new_attempt ∷ []));
    reads = ground arith;
    sound =
        All-append (Sound s.request (s.loop_done && s.read_done)) s.all _ inv.sound
          (((refl, (s.request, refl)), (refl, refl, refl, refl, refl)), tt);
  }

  after_wait-Inv :
      (s : State) → is_leaving s.pc ≡ false → Inv opts stream s → Inv opts stream (after_wait s)
  unfolding after_wait start_timer wg_add
  after_wait-Inv s h inv = elim (Bool-cases s.timer_running) [
    | inl running ↦ rw running (record {
      counts = ground arith;
      waits = ground arith;
      winner = ground arith;
      reads = ground arith;
      sound = inv.sound;
    })
    | inr stopped ↦ rw stopped (record {
      counts = ground arith;
      waits = ground arith;
      winner = ground arith;
      reads = ground arith;
      sound = inv.sound;
    })
  ]

  inside :
      (s : State) (t : Timer) → s.timer ≡ t → s.pc ≡ guard → is_leaving (stop_timer s).pc ≡ false
  unfolding stop_timer timer_over wg_done
  inside s off e h = ground arith
  inside s ticking e h = ground arith
  inside s fired e h = ground arith

  start_attempt-Inv :
      (s : State)
      → s.pc ≡ guard
      → s.loop_stop ≡ false
      → leb_ℤ opts.parallel (pos s.connections) ≡ false
      → leb_ℤ opts.max_attempts (pos s.attempts) ≡ false
      → Inv opts stream s
      → Inv opts stream (start_attempt s)
  unfolding start_attempt new_conn
  start_attempt-Inv s h stop room limit inv =
      let s' : State = stop_timer (new_conn s) in
      after_wait-Inv s' (inside (new_conn s) s.timer refl h)
        (stop_timer-Inv (new_conn s).timer (new_conn s) refl (new_conn-Inv s h stop room limit inv))

  run_guard-Inv :
      (s : State) → s.pc ≡ guard → Inv opts stream s → Inv opts stream (run_guard opts s)
  unfolding run_guard
  run_guard-Inv s h inv =
      if_intro Good s.loop_stop _ _ (λ stop. break_loop-Inv s (ground arith))
        λ going.
          if_intro Good (not s.newconn) _ _ (λ early. inv)
            λ due.
              if_intro Good (leb_ℤ opts.parallel (pos s.connections)) _ _ (λ full. inv)
                λ room.
                  if_intro Good (leb_ℤ opts.max_attempts (pos s.attempts)) _ _
                    (λ last.
                      if_intro Good (not (s.connections == 0)) _ _ (λ trying. inv)
                        λ none_left.
                          break_loop-Inv (record s { events = s.events ++ (max_attempts ∷ []) })
                            (ground arith))
                    (λ more. start_attempt-Inv s h going room more inv)
    where
      Good : State → Type 0
      Good = Inv opts stream

  pub resume-Inv :
      (p : LoopPc) (s : State) → s.pc ≡ p → Inv opts stream s → Inv opts stream (resume opts p s)
  unfolding resume
  resume-Inv guard s e inv = run_guard-Inv s e inv
  resume-Inv timer_wait s e inv = after_wait-Inv s (ground arith) inv
  resume-Inv closing_wait s e inv = after_close-Inv s (ground arith)
  resume-Inv ended s e inv = inv
