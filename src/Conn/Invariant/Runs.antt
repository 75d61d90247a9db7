-- ===== src/Conn/Invariant/Runs.antt =====
-- Every event keeps the invariant, and so it holds after any events.
use chrome.Base.{
  ℕ, ◌<◌, refl, inl, inr, List, [], ◌∷◌, arith, Option-cases, get_elem?, if_intro, if◌then◌else◌,
}
use chrome.Base.Int.{ℤ, pos, ◌≤ℤ◌, ◌<ℤ◌, ltb_ℤ}
use chrome.Conn.Options.{ConnOptions, or_default, conn_options}
use chrome.Conn.State.{State, init}
use chrome.Conn.Loop.{run_loop}
use chrome.Conn.Step.{Event, loop_runs, interval_ends, interval_told, reads, acts, step, run}
use chrome.Conn.Invariant.{Inv}
use chrome.Conn.Invariant.Acts.{act-Inv}
use chrome.Conn.Invariant.Loop.{timer_fires-Inv, timer_runs-Inv, resume-Inv}
use chrome.Conn.Invariant.Reader.{read_request-Inv}

module _ (opts : ConnOptions) (stream : List ℕ) where
  -- Every event keeps the invariant.
  pub step-Inv : (e : Event) (s : State) → Inv opts stream s → Inv opts stream (step opts e s)
  unfolding step run_loop
  step-Inv loop_runs s inv = resume-Inv opts stream s.pc s refl inv
  step-Inv interval_ends s inv = timer_fires-Inv opts stream s.timer s refl inv
  step-Inv interval_told s inv = timer_runs-Inv opts stream s.timer s refl inv
  step-Inv (reads n err) s inv = read_request-Inv opts stream n err s inv
  step-Inv (acts i x) s inv = elim (Option-cases (get_elem? s.all i)) [
    | inl missing ↦ rw missing inv
    | inr (a, here) ↦ rw here (act-Inv opts stream i a s here inv x)
  ]

  pub run-Inv : (es : List Event) (s : State) → Inv opts stream s → Inv opts stream (run opts es s)
  unfolding run
  run-Inv [] s inv = inv
  run-Inv (e ∷ es) s inv = run-Inv es (step opts e s) (step-Inv e s inv)

  pub init-Inv : pos 0 ≤ℤ opts.parallel → pos 0 ≤ℤ opts.max_attempts → Inv opts stream (init stream)
  unfolding init
  init-Inv p m = ground arith

or_default_pos : (v stored : ℤ) (n : ℕ) → 0 < n → pos 0 <ℤ or_default v stored (pos n)
unfolding or_default
or_default_pos v stored n h =
    if_intro Good (ltb_ℤ (pos 0) v) v (if ltb_ℤ (pos 0) stored then stored else pos n)
      (λ e. ground arith)
      λ e. if_intro Good (ltb_ℤ (pos 0) stored) _ _ (λ f. ground arith) (λ f. omega arith)
  where
    Good : ℤ → Type 0
    Good z = pos 0 <ℤ z

-- The options that a call uses, whatever it was given and whatever was stored.
module _ (given stored : ConnOptions) where
  pub conn_options_pos :
      let o = conn_options given stored in
      (pos 0 <ℤ o.timeout)
      × (pos 0 <ℤ o.interval)
      × (pos 0 <ℤ o.parallel)
      × (pos 0 <ℤ o.max_attempts)
  unfolding conn_options
  conn_options_pos = (
    or_default_pos given.timeout stored.timeout _ (omega arith),
    or_default_pos given.interval stored.interval _ (omega arith),
    or_default_pos given.parallel stored.parallel _ (omega arith),
    or_default_pos given.max_attempts stored.max_attempts _ (omega arith),
  )

  -- After any events from the start.
  pub reached-Inv :
      (stream : List ℕ) (es : List Event)
      → Inv (conn_options given stored) stream (run (conn_options given stored) es (init stream))
  reached-Inv stream es =
      let o = conn_options given stored in
      run-Inv o stream es (init stream)
        (init-Inv o stream (omega (arith, conn_options_pos)) (omega (arith, conn_options_pos)))
