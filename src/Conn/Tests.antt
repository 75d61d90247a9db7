-- ===== src/Conn/Tests.antt =====
-- Runs of a `NewConn` on concrete events, and the theorems at concrete inputs.
use chrome.Base.{
  ℕ, ◌+◌, ◌<◌, ◌≡◌, ◌≢◌, refl, true, false, List, [], ◌∷◌, ◌++◌, some, length, get_elem?, sum_by,
  arith,
}
use chrome.Base.Int.{pos, ◌+ℤ◌, ◌<ℤ◌, ◌≤ℤ◌}
use chrome.Conn.Options.{ConnOptions, conn_options}
use chrome.Conn.State.{
  Attempt, max_attempts, winning, relaying, over, unstarted, send_done, writes, unset, finished,
  init, new_attempt, wg_add, wg_done,
}
use chrome.Conn.Timer.{start_timer, timer_over, stop_timer, timer_fires, timer_runs}
use chrome.Conn.Request.{max_request_size, conn_buf_size, read_request, stop_conn_loop}
use chrome.Conn.Loop.{
  new_conn, after_wait, after_close, break_loop, start_attempt, run_guard, resume, run_loop,
}
use chrome.Conn.Acted.{live, owes, one_if}
use chrome.Conn.Invariant.{Told}
use chrome.Conn.Invariant.Runs.{conn_options_pos}
use chrome.Conn.Outgoing.{
  Call, conn_set, timeout_set, call, calls, to_deadline, set_outgoing_conn, set_outgoing_timeout,
  new_outgoing, last_calls, as_conn, at_first, calls-new_outgoing,
}
use chrome.Conn.Pace.{attempts_apart}
use chrome.Conn.Progress.{to_relay, winner_relays}
use chrome.Conn.Step.{
  Event, loop_runs, interval_ends, interval_told, reads, acts, dials, answers, relays, times_out,
  sends, wrote, act, step, run,
}
use chrome.Conn.Safety.{
  reached, within_limits, one_event, waits_counted, request_bounded, relay_gets_stream, over_closed,
}

abbrev two_at_once : ConnOptions
two_at_once = record { timeout = pos 0; interval = pos 0; parallel = pos 2; max_attempts = pos 0 }

abbrev unset_options : ConnOptions
unset_options = record { timeout = pos 0; interval = pos 0; parallel = pos 0; max_attempts = pos 0 }

abbrev hello : List ℕ
hello = 1 ∷ 2 ∷ 3 ∷ 4 ∷ []

-- The first of two attempts gets an answer, and relays.
abbrev first_wins : List Event
first_wins =
    loop_runs
    ∷ interval_ends
    ∷ interval_told
    ∷ loop_runs
    ∷ reads 2 false
    ∷ acts 0 (dials true false)
    ∷ acts 0 sends
    ∷ acts 0 (wrote 1 false)
    ∷ acts 0 (answers false)
    ∷ loop_runs
    ∷ interval_ends
    ∷ interval_told
    ∷ loop_runs
    ∷ reads 1 true
    ∷ acts 0 sends
    ∷ acts 0 relays
    ∷ []

-- The first attempt then.
abbrev winner_now : Attempt
winner_now = record {
  phase = relaying;
  timer_live = false;
  canceled = false;
  is_winner = true;
  connected = true;
  closed = false;
  sent = 1;
  wire = 1 ∷ [];
  sender = send_done;
  send_stop = true;
  after_func = finished;
  read_expired = false;
  write_expired = false;
  prefix = 2 ∷ 3 ∷ [];
}

winner_there :
    get_elem? (reached two_at_once unset_options hello first_wins).all 0 ≡ some winner_now
unfolding run step run_loop resume run_guard after_wait after_close break_loop start_attempt
    new_conn new_attempt stop_timer start_timer timer_over timer_fires timer_runs wg_add wg_done
    read_request stop_conn_loop act init conn_options
winner_there = refl

-- The second attempt is still dialing, and reports `CloseConn`: the relay of the first one then has
-- an expired deadline on its side of the pipe.
late_close :
    let s =
      reached two_at_once unset_options hello (first_wins ++ (acts 1 (dials false true) ∷ [])) in
    (s.pipe_expired ≡ true) × (get_elem? s.all 0 ≡ some winner_now)
unfolding run step run_loop resume run_guard after_wait after_close break_loop start_attempt
    new_conn new_attempt stop_timer start_timer timer_over timer_fires timer_runs wg_add wg_done
    read_request stop_conn_loop act init conn_options
late_close = (refl, refl)

-- With one attempt allowed, which fails.
abbrev single : ConnOptions
single = record { timeout = pos 0; interval = pos 5; parallel = pos 0; max_attempts = pos 1 }

abbrev all_fail : List Event
all_fail = loop_runs ∷ acts 0 (dials false false) ∷ interval_ends ∷ interval_told ∷ loop_runs ∷ []

fails_told :
    let s = reached single unset_options hello all_fail in
    (s.events ≡ max_attempts ∷ []) × (s.loop_done ≡ true) × (s.pending ≡ 0)
unfolding run step run_loop resume run_guard after_wait after_close break_loop start_attempt
    new_conn new_attempt stop_timer start_timer timer_over timer_fires timer_runs wg_add wg_done
    read_request stop_conn_loop act init conn_options
fails_told = (refl, refl, refl)

within_limits_example :
    let s = reached two_at_once unset_options hello first_wins in
    let opts = conn_options two_at_once unset_options in
    (pos s.connections ≤ℤ opts.parallel)
    × (pos s.attempts ≤ℤ opts.max_attempts)
    × (s.connections ≡ sum_by (λ a. live a.phase) s.all)
    × (s.attempts ≡ length s.all)
within_limits_example = within_limits two_at_once unset_options hello first_wins

one_event_example :
    let s = reached two_at_once unset_options hello first_wins in
    Told s × (sum_by (λ a. one_if a.is_winner) s.all ≡ one_if s.has_winner)
one_event_example = one_event two_at_once unset_options hello first_wins

waits_counted_example :
    let s = reached two_at_once unset_options hello first_wins in
    (s.panicked ≡ false)
    × (s.pending ≡ one_if s.timer_running + sum_by (λ a. owes a.after_func) s.all)
waits_counted_example = waits_counted two_at_once unset_options hello first_wins

request_bounded_example :
    let s = reached two_at_once unset_options hello first_wins in
    (s.request ++ s.input ≡ hello) × (length s.request < max_request_size + conn_buf_size)
request_bounded_example = request_bounded two_at_once unset_options hello first_wins

relay_gets_stream_example :
    let s = reached two_at_once unset_options hello first_wins in
    (winner_now.wire ++ (winner_now.prefix ++ s.input) ≡ hello)
    × (s.loop_done ≡ true)
    × (s.read_done ≡ true)
    × (winner_now.is_winner ≡ true)
    × (winner_now.read_expired ≡ false)
    × (winner_now.write_expired ≡ false)
relay_gets_stream_example =
    relay_gets_stream two_at_once unset_options hello first_wins 0 winner_now winner_there refl

-- An attempt whose dial failed.
abbrev failed_one : Attempt
failed_one = record {
  phase = over;
  timer_live = false;
  canceled = true;
  is_winner = false;
  connected = false;
  closed = false;
  sent = 0;
  wire = [];
  sender = unstarted;
  send_stop = false;
  after_func = unset;
  read_expired = false;
  write_expired = false;
  prefix = [];
}

failed_there : get_elem? (reached single unset_options hello all_fail).all 0 ≡ some failed_one
unfolding run step run_loop resume run_guard after_wait after_close break_loop start_attempt
    new_conn new_attempt stop_timer start_timer timer_over timer_fires timer_runs wg_add wg_done
    read_request stop_conn_loop act init conn_options
failed_there = refl

over_closed_example :
    (failed_one.closed ≡ failed_one.connected)
    × (failed_one.timer_live ≡ false)
    × (owes failed_one.after_func ≡ 0)
over_closed_example = over_closed single unset_options hello all_fail 0 failed_one failed_there refl

-- The attempt that won, before it is let to relay.
abbrev winning_now : Attempt
winning_now = record winner_now {
  phase = winning;
  sent = 0;
  wire = [];
  sender = writes (1 ∷ 2 ∷ []);
  write_expired = true;
  prefix = [];
}

abbrev just_won : List Event
just_won =
    loop_runs
    ∷ reads 2 false
    ∷ acts 0 (dials true false)
    ∷ acts 0 sends
    ∷ acts 0 (answers false)
    ∷ []

winning_there :
    get_elem? (reached two_at_once unset_options hello just_won).all 0 ≡ some winning_now
unfolding run step run_loop resume run_guard after_wait after_close break_loop start_attempt
    new_conn new_attempt stop_timer start_timer timer_over timer_fires timer_runs wg_add wg_done
    read_request stop_conn_loop act init conn_options
winning_there = refl

winner_relays_example :
    (a : Attempt) × (get_elem?
        (run
          (conn_options two_at_once unset_options)
          (to_relay 0)
          (reached two_at_once unset_options hello just_won)).all
        0
      ≡ some a)
    × (a.phase ≡ relaying)
winner_relays_example =
    winner_relays two_at_once unset_options hello just_won 0 winning_now winning_there refl

starts_first :
    let opts = conn_options single unset_options in
    let s = reached single unset_options hello [] in (step opts loop_runs s).attempts ≢ s.attempts
unfolding run step run_loop resume run_guard after_wait after_close break_loop start_attempt
    new_conn new_attempt stop_timer start_timer timer_over timer_fires timer_runs wg_add wg_done
    read_request stop_conn_loop act init conn_options
starts_first = λ e. omega (arith, e)

attempts_apart_example :
    let opts = conn_options single unset_options in
    let s = reached single unset_options hello [] in
    (run opts (loop_runs ∷ acts 0 times_out ∷ []) (step opts loop_runs s)).attempts
    ≡ (step opts loop_runs s).attempts
attempts_apart_example =
    attempts_apart single unset_options hello [] loop_runs (loop_runs ∷ acts 0 times_out ∷ [])
      starts_first (refl, (refl, tt))

conn_options_pos_example :
    let o = conn_options single unset_options in
    (pos 0 <ℤ o.timeout) × (pos 0 <ℤ o.interval) × (pos 0 <ℤ o.parallel) × (pos 0 <ℤ o.max_attempts)
conn_options_pos_example = conn_options_pos single unset_options

abbrev some_calls : List Call
some_calls =
    timeout_set (pos 5) (pos 10) (pos 0)
    ∷ conn_set (pos 7) (some 1)
    ∷ timeout_set (pos 9) (pos 3) (pos 4)
    ∷ []

some_calls_run :
    (calls some_calls new_outgoing).oc
    ≡ some (record { id = 1; read = some (pos 12); write = some (pos 13) })
unfolding calls call set_outgoing_conn set_outgoing_timeout to_deadline new_outgoing ◌+ℤ◌
some_calls_run = refl

calls-new_outgoing_example :
    calls some_calls new_outgoing ≡ as_conn (last_calls some_calls (at_first (pos 0)))
calls-new_outgoing_example = calls-new_outgoing (pos 0) some_calls
