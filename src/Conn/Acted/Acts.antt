-- ===== src/Conn/Acted/Acts.antt =====
-- Each act of an attempt: its outcome.
use mathlib.Core.List.{append-nil, append_assoc}
use chrome.Base.{
  ℕ, ◌+◌, ◌≤◌, ◌≡◌, refl, Bool, true, false, not, ◌&&◌, ◌||◌, inl, inr, Bool-cases, List, [], ◌++◌,
  length, arith, if◌then◌else◌, drop, take, min, ◌==◌, ◌∙◌, sym, ap, drop-append, length-append,
  length-take, take-append-drop,
}
use chrome.Conn.State.{
  State, Attempt, Phase, dialing, trying, winning, relaying, closing, over, Sender, waits,
  send_done, writes, AfterFunc, started, finished,
}
use chrome.Conn.Attempt.{
  cancel, stop_sending, stop_after_func, close_attempt, end_attempt, start_trying, dial_returns,
  win, first_byte, start_relay, relay_returns, finish_attempt, time_out, cancel_loser,
  run_after_func, is_send_done, is_finished, run_sender, write_returns,
}
use chrome.Conn.Step.{
  Act, dials, answers, relays, hangs_up, finishes, times_out, loses, is_done, sends, wrote, act,
}
use chrome.Conn.Acted.{has_started, is_idle, Stage, Outcome, Due, owes, live, in_flight, Sent}

abbrev closed_one : Attempt → Attempt
closed_one a = stop_after_func (stop_sending (record a { phase = closing }))

close_attempt-Outcome :
    (i : ℕ) (a : Attempt) (s : State)
    → Due a s
    → live a.phase ≡ 1
    → a.connected ≡ true
    → a.closed ≡ false
    → Outcome i a s (close_attempt i a s)
unfolding close_attempt stop_after_func stop_sending
close_attempt-Outcome i a s d l c n = inr (closed_one a, ground arith, d.sent, ground arith)

abbrev ended_one : Attempt → Attempt
ended_one a = record (cancel a) { phase = over; closed = a.connected; timer_live = false }

end_attempt-Outcome :
    (i : ℕ) (a : Attempt) (s : State)
    → Due a s
    → live a.phase ≡ 1
    → owes a.after_func ≡ 0
    → is_idle a.sender ≡ true
    → Outcome i a s (end_attempt i a s)
unfolding end_attempt cancel
end_attempt-Outcome i a s d l o f = inr (ended_one a, ground arith, d.sent, ground arith)

dial_phase :
    (p : Phase) (i : ℕ) (got close_conn : Bool) (a : Attempt) (s : State)
    → a.phase ≡ p
    → Due a s
    → Outcome i a s (dial_returns i got close_conn a s)
unfolding dial_returns start_trying end_attempt cancel
dial_phase dialing i true close_conn a s e d =
    inr (start_trying a, ground arith, (d.sent.0, (d.sent.1.0, ground arith)), ground arith)
dial_phase dialing i false close_conn a s e d =
    inr (ended_one a, ground arith, d.sent, ground arith)
dial_phase p i got close_conn a s e d = inl (ground arith)

abbrev won_one : Attempt → Attempt
won_one a =
    stop_after_func
      (stop_sending (record a { phase = winning; is_winner = true; timer_live = false }))

answer_phase :
    (p : Phase) (i : ℕ) (err : Bool) (a : Attempt) (s : State)
    → a.phase ≡ p
    → Due a s
    → Outcome i a s (first_byte i err a s)
unfolding first_byte close_attempt win stop_after_func stop_sending
answer_phase trying i err a s e d = elim (Bool-cases (err || not a.timer_live)) [
  | inl late ↦ inr (closed_one a, ground arith, d.sent, ground arith)
  | inr timely ↦ elim (Bool-cases s.has_winner) [
    | inl second ↦
        inr (closed_one (record a { timer_live = false }), ground arith, d.sent, ground arith)
    | inr first ↦ inr (won_one a, ground arith, d.sent, ground arith)
  ]
]
answer_phase p i err a s e d = inl (ground arith)

-- What was sent and what is left are the request.
pub wire-append-drop :
    (request wire : List ℕ) (sent : ℕ) (s : Sender)
    → Sent request wire sent (in_flight s)
    → wire ++ drop sent request ≡ request
wire-append-drop request wire sent s (l, (rest, e)) =
    rw (← e) (rw (← l) (ap (λ zs. wire ++ zs) (drop-append wire (in_flight s ++ rest))))

abbrev relaying_one : Attempt → State → Attempt
relaying_one a s = record a {
  phase = relaying;
  read_expired = false;
  write_expired = false;
  prefix = drop a.sent s.request;
}

relay_phase :
    (p : Phase) (i : ℕ) (a : Attempt) (s : State)
    → a.phase ≡ p
    → Due a s
    → Outcome i a s (start_relay i a s)
unfolding start_relay
relay_phase winning i a s e d =
    elim (Bool-cases
      (s.loop_done && s.read_done && is_send_done a.sender && is_finished a.after_func)) [
        | inl ready ↦ inr (
          relaying_one a s,
          ground arith,
          d.sent,
          ground (arith, wire-append-drop s.request a.wire a.sent a.sender d.sent),
        )
        | inr early ↦ inl (ground arith)
      ]
relay_phase p i a s e d = inl (ground arith)

hang_up_phase :
    (p : Phase) (i : ℕ) (a : Attempt) (s : State)
    → a.phase ≡ p
    → Due a s
    → Outcome i a s (relay_returns i a s)
unfolding relay_returns close_attempt stop_after_func stop_sending
hang_up_phase relaying i a s e d = inr (closed_one a, ground arith, d.sent, ground arith)
hang_up_phase p i a s e d = inl (ground arith)

finish_phase :
    (p : Phase) (i : ℕ) (a : Attempt) (s : State)
    → a.phase ≡ p
    → Due a s
    → Outcome i a s (finish_attempt i a s)
unfolding finish_attempt end_attempt cancel
finish_phase closing i a s e d =
    elim (Bool-cases (is_send_done a.sender && is_finished a.after_func)) [
      | inl ready ↦ inr (ended_one a, ground arith, d.sent, ground arith)
      | inr early ↦ inl (ground arith)
    ]
finish_phase p i a s e d = inl (ground arith)

-- A cancellation by the timer, then, without it, the rest of the acts on the context.
module _ (request : List ℕ) (ready : Bool) (a : Attempt) where
  Stage-time_out :
      (p : Phase)
      → Stage request ready p a
      → Stage request ready p (cancel (record a { timer_live = false }))
  unfolding cancel
  Stage-time_out dialing h = ground arith
  Stage-time_out p h = ground arith

  Stage-cancel : (p : Phase) → Stage request ready p a → Stage request ready p (cancel a)
  unfolding cancel
  Stage-cancel dialing h = ground arith
  Stage-cancel p h = ground arith

  Stage-run_after_func :
      (p : Phase)
      → a.after_func ≡ started
      → Stage request ready p a
      → Stage request ready p (record a { after_func = finished; read_expired = true })
  Stage-run_after_func dialing e h = ground arith
  Stage-run_after_func p e h = ground arith

  Stage-sender :
      (p : Phase) (n : ℕ) (wire : List ℕ) (t u : Sender)
      → a.sender ≡ t
      → is_idle t ≡ false
      → has_started u ≡ true
      → Stage request ready p a
      → Stage request ready p (record a { sender = u; wire = wire; sent = n })
  Stage-sender dialing n wire t u e f g h = ground arith
  Stage-sender p n wire waits u e f g h = ground arith
  Stage-sender p n wire (writes bs) u e f g h = ground arith
  Stage-sender p n wire t u e f g h = ground arith

time_out-Outcome : (i : ℕ) (a : Attempt) (s : State) → Due a s → Outcome i a s (time_out i a s)
unfolding time_out cancel
time_out-Outcome i a s d = elim (Bool-cases a.timer_live) [
  | inl fires ↦ inr (
    cancel (record a { timer_live = false }),
    ground arith,
    d.sent,
    Stage-time_out s.request (s.loop_done && s.read_done) a a.phase d.stage,
  )
  | inr stopped ↦ inl (ground arith)
]

cancel_loser-Outcome :
    (i : ℕ) (a : Attempt) (s : State) → Due a s → Outcome i a s (cancel_loser i a s)
unfolding cancel_loser cancel
cancel_loser-Outcome i a s d = elim (Bool-cases (s.loop_done && not a.is_winner)) [
  | inl lost ↦ inr (
    cancel a,
    ground arith,
    d.sent,
    Stage-cancel s.request (s.loop_done && s.read_done) a a.phase d.stage,
  )
  | inr other ↦ inl (ground arith)
]

after_func_state :
    (f : AfterFunc) (i : ℕ) (a : Attempt) (s : State)
    → a.after_func ≡ f
    → Due a s
    → Outcome i a s (run_after_func i a s)
unfolding run_after_func
after_func_state started i a s e d = inr (
  record a { after_func = finished; read_expired = true },
  ground arith,
  d.sent,
  Stage-run_after_func s.request (s.loop_done && s.read_done) a a.phase e d.stage,
)
after_func_state f i a s e d = inl (ground arith)

sender_state :
    (t : Sender) (i : ℕ) (a : Attempt) (s : State)
    → a.sender ≡ t
    → Due a s
    → Outcome i a s (run_sender i a s)
unfolding run_sender
sender_state waits i a s e d =
    let stage = λ (u : Sender) (g : has_started u ≡ true).
      Stage-sender s.request (s.loop_done && s.read_done) a a.phase a.sent a.wire waits u e refl g
        d.stage in
    elim (Bool-cases a.send_stop) [
      | inl stops ↦ inr (
        record a { sender = send_done },
        ground arith,
        (d.sent.0, (d.sent.1.0, ground arith)),
        stage send_done refl,
      )
      | inr goes_on ↦ elim (Bool-cases (a.sent == length s.request)) [
        | inl all_sent ↦ inl (ground arith)
        | inr more ↦ inr (
          record a { sender = writes (drop a.sent s.request) },
          ground arith,
          (
            d.sent.0,
            (
              [],
              ap (λ zs. a.wire ++ zs) (append-nil (drop a.sent s.request))
                  ∙ wire-append-drop s.request a.wire a.sent a.sender d.sent,
            ),
          ),
          stage (writes (drop a.sent s.request)) refl,
        )
      ]
    ]
sender_state t i a s e d = inl (ground arith)

-- A write of a part of what was under way.
Sent-wrote :
    (request wire bs : List ℕ) (sent m : ℕ)
    → m ≤ length bs
    → Sent request wire sent bs
    → Sent request (wire ++ take m bs) (sent + m) []
Sent-wrote request wire bs sent m h (l, (rest, e)) = (
  omega (arith, length-append wire (take m bs), length-take m bs),
  (
    drop m bs ++ rest,
    append_assoc wire (take m bs) (drop m bs ++ rest)
        ∙ ap (λ zs. wire ++ zs)
            (sym (append_assoc (take m bs) (drop m bs) rest)
              ∙ ap (λ zs. zs ++ rest) (take-append-drop m bs))
        ∙ e,
  ),
)

write_state :
    (t : Sender) (i n : ℕ) (err : Bool) (a : Attempt) (s : State)
    → a.sender ≡ t
    → Due a s
    → Outcome i a s (write_returns i n err a s)
unfolding write_returns
write_state (writes bs) i n err a s e d =
    let m = min n (length bs) in
    let u : Sender = if err then send_done else waits in
    let none_left : in_flight u ≡ [] = ground arith in
    inr (
      record a { wire = a.wire ++ take m bs; sent = a.sent + m; sender = u },
      ground arith,
      rw none_left (Sent-wrote s.request a.wire bs a.sent m (omega arith) (rw e at (d.sent))),
      Stage-sender s.request (s.loop_done && s.read_done) a a.phase (a.sent + m)
          (a.wire ++ take m bs) (writes bs) u e refl (ground arith) d.stage,
    )
write_state t i n err a s e d = inl (ground arith)

-- Every act does nothing, or leaves an attempt that is sound, with the counters as they are to be.
pub act-Outcome :
    (i : ℕ) (x : Act) (a : Attempt) (s : State) → Due a s → Outcome i a s (act i x a s)
unfolding act
act-Outcome i (dials got close_conn) a s d = dial_phase a.phase i got close_conn a s refl d
act-Outcome i (answers err) a s d = answer_phase a.phase i err a s refl d
act-Outcome i relays a s d = relay_phase a.phase i a s refl d
act-Outcome i hangs_up a s d = hang_up_phase a.phase i a s refl d
act-Outcome i finishes a s d = finish_phase a.phase i a s refl d
act-Outcome i times_out a s d = time_out-Outcome i a s d
act-Outcome i loses a s d = cancel_loser-Outcome i a s d
act-Outcome i is_done a s d = after_func_state a.after_func i a s refl d
act-Outcome i sends a s d = sender_state a.sender i a s refl d
act-Outcome i (wrote n err) a s d = write_state a.sender i n err a s refl d
