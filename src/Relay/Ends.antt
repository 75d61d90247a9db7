-- ===== src/Relay/Ends.antt =====
-- An idle relay ends: what holds after any events, and how the relay returns.
use chrome.Base.{
  ℕ, ◌+◌, ◌≡◌, refl, Bool, true, false, ◌==◌, List, [], ◌∷◌, none, arith, ap, ◌∙◌, ◌≤◌,
}
use chrome.Relay.Options.{RelayOptions}
use chrome.Relay.Loop.{
  Side, down, up, Copy, copying, sending, done, Relay, start, copy_done, set_copy, copy_of,
  expire_dst, offer, read_some, end_copy, send_idle, timer_case, take_time, reset_case, Event,
  reads, ends, sends, times_out, receives, step, run,
}

abbrev pub one_if_done : Copy → ℕ
one_if_done copying = 0
one_if_done sending = 0
one_if_done done = 1

-- The channel is closed when both copies are done, nothing was sent on it then, and while the relay
-- has not returned, its timer runs or both connections have a deadline in the past.
pub record Inv (s : Relay) : Type 0 where
  pub counted : s.n ≡ one_if_done s.down_copy + one_if_done s.up_copy
  pub closing : s.closed ≡ (s.n == 2)
  pub calm : s.panicked ≡ false
  pub ticks : s.returned ≡ false → s.expired ≡ false → s.ticking ≡ true
  pub over : s.returned ≡ false → s.expired ≡ true → (s.l_expired ≡ true) × (s.r_expired ≡ true)
  pub returns : s.returned ≡ true → (s.n ≡ 2) × (s.slot ≡ none)

-- A copy that goes on: the channel is open.
open_while :
    (side : Side) (s : Relay)
    → one_if_done (copy_of side s) ≡ 0
    → Inv s
    → (s.closed ≡ false) × (s.returned ≡ false)
open_while down s e inv = (ground (arith, small s.up_copy), ground (arith, small s.up_copy))
  where
    small : (c : Copy) → one_if_done c ≤ 1
    small copying = omega arith
    small sending = omega arith
    small done = omega arith
open_while up s e inv = (ground (arith, small s.down_copy), ground (arith, small s.down_copy))
  where
    small : (c : Copy) → one_if_done c ≤ 1
    small copying = omega arith
    small sending = omega arith
    small done = omega arith

read_some-Inv :
    (side : Side) (c : Copy) (s : Relay) → copy_of side s ≡ c → Inv s → Inv (read_some c s)
unfolding read_some offer
read_some-Inv side copying s e inv =
    let free = open_while side s (ap one_if_done e) inv in ground arith
read_some-Inv side sending s e inv = inv
read_some-Inv side done s e inv = inv

end_copy-Inv :
    (side : Side) (err : Bool) (c : Copy) (s : Relay)
    → copy_of side s ≡ c
    → Inv s
    → Inv (end_copy side err c s)
unfolding end_copy set_copy expire_dst copy_done
end_copy-Inv down err copying s e inv =
    let free = open_while down s (ap one_if_done e) inv in ground arith
end_copy-Inv up err copying s e inv =
    let free = open_while up s (ap one_if_done e) inv in ground arith
end_copy-Inv side err sending s e inv = inv
end_copy-Inv side err done s e inv = inv

send_idle-Inv :
    (opts : RelayOptions) (side : Side) (c : Copy) (s : Relay)
    → copy_of side s ≡ c
    → Inv s
    → Inv (send_idle opts side c s)
unfolding send_idle set_copy copy_done
send_idle-Inv opts down sending s e inv =
    let free = open_while down s (ap one_if_done e) inv in ground arith
send_idle-Inv opts up sending s e inv =
    let free = open_while up s (ap one_if_done e) inv in ground arith
send_idle-Inv opts side copying s e inv = inv
send_idle-Inv opts side done s e inv = inv

timer_case-Inv : (s : Relay) → Inv s → Inv (timer_case s)
unfolding timer_case
timer_case-Inv s inv = ground arith

reset_case-Inv : (s : Relay) → Inv s → Inv (reset_case s)
unfolding reset_case take_time
reset_case-Inv s inv = ground arith

step-Inv : (opts : RelayOptions) (e : Event) (s : Relay) → Inv s → Inv (step opts e s)
unfolding step
step-Inv opts (reads side) s inv = read_some-Inv side (copy_of side s) s refl inv
step-Inv opts (ends side err) s inv = end_copy-Inv side err (copy_of side s) s refl inv
step-Inv opts (sends side) s inv = send_idle-Inv opts side (copy_of side s) s refl inv
step-Inv opts times_out s inv = timer_case-Inv s inv
step-Inv opts receives s inv = reset_case-Inv s inv

run-Inv : (opts : RelayOptions) (es : List Event) (s : Relay) → Inv s → Inv (run opts es s)
unfolding run
run-Inv opts [] s inv = inv
run-Inv opts (e ∷ es) s inv = run-Inv opts es (step opts e s) (step-Inv opts e s inv)

-- After any events of a relay: the number of calls of done is the number of copies that are
-- done, the channel is closed exactly when there are two, nothing was sent on the closed
-- channel, while the relay has not returned its timer runs or, once it has expired, both
-- connections have a read deadline in the past, and the relay has returned only with both
-- copies done and the channel empty.
pub relay_reached-Inv : (opts : RelayOptions) (es : List Event) → Inv (run opts es (start opts))
unfolding start
relay_reached-Inv opts es = run-Inv opts es (start opts) (ground arith)

-- A receive empties the channel.
receive_empties : (s : Relay) → Inv s → (reset_case s).slot ≡ none
unfolding reset_case take_time
receive_empties s inv = ground arith

receive_keeps :
    (s : Relay) → ((reset_case s).down_copy ≡ s.down_copy) × ((reset_case s).up_copy ≡ s.up_copy)
unfolding reset_case take_time
receive_keeps s = ground arith

module _ (opts : RelayOptions) where
  -- A copy whose reads fail, or that has room to send, is done then.
  down_ends :
      (c : Copy) (s : Relay)
      → s.down_copy ≡ c
      → Inv s
      → s.slot ≡ none
      → (step opts (sends down) (step opts (ends down true) s)).down_copy ≡ done
  unfolding step end_copy send_idle set_copy expire_dst copy_done
  down_ends copying s e inv h = ground arith
  down_ends sending s e inv h = let free = open_while down s (ap one_if_done e) inv in ground arith
  down_ends done s e inv h = ground arith

  up_ends :
      (c d : Copy) (s : Relay)
      → s.up_copy ≡ c
      → s.down_copy ≡ d
      → Inv s
      → s.slot ≡ none
      → let s' = step opts (sends up) (step opts (ends up true) s) in
        (s'.up_copy ≡ done) × (s'.down_copy ≡ d)
  unfolding step end_copy send_idle set_copy expire_dst copy_done
  up_ends copying d s e f inv h = ground arith
  up_ends sending d s e f inv h = let free = open_while up s (ap one_if_done e) inv in ground arith
  up_ends done d s e f inv h = ground arith

  -- With both copies done and the channel empty, the loop returns.
  last_receive :
      (s : Relay)
      → Inv s
      → s.slot ≡ none
      → s.down_copy ≡ done
      → s.up_copy ≡ done
      → (reset_case s).returned ≡ true
  unfolding reset_case
  last_receive s inv h d u = ground arith

-- The timer ends, and then both copies, which read past their deadlines.
abbrev pub to_return : List Event
to_return =
    times_out
    ∷ receives
    ∷ ends down true
    ∷ sends down
    ∷ receives
    ∷ ends up true
    ∷ sends up
    ∷ receives
    ∷ receives
    ∷ []

-- After any events of a relay, when the timer expires and the reads of both copies then fail,
-- where a copy that waits to send its idle time sends it, the relay returns.
pub idle_returns :
    (opts : RelayOptions) (es : List Event)
    → (run opts to_return (run opts es (start opts))).returned ≡ true
unfolding run step
idle_returns opts es =
    last_receive opts s6 (after_receive s5 i5) (receive_empties s5 i5)
      ((receive_keeps s5).0 ∙ ups.1) ((receive_keeps s5).1 ∙ ups.0)
  where
    after_receive : (s : Relay) → Inv s → Inv (reset_case s)
    after_receive s i = step-Inv opts receives s i

    s0 : Relay
    s0 = timer_case (run opts es (start opts))

    i0 : Inv s0
    i0 = step-Inv opts times_out _ (relay_reached-Inv opts es)

    s1 : Relay
    s1 = reset_case s0

    i1 : Inv s1
    i1 = after_receive s0 i0

    s2 : Relay
    s2 = step opts (sends down) (step opts (ends down true) s1)

    i2 : Inv s2
    i2 = step-Inv opts (sends down) _ (step-Inv opts (ends down true) s1 i1)

    s3 : Relay
    s3 = reset_case s2

    i3 : Inv s3
    i3 = after_receive s2 i2

    down_done : s3.down_copy ≡ done
    down_done =
        (receive_keeps s2).0 ∙ down_ends opts s1.down_copy s1 refl i1 (receive_empties s0 i0)

    s5 : Relay
    s5 = step opts (sends up) (step opts (ends up true) s3)

    i5 : Inv s5
    i5 = step-Inv opts (sends up) _ (step-Inv opts (ends up true) s3 i3)

    ups : (s5.up_copy ≡ done) × (s5.down_copy ≡ done)
    ups = up_ends opts s3.up_copy done s3 refl down_done i3 (receive_empties s2 i2)

    s6 : Relay
    s6 = reset_case s5
