-- ===== src/Relay/Loop.antt =====
-- relay.go: `Relay`: the two copies, the channel between them and the loop with the timer.
use chrome.Base.{
  ℕ, ◌+◌, Bool, true, false, not, ◌&&◌, ◌==◌, List, [], ◌∷◌, Option, none, some, if◌then◌else◌,
}
use chrome.Base.Int.{ℤ, pos, negsuc, leb_ℤ}
use chrome.Relay.Options.{RelayOptions}

-- A copy from the remote end to the local end, and one the other way.
pub data Side : Type 0 where
  down up : Side

-- A copy that goes on, one that waits to send its idle time, and one that has called `done`.
pub data Copy : Type 0 where
  copying sending done : Copy

pub record Relay : Type 0 where
  pub down_copy : Copy
  pub up_copy : Copy
  pub slot : Option ℤ  -- the channel `reset`, which has room for one
  pub closed : Bool
  pub n : ℕ
  pub panicked : Bool  -- a send on the closed channel
  pub ticking : Bool
  pub td : ℤ
  pub expired : Bool
  pub l_expired : Bool  -- the local connection has a read deadline in the past
  pub r_expired : Bool
  pub returned : Bool

unfoldable pub start : RelayOptions → Relay
start opts = record {
  down_copy = copying;
  up_copy = copying;
  slot = none;
  closed = false;
  n = 0;
  panicked = false;
  ticking = true;
  td = opts.conn_idle;
  expired = false;
  l_expired = false;
  r_expired = false;
  returned = false;
}

-- `done`: the second call closes the channel.
unfoldable pub copy_done : Relay → Relay
copy_done s = record s { n = s.n + 1; closed = if s.n + 1 == 2 then true else s.closed }

unfoldable pub set_copy : Side → Copy → Relay → Relay
set_copy down c s = record s { down_copy = c }
set_copy up c s = record s { up_copy = c }

abbrev pub copy_of : Side → Relay → Copy
copy_of down s = s.down_copy
copy_of up s = s.up_copy

-- The other copy is told by a deadline in the past on what this one writes to.
unfoldable pub expire_dst : Side → Relay → Relay
expire_dst down s = record s { l_expired = true }
expire_dst up s = record s { r_expired = true }

abbrev pub idle_of : RelayOptions → Side → ℤ
idle_of opts down = opts.uplink_idle
idle_of opts up = opts.downlink_idle

-- A send that does not block: a full channel takes nothing.
unfoldable pub offer : Relay → Relay
offer s =
    if s.closed
    then record s { panicked = true }
    else elim s.slot [ none ↦ record s { slot = some (negsuc 0) } | some d ↦ s ]

-- The copy reads some bytes.
unfoldable pub read_some : Copy → Relay → Relay
unfolding offer
read_some copying s = offer s
read_some sending s = s
read_some done s = s

-- The copy ends, with an error or not.
unfoldable pub end_copy : Side → Bool → Copy → Relay → Relay
unfolding set_copy expire_dst copy_done
end_copy side err copying s =
    if err then copy_done (set_copy side done (expire_dst side s)) else set_copy side sending s
end_copy side err sending s = s
end_copy side err done s = s

-- The copy sends its idle time, when there is room.
unfoldable pub send_idle : RelayOptions → Side → Copy → Relay → Relay
unfolding set_copy copy_done
send_idle opts side copying s = s
send_idle opts side sending s = if s.closed then record s { panicked = true } else elim s.slot [
  | none ↦ copy_done (set_copy side done (record s { slot = some (idle_of opts side) }))
  | some d ↦ s
]
send_idle opts side done s = s

-- The loop receives from the timer.
unfoldable pub timer_case : Relay → Relay
timer_case s =
    if s.ticking && not s.returned
    then record s { ticking = false; expired = true; l_expired = true; r_expired = true }
    else s

-- The loop receives a time from the channel.
unfoldable pub take_time : ℤ → Relay → Relay
take_time d s =
    let s' : Relay = record s { slot = none; td = if leb_ℤ (pos 0) d then d else s.td } in
    if not s.expired then record s' { ticking = true } else s'

-- The loop receives from the channel, or finds it closed and empty.
unfoldable pub reset_case : Relay → Relay
unfolding take_time
reset_case s = if s.returned then s else elim s.slot [
  | some d ↦ take_time d s
  | none ↦
      if s.closed
      then record s { returned = true; ticking = false; l_expired = false; r_expired = false }
      else s
]

pub data Event : Type 0 where
  reads : Side → Event
  ends : Side → Bool → Event
  sends : Side → Event
  times_out receives : Event

unfoldable pub step : RelayOptions → Event → Relay → Relay
unfolding read_some end_copy send_idle timer_case reset_case
step opts (reads side) s = read_some (copy_of side s) s
step opts (ends side err) s = end_copy side err (copy_of side s) s
step opts (sends side) s = send_idle opts side (copy_of side s) s
step opts times_out s = timer_case s
step opts receives s = reset_case s

unfoldable pub run : RelayOptions → List Event → Relay → Relay
run opts [] s = s
run opts (e ∷ es) s = run opts es (step opts e s)
