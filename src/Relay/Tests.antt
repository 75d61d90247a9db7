-- ===== src/Relay/Tests.antt =====
-- Runs of a relay, and the theorems at concrete inputs.
use chrome.Base.{◌≡◌, refl, true, false, List, [], ◌∷◌}
use chrome.Base.Int.{pos}
use chrome.Relay.Options.{RelayOptions, relay_options}
use chrome.Relay.Loop.{
  down, copying, done, start, copy_done, set_copy, offer, read_some, end_copy, send_idle, take_time,
  reset_case, Event, reads, ends, sends, receives, step, run,
}
use chrome.Relay.Ends.{Inv, relay_reached-Inv, to_return, idle_returns}

abbrev unset : RelayOptions
unset = record { conn_idle = pos 0; uplink_idle = pos 7; downlink_idle = pos 0 }

default_idle : (relay_options unset unset).conn_idle ≡ pos 300_000_000_000
unfolding relay_options
default_idle = refl

-- The remote end closes after some bytes: the idle time is then that of the uplink.
abbrev remote_closes : List Event
remote_closes = reads down ∷ receives ∷ ends down false ∷ sends down ∷ receives ∷ []

then_uplink :
    let s = run unset remote_closes (start unset) in
    (s.td ≡ pos 7) × (s.ticking ≡ true) × (s.down_copy ≡ done) × (s.up_copy ≡ copying)
unfolding run step read_some offer reset_case take_time end_copy set_copy send_idle copy_done start
then_uplink = (refl, refl, refl, refl)

relay_reached-Inv_example : Inv (run unset remote_closes (start unset))
relay_reached-Inv_example = relay_reached-Inv unset remote_closes

idle_returns_example : (run unset to_return (run unset remote_closes (start unset))).returned ≡ true
idle_returns_example = idle_returns unset remote_closes
