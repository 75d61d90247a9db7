-- ===== src/Relay/Options.antt =====
-- relay.go: the options of `Relay` and their defaults.
use chrome.Base.{◌*◌}
use chrome.Base.Int.{ℤ, pos}
use chrome.Conn.Options.{second, or_default}

-- A duration is in nanoseconds.
pub record RelayOptions : Type 0 where
  pub conn_idle : ℤ
  pub uplink_idle : ℤ
  pub downlink_idle : ℤ

abbrev pub default_relay_conn_idle : ℤ
default_relay_conn_idle = pos (5 * 60 * second)

abbrev pub default_relay_uplink_idle : ℤ
default_relay_uplink_idle = pos 0

abbrev pub default_relay_downlink_idle : ℤ
default_relay_downlink_idle = pos 0

-- The options of a call, given those that `SetRelayOptions` stored.
unfoldable pub relay_options : RelayOptions → RelayOptions → RelayOptions
unfolding or_default
relay_options opts stored = record {
  conn_idle = or_default opts.conn_idle stored.conn_idle default_relay_conn_idle;
  uplink_idle = or_default opts.uplink_idle stored.uplink_idle default_relay_uplink_idle;
  downlink_idle = or_default opts.downlink_idle stored.downlink_idle default_relay_downlink_idle;
}
