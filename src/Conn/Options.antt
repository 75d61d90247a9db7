-- ===== src/Conn/Options.antt =====
-- conn.go: the options of `NewConn` and their defaults. relay.go has its defaults from here too.
use chrome.Base.{ℕ, ◌*◌, if◌then◌else◌}
use chrome.Base.Int.{ℤ, pos, ltb_ℤ}

-- A duration is in nanoseconds.
pub record ConnOptions : Type 0 where
  pub timeout : ℤ
  pub interval : ℤ
  pub parallel : ℤ
  pub max_attempts : ℤ

abbrev pub second : ℕ
second = 1_000_000_000

abbrev pub default_conn_timeout : ℤ
default_conn_timeout = pos (10 * second)

abbrev pub default_conn_interval : ℤ
default_conn_interval = pos (2 * second)

abbrev pub default_conn_parallel : ℤ
default_conn_parallel = pos 1

abbrev pub default_conn_max_attempts : ℤ
default_conn_max_attempts = pos 30

-- `if v <= 0 { v = stored; if v <= 0 { v = constant } }`
unfoldable pub or_default : ℤ → ℤ → ℤ → ℤ
or_default v stored constant =
    if ltb_ℤ (pos 0) v then v else if ltb_ℤ (pos 0) stored then stored else constant

-- The options of a call, given those that `SetConnOptions` stored.
unfoldable pub conn_options : ConnOptions → ConnOptions → ConnOptions
unfolding or_default
conn_options opts stored = record {
  timeout = or_default opts.timeout stored.timeout default_conn_timeout;
  interval = or_default opts.interval stored.interval default_conn_interval;
  parallel = or_default opts.parallel stored.parallel default_conn_parallel;
  max_attempts = or_default opts.max_attempts stored.max_attempts default_conn_max_attempts;
}
