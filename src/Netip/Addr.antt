-- ===== src/Netip/Addr.antt =====
-- What internal/netiputil uses of Go's `netip.Addr`: the zero value, IPv4 and IPv6 addresses with no
-- zone, and their order, which puts a shorter address first and then compares the values.
use chrome.Base.{ℕ, ◌+◌, ◌%◌, ◌^◌}

pub data Addr : Type 0 where
  invalid : Addr
  v4 : ℕ → Addr
  v6 : ℕ → Addr

-- `a.Compare(b)` is the comparison of `rank a` with `rank b`.
unfoldable pub rank : Addr → ℕ
rank invalid = 0
rank (v4 n) = 1 + n % 2 ^ 32
rank (v6 n) = 1 + 2 ^ 32 + n % 2 ^ 128
