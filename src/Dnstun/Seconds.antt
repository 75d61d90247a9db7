-- ===== src/Dnstun/Seconds.antt =====
-- dnstun.go: `math.Ceil(ttl.Seconds())`, as numbers of 64 bits with a point: `Seconds` adds the whole
-- seconds to the quotient of the nanoseconds left and 1e9, and each of the two results is rounded to
-- 53 binary digits, to the even one of two that are as near. A duration is below 2 ^ 63.
use chrome.Base.{ℕ, zero, suc, ◌+◌, ◌-◌, ◌*◌, ◌/◌, ◌%◌, ◌^◌, ◌==◌, ltb, leb, if◌then◌else◌}
use chrome.Conn.Options.{second}

-- The number `mantissa / 2 ^ scale`.
pub record Float : Type 0 where
  pub mantissa : ℕ
  pub scale : ℕ

-- The quotient, rounded.
unfoldable pub round_even : ℕ → ℕ → ℕ
round_even n d =
    let q = n / d in
    if ltb (2 * (n % d)) d then q else if ltb d (2 * (n % d)) then suc q else q + q % 2

-- How often a number of nanoseconds is doubled until it is a second.
unfoldable pub doublings : ℕ → ℕ → ℕ
doublings zero n = 0
doublings (suc fuel) n = let rest = doublings fuel (2 * n) in if leb second n then 0 else suc rest

unfoldable pub log_two : ℕ → ℕ → ℕ
log_two zero n = 0
log_two (suc fuel) n = let rest = log_two fuel (n / 2) in if leb n 1 then 0 else suc rest

-- `float64(nsec) / 1e9`
unfoldable pub divide : ℕ → Float
divide nsec =
    let scale = 52 + doublings 30 nsec in
    record { mantissa = round_even (nsec * 2 ^ scale) second; scale = scale }

-- `float64(sec) + q` for a `q` below 2
unfoldable pub add_whole : ℕ → Float → Float
add_whole sec q =
    let scale = 52 - log_two 34 sec in
    if sec == 0 then q else record {
      mantissa = round_even (sec * 2 ^ q.scale + q.mantissa) (2 ^ (q.scale - scale));
      scale = scale;
    }

abbrev pub ceil_float : Float → ℕ
ceil_float x = (x.mantissa + (2 ^ x.scale - 1)) / 2 ^ x.scale

unfoldable pub ceil_seconds : ℕ → ℕ
ceil_seconds t = ceil_float (add_whole (t / second) (divide (t % second)))
