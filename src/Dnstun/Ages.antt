-- ===== src/Dnstun/Ages.antt =====
-- dnstun.go: an answer of the cache is given out with the times to live that are left.
use native.Mathlib.Nat.{le_trans, lt_of_lt_of_le, lt_of_le_of_lt}
use chrome.Base.{
  suc, ℕ, ◌+◌, ◌-◌, ◌*◌, ◌/◌, ◌%◌, ◌^◌, ◌<◌, ◌≤◌, ◌≡◌, Bool, false, not, ◌==◌, ltb, List, [], ◌∷◌,
  map, Option, none, some, if◌then◌else◌, arith, All,
}
use chrome.Base.Int.{ℤ, pos, pos_part, negsuc}
use chrome.Base.Text.{Text}
use chrome.Conn.Options.{second}
use chrome.Dnstun.Seconds.{ceil_seconds}
use chrome.Dnstun.Rounding.{ceil_seconds-exact}
use chrome.Dnstun.Answers.{Rr, Message, TtlOptions, raise_to, lower_to, clamp_ttl, Result}

-- `r.Deadline.After(time.Now())`
abbrev pub is_fresh_by : Option ℕ → ℕ → Bool
is_fresh_by none now = false
is_fresh_by (some d) now = ltb now d

unfoldable pub is_fresh : Result → ℕ → Bool
is_fresh r now = is_fresh_by r.deadline now

unfoldable pub age_rr : ℕ → Rr → Rr
age_rr n rr = record rr {
  ttl = if not (rr.ttl == 0) then (if ltb n rr.ttl then rr.ttl - n else 0) else rr.ttl;
}

-- The seconds since the answer was read, as an unsigned number of 32 bits. They are exact here; the
-- code's floating point rounds the last nanosecond of a second up after 2 ^ 24 seconds, 194 days. The
-- check that an answer is fresh and this are at one time.
abbrev pub age_of : Result → ℕ → ℕ
age_of r now = (now - r.time) / second % 2 ^ 32

unfoldable pub served : Result → ℕ → Message
unfolding age_rr
served r now =
    let m = r.message in
    let n = age_of r now in
    if ltb 0 n
    then record m {
      answer = map (age_rr n) m.answer;
      ns = map (age_rr n) m.ns;
      extra = map (age_rr n) m.extra;
    }
    else m

-- What the two limits leave of a duration.
limits :
    (lo hi : ℤ) (t : ℕ)
    → 0 < pos_part hi
    → pos_part lo ≤ pos_part hi
    → (pos_part lo ≤ lower_to hi (raise_to lo t)) × (lower_to hi (raise_to lo t) ≤ pos_part hi)
limits (pos l) (pos h) t p q = ground arith
limits (negsuc l) (pos h) t p q = ground arith
limits lo (negsuc h) t p q = absurd (omega arith)

rounds :
    (t ttl : ℕ)
    → t < 2 ^ 24 * second
    → let r = if t == ttl * second then ttl else ceil_seconds t % 2 ^ 32 in
      (t ≤ r * second) × (r * second < t + second)
rounds t ttl small = let e = ceil_seconds-exact t small in ground (arith, e)

-- With an upper limit for times to live that is above zero, not below the lower limit, and
-- below 2 ^ 24 seconds, a time to live that was read, in nanoseconds, is no less than the lower
-- limit and less than a second above the upper one, with the rounding of floating point in it.
pub clamp_ttl_bounds :
    (opts : TtlOptions) (ttl : ℕ)
    → 0 < pos_part opts.ttl_max
    → pos_part opts.ttl_min ≤ pos_part opts.ttl_max
    → pos_part opts.ttl_max < 2 ^ 24 * second
    → (pos_part opts.ttl_min ≤ clamp_ttl opts ttl * second)
      × (clamp_ttl opts ttl * second < pos_part opts.ttl_max + second)
unfolding clamp_ttl
clamp_ttl_bounds opts ttl p q small =
    let t = lower_to opts.ttl_max (raise_to opts.ttl_min (ttl * second)) in
    let l = limits opts.ttl_min opts.ttl_max (ttl * second) p q in
    let r = rounds t ttl (lt_of_le_of_lt l.1 small) in
    (le_trans l.0 r.0, lt_of_lt_of_le r.1 (omega (arith, l.1)))

-- Records with what is left of their times to live.
abbrev pub Aged : ℕ → List Rr → List Rr → Type 0
Aged n [] [] = Unit
Aged n (rr ∷ rrs) (rr' ∷ rrs') =
    (rr'.name ≡ rr.name)
    × (rr'.rdata ≡ rr.rdata)
    × (rr'.ttl + n ≡ rr.ttl)
    × (0 < rr'.ttl)
    × Aged n rrs rrs'
Aged n rrs rrs' = ⊥

-- All sections of an answer have times to live above the seconds that have passed.
abbrev AllLonger : ℕ → Message → Type 0
AllLonger n m =
    All (λ rr. suc n ≤ rr.ttl) m.answer
    × All (λ rr. suc n ≤ rr.ttl) m.ns
    × All (λ rr. suc n ≤ rr.ttl) m.extra

-- Every section, record by record.
abbrev pub AgedAll : ℕ → Message → Message → Type 0
AgedAll n m m' = Aged n m.answer m'.answer × Aged n m.ns m'.ns × Aged n m.extra m'.extra
