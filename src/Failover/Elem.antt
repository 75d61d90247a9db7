-- ===== src/Failover/Elem.antt =====
-- The struct `elem` and its methods (failover.go). A method on `*elem` returns the new record.
use chrome.Base.{ℕ, zero, suc, ◌+◌, Bool, not, if◌then◌else◌, ltb}
pub mod Range
pub mod Streak
use chrome.Base.Int.{ℤ, pos, pos_part, ◌+ℤ◌, ◌-ℤ◌, ltb_ℤ, eqb_ℤ}

pub record Elem : Type 0 where
  pub index : ℕ
  pub score : ℤ
  pub n : ℤ

abbrev pub max_score : ℤ
max_score = pos 64

-- maxScore / 2
abbrev pub mid_score : ℤ
mid_score = pos 32

abbrev pub max_n : ℤ
max_n = pos 9

unfoldable pub new_elem : ℕ → Elem
new_elem i = record { index = i; score = mid_score; n = pos 0 }

-- The loop of `fib`, on the rounds that are left.
abbrev fib_loop : ℕ → ℕ → ℕ → ℕ
fib_loop zero i j = i
fib_loop (suc n) i j = fib_loop n j (i + j)

unfoldable pub fib : ℤ → ℤ
fib n = pos (fib_loop (pos_part n) 0 1)

unfoldable pub less : Elem → Elem → Bool
less e other =
    let d = e.score -ℤ other.score in
    if not (eqb_ℤ d (pos 0)) then ltb_ℤ (pos 0) d else ltb e.index other.index

-- `e.N` after a success: a run of failures ends, and the run of successes grows up to `maxN`.
unfoldable pub grow_streak : ℤ → ℤ
grow_streak n =
    let n0 = if ltb_ℤ n (pos 0) then pos 0 else n in if ltb_ℤ n0 max_n then n0 +ℤ pos 1 else n0

-- `e.N` after a failure.
unfoldable pub shrink_streak : ℤ → ℤ
shrink_streak n =
    let n0 = if ltb_ℤ (pos 0) n then pos 0 else n in
    if ltb_ℤ (pos 0 -ℤ max_n) n0 then n0 -ℤ pos 1 else n0

unfoldable pub succ : Elem → Elem
succ e =
    if eqb_ℤ e.score max_score
    then e
    else (let n = grow_streak e.n in
        let s = e.score +ℤ fib n in
        record e { n = n; score = if ltb_ℤ max_score s then max_score else s })

unfoldable pub fail : Elem → Elem
fail e =
    if eqb_ℤ e.score (pos 0)
    then e
    else (let n = shrink_streak e.n in
        let s = e.score -ℤ fib (pos 0 -ℤ n) in
        record e { n = n; score = if ltb_ℤ s (pos 0) then pos 0 else s })
