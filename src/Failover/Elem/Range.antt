-- ===== src/Failover/Elem/Range.antt =====
-- The scores and the streaks of failover.go's `elem` stay in their ranges, and move the right way.
use chrome.Base.{ℕ, zero, suc, ◌≤◌, ◌<◌, arith}
use chrome.Base.Int.{ℤ, pos, negsuc, ◌+ℤ◌, ◌-ℤ◌, ◌≤ℤ◌, ◌<ℤ◌, +ℤ_parts, -ℤ_parts, int_laws}
use chrome.Failover.Elem.{
  Elem, max_score, max_n, fib_loop, fib, grow_streak, shrink_streak, succ, fail, new_elem,
}

pub record InRange (e : Elem) : Type 0 where
  pub score_low : pos 0 ≤ℤ e.score
  pub score_high : e.score ≤ℤ max_score
  pub n_low : negsuc 8 ≤ℤ e.n
  pub n_high : e.n ≤ℤ max_n

pub fib_loop_bounds : (n : ℕ) → 0 < n → n ≤ 9 → (1 ≤ fib_loop n 0 1) × (fib_loop n 0 1 ≤ 34)
fib_loop_bounds zero h k = omega arith
fib_loop_bounds (suc zero) h k = omega arith
fib_loop_bounds (suc (suc zero)) h k = omega arith
fib_loop_bounds (suc (suc (suc zero))) h k = omega arith
fib_loop_bounds (suc (suc (suc (suc zero)))) h k = omega arith
fib_loop_bounds (suc (suc (suc (suc (suc zero))))) h k = omega arith
fib_loop_bounds (suc (suc (suc (suc (suc (suc zero)))))) h k = omega arith
fib_loop_bounds (suc (suc (suc (suc (suc (suc (suc zero))))))) h k = omega arith
fib_loop_bounds (suc (suc (suc (suc (suc (suc (suc (suc zero)))))))) h k = omega arith
fib_loop_bounds (suc (suc (suc (suc (suc (suc (suc (suc (suc zero))))))))) h k = omega arith
fib_loop_bounds (suc (suc (suc (suc (suc (suc (suc (suc (suc (suc n)))))))))) h k =
    absurd (omega arith)

pub new_elem-InRange : (i : ℕ) → InRange (new_elem i)
unfolding new_elem
new_elem-InRange i = omega arith

pub fib_bounds : (n : ℤ) → pos 0 <ℤ n → n ≤ℤ pos 9 → (pos 1 ≤ℤ fib n) × (fib n ≤ℤ pos 34)
unfolding fib
fib_bounds (pos n) h k = omega (arith, fib_loop_bounds n)
fib_bounds (negsuc n) h k = absurd (omega arith)

pub grow_streak_bounds : (n : ℤ) → n ≤ℤ pos 9 → (pos 0 <ℤ grow_streak n) × (grow_streak n ≤ℤ pos 9)
unfolding grow_streak ◌+ℤ◌
grow_streak_bounds n h = ground arith

pub shrink_streak_bounds :
    (n : ℤ) → negsuc 8 ≤ℤ n → (negsuc 8 ≤ℤ shrink_streak n) × (shrink_streak n <ℤ pos 0)
unfolding shrink_streak ◌-ℤ◌
shrink_streak_bounds n h = ground arith

-- A success keeps the ranges.
pub succ-InRange : (e : Elem) → InRange e → InRange (succ e)
unfolding succ
succ-InRange e h = ground (
  arith,
  grow_streak_bounds e.n,
  fib_bounds (grow_streak e.n),
  +ℤ_parts e.score (fib (grow_streak e.n)),
)

fail_step :
    (e : Elem)
    → InRange e
    → (pos 1 ≤ℤ fib (pos 0 -ℤ shrink_streak e.n)) × (fib (pos 0 -ℤ shrink_streak e.n) ≤ℤ pos 34)
fail_step e h =
    fib_bounds _ (omega (int_laws, shrink_streak_bounds e.n h.n_low))
      (omega (int_laws, shrink_streak_bounds e.n h.n_low))

-- A failure keeps the ranges.
pub fail-InRange : (e : Elem) → InRange e → InRange (fail e)
unfolding fail
fail-InRange e h = ground (
  arith,
  shrink_streak_bounds e.n,
  fail_step e h,
  -ℤ_parts e.score (fib (pos 0 -ℤ shrink_streak e.n)),
)
