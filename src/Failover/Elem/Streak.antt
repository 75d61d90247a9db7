-- ===== src/Failover/Elem/Streak.antt =====
-- How fast failover.go's scores move: a run of failures exhausts any candidate, a run of successes
-- restores it.
use chrome.Base.{
  ℕ, suc, zero, ◌+◌, ◌≤◌, ◌<◌, ◌≡◌, refl, ◌⊎◌, inl, inr, arith, true, false, Bool-cases,
  if◌then◌else◌,
}
use chrome.Base.Int.{
  ℤ, pos, ◌+ℤ◌, ◌-ℤ◌, ◌≤ℤ◌, eqb_ℤ, pos_part, int_laws, one_part, eq_of_parts, ltb_ℤ,
}
use native.Mathlib.Decide.{dec_le}
use native.Mathlib.Nat.{le_refl, le_trans}
use chrome.Failover.Elem.{Elem, fib_loop, fib, fail, shrink_streak, max_score}
use chrome.Failover.Elem.Range.{InRange, fail-InRange}

fib_loop_step : (n i j : ℕ) → i ≤ j → fib_loop n i j ≤ fib_loop n j (i + j)
fib_loop_step zero i j h = h
fib_loop_step (suc n) i j h = fib_loop_step n j (i + j) (omega arith)

fib_loop_mono : (n m : ℕ) → n ≤ m → fib_loop n 0 1 ≤ fib_loop m 0 1
fib_loop_mono n zero h = let e : n ≡ 0 = omega arith in rw e (le_refl _)
fib_loop_mono n (suc m) h = elim (dec_le n m) [
  | yes p ↦ le_trans (fib_loop_mono n m p) (fib_loop_step m 0 1 (omega arith))
  | no p ↦ let e : n ≡ suc m = omega arith in rw e (le_refl _)
]

-- The fall of a score by one failure, while a run of `k` failures lasts.
fall_streak :
    (k : ℕ) (n : ℤ)
    → k < 9
    → (0 < k → n ≤ℤ pos 0 -ℤ pos k)
    → shrink_streak n ≤ℤ pos 0 -ℤ pos (k + 1)
unfolding shrink_streak ◌-ℤ◌
fall_streak k n h p = ground arith

fall_fib :
    (k : ℕ) (s : ℤ) → s ≤ℤ pos 0 -ℤ pos (k + 1) → pos (fib_loop (k + 1) 0 1) ≤ℤ fib (pos 0 -ℤ s)
unfolding fib
fall_fib k s p =
    omega (arith, fib_loop_mono (k + 1) (pos_part (pos 0 -ℤ s)) (omega (int_laws, one_part s)))

-- One more failure lowers the score by the next number of the sequence, or to 0.
fail_lowers :
    (k lost : ℕ) (e : Elem)
    → k < 9
    → (0 < k → e.n ≤ℤ pos 0 -ℤ pos k)
    → e.score +ℤ pos lost ≤ℤ max_score
    → ((fail e).score ≡ pos 0)
      ⊎ (((fail e).n ≤ℤ pos 0 -ℤ pos (k + 1))
          × ((fail e).score +ℤ pos (lost + fib_loop (k + 1) 0 1) ≤ℤ max_score))
unfolding fail
fail_lowers k lost e h p q = elim (Bool-cases (eqb_ℤ e.score (pos 0))) [
  | inl z ↦ rw z (inl (eq_of_parts _ _ (ground arith)))
  | inr z ↦
      rw z (lowered (Bool-cases (ltb_ℤ (e.score -ℤ fib (pos 0 -ℤ shrink_streak e.n)) (pos 0))))
]
  where
    d : ℤ
    d = fib (pos 0 -ℤ shrink_streak e.n)

    lowered :
        (ltb_ℤ (e.score -ℤ d) (pos 0) ≡ true) ⊎ (ltb_ℤ (e.score -ℤ d) (pos 0) ≡ false)
        → ((if ltb_ℤ (e.score -ℤ d) (pos 0) then pos 0 else e.score -ℤ d) ≡ pos 0)
          ⊎ ((shrink_streak e.n ≤ℤ pos 0 -ℤ pos (k + 1))
              × ((if ltb_ℤ (e.score -ℤ d) (pos 0) then pos 0 else e.score -ℤ d)
                    +ℤ pos (lost + fib_loop (k + 1) 0 1)
                  ≤ℤ max_score))
    lowered (inl z) = rw z (inl refl)
    lowered (inr z) =
        let s = fall_streak k e.n h p in
        rw z (inr (s, omega (int_laws, fall_fib k (shrink_streak e.n) s)))

-- After `k` failures in a row: the score is 0, or it has lost at least `lost`.
abbrev IsFailing : ℕ → ℕ → Elem → Type 0
IsFailing k lost e =
    (e.score ≡ pos 0) ⊎ ((0 < k → e.n ≤ℤ pos 0 -ℤ pos k) × (e.score +ℤ pos lost ≤ℤ max_score))

fail_zero : (e : Elem) → e.score ≡ pos 0 → (fail e).score ≡ pos 0
unfolding fail
fail_zero e z = ground arith

-- A lowered element, whose streak goes on.
continues :
    (k lost : ℕ) (e : Elem)
    → (e.score ≡ pos 0) ⊎ ((e.n ≤ℤ pos 0 -ℤ pos k) × (e.score +ℤ pos lost ≤ℤ max_score))
    → IsFailing k lost e
continues k lost e (inl z) = inl z
continues k lost e (inr (p, q)) = inr (λ _. p, q)

fail-IsFailing :
    (k lost : ℕ) (e : Elem)
    → k < 9
    → IsFailing k lost e
    → IsFailing (k + 1) (lost + fib_loop (k + 1) 0 1) (fail e)
fail-IsFailing k lost e h (inl z) = inl (fail_zero e z)
fail-IsFailing k lost e h (inr (p, q)) =
    continues (k + 1) (lost + fib_loop (k + 1) 0 1) (fail e) (fail_lowers k lost e h p q)

unfoldable pub repeat_fail : ℕ → Elem → Elem
repeat_fail zero e = e
repeat_fail (suc k) e = fail (repeat_fail k e)

nine_lost : (e : Elem) → IsFailing 0 0 e → IsFailing 9 88 (repeat_fail 9 e)
unfolding repeat_fail
nine_lost e h =
    let f1 = fail-IsFailing 0 0 e (omega arith) h in
    let f2 = fail-IsFailing 1 1 (repeat_fail 1 e) (omega arith) f1 in
    let f3 = fail-IsFailing 2 2 (repeat_fail 2 e) (omega arith) f2 in
    let f4 = fail-IsFailing 3 4 (repeat_fail 3 e) (omega arith) f3 in
    let f5 = fail-IsFailing 4 7 (repeat_fail 4 e) (omega arith) f4 in
    let f6 = fail-IsFailing 5 12 (repeat_fail 5 e) (omega arith) f5 in
    let f7 = fail-IsFailing 6 20 (repeat_fail 6 e) (omega arith) f6 in
    let f8 = fail-IsFailing 7 33 (repeat_fail 7 e) (omega arith) f7 in
    fail-IsFailing 8 54 (repeat_fail 8 e) (omega arith) f8

repeat_fail-InRange : (k : ℕ) (e : Elem) → InRange e → InRange (repeat_fail k e)
unfolding repeat_fail
repeat_fail-InRange zero e h = h
repeat_fail-InRange (suc k) e h = fail-InRange (repeat_fail k e) (repeat_fail-InRange k e h)

-- Nine failures in a row take an element, whatever its score in 0..64 and its streak in -9..9,
-- to the score 0.
pub repeat_fail-nine : (e : Elem) → InRange e → (repeat_fail 9 e).score ≡ pos 0
repeat_fail-nine e h =
    exhausted (nine_lost e (inr (λ p. absurd (omega arith), omega (int_laws, h.score_high))))
  where
    exhausted : IsFailing 9 88 (repeat_fail 9 e) → (repeat_fail 9 e).score ≡ pos 0
    exhausted (inl z) = z
    exhausted (inr (p, q)) = absurd (omega (int_laws, (repeat_fail-InRange 9 e h).score_low, q))
