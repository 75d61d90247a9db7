-- ===== src/Failover/Tests.antt =====
-- Small runs of failover.go's queue, and the theorems at concrete inputs.
use chrome.Base.{
  ℕ, ◌-◌, ◌<◌, ◌≡◌, refl, true, false, List, [], ◌∷◌, map, Option, none, some, arith, inl,
}
use chrome.Base.Int.{ℤ, pos, negsuc, ◌+ℤ◌, ◌-ℤ◌, div_ℤ}
use chrome.Failover.Elem.{Elem, new_elem, succ, fail, fib, grow_streak, shrink_streak}
use chrome.Failover.Queue.{
  Queue, new_queue, new_elems, fix, find, fix_at, is_mixed, score_changed, reorder, sink, rise,
  rebalance, shift, count_shift, offset_of, total_score, pick,
}
use chrome.Failover.Queue.Balance.{Within, IsBalanced, shift_offset}
use chrome.Failover.Queue.Invariant.{Inv}
use chrome.Failover.Queue.Fix.{Returns, fix-Inv}
use chrome.Failover.Queue.New.{new_queue-Inv}
use chrome.Failover.Queue.Pick.{Picks, pick-Picks}
use chrome.Failover.Conn.{
  Op, read, close, new_conn, run, works, fails, tell, verdicts, late_verdicts, run-new_conn,
  run-Inv,
}

abbrev scores : List Elem → List (ℕ × ℤ)
scores = map (λ e. (e.index, e.score))

abbrev scores_of : Option Queue → List (ℕ × ℤ)
scores_of none = []
scores_of (some q) = scores q.elems

-- A failure moves the element behind the others; a success moves it back to the front.
abbrev seesaw : Option Queue
seesaw = tell 0 (fails ∷ works ∷ works ∷ []) (new_queue 3)

one_failure :
    scores_of (tell 0 (fails ∷ []) (new_queue 3)) ≡ (1, pos 32) ∷ (2, pos 32) ∷ (0, pos 31) ∷ []
unfolding tell fix find new_queue new_elems new_elem fix_at fail succ ◌-ℤ◌ ◌+ℤ◌ fib shrink_streak
    grow_streak is_mixed score_changed reorder sink rise
one_failure = refl

seesaw_scores : scores_of seesaw ≡ (0, pos 33) ∷ (1, pos 32) ∷ (2, pos 32) ∷ []
unfolding tell fix find new_queue new_elems new_elem fix_at fail succ ◌-ℤ◌ ◌+ℤ◌ fib shrink_streak
    grow_streak is_mixed score_changed reorder sink rise
seesaw_scores = refl

-- With one candidate each report is taken back by the rebalancing.
alone_is_rebalanced : scores_of (tell 0 (fails ∷ fails ∷ []) (new_queue 1)) ≡ (0, pos 32) ∷ []
unfolding tell fix find new_queue new_elems new_elem fix_at fail ◌-ℤ◌ ◌+ℤ◌ fib shrink_streak
    is_mixed score_changed reorder sink rise rebalance shift count_shift offset_of total_score div_ℤ
alone_is_rebalanced = refl

three-Inv : Inv 3 (new_queue 3)
three-Inv = new_queue-Inv 3 (omega arith)

fix-Inv_example : Returns (Inv 3) (fix (new_queue 3) 1 false)
fix-Inv_example = fix-Inv 3 (new_queue 3) 1 false three-Inv (omega arith)

-- A random source that always draws the last number.
abbrev last_of : ℕ → ℕ
last_of m = m - 1

last_of-lt : (m : ℕ) → 0 < m → last_of m < m
last_of-lt m h = omega arith

pick-Picks_example : Picks (new_queue 3) (pick last_of (new_queue 3))
pick-Picks_example = pick-Picks last_of last_of-lt 3 (new_queue 3) (omega arith) three-Inv

abbrev ranked : List Elem
ranked =
    record { index = 4; score = pos 40; n = pos 0 }
    ∷ record { index = 2; score = pos 20; n = pos 0 }
    ∷ []

abbrev leader : Elem
leader = record { index = 1; score = pos 40; n = pos 2 }

abbrev ranked_low : List Elem
ranked_low =
    record { index = 0; score = pos 31; n = pos 0 }
    ∷ record { index = 1; score = pos 2; n = negsuc 4 }
    ∷ []

abbrev lost_connection : List Op
lost_connection = read 0 true ∷ close ∷ close ∷ read 5 false ∷ read 7 false ∷ []

lost_verdicts : verdicts false lost_connection ≡ fails ∷ works ∷ []
unfolding verdicts late_verdicts
lost_verdicts = refl

run-new_conn_example :
    run lost_connection (new_conn 2) (new_queue 3)
    ≡ tell 2 (verdicts false lost_connection) (new_queue 3)
run-new_conn_example = run-new_conn 2 lost_connection (new_queue 3)

run-Inv_example : Returns (Inv 3) (run lost_connection (new_conn 2) (new_queue 3))
run-Inv_example = run-Inv 3 2 lost_connection (new_queue 3) (omega arith) three-Inv

shift_offset_example :
    Within 0 64 (shift (offset_of ranked_low) ranked_low)
    × IsBalanced (shift (offset_of ranked_low) ranked_low)
shift_offset_example = shift_offset ranked_low (omega arith) (omega arith) (inl refl)
