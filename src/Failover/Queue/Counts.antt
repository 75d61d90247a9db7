-- ===== src/Failover/Queue/Counts.antt =====
-- The counters of failover.go's queue: `scoreChanged` keeps `nLowScore` and `nHighScore` in step
-- with the scores, one at a time and over the loop that moves them all.
use chrome.Base.{ℕ, suc, ◌+◌, ◌≡◌, refl, List, [], ◌∷◌, arith, sum_by, length, ap, if◌then◌else◌}
use chrome.Base.Int.{ℤ, pos, ◌+ℤ◌, ltb_ℤ, int_laws, parts_of_eq, eq_of_parts, one_part}
use chrome.Failover.Elem.{Elem, mid_score}
use chrome.Failover.Queue.{Queue, score_changed, shift, count_shift}

abbrev pub low : ℤ → ℕ
low s = if ltb_ℤ s mid_score then 1 else 0

abbrev pub high : ℤ → ℕ
high s = if ltb_ℤ mid_score s then 1 else 0

abbrev pub lows : List Elem → ℕ
lows = sum_by (λ e. low e.score)

abbrev pub highs : List Elem → ℕ
highs = sum_by (λ e. high e.score)

pub score_changed-low :
    (old new : ℤ) (q : Queue)
    → (score_changed old new q).n_low_score +ℤ pos (low old) ≡ q.n_low_score +ℤ pos (low new)
unfolding score_changed
score_changed-low old new q = ground arith

pub score_changed-high :
    (old new : ℤ) (q : Queue)
    → (score_changed old new q).n_high_score +ℤ pos (high old) ≡ q.n_high_score +ℤ pos (high new)
unfolding score_changed
score_changed-high old new q = ground arith

pub score_changed-elems : (old new : ℤ) (q : Queue) → (score_changed old new q).elems ≡ q.elems
unfolding score_changed
score_changed-elems old new q = ground arith

score_changed-recent : (old new : ℤ) (q : Queue) → (score_changed old new q).recent ≡ q.recent
unfolding score_changed
score_changed-recent old new q = ground arith

pub count_shift-low :
    (offset : ℤ) (xs : List Elem) (q : Queue)
    → (count_shift offset xs q).n_low_score +ℤ pos (lows xs)
      ≡ q.n_low_score +ℤ pos (lows (shift offset xs))
unfolding count_shift shift
count_shift-low offset [] q = refl
count_shift-low offset (x ∷ xs) q = omega (
  int_laws,
  parts_of_eq (count_shift-low offset xs (score_changed x.score (x.score +ℤ offset) q)),
  parts_of_eq (score_changed-low x.score (x.score +ℤ offset) q),
)

pub count_shift-high :
    (offset : ℤ) (xs : List Elem) (q : Queue)
    → (count_shift offset xs q).n_high_score +ℤ pos (highs xs)
      ≡ q.n_high_score +ℤ pos (highs (shift offset xs))
unfolding count_shift shift
count_shift-high offset [] q = refl
count_shift-high offset (x ∷ xs) q = omega (
  int_laws,
  parts_of_eq (count_shift-high offset xs (score_changed x.score (x.score +ℤ offset) q)),
  parts_of_eq (score_changed-high x.score (x.score +ℤ offset) q),
)

pub length-shift : (offset : ℤ) (xs : List Elem) → length (shift offset xs) ≡ length xs
unfolding shift
length-shift offset [] = refl
length-shift offset (x ∷ xs) = ap suc (length-shift offset xs)

pub length-sum_by : (xs : List Elem) → sum_by (λ _. 1) xs ≡ length xs
length-sum_by [] = refl
length-sum_by (x ∷ xs) = omega (arith, length-sum_by xs)

-- A counter that was `t`, moved by the change of one summand, is the new count.
pub recount :
    {a z : ℤ} (o w : ℕ) {t s : ℕ} → a +ℤ pos o ≡ z +ℤ pos w → z ≡ pos t → t + w ≡ s + o → a ≡ pos s
recount {a} {z} o w {t} {s} h e k =
    eq_of_parts _ _ (omega (int_laws, parts_of_eq h, parts_of_eq e, one_part a))
