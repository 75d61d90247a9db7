-- ===== src/Failover/Queue/Invariant.antt =====
-- What holds of failover.go's queue between two calls of its methods, and that `fix` keeps it.
use chrome.Base.{
  ℕ, ◌<◌, ◌≡◌, refl, ◌∙◌, true, false, ◌⊎◌, inl, inr, List, [], ◌∷◌, arith, All, All-map, sum_by,
  length, if◌then◌else◌, ltb, ◌==◌,
}
use chrome.Base.Int.{ℤ, pos, ◌+ℤ◌, ◌≤ℤ◌, int_laws, parts_of_eq}
use chrome.Failover.Elem.{Elem}
use chrome.Failover.Elem.Range.{InRange}
use chrome.Failover.Queue.{Queue, shift, rebalance, is_mixed, offset_of}
use chrome.Failover.Queue.Order.{IsDescending, Tops}
use chrome.Failover.Queue.Counts.{
  lows, highs, count_shift-low, count_shift-high, length-shift, recount,
}
use chrome.Failover.Queue.Balance.{Within, IsBalanced, IsOneSided, shift_offset, lows-le, highs-le}

-- How many elements have the index `k`.
abbrev pub occurs : ℕ → List Elem → ℕ
occurs k = sum_by (λ e. if e.index == k then 1 else 0)

-- All but the balance. `n` is the number of candidates.
pub record IsConsistent (n : ℕ) (q : Queue) : Type 0 where
  pub size : length q.elems ≡ n
  pub ranged : All InRange q.elems
  pub sorted : IsDescending q.elems
  pub indexed : (k : ℕ) → occurs k q.elems ≡ (if ltb k n then 1 else 0)
  pub low_count : q.n_low_score ≡ pos (lows q.elems)
  pub high_count : q.n_high_score ≡ pos (highs q.elems)

pub record Inv (n : ℕ) (q : Queue) : Type 0 where
  pub consistent : IsConsistent n q
  pub balanced : IsBalanced q.elems

InRange→Within : (xs : List Elem) → All InRange xs → Within 0 64 xs
InRange→Within xs =
    All-map InRange (λ e. (pos 0 ≤ℤ e.score) × (e.score ≤ℤ pos 64)) xs
      (λ e h. (h.score_low, h.score_high))

module _ (d : ℤ) where
  shift-InRange :
      (xs : List Elem) → All InRange xs → Within 0 64 (shift d xs) → All InRange (shift d xs)
  unfolding shift
  shift-InRange [] h w = tt
  shift-InRange (x ∷ xs) h w = (
    record { score_low = w.0.0; score_high = w.0.1; n_low = h.0.n_low; n_high = h.0.n_high },
    shift-InRange xs h.1 w.1,
  )

  shift-Tops :
      (x x' : Elem) (xs : List Elem) → x'.score ≡ x.score +ℤ d → Tops x xs → Tops x' (shift d xs)
  unfolding shift
  shift-Tops x x' [] e h = tt
  shift-Tops x x' (y ∷ ys) e h = (omega (int_laws, parts_of_eq e), shift-Tops x x' ys e h.1)

  shift-IsDescending : (xs : List Elem) → IsDescending xs → IsDescending (shift d xs)
  unfolding shift
  shift-IsDescending [] h = tt
  shift-IsDescending (x ∷ xs) h =
      (shift-Tops x (record x { score = x.score +ℤ d }) xs refl h.0, shift-IsDescending xs h.1)

  occurs-shift : (k : ℕ) (xs : List Elem) → occurs k (shift d xs) ≡ occurs k xs
  unfolding shift
  occurs-shift k [] = refl
  occurs-shift k (x ∷ xs) = omega (arith, occurs-shift k xs)

rebalance-IsConsistent :
    (n : ℕ) (q : Queue)
    → 0 < n
    → IsConsistent n q
    → IsOneSided q.elems
    → IsConsistent n (rebalance q)
unfolding rebalance
rebalance-IsConsistent n q h c s =
    let d = offset_of q.elems in
    let (w, _) = shift_offset q.elems (omega (arith, c.size)) (InRange→Within q.elems c.ranged) s in
    record {
      size = length-shift d q.elems ∙ c.size;
      ranged = shift-InRange d q.elems c.ranged w;
      sorted = shift-IsDescending d q.elems c.sorted;
      indexed = λ k. occurs-shift d k q.elems ∙ c.indexed k;
      low_count = recount _ _ (count_shift-low d q.elems q) c.low_count (omega arith);
      high_count = recount _ _ (count_shift-high d q.elems q) c.high_count (omega arith);
    }

rebalance-IsBalanced :
    (n : ℕ) (q : Queue)
    → 0 < n
    → IsConsistent n q
    → IsOneSided q.elems
    → IsBalanced (rebalance q).elems
unfolding rebalance
rebalance-IsBalanced n q h c s =
    (shift_offset q.elems (omega (arith, c.size)) (InRange→Within q.elems c.ranged) s).1

-- The early return of `fix` is taken exactly when both counters are below the number of elements.
is_mixed_cases :
    (n : ℕ) (q : Queue)
    → IsConsistent n q
    → (is_mixed q ≡ true × IsBalanced q.elems) ⊎ (is_mixed q ≡ false × IsOneSided q.elems)
unfolding is_mixed
is_mixed_cases n q c = ground (arith, lows-le q.elems, highs-le q.elems)

module _ (n : ℕ) (q : Queue) (h : 0 < n) (c : IsConsistent n q) where
  pub settle-Inv : Inv n (if is_mixed q then q else rebalance q)
  settle-Inv = elim (is_mixed_cases n q c) [
    | inl (e, b) ↦ rw e (record { consistent = c; balanced = b })
    | inr (e, s) ↦ rw e (record {
      consistent = rebalance-IsConsistent n q h c s;
      balanced = rebalance-IsBalanced n q h c s;
    })
  ]
