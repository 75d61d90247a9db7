-- ===== src/Failover/Queue/New.antt =====
-- failover.go's `newQueue` satisfies the invariant of the queue.
use chrome.Base.{
  ℕ, suc, zero, ◌+◌, ◌<◌, ◌≡◌, refl, sym, arith, All, sum_by, length, if◌then◌else◌, ap, ltb, leb,
  ◌&&◌,
}
use chrome.Base.Int.{pos, ◌≤ℤ◌}
use chrome.Failover.Elem.{Elem, new_elem}
use chrome.Failover.Elem.Range.{InRange, new_elem-InRange}
use chrome.Failover.Queue.{new_elems, new_queue}
use chrome.Failover.Queue.Order.{IsDescending}
use chrome.Failover.Queue.Counts.{low, high}
use chrome.Failover.Queue.Invariant.{occurs, Inv}

length-new_elems : (i n : ℕ) → length (new_elems i n) ≡ n
unfolding new_elems
length-new_elems i zero = refl
length-new_elems i (suc n) = ap suc (length-new_elems (i + 1) n)

new_elems-All : (P : Elem → Type 0) (i n : ℕ) → ((j : ℕ) → P (new_elem j)) → All P (new_elems i n)
unfolding new_elems
new_elems-All P i zero h = tt
new_elems-All P i (suc n) h = (h i, new_elems-All P (i + 1) n h)

occurs-new_elems :
    (k i n : ℕ) → occurs k (new_elems i n) ≡ (if leb i k && ltb k (i + n) then 1 else 0)
unfolding new_elems new_elem
occurs-new_elems k i zero = ground arith
occurs-new_elems k i (suc n) = ground (arith, occurs-new_elems k (i + 1) n)

sum_by-new_elems :
    (g : Elem → ℕ) (i n : ℕ) → ((j : ℕ) → g (new_elem j) ≡ 0) → sum_by g (new_elems i n) ≡ 0
unfolding new_elems
sum_by-new_elems g i zero h = refl
sum_by-new_elems g i (suc n) h = omega (arith, h i, sum_by-new_elems g (i + 1) n h)

new_elems-IsDescending : (i n : ℕ) → IsDescending (new_elems i n)
unfolding new_elems
new_elems-IsDescending i zero = tt
new_elems-IsDescending i (suc n) = (
  new_elems-All (λ y. y.score ≤ℤ (new_elem i).score) (i + 1) n
      (λ j. unfold new_elem in omega arith),
  new_elems-IsDescending (i + 1) n,
)

new_elem-mid : (j : ℕ) → (low (new_elem j).score ≡ 0) × (high (new_elem j).score ≡ 0)
unfolding new_elem
new_elem-mid j = (refl, refl)

-- A new queue for at least one candidate satisfies the invariant of the queue.
pub new_queue-Inv : (n : ℕ) → 0 < n → Inv n (new_queue n)
unfolding new_queue
new_queue-Inv n h =
    let l = sum_by-new_elems (λ e. low e.score) 0 n (λ j. (new_elem-mid j).0) in
    let t = sum_by-new_elems (λ e. high e.score) 0 n (λ j. (new_elem-mid j).1) in
    record {
      consistent = record {
        size = length-new_elems 0 n;
        ranged = new_elems-All InRange 0 n new_elem-InRange;
        sorted = new_elems-IsDescending 0 n;
        indexed = λ k. ground (arith, occurs-new_elems k 0 n);
        low_count = ap pos (sym l);
        high_count = ap pos (sym t);
      };
      balanced = omega (arith, l, t, length-new_elems 0 n);
    }
