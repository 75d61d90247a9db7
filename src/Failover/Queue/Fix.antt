-- ===== src/Failover/Queue/Fix.antt =====
-- failover.go's `fix` finds its element, never panics and keeps the invariant of the queue.
use chrome.Base.{
  ℕ, ◌+◌, ◌<◌, ◌≡◌, refl, sym, ◌∙◌, Bool, true, false, Bool-cases, inl, inr, List, [], ◌∷◌, Option,
  none, some, arith, All, sum_by, if◌then◌else◌, ap, ◌==◌,
}
use chrome.Base.Int.{pos, eqb_ℤ, eq_of_parts}
use chrome.Failover.Elem.{Elem, succ, fail}
use chrome.Failover.Elem.Range.{InRange, succ-InRange, fail-InRange}
use chrome.Failover.Queue.{Queue, Place, rejoin, find, reorder, score_changed, fix_at, fix}
use chrome.Failover.Queue.Order.{
  Tops-cong, Over-cong, rejoin_parts, rejoin-IsDescending, reorder-IsDescending, sum_by-reorder,
  sum_by-rejoin, All-rejoin, All-rejoin_parts, All-reorder,
}
use chrome.Failover.Queue.Counts.{
  low, high, score_changed-low, score_changed-high, score_changed-elems, length-sum_by, recount,
}
use chrome.Failover.Queue.Balance.{IsBalanced}
use chrome.Failover.Queue.Invariant.{occurs, IsConsistent, Inv, settle-Inv}

-- The search by identity returns a place in the same array.
find_place :
    (k : ℕ) (left xs : List Elem) {p : Place}
    → find k left xs ≡ some p
    → (rejoin p.left (p.elem ∷ p.right) ≡ rejoin left xs) × (p.elem.index ≡ k)
unfolding find
find_place k left [] h = cc
find_place k left (x ∷ xs) h = elim (Bool-cases (x.index == k)) [
  | inl e ↦ ground arith
  | inr e ↦ find_place k (x ∷ left) xs (rw e at h)
]

find_total :
    (k : ℕ) (left xs : List Elem) → 0 < occurs k xs → (p : Place) × (find k left xs ≡ some p)
unfolding find
find_total k left [] h = absurd (omega arith)
find_total k left (x ∷ xs) h = elim (Bool-cases (x.index == k)) [
  | inl e ↦ (record { left = left; elem = x; right = xs }, rw e)
  | inr e ↦ rw e (find_total k (x ∷ left) xs (ground arith))
]

-- The element at a place gets a new value in range.
module _ (n : ℕ) (q : Queue) (p : Place) (e' : Elem) (c : IsConsistent n q)
    (place : q.elems ≡ rejoin p.left (p.elem ∷ p.right)) (ranged : InRange e')
    (same : e'.index ≡ p.elem.index) where
  abbrev moved : Place
  moved = record p { elem = e' }

  old_sum : (g : Elem → ℕ) → sum_by g q.elems ≡ sum_by g p.left + (g p.elem + sum_by g p.right)
  old_sum g = rw place (sum_by-rejoin g p.left (p.elem ∷ p.right))

  new_sum : (g : Elem → ℕ) → sum_by g (reorder moved) + g p.elem ≡ sum_by g q.elems + g e'
  new_sum g = omega (arith, old_sum g, sum_by-reorder g moved)

  parts : All InRange p.left × All InRange (p.elem ∷ p.right)
  parts = All-rejoin_parts InRange p.left (p.elem ∷ p.right) (rw place at c.ranged)

  reorder-IsConsistent :
      IsConsistent n (score_changed p.elem.score e'.score (record q { elems = reorder moved }))
  reorder-IsConsistent =
      let q0 : Queue = record q { elems = reorder moved } in
      let e = score_changed-elems p.elem.score e'.score q0 in
      record {
        size = rw e (
            omega (
              arith,
              new_sum (λ _. 1),
              length-sum_by (reorder moved),
              length-sum_by q.elems,
              c.size,
            ));
        ranged = rw e (All-reorder InRange moved parts.0 ranged parts.1.1);
        sorted = rw e (reorder-IsDescending moved p.elem (rw place at c.sorted));
        indexed = λ k.
            rw e (ground (arith, new_sum (λ x. if x.index == k then 1 else 0), same, c.indexed k));
        low_count = rw e (
            recount _ _ (score_changed-low p.elem.score e'.score q0) c.low_count
              (sym (new_sum (λ x. low x.score))));
        high_count = rw e (
            recount _ _ (score_changed-high p.elem.score e'.score q0) c.high_count
              (sym (new_sum (λ x. high x.score))));
      }

  same_sum :
      (g : Elem → ℕ) → g e' ≡ g p.elem → sum_by g (rejoin p.left (e' ∷ p.right)) ≡ sum_by g q.elems
  same_sum g k = omega (arith, old_sum g, sum_by-rejoin g p.left (e' ∷ p.right))

  -- An unchanged score changes no order and no count.
  replace-IsConsistent :
      e'.score ≡ p.elem.score → IsConsistent n (record q { elems = rejoin p.left (e' ∷ p.right) })
  replace-IsConsistent k =
      let (a, o, d) = rejoin_parts p.left (p.elem ∷ p.right) (rw place at c.sorted) in
      record {
        size = omega (
          arith,
          same_sum (λ _. 1) refl,
          length-sum_by (rejoin p.left (e' ∷ p.right)),
          length-sum_by q.elems,
          c.size,
        );
        ranged = All-rejoin InRange p.left (e' ∷ p.right) parts.0 (ranged, parts.1.1);
        sorted =
            rejoin-IsDescending p.left (e' ∷ p.right)
              (a, Over-cong p.left p.elem e' p.right k o, (Tops-cong p.elem e' p.right k d.0, d.1));
        indexed = λ j.
            same_sum (λ x. if x.index == j then 1 else 0) (ap (λ i. if i == j then 1 else 0) same)
            ∙ c.indexed j;
        low_count = c.low_count ∙ ap pos (sym (same_sum (λ x. low x.score) (ap low k)));
        high_count = c.high_count ∙ ap pos (sym (same_sum (λ x. high x.score) (ap high k)));
      }

  replace-IsBalanced :
      e'.score ≡ p.elem.score → IsBalanced q.elems → IsBalanced (rejoin p.left (e' ∷ p.right))
  replace-IsBalanced k b = omega (
    arith,
    b,
    same_sum (λ x. low x.score) (ap low k),
    same_sum (λ x. high x.score) (ap high k),
    same_sum (λ _. 1) refl,
    length-sum_by (rejoin p.left (e' ∷ p.right)),
    length-sum_by q.elems,
  )

  fix_at-Inv : 0 < n → IsBalanced q.elems → Inv n (fix_at q p e')
  unfolding fix_at
  fix_at-Inv h b = elim (Bool-cases (eqb_ℤ e'.score p.elem.score)) [
    | inl k ↦
        let k' : e'.score ≡ p.elem.score = eq_of_parts _ _ (ground arith) in
        rw k (record { consistent = replace-IsConsistent k'; balanced = replace-IsBalanced k' b })
    | inr k ↦ rw k (
        settle-Inv n (score_changed p.elem.score e'.score (record q { elems = reorder moved })) h
          reorder-IsConsistent)
  ]

succ-index : (e : Elem) → (succ e).index ≡ e.index
unfolding succ
succ-index e = ground arith

fail-index : (e : Elem) → (fail e).index ≡ e.index
unfolding fail
fail-index e = ground arith

choice-InRange : (b : Bool) (e : Elem) → InRange e → InRange (if b then succ e else fail e)
choice-InRange true e r = succ-InRange e r
choice-InRange false e r = fail-InRange e r

choice-index : (b : Bool) (e : Elem) → (if b then succ e else fail e).index ≡ e.index
choice-index true e = succ-index e
choice-index false e = fail-index e

-- The outcome of a call: no panic, and `P` holds of the new queue.
abbrev pub Returns : (Queue → Type 0) → Option Queue → Type 0
Returns P none = ⊥
Returns P (some q) = P q

-- On a queue of n candidates that satisfies the invariant, a report about any candidate k < n,
-- success or failure, finds its element and does not panic, and the new queue satisfies the
-- invariant again: the array holds n elements, each index below n exactly once, in descending
-- order of score, every score in 0..64 and every streak in -9..9, both counters equal to the
-- numbers of scores below and above 32, and neither of the two equal to n.
pub fix-Inv :
    (n : ℕ) (q : Queue) (k : ℕ) (success : Bool)
    → Inv n q
    → k < n
    → Returns (Inv n) (fix q k success)
unfolding fix
fix-Inv n q k success i h =
    let (p, found) = find_total k [] q.elems (ground (arith, i.consistent.indexed k)) in
    let (same_array, _) = find_place k [] q.elems found in rw found (answer p (sym same_array))
  where
    answer :
        (p : Place)
        → q.elems ≡ rejoin p.left (p.elem ∷ p.right)
        → Inv n (fix_at q p (if success then succ p.elem else fail p.elem))
    answer p place =
        let r =
          (All-rejoin_parts InRange p.left (p.elem ∷ p.right)
            (rw place at i.consistent.ranged)).1.0 in
        fix_at-Inv n q p (if success then succ p.elem else fail p.elem) i.consistent place
          (choice-InRange success p.elem r) (choice-index success p.elem) (omega arith) i.balanced
