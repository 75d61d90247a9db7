-- ===== src/Failover/Queue/Pick.antt =====
-- failover.go's `pick` draws among the elements that share the highest score.
use chrome.Base.{
  ℕ, suc, zero, ◌≤◌, ◌<◌, ◌≡◌, ◌↔◌, refl, sym, ◌∙◌, Bool, true, List, [], ◌∷◌, Option, none, some,
  arith, length, get_elem?,
}
use chrome.Base.Int.{◌≤ℤ◌, ltb_ℤ, eq_of_parts}
use chrome.Base.Search.{search-Splits, IsMonotone}
use chrome.Failover.Elem.{Elem}
use chrome.Failover.Queue.{Queue, candidates, score_at, pick, pick_from, take_elem, same_elem}
use chrome.Failover.Queue.Order.{IsDescending, Tops, Tops-cong}
use chrome.Failover.Queue.Invariant.{Inv}

Tops-score_at :
    (x : Elem) (xs : List Elem) (i : ℕ) → Tops x xs → i < length xs → score_at xs i ≤ℤ x.score
Tops-score_at x [] i h k = absurd (omega arith)
Tops-score_at x (y ∷ ys) zero h k = h.0
Tops-score_at x (y ∷ ys) (suc i) h k = Tops-score_at x ys i h.1 (omega arith)

score_at-antitone :
    (xs : List Elem) (i j : ℕ)
    → IsDescending xs
    → i ≤ j
    → j < length xs
    → score_at xs j ≤ℤ score_at xs i
score_at-antitone [] i j h p q = absurd (omega arith)
score_at-antitone (x ∷ xs) zero zero h p q = omega arith
score_at-antitone (x ∷ xs) zero (suc j) h p q = Tops-score_at x xs j h.0 (omega arith)
score_at-antitone (x ∷ xs) (suc i) zero h p q = absurd (omega arith)
score_at-antitone (x ∷ xs) (suc i) (suc j) h p q =
    score_at-antitone xs i j h.1 (omega arith) (omega arith)

get_elem?-score_at :
    (xs : List Elem) (i : ℕ)
    → i < length xs
    → (e : Elem) × (get_elem? xs i ≡ some e) × (score_at xs i ≡ e.score)
get_elem?-score_at [] i h = absurd (omega arith)
get_elem?-score_at (x ∷ xs) zero h = (x, refl, refl)
get_elem?-score_at (x ∷ xs) (suc i) h = get_elem?-score_at xs i (omega arith)

candidates_pos : (x : Elem) (xs : List Elem) → 0 < candidates x xs
unfolding candidates
candidates_pos x xs = omega arith

module _ (x : Elem) (xs : List Elem) (sorted : IsDescending (x ∷ xs)) where
  below : ℕ → Bool
  below i = ltb_ℤ (score_at xs i) x.score

  below-IsMonotone : IsMonotone (length xs) below
  unfolding below
  below-IsMonotone i j p q h = ground (arith, score_at-antitone xs i j sorted.1 p q)

  pub candidates_inside : (i : ℕ) → i < candidates x xs → i < length (x ∷ xs)
  unfolding candidates below
  candidates_inside i p = omega (arith, (search-Splits (length xs) below below-IsMonotone).inside)

  -- In an array in descending order of score, a position is among those that pick draws from
  -- exactly when the score there is the score at the front.
  pub candidates_iff :
      (i : ℕ) → i < length (x ∷ xs) → (i < candidates x xs) ↔ (score_at (x ∷ xs) i ≡ x.score)
  unfolding candidates below
  candidates_iff zero h = (λ _. refl, λ _. omega arith)
  candidates_iff (suc i) h =
      let s = search-Splits (length xs) below below-IsMonotone in
      (
        λ p.
            eq_of_parts _ _
              (ground (arith, s.before i, Tops-score_at x xs i sorted.0 (omega arith))),
        λ e. ground (arith, s.after i),
      )

-- Where `rand.IntN` keeps its contract, `pick` does not panic: it returns an element of the queue
-- that no other one exceeds, remembers it as `recent`, says whether it was the recent one before,
-- and leaves all else as it was.
pub record Picked (q q' : Queue) (e : Elem) (same : Bool) : Type 0 where
  pub best : Tops e q.elems
  pub member : (i : ℕ) × (get_elem? q.elems i ≡ some e)
  pub unchanged : q' ≡ record q { recent = some e.index }
  pub repeated : (same ≡ true) ↔ (q.recent ≡ some e.index)

abbrev pub Picks : Queue → Option (Queue × Elem × Bool) → Type 0
Picks q none = ⊥
Picks q (some (q', e, same)) = Picked q q' e same

same_elem_iff : (o : Option ℕ) (k : ℕ) → (same_elem o k ≡ true) ↔ (o ≡ some k)
same_elem_iff none k = (λ h. cc, λ h. cc)
same_elem_iff (some j) k = ground arith

take_elem-Picks :
    (q : Queue) (i : ℕ) (e : Elem)
    → get_elem? q.elems i ≡ some e
    → Tops e q.elems
    → Picks q (take_elem q (some e))
take_elem-Picks q i e g t = record {
  best = t;
  member = (i, g);
  unchanged = refl;
  repeated = same_elem_iff q.recent e.index;
}

Tops-first : (x e : Elem) (xs : List Elem) → Tops x xs → e.score ≡ x.score → Tops e (x ∷ xs)
Tops-first x e xs t h = (rw h (omega arith), Tops-cong x e xs h t)

draw-Picks :
    (q : Queue) (x : Elem) (xs : List Elem) (i : ℕ)
    → q.elems ≡ x ∷ xs
    → IsDescending (x ∷ xs)
    → i < candidates x xs
    → Picks q (take_elem q (get_elem? (x ∷ xs) i))
draw-Picks q x xs i h sorted p =
    let inside : i < length (x ∷ xs) = candidates_inside x xs sorted i p in
    let (e, g, s) = get_elem?-score_at (x ∷ xs) i inside in
    rw g (
      take_elem-Picks q i e (rw h g)
        (rw h (Tops-first x e xs sorted.0 (sym s ∙ (candidates_iff x xs sorted i inside).0 p))))

module _ (int_n : ℕ → ℕ) (draws : (m : ℕ) → 0 < m → int_n m < m) where
  pick_from-Picks :
      (q : Queue) (xs : List Elem)
      → q.elems ≡ xs
      → 0 < length xs
      → IsDescending xs
      → Picks q (pick_from int_n q xs)
  pick_from-Picks q [] h k s = absurd (omega arith)
  pick_from-Picks q (x ∷ xs) h k s =
      draw-Picks q x xs (int_n (candidates x xs)) h s
        (draws (candidates x xs) (candidates_pos x xs))

  -- If the random source draws below its argument, pick on a nonempty queue that satisfies the
  -- invariant does not panic: it returns an element of the array that no other one exceeds in
  -- score, the new queue differs from the old only in that it remembers this element, and the
  -- flag is true exactly when the element is the one remembered before.
  pub pick-Picks : (n : ℕ) (q : Queue) → 0 < n → Inv n q → Picks q (pick int_n q)
  unfolding pick
  pick-Picks n q h i =
      pick_from-Picks q q.elems refl (omega (arith, i.consistent.size)) i.consistent.sorted
