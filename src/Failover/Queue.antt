-- ===== src/Failover/Queue.antt =====
-- The struct `queue` of failover.go and its methods, each run under the queue's mutex. The array of
-- pointers `elems` is the list of the elements themselves: a pointer is an element's `index`, which
-- `newElem` makes unique. `none` is a panic, by an index out of range or a division by zero.
pub mod Order
pub mod Counts
pub mod Pick
pub mod Invariant
pub mod Fix
pub mod New
pub mod Balance
use chrome.Base.{
  ℕ, zero, suc, ◌+◌, Bool, true, false, ◌==◌, ◌&&◌, List, [], ◌∷◌, Option, none, some, length,
  get_elem?, if◌then◌else◌,
}
use chrome.Base.Int.{ℤ, pos, ◌+ℤ◌, ◌-ℤ◌, div_ℤ, ltb_ℤ, leb_ℤ, eqb_ℤ}
use chrome.Base.Search.{search}
use chrome.Failover.Elem.{Elem, mid_score, new_elem, succ, fail}

pub record Queue : Type 0 where
  pub elems : List Elem
  pub recent : Option ℕ
  pub n_low_score : ℤ
  pub n_high_score : ℤ

-- The elements numbered from `i` on.
unfoldable pub new_elems : ℕ → ℕ → List Elem
new_elems i zero = []
new_elems i (suc n) = new_elem i ∷ new_elems (i + 1) n

unfoldable pub new_queue : ℕ → Queue
new_queue n = record {
  elems = new_elems 0 n;
  recent = none;
  n_low_score = pos 0;
  n_high_score = pos 0;
}

-- `s[i].Score`, read only at an index in range.
abbrev pub score_at : List Elem → ℕ → ℤ
score_at [] i = pos 0
score_at (x ∷ xs) zero = x.score
score_at (x ∷ xs) (suc i) = score_at xs i

-- How many elements share the score of the first, `x`.
unfoldable pub candidates : Elem → List Elem → ℕ
candidates x xs = search (length xs) (λ i. ltb_ℤ (score_at xs i) x.score) + 1

abbrev pub same_elem : Option ℕ → ℕ → Bool
same_elem none i = false
same_elem (some j) i = j == i

abbrev pub take_elem : Queue → Option Elem → Option (Queue × Elem × Bool)
take_elem q none = none
take_elem q (some e) = some (record q { recent = some e.index }, e, same_elem q.recent e.index)

abbrev pub pick_from : (ℕ → ℕ) → Queue → List Elem → Option (Queue × Elem × Bool)
pick_from int_n q [] = none
pick_from int_n q (x ∷ xs) = take_elem q (get_elem? (x ∷ xs) (int_n (candidates x xs)))

-- `rand.IntN` is the argument `int_n`.
unfoldable pub pick : (ℕ → ℕ) → Queue → Option (Queue × Elem × Bool)
pick int_n q = pick_from int_n q q.elems

unfoldable pub score_changed : ℤ → ℤ → Queue → Queue
unfolding ◌+ℤ◌ ◌-ℤ◌
score_changed old new q =
    if ltb_ℤ old mid_score
    then if ltb_ℤ mid_score new
      then record q { n_low_score = n_low_score -ℤ pos 1; n_high_score = n_high_score +ℤ pos 1 }
      else if eqb_ℤ new mid_score
      then record q { n_low_score = n_low_score -ℤ pos 1 }
      else q
    else if ltb_ℤ mid_score old
    then if ltb_ℤ new mid_score
      then record q { n_low_score = n_low_score +ℤ pos 1; n_high_score = n_high_score -ℤ pos 1 }
      else if eqb_ℤ new mid_score
      then record q { n_high_score = n_high_score -ℤ pos 1 }
      else q
    else if ltb_ℤ new mid_score
    then record q { n_low_score = n_low_score +ℤ pos 1 }
    else if ltb_ℤ mid_score new
    then record q { n_high_score = n_high_score +ℤ pos 1 }
    else q
  where
    open q use {n_low_score, n_high_score}

-- A place in the array: the elements before it, the nearest one first, the element and those after.
pub record Place : Type 0 where
  pub left : List Elem
  pub elem : Elem
  pub right : List Elem

-- The array of which `left`, the nearest first, and `right` are the two parts.
abbrev pub rejoin : List Elem → List Elem → List Elem
rejoin [] right = right
rejoin (p ∷ left) right = rejoin left (p ∷ right)

-- `slices.Index`, by the identity of the pointers.
unfoldable pub find : ℕ → List Elem → List Elem → Option Place
find k left [] = none
find k left (x ∷ xs) =
    if x.index == k
    then some (record { left = left; elem = x; right = xs })
    else find k (x ∷ left) xs

-- The first loop: `x`, at `j`, trades places with the next element while its score is lower.
unfoldable pub sink : Elem → List Elem → List Elem
sink x [] = x ∷ []
sink x (y ∷ ys) = if leb_ℤ y.score x.score then x ∷ y ∷ ys else y ∷ sink x ys

-- The second loop: `x`, at `j`, trades places with the one before it while its score is higher.
unfoldable pub rise : List Elem → Elem → List Elem → List Elem
rise [] x right = x ∷ right
rise (p ∷ left) x right =
    let up = rise left x (p ∷ right) in
    if leb_ℤ x.score p.score then rejoin (p ∷ left) (x ∷ right) else up

-- Both loops start at the place of the changed element.
abbrev rise_head : List Elem → List Elem → List Elem
rise_head left [] = rejoin left []
rise_head left (x ∷ right) = rise left x right

unfoldable pub reorder : Place → List Elem
reorder p = rise_head p.left (sink p.elem p.right)

unfoldable pub total_score : List Elem → ℤ
total_score [] = pos 0
total_score (x ∷ xs) = x.score +ℤ total_score xs

-- The last loop: every score moves by `offset`, and each move is counted.
unfoldable pub shift : ℤ → List Elem → List Elem
shift offset [] = []
shift offset (x ∷ xs) = record x { score = x.score +ℤ offset } ∷ shift offset xs

unfoldable pub count_shift : ℤ → List Elem → Queue → Queue
count_shift offset [] q = q
count_shift offset (x ∷ xs) q = count_shift offset xs (score_changed x.score (x.score +ℤ offset) q)

unfoldable pub offset_of : List Elem → ℤ
offset_of s = mid_score -ℤ div_ℤ (total_score s) (length s)

unfoldable pub rebalance : Queue → Queue
rebalance q =
    let offset = offset_of q.elems in
    record (count_shift offset q.elems q) { elems = shift offset q.elems }

-- The test after which `fix` returns early.
unfoldable pub is_mixed : Queue → Bool
is_mixed q =
    ltb_ℤ q.n_low_score (pos (length q.elems)) && ltb_ℤ q.n_high_score (pos (length q.elems))

-- `fix` at the place of `e`, whose new value is `e'`.
unfoldable pub fix_at : Queue → Place → Elem → Queue
fix_at q p e' =
    if eqb_ℤ e'.score p.elem.score
    then record q { elems = rejoin p.left (e' ∷ p.right) }
    else (let q' =
          score_changed p.elem.score e'.score
            (record q { elems = reorder (record p { elem = e' }) }) in
        if is_mixed q' then q' else rebalance q')

abbrev pub fix_place : Queue → Bool → Option Place → Option Queue
fix_place q success none = none
fix_place q success (some p) = some (fix_at q p (if success then succ p.elem else fail p.elem))

unfoldable pub fix : Queue → ℕ → Bool → Option Queue
fix q k success = fix_place q success (find k [] q.elems)
