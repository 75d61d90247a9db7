-- ===== src/Failover/Queue/Balance.antt =====
-- The end of failover.go's `fix`: when every score has drifted to one side of the middle, all of
-- them are moved by one offset, which stays in range and leaves scores on both sides.
use chrome.Base.{
  ℕ, ◌+◌, ◌*◌, ◌/◌, ◌≤◌, ◌<◌, ◌≡◌, ◌≢◌, refl, sym, ◌∙◌, ◌⊎◌, inl, inr, List, [], ◌∷◌, arith, All,
  sum_by, length, ap,
}
use chrome.Base.Int.{
  ℤ, pos, ◌+ℤ◌, ◌-ℤ◌, ◌≤ℤ◌, pos_part, neg_part, int_laws, div_ℤ, +ℤ_parts, parts_of_eq, eq_of_parts,
  one_part,
}
use native.Mathlib.Nat.{div-le_of_le-mul, le-div_iff_mul-le}
use chrome.Failover.Elem.{Elem}
use chrome.Failover.Queue.{total_score, shift, offset_of}
use chrome.Failover.Queue.Counts.{lows, highs, length-shift}

-- Every score lies between two bounds.
abbrev pub Within : ℕ → ℕ → List Elem → Type 0
Within lo hi = All (λ e. (pos lo ≤ℤ e.score) × (e.score ≤ℤ pos hi))

abbrev pub total : List Elem → ℕ
total = sum_by (λ e. pos_part e.score)

total_bounds :
    (lo hi : ℕ) (xs : List Elem)
    → Within lo hi xs
    → (lo * length xs ≤ total xs) × (total xs ≤ hi * length xs)
total_bounds lo hi [] h = (omega arith, omega arith)
total_bounds lo hi (x ∷ xs) h =
    let (a, b) = total_bounds lo hi xs h.1 in
    (omega (arith, one_part x.score), omega (arith, one_part x.score))

total_score-eq-total : (hi : ℕ) (xs : List Elem) → Within 0 hi xs → total_score xs ≡ pos (total xs)
unfolding total_score
total_score-eq-total hi [] h = refl
total_score-eq-total hi (x ∷ xs) h =
    eq_of_parts _ _
      (omega (int_laws, parts_of_eq (total_score-eq-total hi xs h.1), one_part x.score))

pub lows-le : (xs : List Elem) → lows xs ≤ length xs
lows-le [] = omega arith
lows-le (x ∷ xs) = ground (arith, lows-le xs)

pub highs-le : (xs : List Elem) → highs xs ≤ length xs
highs-le [] = omega arith
highs-le (x ∷ xs) = ground (arith, highs-le xs)

-- All low, or all high.
all_low : (xs : List Elem) → Within 0 64 xs → lows xs ≡ length xs → Within 0 31 xs
all_low [] w h = tt
all_low (x ∷ xs) w h = (ground (arith, lows-le xs), all_low xs w.1 (ground (arith, lows-le xs)))

all_high : (xs : List Elem) → Within 0 64 xs → highs xs ≡ length xs → Within 33 64 xs
all_high [] w h = tt
all_high (x ∷ xs) w h = (ground (arith, highs-le xs), all_high xs w.1 (ground (arith, highs-le xs)))

average_bounds : (lo hi n t : ℕ) → 0 < n → lo * n ≤ t → t ≤ hi * n → (lo ≤ t / n) × (t / n ≤ hi)
average_bounds lo hi n t h p q = (
  ground (arith, le-div_iff_mul-le {x = lo} {y = t} h),
  div-le_of_le-mul n {m = t} {n = hi} (omega arith),
)

div_bounds : (n t : ℕ) → 0 < n → (t / n * n ≤ t) × (t < t / n * n + n)
div_bounds n t h = grind arith

module _ (xs : List Elem) (nonempty : 0 < length xs) where
  offset_lem : Within 0 64 xs → offset_of xs ≡ pos 32 -ℤ pos (total xs / length xs)
  unfolding offset_of div_ℤ
  offset_lem w = ap (λ (t : ℤ). pos 32 -ℤ div_ℤ t (length xs)) (total_score-eq-total 64 xs w)

module _ (d : ℤ) where
  shift-Within :
      (lo hi lo' hi' : ℕ) (xs : List Elem)
      → pos lo' ≤ℤ pos lo +ℤ d
      → pos hi +ℤ d ≤ℤ pos hi'
      → Within lo hi xs
      → Within lo' hi' (shift d xs)
  unfolding shift
  shift-Within lo hi lo' hi' [] p q w = tt
  shift-Within lo hi lo' hi' (x ∷ xs) p q w =
      ((omega int_laws, omega int_laws), shift-Within lo hi lo' hi' xs p q w.1)

  total-shift :
      (hi hi' : ℕ) (xs : List Elem)
      → Within 0 hi xs
      → Within 0 hi' (shift d xs)
      → total (shift d xs) + neg_part d * length xs ≡ total xs + pos_part d * length xs
  unfolding shift
  total-shift hi hi' [] w w' = omega arith
  total-shift hi hi' (x ∷ xs) w w' = omega (
    int_laws,
    one_part x.score,
    one_part (x.score +ℤ d),
    total-shift hi hi' xs w.1 w'.1,
    +ℤ_parts x.score d,
  )

-- One offset of 32 minus the average puts scores of one side on both sides.
module _ (xs : List Elem) (d : ℤ) (a : ℕ) (nonempty : 0 < length xs) where
  mixed_after :
      d ≡ pos 32 -ℤ pos a
      → a * length xs ≤ total xs
      → total xs < a * length xs + length xs
      → Within 0 64 xs
      → Within 0 64 (shift d xs)
      → (lows (shift d xs) ≢ length xs) × (highs (shift d xs) ≢ length xs)
  mixed_after e p q w w' = (not_low, not_high)
    where
      moved : total (shift d xs) + a * length xs ≡ total xs + 32 * length xs
      moved =
          let f : pos_part d + a ≡ 32 + neg_part d = omega (int_laws, parts_of_eq e) in
          omega (arith, total-shift d 64 64 xs w w', ap (λ (t : ℕ). t * length xs) f)

      not_low : lows (shift d xs) ≢ length xs
      not_low h = absurd (
          omega (
            arith,
            moved,
            length-shift d xs,
            (total_bounds 0 31 (shift d xs)
                (all_low (shift d xs) w' (h ∙ sym (length-shift d xs)))).1,
          ))

      not_high : highs (shift d xs) ≢ length xs
      not_high h = absurd (
          omega (
            arith,
            moved,
            length-shift d xs,
            (total_bounds 33 64 (shift d xs)
                (all_high (shift d xs) w' (h ∙ sym (length-shift d xs)))).0,
          ))

-- What `rebalance` gets: scores in range, all of them low or all of them high.
abbrev pub IsOneSided : List Elem → Type 0
IsOneSided xs = (lows xs ≡ length xs) ⊎ (highs xs ≡ length xs)

abbrev pub IsBalanced : List Elem → Type 0
IsBalanced xs = (lows xs < length xs) × (highs xs < length xs)

module _ (xs : List Elem) (nonempty : 0 < length xs) (w : Within 0 64 xs) where
  shift_in_range : IsOneSided xs → Within 0 64 (shift (offset_of xs) xs)
  shift_in_range (inl h) =
      let (p, q) = total_bounds 0 31 xs (all_low xs w h) in
      let (a, b) = average_bounds 0 31 (length xs) (total xs) nonempty p q in
      shift-Within (offset_of xs) 0 31 0 64 xs
        (omega (int_laws, parts_of_eq (offset_lem xs nonempty w), b))
        (omega (int_laws, parts_of_eq (offset_lem xs nonempty w), b)) (all_low xs w h)
  shift_in_range (inr h) =
      let (p, q) = total_bounds 33 64 xs (all_high xs w h) in
      let (a, b) = average_bounds 33 64 (length xs) (total xs) nonempty p q in
      shift-Within (offset_of xs) 33 64 0 64 xs
        (omega (int_laws, parts_of_eq (offset_lem xs nonempty w), a, b))
        (omega (int_laws, parts_of_eq (offset_lem xs nonempty w), a, b)) (all_high xs w h)

  -- For a nonempty list of scores in 0..64 that are all below 32 or all above 32, the offset
  -- that fix adds keeps every score in 0..64, and afterwards some score is not below 32 and
  -- some score is not above 32.
  pub shift_offset :
      IsOneSided xs → Within 0 64 (shift (offset_of xs) xs) × IsBalanced (shift (offset_of xs) xs)
  shift_offset h =
      let w' = shift_in_range h in
      let (p, q) = div_bounds (length xs) (total xs) nonempty in
      let (l, r) =
        mixed_after xs (offset_of xs) (total xs / length xs) nonempty (offset_lem xs nonempty w) p q
          w w' in
      let n = length-shift (offset_of xs) xs in
      (
        w',
        (
          omega (arith, l, n, lows-le (shift (offset_of xs) xs)),
          omega (arith, r, n, highs-le (shift (offset_of xs) xs)),
        ),
      )
