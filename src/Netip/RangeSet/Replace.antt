-- ===== src/Netip/RangeSet/Replace.antt =====
-- The range that rangeset.go's `AddRange` writes keeps the set apart and covers what it should.
use chrome.Base.{ℕ, suc, ◌+◌, ◌-◌, ◌≤◌, ◌<◌, ◌≡◌, ◌↔◌, ap, ◌∙◌, ◌⊎◌, inl, inr, arith, length, drop}
use native.Mathlib.Decide.{dec_lt}
use chrome.Netip.Addr.{Addr, rank}
use chrome.Netip.RangeSet.{AddrRange, AddrRangeSet, at, low_at, high_at}
use chrome.Netip.RangeSet.Splice.{
  splice, at-drop, at-splice_left, at-splice_mid, at-splice_right, length-splice,
}
use chrome.Netip.RangeSet.Invariant.{IsApart, Covers, LowIndex, HighIndex}
use chrome.Netip.RangeSet.Edges.{LowEdge, HighEdge}

-- The new range and what gives way to it, once both edges are known.
module _ (s : AddrRangeSet) (a : IsApart s) (lo hi lo' hi' : Addr) (i0 off j0 i j : ℕ)
    (x : LowIndex s a lo i0) (y : HighIndex s a off hi j0) (l : LowEdge s lo i0 lo' i)
    (h : HighEdge s off hi j0 hi' j) (start : off ≤ i) (order : i0 ≤ j0) where
  abbrev r : AddrRange
  r = record { low = lo'; high = hi' }

  abbrev new : AddrRangeSet
  new = splice i r j s

  i_inside : i ≤ length s
  i_inside = omega (arith, l.within, x.inside)

  nonempty_new : (i ≡ j → rank lo < rank hi) → rank lo' < rank hi'
  nonempty_new e = grind (
    arith,
    l.within,
    h.within,
    l.reach,
    h.reach,
    l.joined,
    l.alone,
    h.joined,
    h.alone,
    x.after i0,
    y.before i0,
    y.after j0,
    a.nonempty i,
    a.nonempty i0,
    y.before i,
    h.inside,
    y.inside,
  )

  at_left : (f : AddrRange → ℕ) (k : ℕ) → k < i → at f new k ≡ at f s k
  at_left f k p = at-splice_left f r (drop j s) i k s i_inside p

  at_mid : (f : AddrRange → ℕ) → at f new i ≡ f r
  at_mid f = at-splice_mid f r (drop j s) i s i_inside

  at_right : (f : AddrRange → ℕ) (k : ℕ) → i < k → at f new k ≡ at f s (j + (k - i - 1))
  at_right f k p =
      let e : i + suc (k - i - 1) ≡ k = omega arith in
      rw e at (at-splice_right f r (drop j s) i (k - i - 1) s i_inside ∙ at-drop f j (k - i - 1) s)

  -- A range from `j` on, at its new position.
  at_old : (f : AddrRange → ℕ) (k : ℕ) → j ≤ k → at f new (i + suc (k - j)) ≡ at f s k
  at_old f k p =
      at-splice_right f r (drop j s) i (k - j) s i_inside
      ∙ at-drop f j (k - j) s
      ∙ ap (at f s) (omega arith)

  length-new : length new ≡ i + suc (length s - j)
  length-new = length-splice i j r s i_inside

  module _ (e : i ≡ j → rank lo < rank hi) where
    new-nonempty : (k : ℕ) → k < length new → low_at new k < high_at new k
    new-nonempty k p = elim (dec_lt k i) [
      | yes q ↦
          rw (at_left (λ z. rank z.low) k q, at_left (λ z. rank z.high) k q)
            (a.nonempty k (omega (arith, i_inside)))
      | no q ↦ elim (dec_lt i k) [
        | yes u ↦
            rw (at_right (λ z. rank z.low) k u, at_right (λ z. rank z.high) k u)
              (a.nonempty (j + (k - i - 1)) (omega (arith, length-new, h.inside)))
        | no u ↦
            let w : k ≡ i = omega arith in
            rw (w, at_mid (λ z. rank z.low), at_mid (λ z. rank z.high)) (nonempty_new e)
      ]
    ]

    left_gap : (k m : ℕ) → k < i → ¬ (m < i) → m < length new → high_at s k < low_at new m
    left_gap k m u q z = elim (dec_lt i m) [
      | yes t ↦ rw (at_right (λ z. rank z.low) m t) (
          a.gap k (j + (m - i - 1)) (omega (arith, l.within, h.within))
            (omega (arith, length-new, h.inside)))
      | no t ↦ let w : m ≡ i = omega arith in rw (w, at_mid (λ z. rank z.low)) (l.clear k u)
    ]

    right_gap :
        (k m : ℕ) → k < m → ¬ (k < i) → m < length new → high_at new k < low_at s (j + (m - i - 1))
    right_gap k m p u z = elim (dec_lt i k) [
      | yes t ↦ rw (at_right (λ z. rank z.high) k t) (
          a.gap (j + (k - i - 1)) (j + (m - i - 1)) (omega arith)
            (omega (arith, length-new, h.inside)))
      | no t ↦
          let w : k ≡ i = omega arith in
          rw (w, at_mid (λ z. rank z.high))
            (h.clear (j + (m - i - 1)) (omega arith) (omega (arith, length-new, h.inside)))
    ]

    new-gap : (k m : ℕ) → k < m → m < length new → high_at new k < low_at new m
    new-gap k m p z = elim (dec_lt m i) [
      | yes q ↦
          rw (at_left (λ z. rank z.high) k (omega arith), at_left (λ z. rank z.low) m q)
            (a.gap k m p (omega (arith, i_inside)))
      | no q ↦ elim (dec_lt k i) [
        | yes u ↦ rw (at_left (λ z. rank z.high) k u) (left_gap k m u q z)
        | no u ↦ rw (at_right (λ z. rank z.low) m (omega arith)) (right_gap k m p u z)
      ]
    ]

    pub new-IsApart : IsApart new
    new-IsApart = record { nonempty = new-nonempty; gap = new-gap }

  old-Covers : (v k : ℕ) → k < length s → low_at s k ≤ v → v < high_at s k → Covers new v
  old-Covers v k p u w = elim (dec_lt k i) [
    | yes q ↦ (
      k,
      omega (arith, length-new),
      rw (at_left (λ z. rank z.low) k q) u,
      rw (at_left (λ z. rank z.high) k q) w,
    )
    | no q ↦ elim (dec_lt k j) [
      | yes t ↦ (
        i,
        omega (arith, length-new),
        rw (at_mid (λ z. rank z.low)) (omega (arith, l.rest k (omega arith) p)),
        rw (at_mid (λ z. rank z.high)) (omega (arith, h.rest k (omega arith) t)),
      )
      | no t ↦ (
        i + suc (k - j),
        omega (arith, length-new),
        rw (at_old (λ z. rank z.low) k (omega arith)) u,
        rw (at_old (λ z. rank z.high) k (omega arith)) w,
      )
    ]
  ]

  -- What the new range covers was covered, or lies in the added range.
  mid-Covers : (v : ℕ) → rank lo' ≤ v → v < rank hi' → Covers s v ⊎ ((rank lo ≤ v) × (v < rank hi))
  mid-Covers v u w = elim (dec_lt v (rank lo)) [
    | yes p ↦
        let q : i < i0 = grind (arith, l.alone) in
        inl (i, omega (arith, x.inside), omega (arith, l.joined q), omega (arith, l.joined q))
    | no p ↦ elim (dec_lt v (rank hi)) [
      | yes q ↦ inr (omega arith, q)
      | no q ↦
          let t : j0 < j = grind (arith, h.alone) in
          inl (j0, omega (arith, h.inside), omega (arith, h.joined t), omega (arith, h.joined t))
    ]
  ]

  new-Covers :
      (v k : ℕ)
      → k < length new
      → low_at new k ≤ v
      → v < high_at new k
      → Covers s v ⊎ ((rank lo ≤ v) × (v < rank hi))
  new-Covers v k p u w = elim (dec_lt k i) [
    | yes q ↦ inl (
      k,
      omega (arith, i_inside),
      rw (at_left (λ z. rank z.low) k q) at u,
      rw (at_left (λ z. rank z.high) k q) at w,
    )
    | no q ↦ elim (dec_lt i k) [
      | yes t ↦ inl (
        j + (k - i - 1),
        omega (arith, length-new, h.inside),
        rw (at_right (λ z. rank z.low) k t) at u,
        rw (at_right (λ z. rank z.high) k t) at w,
      )
      | no t ↦
          let e : k ≡ i = omega arith in
          mid-Covers v (rw (e, at_mid (λ z. rank z.low)) at u)
            (rw (e, at_mid (λ z. rank z.high)) at w)
    ]
  ]

  added-Covers : (v : ℕ) → rank lo ≤ v → v < rank hi → Covers new v
  added-Covers v u w = (
    i,
    omega (arith, length-new),
    rw (at_mid (λ z. rank z.low)) (omega (arith, l.reach)),
    rw (at_mid (λ z. rank z.high)) (omega (arith, h.reach)),
  )

  pub Covers-new : (v : ℕ) → Covers new v ↔ (Covers s v ⊎ ((rank lo ≤ v) × (v < rank hi)))
  Covers-new v = (λ (k, p, u, w). new-Covers v k p u w, back)
    where
      back : Covers s v ⊎ ((rank lo ≤ v) × (v < rank hi)) → Covers new v
      back (inl (k, p, u, w)) = old-Covers v k p u w
      back (inr (u, w)) = added-Covers v u w
