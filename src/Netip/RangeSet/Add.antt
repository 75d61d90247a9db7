-- ===== src/Netip/RangeSet/Add.antt =====
-- rangeset.go's `AddRange` adds the addresses of a range, and keeps the ranges sorted and apart.
use chrome.Base.{
  ℕ, ◌-◌, ◌≤◌, ◌<◌, ◌≡◌, ◌↔◌, ap, Bool-cases, ◌⊎◌, inl, inr, ◌∷◌, ◌++◌, arith, length, take, drop,
  ltb, if◌then◌else◌, lt→ltb, ◌==◌,
}
use native.Mathlib.Decide.{dec_lt}
use chrome.Netip.Addr.{Addr, rank}
use chrome.Netip.RangeSet.{
  AddrRangeSet, low_index, high_index, extend_low, extend_high, put_range, add_range,
}
use chrome.Netip.RangeSet.Splice.{splice, take-set}
use chrome.Netip.RangeSet.Invariant.{
  IsApart, Covers, LowIndex, HighIndex, low_index-LowIndex, high_index-HighIndex,
}
use chrome.Netip.RangeSet.Edges.{LowEdge, HighEdge, extend_low-LowEdge, extend_high-HighEdge}
use chrome.Netip.RangeSet.Replace.{new-IsApart, Covers-new}

-- `put_range` is the splice, unless it has nothing to add.
put_range-splice :
    (s : AddrRangeSet) (lo' hi' : Addr) (i j : ℕ)
    → i ≤ j
    → j ≤ length s
    → (i ≡ j → rank lo' < rank hi')
    → put_range s (lo', i) (hi', j) ≡ splice i (record { low = lo'; high = hi' }) j s
unfolding put_range
put_range-splice s lo' hi' i j p q e = elim (Bool-cases (i == j)) [
  | inl b ↦
      rw (b, lt→ltb _ _ (e (ground arith)))
        (ap (λ k. take i s ++ record { low = lo'; high = hi' } ∷ drop k s) (ground arith))
  | inr b ↦ rw b (take-set i (record { low = lo'; high = hi' }) s (drop j s) (ground arith))
]

put_range_none :
    (s : AddrRangeSet) (lo' hi' : Addr) (i j : ℕ)
    → i ≡ j
    → ¬ (rank lo' < rank hi')
    → put_range s (lo', i) (hi', j) ≡ s
unfolding put_range
put_range_none s lo' hi' i j e n = ground arith

-- What `AddRange` promises of the new set.
pub record Added (s : AddrRangeSet) (lo hi : Addr) (t : AddrRangeSet) : Type 0 where
  pub apart : IsApart t
  pub covers : (v : ℕ) → Covers t v ↔ (Covers s v ⊎ ((rank lo ≤ v) × (v < rank hi)))

-- Nothing to add: the range is empty, or lies in one that is there.
unchanged :
    (s : AddrRangeSet) (lo hi : Addr)
    → IsApart s
    → ((v : ℕ) → rank lo ≤ v → v < rank hi → Covers s v)
    → Added s lo hi s
unchanged s lo hi a c = record { apart = a; covers = λ v. (inl, back v) }
  where
    back : (v : ℕ) → Covers s v ⊎ ((rank lo ≤ v) × (v < rank hi)) → Covers s v
    back v (inl x) = x
    back v (inr (p, q)) = c v p q

module _ (s : AddrRangeSet) (a : IsApart s) (lo hi lo' hi' : Addr) (i0 off j0 i j : ℕ)
    (x : LowIndex s a lo i0) (y : HighIndex s a off hi j0) (l : LowEdge s lo i0 lo' i)
    (h : HighEdge s off hi j0 hi' j) (start : off ≤ i) (order : i0 ≤ j0) where
  splice-Added :
      (i ≡ j → rank lo < rank hi) → Added s lo hi (splice i (record { low = lo'; high = hi' }) j s)
  splice-Added e = record {
    apart = new-IsApart s a lo hi lo' hi' i0 off j0 i j x y l h start order e;
    covers = Covers-new s a lo hi lo' hi' i0 off j0 i j x y l h start order;
  }

  put_range-Added : Added s lo hi (put_range s (lo', i) (hi', j))
  put_range-Added = elim (dec_lt i j) [
    | yes p ↦
        let e : i ≡ j → rank lo < rank hi = λ z. absurd (omega arith) in
        rw (put_range-splice s lo' hi' i j (omega arith) h.inside (λ z. absurd (omega arith)))
          (splice-Added e)
    | no p ↦ elim (dec_lt (rank lo) (rank hi)) [
      | yes q ↦
          rw
            (put_range-splice s lo' hi' i j (omega (arith, l.within, h.within)) h.inside
              (λ _. omega (arith, l.reach, h.reach)))
            (splice-Added (λ _. q))
      | no q ↦
          rw
            (put_range_none s lo' hi' i j (omega (arith, l.within, h.within))
              (omega (arith, l.alone, h.alone, l.within, h.within)))
            (unchanged s lo hi a (λ v u w. absurd (omega arith)))
    ]
  ]

abbrev offset : ℕ → ℕ
offset i = if ltb 0 i then i - 1 else 0

-- AddRange on a set of nonempty, sorted ranges with gaps gives such a set again, and the ranks
-- of addresses that it covers are those covered before and those from the low end up to below
-- the high end.
pub add_range-Added :
    (s : AddrRangeSet) (lo hi : Addr) → IsApart s → Added s lo hi (add_range s lo hi)
unfolding add_range
add_range-Added s lo hi a =
    let i0 = low_index s lo in
    let off = offset i0 in
    let j0 = high_index s off hi in
    let x = low_index-LowIndex s a lo in
    let y = high_index-HighIndex s a off hi (ground (arith, x.inside)) in
    elim (Bool-cases (ltb j0 i0)) [
      | inl b ↦ rw b (
          unchanged s lo hi a (λ v p q. (
            j0,
            ground (arith, x.inside),
            ground (arith, x.before j0),
            ground (arith, y.after j0, y.start, x.inside),
          )))
      | inr b ↦ rw b (
          put_range-Added s a lo hi (extend_low s lo i0).0 (extend_high s hi j0).0 i0 off j0
            (extend_low s lo i0).1 (extend_high s hi j0).1 x y (extend_low-LowEdge s a lo i0 x)
            (extend_high-HighEdge s a off hi j0 y)
            (ground (arith, (extend_low-LowEdge s a lo i0 x).within)) (ground arith))
    ]
