-- ===== src/Netip/RangeSet/Invariant.antt =====
-- What rangeset.go keeps of a range set, and what it means: by position, on the ranks of addresses.
use chrome.Base.{
  ℕ, ◌+◌, ◌-◌, ◌≤◌, ◌<◌, ◌≡◌, ◌↔◌, ap, Bool, true, arith, length, length-drop, drop, ltb,
}
use chrome.Base.Search.{search, search-Splits, IsMonotone}
use chrome.Netip.Addr.{Addr, rank}
use chrome.Netip.RangeSet.{AddrRangeSet, low_at, high_at, low_index, high_index, contains}
use chrome.Netip.RangeSet.Splice.{at-drop}

-- Every range holds an address, and there is a gap between any two.
pub record IsApart (s : AddrRangeSet) : Type 0 where
  pub nonempty : (i : ℕ) → i < length s → low_at s i < high_at s i
  pub gap : (i j : ℕ) → i < j → j < length s → high_at s i < low_at s j

-- The address of rank `v` lies in the range at some position.
abbrev pub Covers : AddrRangeSet → ℕ → Type 0
Covers s v = (i : ℕ) × (i < length s) × (low_at s i ≤ v) × (v < high_at s i)

shifted : (off k : ℕ) → off ≤ k → (f : ℕ → ℕ) → f (off + (k - off)) ≡ f k
shifted off k h f = ap f (omega arith)

module _ (s : AddrRangeSet) (a : IsApart s) where
  pub high_at_mono : (i j : ℕ) → i ≤ j → j < length s → high_at s i ≤ high_at s j
  high_at_mono i j p q = grind (arith, a.gap i j, a.nonempty j)

  pub low_at_mono : (i j : ℕ) → i ≤ j → j < length s → low_at s i ≤ low_at s j
  low_at_mono i j p q = grind (arith, a.gap i j, a.nonempty i)

  past : ℕ → ℕ → Bool
  past v i = ltb v (high_at s i)

  past-IsMonotone : (v : ℕ) → IsMonotone (length s) (past v)
  unfolding past
  past-IsMonotone v i j p q h = ground (arith, high_at_mono i j p q)

  -- On a set of nonempty, sorted ranges with gaps, the bisection of Contains answers true
  -- exactly when the address lies in the range at some position.
  pub contains_iff : (v : Addr) → (contains s v ≡ true) ↔ Covers s (rank v)
  unfolding contains past
  contains_iff v =
      let sp = search-Splits (length s) (past (rank v)) (past-IsMonotone (rank v)) in
      let i = search (length s) (past (rank v)) in
      (
        λ h. (i, ground arith, ground arith, ground (arith, sp.after i)),
        λ (k, p, l, q). ground (arith, sp.before k, low_at_mono i k),
      )

  starts_after : ℕ → ℕ → Bool
  starts_after lo i = ltb lo (low_at s i)

  starts_after-IsMonotone : (lo : ℕ) → IsMonotone (length s) (starts_after lo)
  unfolding starts_after
  starts_after-IsMonotone lo i j p q h = ground (arith, low_at_mono i j p q)

  -- The two searches of `AddRange`.
  pub record LowIndex (lo : Addr) (i : ℕ) : Type 0 where
    pub inside : i ≤ length s
    pub before : (k : ℕ) → k < i → low_at s k ≤ rank lo
    pub after : (k : ℕ) → i ≤ k → k < length s → rank lo < low_at s k

  pub record HighIndex (off : ℕ) (hi : Addr) (j : ℕ) : Type 0 where
    pub start : off ≤ j
    pub inside : j ≤ length s
    pub before : (k : ℕ) → off ≤ k → k < j → high_at s k ≤ rank hi
    pub after : (k : ℕ) → j ≤ k → k < length s → rank hi < high_at s k

  pub low_index-LowIndex : (lo : Addr) → LowIndex lo (low_index s lo)
  unfolding low_index starts_after
  low_index-LowIndex lo =
      let sp =
        search-Splits (length s) (starts_after (rank lo)) (starts_after-IsMonotone (rank lo)) in
      record {
        inside = sp.inside;
        before = λ k p. ground (arith, sp.before k p);
        after = λ k p q. ground (arith, sp.after k p q);
      }

  module _ (off : ℕ) (hi : Addr) where
    ends_after : ℕ → Bool
    ends_after i = ltb (rank hi) (high_at (drop off s) i)

    ends_after-IsMonotone : IsMonotone (length (drop off s)) ends_after
    unfolding ends_after
    ends_after-IsMonotone i j p q h = ground (
      arith,
      at-drop (λ r. rank r.high) off i s,
      at-drop (λ r. rank r.high) off j s,
      high_at_mono (off + i) (off + j),
      length-drop off s,
    )

    pub high_index-HighIndex : off ≤ length s → HighIndex off hi (high_index s off hi)
    unfolding high_index ends_after
    high_index-HighIndex h =
        let sp = search-Splits (length (drop off s)) ends_after ends_after-IsMonotone in
        record {
          start = omega arith;
          inside = omega (arith, sp.inside, length-drop off s);
          before = λ k p q. ground (
            arith,
            sp.before (k - off),
            at-drop (λ r. rank r.high) off (k - off) s,
            shifted off k p (high_at s),
          );
          after = λ k p q. ground (
            arith,
            sp.after (k - off),
            at-drop (λ r. rank r.high) off (k - off) s,
            length-drop off s,
            shifted off k (omega arith) (high_at s),
          );
        }
