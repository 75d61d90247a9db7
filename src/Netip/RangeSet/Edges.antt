-- ===== src/Netip/RangeSet/Edges.antt =====
-- Where the range that rangeset.go's `AddRange` writes begins and ends, and what gives way to it.
use chrome.Base.{
  ℕ, suc, ◌+◌, ◌-◌, ◌≤◌, ◌<◌, ◌≡◌, refl, Bool-cases, inl, inr, arith, length, ltb, leb,
}
use chrome.Netip.Addr.{Addr, rank}
use chrome.Netip.RangeSet.{AddrRangeSet, low_at, high_at, extend_low, extend_high}
use chrome.Netip.RangeSet.Splice.{get_elem?-at}
use chrome.Netip.RangeSet.Invariant.{IsApart, LowIndex, HighIndex, high_at_mono, low_at_mono}

-- Where the new range begins, `i0` being the first range that begins after `lo`: at `lo`, or with
-- the range before `i0` where that reaches `lo`.
pub record LowEdge (s : AddrRangeSet) (lo : Addr) (i0 : ℕ) (lo' : Addr) (i : ℕ) : Type 0 where
  pub within : (i ≤ i0) × (i0 ≤ suc i)
  pub clear : (k : ℕ) → k < i → high_at s k < rank lo'
  pub reach : rank lo' ≤ rank lo
  pub rest : (k : ℕ) → i ≤ k → k < length s → rank lo' ≤ low_at s k
  pub joined : i < i0 → (rank lo' ≡ low_at s i) × (rank lo ≤ high_at s i)
  pub alone : i0 ≤ i → rank lo' ≡ rank lo

pub record HighEdge (s : AddrRangeSet) (off : ℕ) (hi : Addr) (j0 : ℕ) (hi' : Addr) (j : ℕ)
    : Type 0 where
  pub within : (j0 ≤ j) × (j ≤ suc j0)
  pub inside : j ≤ length s
  pub clear : (k : ℕ) → j ≤ k → k < length s → rank hi' < low_at s k
  pub reach : rank hi ≤ rank hi'
  pub rest : (k : ℕ) → off ≤ k → k < j → high_at s k ≤ rank hi'
  pub joined : j0 < j → (rank hi' ≡ high_at s j0) × (low_at s j0 ≤ rank hi)
  pub alone : j ≤ j0 → rank hi' ≡ rank hi

module _ (s : AddrRangeSet) (a : IsApart s) where
  module _ (lo : Addr) (i0 : ℕ) (x : LowIndex s a lo i0) where
    low_alone : ((k : ℕ) → k < i0 → high_at s k < rank lo) → LowEdge s lo i0 lo i0
    low_alone c = record {
      within = (omega arith, omega arith);
      clear = c;
      reach = omega arith;
      rest = λ k p q. omega (arith, x.after k p q);
      joined = λ h. absurd (omega arith);
      alone = λ h. refl;
    }

    low_joined :
        (i : ℕ) (lo' : Addr)
        → i0 ≡ suc i
        → rank lo' ≡ low_at s i
        → rank lo ≤ high_at s i
        → LowEdge s lo i0 lo' i
    low_joined i lo' e l h = record {
      within = (omega arith, omega arith);
      clear = λ k p. omega (arith, a.gap k i p (omega (arith, x.inside)));
      reach = omega (arith, x.before i (omega arith));
      rest = λ k p q. omega (arith, low_at_mono s a i k p q);
      joined = λ p. (l, h);
      alone = λ p. absurd (omega arith);
    }

    pub extend_low-LowEdge : LowEdge s lo i0 (extend_low s lo i0).0 (extend_low s lo i0).1
    unfolding extend_low
    extend_low-LowEdge = elim (Bool-cases (ltb 0 i0)) [
      | inr z ↦ rw z (low_alone (λ k p. absurd (ground arith)))
      | inl p ↦
          let (r, g, l, h) = get_elem?-at s (i0 - 1) (ground (arith, x.inside)) in
          rw (p, g)
            (elim (Bool-cases (leb (rank lo) (rank r.high))) [
              | inl e ↦ rw e (low_joined (i0 - 1) r.low (ground arith) l (ground arith))
              | inr e ↦
                  rw e (low_alone (λ k q. ground (arith, high_at_mono s a k (i0 - 1), x.inside)))
            ])
    ]

  module _ (off : ℕ) (hi : Addr) (j0 : ℕ) (x : HighIndex s a off hi j0) where
    high_alone :
        ((k : ℕ) → j0 ≤ k → k < length s → rank hi < low_at s k) → HighEdge s off hi j0 hi j0
    high_alone c = record {
      within = (omega arith, omega arith);
      inside = x.inside;
      clear = c;
      reach = omega arith;
      rest = x.before;
      joined = λ h. absurd (omega arith);
      alone = λ h. refl;
    }

    high_joined :
        (hi' : Addr)
        → j0 < length s
        → rank hi' ≡ high_at s j0
        → low_at s j0 ≤ rank hi
        → HighEdge s off hi j0 hi' (j0 + 1)
    high_joined hi' i e l = record {
      within = (omega arith, omega arith);
      inside = omega arith;
      clear = λ k p q. omega (arith, a.gap j0 k (omega arith) q);
      reach = omega (arith, x.after j0 (omega arith) i);
      rest = λ k p q. omega (arith, high_at_mono s a k j0 (omega arith) i);
      joined = λ p. (e, l);
      alone = λ p. absurd (omega arith);
    }

    pub extend_high-HighEdge : HighEdge s off hi j0 (extend_high s hi j0).0 (extend_high s hi j0).1
    unfolding extend_high
    extend_high-HighEdge = elim (Bool-cases (ltb j0 (length s))) [
      | inr z ↦ rw z (high_alone (λ k p q. absurd (ground arith)))
      | inl p ↦
          let (r, g, l, h) = get_elem?-at s j0 (ground arith) in
          rw (p, g)
            (elim (Bool-cases (leb (rank r.low) (rank hi))) [
              | inl e ↦ rw e (high_joined r.high (ground arith) h (ground arith))
              | inr e ↦ rw e (high_alone (λ k q u. ground (arith, low_at_mono s a j0 k)))
            ])
    ]
