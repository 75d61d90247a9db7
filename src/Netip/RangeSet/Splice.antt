-- ===== src/Netip/RangeSet/Splice.antt =====
-- A list in which the items from `i` to `j` have given way to one, as rangeset.go's `AddRange` leaves it.
use chrome.Base.{
  ℕ, zero, suc, ◌+◌, ◌-◌, ◌≤◌, ◌<◌, ◌≡◌, refl, ap, [], ◌∷◌, ◌++◌, some, arith, length,
  length-append, length-drop, length-take, get_elem?, set, take, drop,
}
use chrome.Netip.Addr.{rank}
use chrome.Netip.RangeSet.{AddrRange, AddrRangeSet, at, low_at, high_at}

abbrev pub splice : ℕ → AddrRange → ℕ → AddrRangeSet → AddrRangeSet
splice i r j s = take i s ++ r ∷ drop j s

pub take-set :
    (i : ℕ) (r : AddrRange) (s t : AddrRangeSet)
    → i < length s
    → take (i + 1) (set s i r) ++ t ≡ take i s ++ r ∷ t
take-set i r [] t h = absurd (omega arith)
take-set zero r (x ∷ s) t h = refl
take-set (suc i) r (x ∷ s) t h =
    let e : suc i + 1 ≡ suc (i + 1) = omega arith in
    rw e (ap (λ l. x ∷ l) (take-set i r s t (omega arith)))

pub get_elem?-at :
    (s : AddrRangeSet) (i : ℕ)
    → i < length s
    → (r : AddrRange) × (get_elem? s i ≡ some r)
      × (rank r.low ≡ low_at s i)
      × (rank r.high ≡ high_at s i)
get_elem?-at [] i h = absurd (omega arith)
get_elem?-at (x ∷ s) zero h = (x, refl, refl, refl)
get_elem?-at (x ∷ s) (suc i) h = get_elem?-at s i (omega arith)

module _ (f : AddrRange → ℕ) where
  pub at-drop : (j m : ℕ) (s : AddrRangeSet) → at f (drop j s) m ≡ at f s (j + m)
  at-drop zero m s = ap (at f s) (omega arith)
  at-drop (suc j) m [] = refl
  at-drop (suc j) m (x ∷ s) = let e : suc j + m ≡ suc (j + m) = omega arith in rw e (at-drop j m s)

  module _ (r : AddrRange) (t : AddrRangeSet) where
    pub at-splice_left :
        (i k : ℕ) (s : AddrRangeSet) → i ≤ length s → k < i → at f (take i s ++ r ∷ t) k ≡ at f s k
    at-splice_left zero k s h p = absurd (omega arith)
    at-splice_left (suc i) k [] h p = absurd (omega arith)
    at-splice_left (suc i) zero (x ∷ s) h p = refl
    at-splice_left (suc i) (suc k) (x ∷ s) h p = at-splice_left i k s (omega arith) (omega arith)

    pub at-splice_mid : (i : ℕ) (s : AddrRangeSet) → i ≤ length s → at f (take i s ++ r ∷ t) i ≡ f r
    at-splice_mid zero s h = refl
    at-splice_mid (suc i) [] h = absurd (omega arith)
    at-splice_mid (suc i) (x ∷ s) h = at-splice_mid i s (omega arith)

    pub at-splice_right :
        (i m : ℕ) (s : AddrRangeSet)
        → i ≤ length s
        → at f (take i s ++ r ∷ t) (i + suc m) ≡ at f t m
    at-splice_right zero m s h = let e : 0 + suc m ≡ suc m = omega arith in rw e
    at-splice_right (suc i) m [] h = absurd (omega arith)
    at-splice_right (suc i) m (x ∷ s) h =
        let e : suc i + suc m ≡ suc (i + suc m) = omega arith in
        rw e (at-splice_right i m s (omega arith))

pub length-splice :
    (i j : ℕ) (r : AddrRange) (s : AddrRangeSet)
    → i ≤ length s
    → length (splice i r j s) ≡ i + suc (length s - j)
length-splice i j r s h =
    omega (arith, length-append (take i s) (r ∷ drop j s), length-take i s, length-drop j s)
