-- ===== src/Netip/RangeSet.antt =====
-- The type `AddrRangeSet` of internal/netiputil/rangeset.go: half-open ranges, sorted and apart.
pub mod Splice
pub mod Invariant
pub mod Edges
pub mod Replace
pub mod Add
pub mod Meaning
use chrome.Base.{
  ℕ, zero, suc, ◌+◌, ◌-◌, Bool, true, false, ◌&&◌, List, [], ◌∷◌, ◌++◌, Option, none, some, length,
  get_elem?, set, take, drop, ltb, leb, ◌==◌, if◌then◌else◌,
}
use chrome.Base.Search.{search}
use chrome.Netip.Addr.{Addr, rank}

pub record AddrRange : Type 0 where
  pub low : Addr
  pub high : Addr

abbrev pub AddrRangeSet : Type 0
AddrRangeSet = List AddrRange

-- `s[i].Low` and `s[i].High` in a comparison, read only at an index in range.
abbrev pub at : (AddrRange → ℕ) → AddrRangeSet → ℕ → ℕ
at f [] i = 0
at f (r ∷ s) zero = f r
at f (r ∷ s) (suc i) = at f s i

abbrev pub low_at : AddrRangeSet → ℕ → ℕ
low_at = at (λ r. rank r.low)

abbrev pub high_at : AddrRangeSet → ℕ → ℕ
high_at = at (λ r. rank r.high)

-- The first range that begins after `lo`.
unfoldable pub low_index : AddrRangeSet → Addr → ℕ
low_index s lo = search (length s) (λ i. ltb (rank lo) (low_at s i))

-- The first range from `off` on that ends after `hi`.
unfoldable pub high_index : AddrRangeSet → ℕ → Addr → ℕ
high_index s off hi =
    let t = drop off s in off + search (length t) (λ i. ltb (rank hi) (high_at t i))

-- The range before `i` joins where it reaches `lo`.
abbrev pub join_low : Addr → ℕ → Option AddrRange → Addr × ℕ
join_low lo i none = (lo, i)
join_low lo i (some r) = if leb (rank lo) (rank r.high) then (r.low, i - 1) else (lo, i)

unfoldable pub extend_low : AddrRangeSet → Addr → ℕ → Addr × ℕ
extend_low s lo i = if ltb 0 i then join_low lo i (get_elem? s (i - 1)) else (lo, i)

-- The range at `j` joins where `hi` reaches it.
abbrev pub join_high : Addr → ℕ → Option AddrRange → Addr × ℕ
join_high hi j none = (hi, j)
join_high hi j (some r) = if leb (rank r.low) (rank hi) then (r.high, j + 1) else (hi, j)

unfoldable pub extend_high : AddrRangeSet → Addr → ℕ → Addr × ℕ
extend_high s hi j = if ltb j (length s) then join_high hi j (get_elem? s j) else (hi, j)

-- The end of `AddRange`: the ranges from `i` to `j` give way to one.
unfoldable pub put_range : AddrRangeSet → Addr × ℕ → Addr × ℕ → AddrRangeSet
put_range s (lo, i) (hi, j) =
    let r : AddrRange = record { low = lo; high = hi } in
    if i == j
    then (if ltb (rank lo) (rank hi) then take i s ++ r ∷ drop i s else s)
    else take (i + 1) (set s i r) ++ drop j s

unfoldable pub add_range : AddrRangeSet → Addr → Addr → AddrRangeSet
add_range s lo hi =
    let i = low_index s lo in
    let off = if ltb 0 i then i - 1 else 0 in
    let j = high_index s off hi in
    if ltb j i then s else put_range s (extend_low s lo i) (extend_high s hi j)

unfoldable pub add : AddrRangeSet → AddrRange → AddrRangeSet
add s r = add_range s r.low r.high

unfoldable pub contains : AddrRangeSet → Addr → Bool
contains s v =
    let i = search (length s) (λ i. ltb (rank v) (high_at s i)) in
    ltb i (length s) && leb (low_at s i) (rank v)
