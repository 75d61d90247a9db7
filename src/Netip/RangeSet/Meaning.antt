-- ===== src/Netip/RangeSet/Meaning.antt =====
-- A range set of rangeset.go as the set of addresses that it contains.
use chrome.Base.{
  ◌≤◌, ◌<◌, ◌≡◌, ◌↔◌, refl, Bool, true, false, ◌&&◌, ◌||◌, ◌⊎◌, inl, inr, List, [], ◌∷◌, arith, ltb,
  leb,
}
use chrome.Base.Search.{search}
use chrome.Netip.Addr.{Addr, rank}
use chrome.Netip.RangeSet.{AddrRange, AddrRangeSet, add_range, add, contains}
use chrome.Netip.RangeSet.Invariant.{IsApart, Covers, contains_iff}
use chrome.Netip.RangeSet.Add.{add_range-Added}

abbrev pub in_range : Addr → Addr → Addr → Bool
in_range lo hi v = leb (rank lo) (rank v) && ltb (rank v) (rank hi)

in_range_iff :
    (lo hi v : Addr) → (in_range lo hi v ≡ true) ↔ ((rank lo ≤ rank v) × (rank v < rank hi))
in_range_iff lo hi v = ground arith

Bool-ext : (a b : Bool) → (a ≡ true → b ≡ true) → (b ≡ true → a ≡ true) → a ≡ b
Bool-ext true true f g = refl
Bool-ext true false f g = cc (f refl)
Bool-ext false true f g = cc (g refl)
Bool-ext false false f g = refl

or_iff : (a b : Bool) → ((a || b) ≡ true) ↔ ((a ≡ true) ⊎ (b ≡ true))
or_iff a b = ground arith

-- After AddRange on a set of nonempty, sorted ranges with gaps, the set contains an address
-- exactly when it did before or the address is from the new low end up to below the new high
-- end.
pub contains-add_range :
    (s : AddrRangeSet) (lo hi v : Addr)
    → IsApart s
    → contains (add_range s lo hi) v ≡ (contains s v || in_range lo hi v)
contains-add_range s lo hi v a =
    let t = add_range-Added s lo hi a in
    let new = contains_iff (add_range s lo hi) t.apart v in
    let old = contains_iff s a v in
    let c = t.covers (rank v) in
    Bool-ext _ _ (λ h. (or_iff (contains s v) (in_range lo hi v)).1 (split (c.0 (new.0 h))))
      (λ h. new.1 (c.1 (join ((or_iff (contains s v) (in_range lo hi v)).0 h))))
  where
    split :
        Covers s (rank v) ⊎ ((rank lo ≤ rank v) × (rank v < rank hi))
        → (contains s v ≡ true) ⊎ (in_range lo hi v ≡ true)
    split (inl x) = inl ((contains_iff s a v).1 x)
    split (inr y) = inr ((in_range_iff lo hi v).1 y)

    join :
        (contains s v ≡ true) ⊎ (in_range lo hi v ≡ true)
        → Covers s (rank v) ⊎ ((rank lo ≤ rank v) × (rank v < rank hi))
    join (inl x) = inl ((contains_iff s a v).0 x)
    join (inr y) = inr ((in_range_iff lo hi v).0 y)

-- Ranges added one after another, from some set on.
unfoldable pub add_all : AddrRangeSet → List AddrRange → AddrRangeSet
add_all s [] = s
add_all s (r ∷ rs) = add_all (add s r) rs

abbrev pub in_any : List AddrRange → Addr → Bool
in_any [] v = false
in_any (r ∷ rs) v = in_range r.low r.high v || in_any rs v

add-IsApart : (s : AddrRangeSet) (r : AddrRange) → IsApart s → IsApart (add s r)
unfolding add
add-IsApart s r a = (add_range-Added s r.low r.high a).apart

contains-add :
    (s : AddrRangeSet) (r : AddrRange) (v : Addr)
    → IsApart s
    → contains (add s r) v ≡ (contains s v || in_range r.low r.high v)
unfolding add
contains-add s r v a = contains-add_range s r.low r.high v a

pub add_all-IsApart : (s : AddrRangeSet) (rs : List AddrRange) → IsApart s → IsApart (add_all s rs)
unfolding add_all
add_all-IsApart s [] a = a
add_all-IsApart s (r ∷ rs) a = add_all-IsApart (add s r) rs (add-IsApart s r a)

contains-add_all_from :
    (s : AddrRangeSet) (rs : List AddrRange) (v : Addr)
    → IsApart s
    → contains (add_all s rs) v ≡ (contains s v || in_any rs v)
unfolding add_all
contains-add_all_from s [] v a = ground arith
contains-add_all_from s (r ∷ rs) v a =
    ground (arith, contains-add_all_from (add s r) rs v (add-IsApart s r a), contains-add s r v a)

empty-IsApart : IsApart []
empty-IsApart = record {
  nonempty = λ i p. absurd (omega arith);
  gap = λ i j p q. absurd (omega arith);
}

-- For every list of ranges, adding them in order to the empty set gives ranges that are
-- nonempty, sorted and apart, and the set contains an address exactly when some range of the
-- list contains it.
pub contains-add_all :
    (rs : List AddrRange)
    → IsApart (add_all [] rs) × ((v : Addr) → contains (add_all [] rs) v ≡ in_any rs v)
unfolding contains search
contains-add_all rs =
    (add_all-IsApart [] rs empty-IsApart, λ v. contains-add_all_from [] rs v empty-IsApart)
