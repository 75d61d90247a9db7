-- ===== src/Netip/Tests.antt =====
-- Small range sets of internal/netiputil, and the theorems at concrete inputs.
use chrome.Base.{
  arith, false, Bool, zero, suc, replicate, some, leb, ◌&&◌, ◌+◌, ◌-◌, ◌^◌, ℕ, ◌≡◌, refl, true,
  List, [], ◌∷◌,
}
use chrome.Base.Search.{search}
use chrome.Netip.Addr.{v6, Addr, v4, rank}
use chrome.Netip.Prefix.{value, fill, next_v4, up_to, prefix_range}
use chrome.Netip.Prefix.Fill.{IsMasked}
use chrome.Netip.Prefix.Range.{holds, prefix_range_v4, prefix_range_v6}
use chrome.Netip.RangeSet.{
  AddrRange, AddrRangeSet, add_range, add, contains, low_index, high_index, extend_low, extend_high,
  put_range,
}
use chrome.Netip.RangeSet.Invariant.{IsApart}
use chrome.Netip.RangeSet.Add.{Added, add_range-Added}
use chrome.Netip.RangeSet.Meaning.{in_any, add_all, contains-add_all}

abbrev range : ℕ → ℕ → AddrRange
range a b = record { low = v4 a; high = v4 b }

abbrev three : List AddrRange
three = range 10 20 ∷ range 40 50 ∷ range 20 30 ∷ []

-- Touching ranges become one.
merged : add_all [] three ≡ range 10 30 ∷ range 40 50 ∷ []
unfolding add_all add add_range low_index high_index extend_low extend_high put_range search rank
merged = refl

bridged : add_range (range 10 30 ∷ range 40 50 ∷ []) (v4 25) (v4 45) ≡ range 10 50 ∷ []
unfolding add_range low_index high_index extend_low extend_high put_range search rank
bridged = refl

abbrev sample : AddrRangeSet
sample = range 10 30 ∷ range 40 50 ∷ []

sample-IsApart : IsApart sample
unfolding add_all add add_range low_index high_index extend_low extend_high put_range search rank
sample-IsApart = (contains-add_all three).0

add_range-Added_example : Added sample (v4 25) (v4 35) (add_range sample (v4 25) (v4 35))
add_range-Added_example = add_range-Added sample (v4 25) (v4 35) sample-IsApart

contains-add_all_example :
    IsApart (add_all [] three) × ((v : Addr) → contains (add_all [] three) v ≡ in_any three v)
contains-add_all_example = contains-add_all three

-- 10.128.0.0/9 and 0.0.0.0/0
half_net :
    prefix_range (10 ∷ 128 ∷ 0 ∷ 0 ∷ []) 9
    ≡ some (record { low = v4 0x0a800000; high = v4 0x0b000000 }, false)
unfolding prefix_range value fill next_v4 up_to
half_net = refl

whole_net :
    prefix_range (0 ∷ 0 ∷ 0 ∷ 0 ∷ []) 0 ≡ some (record { low = v4 0; high = v4 0xffffffff }, true)
unfolding prefix_range value fill next_v4 up_to
whole_net = refl

abbrev net6 : List ℕ
net6 = 0xfd ∷ 0 ∷ 0 ∷ 0 ∷ 0 ∷ 0 ∷ 0 ∷ 0 ∷ 0 ∷ 0 ∷ 0 ∷ 0 ∷ 0 ∷ 0 ∷ 0 ∷ 0 ∷ []

zeros-IsMasked : (n i i0 bits : ℕ) → IsMasked i i0 bits (replicate n 0)
zeros-IsMasked zero i i0 bits = tt
zeros-IsMasked (suc n) i i0 bits =
    ((λ _. (0, omega arith)), (λ _. refl), zeros-IsMasked n (i + 1) i0 bits)

prefix_range_v4_example :
    (r : AddrRange × Bool) × (prefix_range (10 ∷ 128 ∷ 0 ∷ 0 ∷ []) 9 ≡ some r)
    × (holds r (v4 0x0aff0001) ≡ (
        leb (value (10 ∷ 128 ∷ 0 ∷ 0 ∷ [])) 0x0aff0001
        && leb 0x0aff0001 (value (10 ∷ 128 ∷ 0 ∷ 0 ∷ []) + (2 ^ (32 - 9) - 1))))
prefix_range_v4_example =
    prefix_range_v4 (10 ∷ 128 ∷ 0 ∷ 0 ∷ []) 9 0x0aff0001 refl (ground arith) (omega arith)
      (
        (λ e. absurd (omega arith)),
        (λ h. absurd (omega arith)),
        ((λ _. (1, refl)), (λ h. absurd (omega arith)), zeros-IsMasked 2 2 1 9),
      )
      (omega arith)

prefix_range_v6_example :
    (r : AddrRange × Bool) × (prefix_range net6 8 ≡ some r)
    × (holds r (v6 7) ≡ (leb (value net6) 7 && leb 7 (value net6 + (2 ^ (128 - 8) - 1))))
prefix_range_v6_example =
    prefix_range_v6 net6 8 7 refl (ground arith) (omega arith)
      ((λ e. absurd (omega arith)), (λ h. absurd (omega arith)), zeros-IsMasked 15 1 1 8)
      (omega arith)
