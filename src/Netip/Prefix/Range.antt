-- ===== src/Netip/Prefix/Range.antt =====
-- The range of a prefix holds the addresses from the masked one on that share its first bits.

use chrome.Base.{
  leb, ◌&&◌, ◌||◌, ℕ, ◌+◌, ◌-◌, ◌/◌, ◌^◌, ◌<◌, ◌≤◌, ◌≡◌, refl, ap, ◌∙◌, inl, inr, Bool, Bool-cases,
  ◌==◌, List, some, length, ltb, arith,
}
use chrome.Netip.Addr.{Addr, v4, v6, rank}
use chrome.Netip.RangeSet.{AddrRange}
use chrome.Netip.Prefix.{value, fill, next_v4, next_v6, up_to, prefix_range}
use chrome.Netip.Prefix.Fill.{IsMasked, AreBytes, value-fill, value-lt, length-fill, fill-AreBytes}

-- The addresses of a range that may be closed, by rank.
abbrev pub holds : AddrRange × Bool → Addr → Bool
holds (r, closed) v =
    leb (rank r.low) (rank v) && (ltb (rank v) (rank r.high) || closed && rank v == rank r.high)

up_to_v4 :
    (n high m : ℕ)
    → n < 2 ^ 32
    → high < 2 ^ 32
    → m < 2 ^ 32
    → holds (up_to (v4 n) (v4 high) (next_v4 high)) (v4 m) ≡ (leb n m && leb m high)
unfolding up_to next_v4 rank
up_to_v4 n high m h k l = elim (Bool-cases (high + 1 == 2 ^ 32)) [
  | inl e ↦ rw e (ground arith)
  | inr e ↦ rw e (ground arith)
]

-- For four bytes below 256 and at most 32 bits, where the bits behind the first ones are zero
-- as Masked leaves them: the prefix gives a range and the flag closed, and an IPv4 address is
-- in the range, or is its high end if closed is set, exactly when its value is from the one of
-- the bytes up to that value with all bits behind the prefix set.
pub prefix_range_v4 :
    (bytes : List ℕ) (bits m : ℕ)
    → length bytes ≡ 4
    → AreBytes bytes
    → bits ≤ 32
    → IsMasked 0 (bits / 8) bits bytes
    → m < 2 ^ 32
    → (r : AddrRange × Bool) × (prefix_range bytes bits ≡ some r)
      × (holds r (v4 m) ≡ (leb (value bytes) m && leb m (value bytes + (2 ^ (32 - bits) - 1))))
unfolding prefix_range
prefix_range_v4 bytes bits m n a b z h =
    let filled = fill 0 (bits / 8) bits bytes in
    (
      up_to (v4 (value bytes)) (v4 (value filled)) (next_v4 (value filled)),
      rw n refl,
      up_to_v4 (value bytes) (value filled) m low high h
          ∙ ap (λ y. leb (value bytes) m && leb m y) sum,
    )
  where
    low : value bytes < 2 ^ 32
    low = rw n at (value-lt bytes a)

    high : value (fill 0 (bits / 8) bits bytes) < 2 ^ 32
    high =
        rw (length-fill 0 (bits / 8) bits bytes, n) at
          (value-lt (fill 0 (bits / 8) bits bytes) (fill-AreBytes 0 (bits / 8) bits bytes a))

    sum : value (fill 0 (bits / 8) bits bytes) ≡ value bytes + (2 ^ (32 - bits) - 1)
    sum = rw n at (value-fill 0 (bits / 8) bits bytes (omega arith) refl (omega arith) z)

up_to_v6 :
    (n high m : ℕ)
    → n < 2 ^ 128
    → high < 2 ^ 128
    → m < 2 ^ 128
    → holds (up_to (v6 n) (v6 high) (next_v6 high)) (v6 m) ≡ (leb n m && leb m high)
unfolding up_to next_v6 rank
up_to_v6 n high m h k l = elim (Bool-cases (high + 1 == 2 ^ 128)) [
  | inl e ↦ rw e (ground arith)
  | inr e ↦ rw e (ground arith)
]

-- For sixteen bytes below 256 and at most 128 bits, where the bits behind the first ones are
-- zero as Masked leaves them: the prefix gives a range and the flag closed, and an IPv6 address
-- is in the range, or is its high end if closed is set, exactly when its value is from the one
-- of the bytes up to that value with all bits behind the prefix set.
pub prefix_range_v6 :
    (bytes : List ℕ) (bits m : ℕ)
    → length bytes ≡ 16
    → AreBytes bytes
    → bits ≤ 128
    → IsMasked 0 (bits / 8) bits bytes
    → m < 2 ^ 128
    → (r : AddrRange × Bool) × (prefix_range bytes bits ≡ some r)
      × (holds r (v6 m) ≡ (leb (value bytes) m && leb m (value bytes + (2 ^ (128 - bits) - 1))))
unfolding prefix_range
prefix_range_v6 bytes bits m n a b z h =
    let filled = fill 0 (bits / 8) bits bytes in
    (
      up_to (v6 (value bytes)) (v6 (value filled)) (next_v6 (value filled)),
      rw n refl,
      up_to_v6 (value bytes) (value filled) m low high h
          ∙ ap (λ y. leb (value bytes) m && leb m y) sum,
    )
  where
    low : value bytes < 2 ^ 128
    low = rw n at (value-lt bytes a)

    high : value (fill 0 (bits / 8) bits bytes) < 2 ^ 128
    high =
        rw (length-fill 0 (bits / 8) bits bytes, n) at
          (value-lt (fill 0 (bits / 8) bits bytes) (fill-AreBytes 0 (bits / 8) bits bytes a))

    sum : value (fill 0 (bits / 8) bits bytes) ≡ value bytes + (2 ^ (128 - bits) - 1)
    sum = rw n at (value-fill 0 (bits / 8) bits bytes (omega arith) refl (omega arith) z)
