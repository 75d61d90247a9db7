-- ===== src/Netip/Prefix.antt =====
-- `ParsePrefix` of internal/netiputil/parse.go, behind `netip.ParsePrefix` and `Masked`: the bytes
-- of the masked address and the number of bits.
pub mod Fill
pub mod Range
use Prim.Native.Nat.{bit_or}
use chrome.Base.{
  ℕ, zero, suc, ◌+◌, ◌-◌, ◌*◌, ◌/◌, ◌%◌, ◌^◌, Bool, true, false, ◌==◌, List, [], ◌∷◌, Option, none,
  some, length, ltb, if◌then◌else◌,
}
use chrome.Netip.Addr.{Addr, invalid, v4, v6}
use chrome.Netip.RangeSet.{AddrRange}

-- Bytes, the highest first, as a number.
unfoldable pub value : List ℕ → ℕ
value [] = 0
value (a ∷ bytes) = a * 256 ^ length bytes + value bytes

-- The loop over `a4` or `a16` from `i` on; below `i0` nothing is written.
unfoldable pub fill : ℕ → ℕ → ℕ → List ℕ → List ℕ
fill i i0 bits [] = []
fill i i0 bits (a ∷ bytes) =
    let nz = if i == i0 then 8 - bits % 8 else 8 in
    (if ltb i i0 then a else bit_or a ((2 ^ nz - 1) % 256)) ∷ fill (i + 1) i0 bits bytes

-- `Addr.Next` at 32 and at 128 bits.
unfoldable pub next_v4 : ℕ → Addr
next_v4 n = if n + 1 == 2 ^ 32 then invalid else v4 (n + 1)

unfoldable pub next_v6 : ℕ → Addr
next_v6 n = if n + 1 == 2 ^ 128 then invalid else v6 (n + 1)

-- The range up to `high`, or to the address behind it where there is one, and `closed`.
unfoldable pub up_to : Addr → Addr → Addr → AddrRange × Bool
up_to low high invalid = (record { low = low; high = high }, true)
up_to low high (v4 n) = (record { low = low; high = v4 n }, false)
up_to low high (v6 n) = (record { low = low; high = v6 n }, false)

unfoldable pub prefix_range : List ℕ → ℕ → Option (AddrRange × Bool)
prefix_range bytes bits =
    let low = value bytes in
    let high = value (fill 0 (bits / 8) bits bytes) in
    if length bytes == 4
    then some (up_to (v4 low) (v4 high) (next_v4 high))
    else if length bytes == 16
    then some (up_to (v6 low) (v6 high) (next_v6 high))
    else none
