-- ===== src/Netip/Prefix/Fill.antt =====
-- The highest address with a prefix.
use Prim.Native.Nat.{bit_or}
use native.Mathlib.Nat.{pow-suc, one-le-pow, pow-le-pow_right}
use chrome.Base.{
  ℕ, zero, suc, ◌+◌, ◌-◌, ◌*◌, ◌/◌, ◌%◌, ◌^◌, ◌<◌, ◌≤◌, ◌≡◌, refl, sym, ap, inl, inr, Bool, true,
  false, Bool-cases, ◌==◌, ==_iff, List, [], ◌∷◌, All, length, ltb, if◌then◌else◌, arith,
}
use chrome.Base.Bits.{bit_or-ones, bit_or-lt, pow_split}
use chrome.Netip.Prefix.{value, fill}

-- What `Masked` promises: the bits behind the prefix are zero, byte by byte from `i` on.
abbrev pub IsMasked : ℕ → ℕ → ℕ → List ℕ → Type 0
IsMasked i i0 bits [] = Unit
IsMasked i i0 bits (a ∷ bytes) =
    (i ≡ i0 → (q : ℕ) × (a ≡ q * 2 ^ (8 - bits % 8)))
    × (i0 < i → a ≡ 0)
    × IsMasked (i + 1) i0 bits bytes

pub length-fill : (i i0 bits : ℕ) (bytes : List ℕ) → length (fill i i0 bits bytes) ≡ length bytes
unfolding fill
length-fill i i0 bits [] = refl
length-fill i i0 bits (a ∷ bytes) = ap suc (length-fill (i + 1) i0 bits bytes)

not_below : (i i0 : ℕ) → i0 < i → ltb i i0 ≡ false
not_below i i0 h = ground arith

not_same : (i i0 : ℕ) → i0 < i → (i == i0) ≡ false
not_same i i0 h = ground arith

-- Behind the byte of the last bit, every byte is the highest.
fill_rest :
    (i i0 bits : ℕ) (bytes : List ℕ)
    → i0 < i
    → IsMasked i i0 bits bytes
    → (value (fill i i0 bits bytes) ≡ 256 ^ length bytes - 1) × (value bytes ≡ 0)
unfolding fill value
fill_rest i i0 bits [] h m = (refl, refl)
fill_rest i i0 bits (a ∷ bytes) h m =
    let (x, y) = fill_rest (i + 1) i0 bits bytes (omega arith) m.2 in
    (
      rw (not_below i i0 h, not_same i i0 h, m.1 h, length-fill (i + 1) i0 bits bytes, x)
          (omega (arith, pow-suc 256 (length bytes), one-le-pow (length bytes) 256 (omega arith))),
      rw (m.1 h) (omega (arith, y)),
    )

pow256 : (n : ℕ) → 256 ^ n ≡ 2 ^ (8 * n)
pow256 zero = refl
pow256 (suc n) =
    let e : 8 * suc n ≡ 8 + 8 * n = omega arith in
    omega (arith, pow-suc 256 n, pow256 n, ap (λ x. 2 ^ x) e, pow_split 8 (8 * n))

-- The byte of the last bit.
last_byte :
    (i bits a : ℕ)
    → (q : ℕ) × (a ≡ q * 2 ^ (8 - bits % 8))
    → bit_or a ((2 ^ (8 - bits % 8) - 1) % 256) ≡ a + (2 ^ (8 - bits % 8) - 1)
last_byte i bits a (q, e) =
    let small : 2 ^ (8 - bits % 8) ≤ 2 ^ 8 =
      pow-le-pow_right {n = 2} (omega arith) {i = 8 - bits % 8} {j = 8} (omega arith) in
    let same : (2 ^ (8 - bits % 8) - 1) % 256 ≡ 2 ^ (8 - bits % 8) - 1 =
      omega (arith, one-le-pow (8 - bits % 8) 2 (omega arith)) in
    rw (same, e) (bit_or-ones (8 - bits % 8) q)

last_sum : (a t p : ℕ) → 1 ≤ t → 1 ≤ p → (a + (t - 1)) * p + (p - 1) ≡ a * p + 0 + (t * p - 1)
last_sum a (suc t) (suc p) h k = grind arith
last_sum a zero p h k = absurd (omega arith)
last_sum a (suc t) zero h k = absurd (omega arith)

pub value-fill :
    (i i0 bits : ℕ) (bytes : List ℕ)
    → i ≤ i0
    → i0 ≡ bits / 8
    → bits ≤ 8 * (i + length bytes)
    → IsMasked i i0 bits bytes
    → value (fill i i0 bits bytes) ≡ value bytes + (2 ^ (8 * (i + length bytes) - bits) - 1)
unfolding fill value
value-fill i i0 bits [] h e l m =
    let none_left : 8 * (i + 0) - bits ≡ 0 = omega arith in rw none_left refl
value-fill i i0 bits (a ∷ bytes) h e l m = elim (Bool-cases (ltb i i0)) [
  | inl b ↦
      let moved : 8 * (i + suc (length bytes)) ≡ 8 * (i + 1 + length bytes) = omega arith in
      rw
        (
          b,
          length-fill (i + 1) i0 bits bytes,
          moved,
          value-fill (i + 1) i0 bits bytes (ground arith) e (omega arith) m.2,
        )
        (omega arith)
  | inr b ↦
      let here : i ≡ i0 = ground arith in
      let (x, y) = fill_rest (i + 1) i0 bits bytes (omega arith) m.2 in
      let exponent : 8 * (i + suc (length bytes)) - bits ≡ (8 - bits % 8) + 8 * length bytes =
        omega arith in
      rw
        (
          b,
          (==_iff i i0).1 here,
          length-fill (i + 1) i0 bits bytes,
          x,
          y,
          last_byte i bits a (m.0 here),
          exponent,
          pow_split (8 - bits % 8) (8 * length bytes),
          sym (pow256 (length bytes)),
        )
        (last_sum a (2 ^ (8 - bits % 8)) (256 ^ length bytes)
          (one-le-pow (8 - bits % 8) 2 (omega arith)) (one-le-pow (length bytes) 256 (omega arith)))
]

abbrev pub AreBytes : List ℕ → Type 0
AreBytes = All (λ a. a < 256)

carry : (a p : ℕ) → a < 256 → a * p + p ≤ 256 * p
carry a zero h = omega arith
carry a (suc p) h = grind (arith, carry a p h)

pub value-lt : (bytes : List ℕ) → AreBytes bytes → value bytes < 256 ^ length bytes
unfolding value
value-lt [] h = omega arith
value-lt (a ∷ bytes) h =
    grind (arith, pow-suc 256 (length bytes), value-lt bytes h.1, carry a (256 ^ length bytes) h.0)

byte_kept : (b : Bool) (a x : ℕ) → a < 256 → (if b then a else bit_or a (x % 256)) < 256
byte_kept true a x h = h
byte_kept false a x h = bit_or-lt 8 a (x % 256) h (omega arith)

pub fill-AreBytes :
    (i i0 bits : ℕ) (bytes : List ℕ) → AreBytes bytes → AreBytes (fill i i0 bits bytes)
unfolding fill
fill-AreBytes i i0 bits [] h = tt
fill-AreBytes i i0 bits (a ∷ bytes) h =
    (byte_kept (ltb i i0) a _ h.0, fill-AreBytes (i + 1) i0 bits bytes h.1)
