-- ===== src/Base/Bits.antt =====
-- Binary digits of a number, and what the native bit operations and powers of two do to them.
use Prim.Native.Nat.{
  ℕ, zero, suc, ◌+◌, ◌-◌, ◌*◌, ◌/◌, ◌%◌, ◌^◌, ◌≤◌, ◌<◌, min, max, digits, bit_and, bit_or,
  bit_and-bitwise, bit_or-bitwise,
}
use native.Mathlib.Nat.{pow-zero, pow-suc, one-le-pow, pow-le-pow_right, le_refl}
use mathlib.Core.Path.{◌≡◌, refl, ap, ◌∙◌}
use mathlib.Core.Logic.{◌≢◌}
use native.Mathlib.Omega.{arith}

abbrev pub digit : ℕ → ℕ → ℕ
digit zero w = w % 2
digit (suc i) w = digit i (w / 2)

pub digit-le : (i w : ℕ) → digit i w ≤ 1
digit-le zero w = omega arith
digit-le (suc i) w = digit-le i (w / 2)

pub digit-zero : (i : ℕ) → digit i 0 ≡ 0
digit-zero zero = refl
digit-zero (suc i) = digit-zero i

-- Any two amounts of fuel that reach the number give one result.
module _ (z : ℕ → ℕ) (f : ℕ → ℕ → ℕ) where
  same_digits : (n m a b : ℕ) → a ≤ n → a ≤ m → digits z f n a b ≡ digits z f m a b
  same_digits zero zero a b h k = refl
  same_digits zero (suc m) zero b h k = refl
  same_digits (suc n) zero zero b h k = refl
  same_digits (suc n) (suc m) zero b h k = refl
  same_digits zero m (suc a) b h k = absurd (omega arith)
  same_digits (suc n) zero (suc a) b h k = absurd (omega arith)
  same_digits (suc n) (suc m) (suc a) b h k =
      rw (same_digits n m (suc a / 2) (b / 2) (omega arith) (omega arith))

or_low : (a b : ℕ) → bit_or a b ≡ bit_or (a / 2) (b / 2) * 2 + max (a % 2) (b % 2)
or_low zero b = simp bit_or-bitwise (omega arith)
or_low (suc a) b = simp bit_or-bitwise (
    omega
      (arith, same_digits (λ y. y) max a (suc a / 2) (suc a / 2) (b / 2) (omega arith) (le_refl _)))

and_low : (a b : ℕ) → bit_and a b ≡ bit_and (a / 2) (b / 2) * 2 + min (a % 2) (b % 2)
and_low zero b = simp bit_and-bitwise (omega arith)
and_low (suc a) b = simp bit_and-bitwise (
    omega
      (arith, same_digits (λ y. 0) min a (suc a / 2) (suc a / 2) (b / 2) (omega arith) (le_refl _)))

and_zero : (n a : ℕ) → a ≤ n → bit_and a 0 ≡ 0
and_zero n zero h = simp bit_and-bitwise refl
and_zero zero (suc a) h = absurd (omega arith)
and_zero (suc n) (suc a) h = omega (arith, and_low (suc a) 0, and_zero n (suc a / 2) (omega arith))

half_or : (a b : ℕ) → bit_or a b / 2 ≡ bit_or (a / 2) (b / 2)
half_or a b = omega (arith, or_low a b)

half_pow : (i : ℕ) → 2 ^ suc i / 2 ≡ 2 ^ i
half_pow i = omega (arith, pow-suc 2 i)

half_complement : (n w : ℕ) → w < 2 ^ suc n → (2 ^ suc n - 1 - w) / 2 ≡ 2 ^ n - 1 - w / 2
half_complement n w h = omega (arith, pow-suc 2 n)

pub digit-bit_or : (i a b : ℕ) → digit i (bit_or a b) ≡ max (digit i a) (digit i b)
digit-bit_or zero a b = omega (arith, or_low a b)
digit-bit_or (suc i) a b = rw (half_or a b) (digit-bit_or i (a / 2) (b / 2))

pub bit_and-pow : (i a : ℕ) → bit_and a (2 ^ i) ≡ digit i a * 2 ^ i
bit_and-pow zero a = omega (arith, and_low a 1, and_zero (a / 2) (a / 2) (le_refl _))
bit_and-pow (suc i) a =
    rw (and_low a (2 ^ suc i), half_pow i, bit_and-pow i (a / 2)) (grind (arith, pow-suc 2 i))

pub digit-pow : (i : ℕ) → digit i (2 ^ i) ≡ 1
digit-pow zero = refl
digit-pow (suc i) = rw (half_pow i) (digit-pow i)

pub digit-pow_ne : (i j : ℕ) → i ≢ j → digit j (2 ^ i) ≡ 0
digit-pow_ne zero zero h = absurd (h refl)
digit-pow_ne zero (suc j) h = digit-zero j
digit-pow_ne (suc i) zero h = omega (arith, pow-suc 2 i)
digit-pow_ne (suc i) (suc j) h = rw (half_pow i) (digit-pow_ne i j (λ e. h (ap suc e)))

pub digit-complement : (n i w : ℕ) → i < n → w < 2 ^ n → digit i (2 ^ n - 1 - w) ≡ 1 - digit i w
digit-complement zero i w h k = absurd (omega arith)
digit-complement (suc n) zero w h k = omega (arith, pow-suc 2 n)
digit-complement (suc n) (suc i) w h k =
    rw (half_complement n w k)
      (digit-complement n i (w / 2) (omega arith) (omega (arith, pow-suc 2 n)))

pub bit_or-lt : (n a b : ℕ) → a < 2 ^ n → b < 2 ^ n → bit_or a b < 2 ^ n
bit_or-lt zero zero zero h k = omega arith
bit_or-lt zero a b h k = absurd (omega arith)
bit_or-lt (suc n) a b h k = omega (
  arith,
  pow-suc 2 n,
  or_low a b,
  bit_or-lt n (a / 2) (b / 2) (omega (arith, pow-suc 2 n)) (omega (arith, pow-suc 2 n)),
)

pub digit-set_self : (i w : ℕ) → digit i (bit_or w (2 ^ i)) ≡ 1
digit-set_self i w = omega (arith, digit-bit_or i w (2 ^ i), digit-pow i, digit-le i w)

pub digit-set_ne : (i j w : ℕ) → i ≢ j → digit j (bit_or w (2 ^ i)) ≡ digit j w
digit-set_ne i j w h = omega (arith, digit-bit_or j w (2 ^ i), digit-pow_ne i j h)

pub pow-lt : (i n : ℕ) → i < n → 2 ^ i < 2 ^ n
pow-lt i n h = omega (
  arith,
  pow-suc 2 i,
  one-le-pow i 2 (omega arith),
  pow-le-pow_right {n = 2} (omega arith) {i = suc i} {j = n} h,
)

or_zero : (n a : ℕ) → a ≤ n → bit_or a 0 ≡ a
or_zero n zero h = simp bit_or-bitwise refl
or_zero zero (suc a) h = absurd (omega arith)
or_zero (suc n) (suc a) h = omega (arith, or_low (suc a) 0, or_zero n (suc a / 2) (omega arith))

double : (q k : ℕ) → q * 2 ^ suc k ≡ 2 * (q * 2 ^ k)
double q k = omega (arith, ap (λ (t : ℕ). q * t) (pow-suc 2 k))

half_double : (q k : ℕ) → q * 2 ^ suc k / 2 ≡ q * 2 ^ k
half_double q k = omega (arith, double q k)

half_ones : (k : ℕ) → (2 ^ suc k - 1) / 2 ≡ 2 ^ k - 1
half_ones k = omega (arith, pow-suc 2 k)

-- A number whose low digits are zero, with these set.
pub bit_or-ones : (k q : ℕ) → bit_or (q * 2 ^ k) (2 ^ k - 1) ≡ q * 2 ^ k + (2 ^ k - 1)
bit_or-ones zero q = rw (pow-zero 2) (omega (arith, or_zero (q * 1) (q * 1) (le_refl _)))
bit_or-ones (suc k) q =
    rw (or_low (q * 2 ^ suc k) (2 ^ suc k - 1), half_double q k, half_ones k, bit_or-ones k q)
      (omega (arith, double q k, pow-suc 2 k, one-le-pow k 2 (omega arith)))

pub pow_split : (m n : ℕ) → 2 ^ (m + n) ≡ 2 ^ m * 2 ^ n
pow_split zero n = let e : 0 + n ≡ n = omega arith in ap (λ x. 2 ^ x) e ∙ omega arith
pow_split (suc m) n =
    let e : suc m + n ≡ suc (m + n) = omega arith in
    ap (λ x. 2 ^ x) e ∙ grind (arith, pow-suc 2 (m + n), pow-suc 2 m, pow_split m n)
