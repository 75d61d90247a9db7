-- ===== src/Matchset/Charset/Laws.antt =====
-- The operations of `charset` as operations on sets of bytes.
use Prim.Native.Nat.{bit_or}
use native.Mathlib.Nat.{one-le-pow}
use native.Mathlib.Decide.{ℕ_discrete}
use chrome.Base.{
  ℕ, zero, suc, ◌-◌, ◌*◌, ◌/◌, ◌^◌, ◌<◌, ◌≤◌, ◌≡◌, ◌≢◌, refl, sym, ap, ◌∙◌, true, false, not, ◌||◌,
  ◌==◌, [], ◌∷◌, map, get_or, set, length, replicate, All, All-set, All-get_or, get_or-set_self,
  get_or-set_ne, get_or-map, length-set, length-map, arith,
}
use chrome.Base.Bits.{
  digit, digit-le, digit-zero, digit-complement, bit_and-pow, bit_or-lt, pow-lt, digit-set_self,
  digit-set_ne,
}
use chrome.Matchset.Charset.{Charset, add, invert, contains, empty}

-- Eight words of 32 bits.
abbrev pub IsWords : Charset → Type 0
IsWords s = (length s ≡ 8) × All (λ w. w < 2 ^ 32) s

abbrev pub offset : ℕ → ℕ
offset c = c - c / 32 * 32

flag : (d p : ℕ) → d ≤ 1 → 1 ≤ p → not (d * p == 0) ≡ (d == 1)
flag zero p h k = ground arith
flag (suc zero) p h k = ground arith
flag (suc (suc d)) p h k = absurd (omega arith)

pub contains_iff_digit :
    (s : Charset) (c : ℕ) → contains s c ≡ (digit (offset c) (get_or s (c / 32) 0) == 1)
unfolding contains
contains_iff_digit s c =
    rw (bit_and-pow (offset c) (get_or s (c / 32) 0))
      (flag _ _ (digit-le (offset c) _) (one-le-pow (offset c) 2 (omega arith)))

same_place : (b c : ℕ) → b / 32 ≡ c / 32 → offset b ≡ offset c → b ≡ c
same_place b c h k = omega arith

flip : (d : ℕ) → d ≤ 1 → (1 - d == 1) ≡ not (d == 1)
flip zero h = refl
flip (suc zero) h = refl
flip (suc (suc d)) h = absurd (omega arith)

eq_refl : (b : ℕ) → (b == b) ≡ true
eq_refl b = ground arith

eq_false : {b c : ℕ} → b ≢ c → (b == c) ≡ false
eq_false h = ground arith

digit-add_self :
    (s : Charset) (b : ℕ)
    → length s ≡ 8
    → b < 256
    → digit (offset b) (get_or (add s b) (b / 32) 0) ≡ 1
unfolding add
digit-add_self s b n h =
    rw (get_or-set_self s (b / 32) (bit_or (get_or s (b / 32) 0) (2 ^ offset b)) 0 (omega arith))
      (digit-set_self (offset b) _)

digit-set_other :
    (s : Charset) (i j k l : ℕ)
    → i < length s
    → (i ≡ j → k ≢ l)
    → digit l (get_or (set s i (bit_or (get_or s i 0) (2 ^ k))) j 0) ≡ digit l (get_or s j 0)
digit-set_other s i j k l h ne = elim (ℕ_discrete i j) [
  | yes e ↦
      rw (sym e, get_or-set_self s i (bit_or (get_or s i 0) (2 ^ k)) 0 h)
        (digit-set_ne k l (get_or s i 0) (ne e))
  | no d ↦ rw (get_or-set_ne s i j (bit_or (get_or s i 0) (2 ^ k)) 0 d) refl
]

digit-add_ne :
    (s : Charset) (b c : ℕ)
    → length s ≡ 8
    → b < 256
    → b ≢ c
    → digit (offset c) (get_or (add s b) (c / 32) 0) ≡ digit (offset c) (get_or s (c / 32) 0)
unfolding add
digit-add_ne s b c n h ne =
    digit-set_other s (b / 32) (c / 32) (offset b) (offset c) (omega arith)
      (λ e o. ne (same_place b c e o))

-- In a set of eight words, a byte below 256 that is added is contained, and every other byte is
-- contained exactly when it was before.
pub contains-add :
    (s : Charset) (b c : ℕ)
    → length s ≡ 8
    → b < 256
    → contains (add s b) c ≡ (b == c) || contains s c
unfolding add
contains-add s b c n h = elim (ℕ_discrete b c) [
  | yes e ↦ rw (sym e, contains_iff_digit (add s b) b, digit-add_self s b n h, eq_refl b) refl
  | no ne ↦ rw (eq_false ne) (
      contains_iff_digit (add s b) c
      ∙ ap (λ d. d == 1) (digit-add_ne s b c n h ne)
      ∙ sym (contains_iff_digit s c))
]

pub add-IsWords : (s : Charset) (b : ℕ) → IsWords s → b < 256 → IsWords (add s b)
unfolding add
add-IsWords s b w h = (
  length-set s _ _ ∙ w.0,
  All-set _ s _ _
      (bit_or-lt 32 _ _ (All-get_or _ s (b / 32) 0 w.1 (omega (arith, w.0)))
        (pow-lt (offset b) 32 (omega arith)))
      w.1,
)

-- In a set of eight words below 2 ^ 32, inverting the set turns the answer for every byte below
-- 256 around.
pub contains-invert :
    (s : Charset) (c : ℕ) → IsWords s → c < 256 → contains (invert s) c ≡ not (contains s c)
unfolding invert
contains-invert s c w h =
    contains_iff_digit (invert s) c
    ∙ ap (λ d. d == 1)
        (ap (digit (offset c))
            (get_or-map (λ v. 2 ^ 32 - 1 - v) s (c / 32) 0 0 (omega (arith, w.0)))
          ∙ digit-complement 32 (offset c) (get_or s (c / 32) 0) (omega arith)
              (All-get_or _ s (c / 32) 0 w.1 (omega (arith, w.0))))
    ∙ flip _ (digit-le (offset c) (get_or s (c / 32) 0))
    ∙ ap not (sym (contains_iff_digit s c))

complements :
    (s : Charset) → All (λ w. w < 2 ^ 32) s → All (λ w. w < 2 ^ 32) (map (λ w. 2 ^ 32 - 1 - w) s)
complements [] h = tt
complements (w ∷ s) h = (omega arith, complements s h.1)

pub invert-IsWords : (s : Charset) → IsWords s → IsWords (invert s)
unfolding invert
invert-IsWords s w = (length-map s _ ∙ w.0, complements s w.1)

nothing : (n i : ℕ) → get_or (replicate {A = ℕ} n 0) i 0 ≡ zero
nothing zero i = refl
nothing (suc n) zero = refl
nothing (suc n) (suc i) = nothing n i

pub contains-empty : (c : ℕ) → contains empty c ≡ false
unfolding empty
contains-empty c =
    contains_iff_digit empty c
    ∙ ap (λ d. d == 1) (ap (digit (offset c)) (nothing 8 (c / 32)) ∙ digit-zero (offset c))

pub empty-IsWords : IsWords empty
unfolding empty
empty-IsWords = ground arith
