-- ===== src/Matchset/Charset.antt =====
-- The type `charset` of matchset.go: 256 bits in eight 32-bit words.
pub mod Laws
use Prim.Native.Nat.{bit_and, bit_or}
use chrome.Base.{
  ℕ, zero, suc, ◌+◌, ◌-◌, ◌*◌, ◌/◌, ◌^◌, Bool, true, false, not, ◌&&◌, ◌==◌, List, [], ◌∷◌, map,
  get_or, set, replicate,
}

abbrev pub Charset : Type 0
Charset = List ℕ

unfoldable pub empty : Charset
empty = replicate 8 0

abbrev word_index : ℕ → ℕ
word_index by = by / 32

abbrev word_bit : ℕ → ℕ
word_bit by = 2 ^ (by - by / 32 * 32)

unfoldable pub add : Charset → ℕ → Charset
add s by = set s (word_index by) (bit_or (get_or s (word_index by) 0) (word_bit by))

-- `^u32` on a 32-bit word.
unfoldable pub invert : Charset → Charset
invert = map (λ w. 2 ^ 32 - 1 - w)

unfoldable pub contains : Charset → ℕ → Bool
contains s by = not (bit_and (get_or s (word_index by) 0) (word_bit by) == 0)

-- The constant `all`.
unfoldable pub all : Charset
all = replicate 8 (2 ^ 32 - 1)

-- `==` on arrays.
unfoldable pub same : Charset → Charset → Bool
same [] [] = true
same (a ∷ s) (b ∷ t) = a == b && same s t
same _ _ = false
