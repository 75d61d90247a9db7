-- ===== src/Matchset/Group/Span.antt =====
-- The loop of `charSetFromGroup` over a range of bytes: it adds the range and ends, unless the
-- range goes up to the last byte.
use chrome.Base.{
  ℕ, zero, suc, ◌+◌, ◌-◌, ◌%◌, ◌<◌, ◌≤◌, ◌≡◌, refl, ◌∙◌, inl, inr, Bool, false, ◌&&◌, ◌||◌, ◌==◌,
  leb, leb→le, Option, none, some, Bool-cases, arith,
}
use chrome.Matchset.Charset.{Charset, add, contains}
use chrome.Matchset.Charset.Laws.{IsWords, contains-add, add-IsWords}
use chrome.Matchset.Group.{add_span}

-- The loop has ended with the bytes `a` to `b` added to `s`.
pub record Spanned (a b : ℕ) (s : Charset) (o : Option (ℕ × Charset)) : Type 0 where
  pub char : ℕ
  pub chars : Charset
  pub returns : o ≡ some (char, chars)
  pub is_byte : char < 256
  pub is_words : IsWords chars
  pub holds : (c : ℕ) → c < 256 → contains chars c ≡ contains s c || leb a c && leb c b

above : (a b : ℕ) (x : Bool) (c : ℕ) → b < a → x ≡ x || leb a c && leb c b
above a b x c h = ground arith

next_byte : (a b : ℕ) → a ≤ b → b < 255 → (a + 1) % 256 ≡ a + 1
next_byte a b h k = omega arith

one_more :
    (a b : ℕ) (x : Bool) (c : ℕ)
    → a ≤ b
    → (a == c || x) || leb (a + 1) c && leb c b ≡ x || leb a c && leb c b
one_more a b x c h = ground arith

not_le : (a b : ℕ) → leb a b ≡ false → b < a
not_le a b h = ground arith

-- The byte `a` added before the rest of the range.
join_span :
    {a b : ℕ} {s : Charset} {o : Option (ℕ × Charset)}
    → a ≤ b
    → b < 255
    → IsWords s
    → Spanned ((a + 1) % 256) b (add s a) o
    → Spanned a b s o
join_span {a = a} {b = b} {s = s} h hb w r = record {
  char = r.char;
  chars = r.chars;
  returns = r.returns;
  is_byte = r.is_byte;
  is_words = r.is_words;
  holds = λ c hc.
      r.holds c hc
      ∙ rw (contains-add s a c w.0 (omega arith), next_byte a b h hb)
          (one_more a b (contains s c) c h);
}

pub add_span-Spanned :
    (k a b : ℕ) (s : Charset)
    → b < 255
    → a < 256
    → b + 1 - a < k
    → IsWords s
    → Spanned a b s (add_span k a b s)
unfolding add_span
add_span-Spanned zero a b s hb ha h w = absurd (omega arith)
add_span-Spanned (suc k) a b s hb ha h w = elim (Bool-cases (leb a b)) [
  | inl e ↦ rw e (
      join_span (leb→le a b e) hb w (
        add_span-Spanned k ((a + 1) % 256) b (add s a) hb (omega arith)
          (omega (arith, leb→le a b e)) (add-IsWords s a w ha)))
  | inr e ↦ rw e record {
    char = a;
    chars = s;
    returns = refl;
    is_byte = ha;
    is_words = w;
    holds = λ c _. above a b (contains s c) c (not_le a b e);
  }
]

-- The loop over a range of a class that goes up to the byte 255 has not ended after any number
-- of rounds, from any first byte and any set.
pub add_span-endless : (k a : ℕ) (s : Charset) → a < 256 → add_span k a 255 s ≡ none
unfolding add_span
add_span-endless zero a s h = refl
add_span-endless (suc k) a s h =
    ground (arith, add_span-endless k ((a + 1) % 256) (add s a) (omega arith))
