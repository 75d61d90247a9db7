-- ===== src/Matchset/Match/Result.antt =====
-- The result of `MatchSet.MatchAll` by what the patterns mean.
use chrome.Base.{
  true, ℕ, ◌+◌, ◌<◌, zero, suc, ◌≡◌, ◌↔◌, refl, ap, inl, inr, List, [], ◌∷◌, All, replicate, length,
  arith,
}
use mathlib.Core.List.{Memᴰ, reverse, reverse_aux}
use mathlib.Core.List.Memᴰ
use chrome.Matchset.Charset.{Charset}
use chrome.Matchset.Parse.{MatchSet}
use chrome.Matchset.Match.{match_all, match_patterns}
use chrome.Matchset.Match.Count.{calls}
use chrome.Matchset.Match.Spec.{Accepts, IsPattern, NoColon}
use chrome.Matchset.Match.Accept.{calls_iff}

NoColon-reverse_aux : (xs ys : List ℕ) → NoColon xs → NoColon ys → NoColon (reverse_aux xs ys)
NoColon-reverse_aux [] ys h k = k
NoColon-reverse_aux (x ∷ xs) ys h k = NoColon-reverse_aux xs (x ∷ ys) h.1 (h.0, k)

length-reverse_aux : (xs ys : List ℕ) → length (reverse_aux xs ys) ≡ length xs + length ys
length-reverse_aux [] ys = omega arith
length-reverse_aux (x ∷ xs) ys = omega (arith, length-reverse_aux xs (x ∷ ys))

module _ {A : Type 0} where
  mem-replicate : (n : ℕ) (x y : A) → Memᴰ x (replicate n y) → (x ≡ y) × (0 < n)
  mem-replicate zero x y m = elim m [ ]
  mem-replicate (suc n) x y (Memᴰ.head e) = (e, omega arith)
  mem-replicate (suc n) x y (Memᴰ.tail m) = ((mem-replicate n x y m).0, omega arith)

  replicate-mem : (n : ℕ) (x : A) → 0 < n → Memᴰ x (replicate n x)
  replicate-mem zero x h = absurd (omega arith)
  replicate-mem (suc n) x h = Memᴰ.head refl

  -- Some pattern of the list is stored with `x` and accepts the bytes.
  abbrev pub AcceptedFor : List (Charset × ℕ) → List (List ℕ × A) → A → List ℕ → Type 0
  AcceptedFor charsets patterns x bytes =
      (atoms : List ℕ) × Memᴰ (atoms, x) patterns × Accepts charsets atoms bytes

  abbrev pub ArePatterns : List (List ℕ × A) → Type 0
  ArePatterns = All (λ p. IsPattern p.0)

  one_more :
      (charsets : List (Charset × ℕ)) (ps : List (List ℕ × A)) (p : List ℕ × A) (x : A)
      (bytes : List ℕ)
      → AcceptedFor charsets ps x bytes
      → AcceptedFor charsets (p ∷ ps) x bytes
  one_more charsets ps p x bytes (atoms, m, a) = (atoms, Memᴰ.tail m, a)

  called :
      (charsets : List (Charset × ℕ)) (ps : List (List ℕ × A)) (x : A) (c : ℕ) (bytes : List ℕ)
      → ArePatterns ps
      → NoColon (c ∷ bytes)
      → Memᴰ x (match_patterns charsets ps (c ∷ bytes))
      → AcceptedFor charsets ps x (c ∷ bytes)
  unfolding match_patterns
  called charsets [] x c bytes h n m = elim m [ ]
  called charsets ((atoms, y) ∷ ps) x c bytes h n m =
      elim (Memᴰ.append_cases (replicate (calls charsets atoms true (c ∷ bytes)) y) m) [
        | inl here ↦
            let (e, some_calls) = mem-replicate _ x y here in
            (
              atoms,
              Memᴰ.head (ap (λ z. (atoms, z)) e),
              (calls_iff charsets atoms c bytes h.0 n).0 some_calls,
            )
        | inr there ↦
            one_more charsets ps (atoms, y) x (c ∷ bytes) (called charsets ps x c bytes h.1 n there)
      ]

  accepted :
      (charsets : List (Charset × ℕ)) (ps : List (List ℕ × A)) (x : A) (c : ℕ) (bytes : List ℕ)
      → ArePatterns ps
      → NoColon (c ∷ bytes)
      → (atoms : List ℕ) → Memᴰ (atoms, x) ps
      → Accepts charsets atoms (c ∷ bytes)
      → Memᴰ x (match_patterns charsets ps (c ∷ bytes))
  unfolding match_patterns
  accepted charsets [] x c bytes h n atoms m a = elim m [ ]
  accepted charsets ((atoms', y) ∷ ps) x c bytes h n atoms (Memᴰ.head e) a =
      let stored = rw (ap {A = List ℕ × A} {B = List ℕ} (λ p. p.0) e) at a in
      Memᴰ.append_left _ (
        Memᴰ.cast (ap {A = List ℕ × A} {B = A} (λ p. p.1) e)
          (replicate-mem _ y ((calls_iff charsets atoms' c bytes h.0 n).1 stored)))
  accepted charsets (p ∷ ps) x c bytes h n atoms (Memᴰ.tail m) a =
      Memᴰ.append_right _ (accepted charsets ps x c bytes h.1 n atoms m a)

  on_bytes :
      (charsets : List (Charset × ℕ)) (ps : List (List ℕ × A)) (x : A) (bytes : List ℕ)
      → ArePatterns ps
      → 0 < length bytes
      → NoColon bytes
      → Memᴰ x (match_patterns charsets ps bytes) ↔ AcceptedFor charsets ps x bytes
  on_bytes charsets ps x [] h l n = absurd (omega arith)
  on_bytes charsets ps x (c ∷ bytes) h l n = (
    called charsets ps x c bytes h n,
    λ (atoms, m, a). accepted charsets ps x c bytes h n atoms m a,
  )

  -- For a set in whose stored patterns no asterisk follows an asterisk and a dot of the magic
  -- kind stands only at the two ends and not at both of two atoms, and for a nonempty source
  -- without a colon: a datum is among the results of MatchAll exactly when it is stored with
  -- some pattern that accepts the reversed source by the relation Accepts, in which an asterisk
  -- takes any run of bytes it may, a leading dot lets the rest begin behind any dot, and a last
  -- dot is the end of the source or a dot.
  pub match_all_iff :
      (set : MatchSet A) (source : List ℕ) (x : A)
      → ArePatterns set.patterns
      → 0 < length source
      → NoColon source
      → Memᴰ x (match_all set source) ↔ AcceptedFor set.charsets set.patterns x (reverse source)
  unfolding match_all
  match_all_iff set source x h l n =
      on_bytes set.charsets set.patterns x (reverse source) h
        (omega (arith, length-reverse_aux source [])) (NoColon-reverse_aux source [] n tt)
