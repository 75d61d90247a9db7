-- ===== src/Matchset/Match/Domain.antt =====
-- A pattern of plain text behind a dot, from `Add` to `MatchAll`: it matches a domain and those
-- below it.
use chrome.Base.{
  All-map, ℕ, ◌<◌, ◌≤◌, ◌≡◌, ◌≢◌, ◌↔◌, ◌⊎◌, inl, inr, refl, sym, ap, ◌∙◌, Bool, true, false, ◌||◌,
  ◌==◌, ==_iff, ==_false, List, [], ◌∷◌, ◌++◌, All, some, length, arith,
}
use chrome.Base.Reverse.{reverse-reverse, reverse_swap, reverse_middle, All-reverse_aux}
use mathlib.Core.List.{Memᴰ, reverse, append-nil}
use chrome.Matchset.Parse.{MatchSet, magic_dot, new_set, add_pattern, atom_to_charset}
use chrome.Matchset.Parse.Text.{IsPlain, IsText, add_text}
use chrome.Matchset.Match.{match_all, takes_byte, is_asterisk}
use chrome.Matchset.Match.Spec.{Matches, Accepts, IsPattern, IsTail, NoColon}
use chrome.Matchset.Match.Spec.Matches.{dot_end, dot_more, byte, skip, more}
use chrome.Matchset.Match.Spec.Accepts.{plain}
use chrome.Matchset.Match.Accept.{plainly}
use chrome.Matchset.Match.Result.{match_all_iff, AcceptedFor}

abbrev Above : ℕ → Type 0
Above c = 4 < c

not_asterisk : (a : ℕ) → Above a → is_asterisk a ≡ false
not_asterisk a h = ground arith

not_magic : (a k : ℕ) → Above a → k ≤ 4 → a ≢ k
not_magic a k h l e = omega arith

or_false : (b : Bool) → (b || false) ≡ b
or_false true = refl
or_false false = refl

-- Without classes, an atom above the magic ones takes its own byte.
takes_own : (a c : ℕ) → Above a → takes_byte [] a c ≡ (a == c)
unfolding takes_byte atom_to_charset
takes_own a c h =
    rw (==_false (not_magic a 3 h (omega arith)), ==_false (not_magic a 4 h (omega arith)))
      (or_false (a == c))

text-IsTail : (text : List ℕ) → All Above text → IsTail (text ++ (magic_dot ∷ []))
text-IsTail [] h = tt
text-IsTail (a ∷ []) h = (not_magic a 0 h.0 (omega arith), λ _. refl, tt)
text-IsTail (a ∷ b ∷ text) h =
    (not_magic a 0 h.0 (omega arith), λ _. not_asterisk b h.1.0, text-IsTail (b ∷ text) h.1)

-- The rest of the reversed source: nothing, or a dot and more.
abbrev Ends : List ℕ → List ℕ → Type 0
Ends text bytes = (bytes ≡ text) ⊎ ((rest : List ℕ) × (bytes ≡ text ++ (b'.' ∷ rest)))

longer : (a : ℕ) (text bytes : List ℕ) → Ends text bytes → Ends (a ∷ text) (a ∷ bytes)
longer a text bytes (inl e) = inl (ap (λ xs. a ∷ xs) e)
longer a text bytes (inr (rest, e)) = inr (rest, ap (λ xs. a ∷ xs) e)

-- The first atom is a byte, so it takes the first byte.
first_byte :
    {a : ℕ} {next bytes : List ℕ}
    → Above a
    → Matches [] (a ∷ next) bytes
    → (rest : List ℕ) × (bytes ≡ a ∷ rest) × Matches [] next rest
first_byte {a = a} h (byte {c = c} {rest = rest} d e taken m) =
    (rest, ap (λ x. x ∷ rest) (sym ((==_iff a c).0 (sym (takes_own a c h) ∙ taken))), m)
first_byte {a = a} h (skip e m) = absurd (cc (e, not_asterisk a h))
first_byte {a = a} h (more e free m) = absurd (cc (e, not_asterisk a h))
first_byte h dot_end = absurd (omega arith)
first_byte h dot_more = absurd (omega arith)

Matches-Ends :
    (text bytes : List ℕ)
    → All Above text
    → Matches [] (text ++ (magic_dot ∷ [])) bytes
    → Ends text bytes
Matches-Ends [] bytes h dot_end = inl refl
Matches-Ends [] bytes h dot_more = inr (_, refl)
Matches-Ends [] bytes h (byte d e taken m) = absurd (d refl)
Matches-Ends [] bytes h (skip e m) = absurd (cc)
Matches-Ends [] bytes h (more e free m) = absurd (cc)
Matches-Ends (a ∷ text) bytes h m =
    let (rest, e, m') = first_byte h.0 m in
    rw e (longer a text rest (Matches-Ends text rest h.1 m'))

run_text :
    (text tail : List ℕ)
    → All Above text
    → Matches [] (magic_dot ∷ []) tail
    → Matches [] (text ++ (magic_dot ∷ [])) (text ++ tail)
run_text [] tail h m = m
run_text (a ∷ text) tail h m =
    byte (not_magic a 0 h.0 (omega arith)) (not_asterisk a h.0)
      (takes_own a a h.0 ∙ (==_iff a a).1 refl) (run_text text tail h.1 m)

Ends-Matches :
    (text bytes : List ℕ)
    → All Above text
    → Ends text bytes
    → Matches [] (text ++ (magic_dot ∷ [])) bytes
Ends-Matches text bytes h (inl e) = rw (e ∙ sym (append-nil text)) (run_text text [] h dot_end)
Ends-Matches text bytes h (inr (rest, e)) = rw e (run_text text (b'.' ∷ rest) h dot_more)

-- A name is the domain, or ends in a dot and the domain.
abbrev pub IsWithin : List ℕ → List ℕ → Type 0
IsWithin text source = (source ≡ text) ⊎ ((before : List ℕ) × (source ≡ before ++ (b'.' ∷ text)))

IsWithin-iff : (text source : List ℕ) → Ends (reverse text) (reverse source) ↔ IsWithin text source
IsWithin-iff text source = (into, back)
  where
    into : Ends (reverse text) (reverse source) → IsWithin text source
    into (inl e) = inl (reverse_swap source _ e ∙ reverse-reverse text)
    into (inr (rest, e)) = inr (
      reverse rest,
      reverse_swap source _ e
          ∙ reverse_middle (reverse text) b'.' rest
          ∙ ap (λ xs. reverse rest ++ (b'.' ∷ xs)) (reverse-reverse text),
    )

    back : IsWithin text source → Ends (reverse text) (reverse source)
    back (inl e) = inl (ap reverse e)
    back (inr (before, e)) = inr (reverse before, ap reverse e ∙ reverse_middle before b'.' text)

text-IsPattern : (text : List ℕ) → All Above text → IsPattern (text ++ (magic_dot ∷ []))
text-IsPattern [] h = tt
text-IsPattern (a ∷ []) h = (tt, (λ e. absurd (not_magic a 0 h.0 (omega arith) e)), λ _. refl)
text-IsPattern (a ∷ b ∷ text) h = (
  text-IsTail (b ∷ text) h.1,
  (λ e. absurd (not_magic a 0 h.0 (omega arith) e)),
  λ _. not_asterisk b h.1.0,
)

Accepts-Ends :
    (text bytes : List ℕ) (last : ℕ) (before : List ℕ)
    → text ≡ last ∷ before
    → All Above text
    → Accepts [] (text ++ (magic_dot ∷ [])) bytes
    → Ends text bytes
Accepts-Ends [] bytes last before e h a = absurd (cc)
Accepts-Ends (a ∷ text) bytes last before e h x =
    Matches-Ends (a ∷ text) bytes h
      (plainly [] a (text ++ (magic_dot ∷ [])) bytes (not_magic a 0 h.0 (omega arith)) x)

module _ {A : Type 0} where
  only_pattern :
      (p atoms bytes : List ℕ) (x y : A)
      → Memᴰ {A = List ℕ × A} (atoms, x) ((p, y) ∷ [])
      → Accepts [] atoms bytes
      → Accepts [] p bytes
  only_pattern p atoms bytes x y (Memᴰ.head e) a =
      rw (ap {A = List ℕ × A} {B = List ℕ} (λ q. q.0) e) at a
  only_pattern p atoms bytes x y (Memᴰ.tail m) a = elim m [ ]

  abbrev only : List ℕ → A → MatchSet A
  only text x = record (new_set A) { patterns = (reverse text ++ (magic_dot ∷ []), x) ∷ [] }

  -- For a domain of plain bytes, which are above 4 and not one of the special ones, whose last
  -- byte is not a dot: adding the pattern made of a dot and the domain to a new set returns,
  -- and for a nonempty source without a colon the datum of the pattern is among the results of
  -- MatchAll exactly when the source is the domain or ends in a dot and the domain.
  pub domain_iff :
      (text source : List ℕ) (x : A) (last : ℕ) (before : List ℕ)
      → IsText text
      → reverse text ≡ last ∷ before
      → last ≢ b'.'
      → 0 < length source
      → NoColon source
      → (set : MatchSet A) × (add_pattern (new_set A) (b'.' ∷ text) x ≡ some set)
        × (Memᴰ x (match_all set source) ↔ IsWithin text source)
  unfolding new_set
  domain_iff text source x last before h e ne_dot l n = (
    only text x,
    add_text (new_set A) text x last before h e ne_dot,
    (
      λ m.
          let (atoms, stored, accepts) = results.0 m in
          (IsWithin-iff text source).0 (
            Accepts-Ends (reverse text) (reverse source) last before e above
              (only_pattern _ atoms (reverse source) x x stored accepts)),
      λ w. results.1 (
        reverse text ++ (magic_dot ∷ []),
        Memᴰ.head refl,
        plain (Ends-Matches (reverse text) (reverse source) above ((IsWithin-iff text source).1 w)),
      ),
    ),
  )
    where
      above : All Above (reverse text)
      above = All-reverse_aux Above text [] (All-map IsPlain Above text (λ c p. p.0) h) tt

      results :
          Memᴰ x (match_all (only text x) source)
          ↔ AcceptedFor [] ((reverse text ++ (magic_dot ∷ []), x) ∷ []) x (reverse source)
      results = match_all_iff (only text x) source x (text-IsPattern (reverse text) above, tt) l n
