-- ===== src/Matchset/Match/Sound.antt =====
-- What `match` calls out is accepted by the relation.
use chrome.Base.{
  ℕ, ◌+◌, ◌<◌, zero, suc, ◌≡◌, ◌≢◌, refl, ap, ◌⊎◌, inl, inr, Bool, true, false, ◌||◌, ◌==◌, ==_iff,
  List, [], ◌∷◌, if◌then◌else◌, Bool-cases, arith,
}
use native.Mathlib.Decide.{ℕ_discrete}
use chrome.Matchset.Charset.{Charset}
use chrome.Matchset.Parse.{magic_dot}
use chrome.Matchset.Match.{is_empty, is_separator, is_asterisk, takes_byte, may_end}
use chrome.Matchset.Match.Count.{calls, calls-nil, one_if}
use chrome.Matchset.Match.Steps.{calls_last_dot, calls_asterisk, calls_byte}
use chrome.Matchset.Match.Spec.{bars, Matches, IsTail, NoColon}
use chrome.Matchset.Match.Spec.Matches.{done, dot_end, dot_more, byte, skip, more}

pub kinds :
    (a : ℕ)
    → (a ≡ magic_dot) ⊎ ((is_asterisk a ≡ true) ⊎ ((a ≢ magic_dot) × (is_asterisk a ≡ false)))
kinds a = ground arith

-- The reasons for a call where an asterisk stands first, and where a byte is taken.
star_reasons :
    (e b r : Bool) (x y : ℕ)
    → 0 < (if e then 0 else x) + (if b then 0 else if r then one_if e else y)
    → ((e ≡ false) × 0 < x)
      ⊎ (((b ≡ false) × (r ≡ true) × (e ≡ true)) ⊎ ((b ≡ false) × (r ≡ false) × 0 < y))
star_reasons true true r x y h = absurd (omega arith)
star_reasons true false true x y h = inr (inl (refl, refl, refl))
star_reasons true false false x y h = inr (inr (refl, refl, omega arith))
star_reasons false true r x y h = inl (refl, omega arith)
star_reasons false false true x y h = inl (refl, omega arith)
star_reasons false false false zero y h = inr (inr (refl, refl, omega arith))
star_reasons false false false (suc x) y h = inl (refl, omega arith)

byte_reasons :
    (t r m : Bool) (y : ℕ)
    → 0 < (if t then (if r then one_if m else y) else 0)
    → (t ≡ true) × (((r ≡ true) × (m ≡ true)) ⊎ ((r ≡ false) × 0 < y))
byte_reasons false r m y h = absurd (omega arith)
byte_reasons true true false y h = absurd (omega arith)
byte_reasons true true true y h = (refl, inl (refl, refl))
byte_reasons true false m y h = (refl, inr (refl, h))

-- What the first atom demands of the source that is left.
not_bars : (a c : ℕ) → (c == b'.') ≡ false → c ≢ b':' → bars a c ≡ false
unfolding is_separator
not_bars a c h k = ground arith

second : (a b : ℕ) → may_end (a ∷ b ∷ []) ≡ true → b ≡ magic_dot
unfolding may_end
second a b h = ground arith

empty_only : (xs : List ℕ) → is_empty xs ≡ true → xs ≡ []
unfolding is_empty
empty_only [] h = refl
empty_only (x ∷ xs) h = absurd (cc)

pub last_dot-cases : (xs : List ℕ) → (xs ≡ magic_dot ∷ []) ⊎ (xs ≢ magic_dot ∷ [])
last_dot-cases [] = inr (λ e. absurd (cc))
last_dot-cases (x ∷ []) = elim (ℕ_discrete x magic_dot) [
  | yes e ↦ inl (ap (λ y. y ∷ []) e)
  | no ne ↦ inr (λ e. ne (cc))
]
last_dot-cases (x ∷ y ∷ xs) = inr (λ e. absurd (cc))

none_left : is_empty [] ≡ false → ⊥
unfolding is_empty
none_left h = absurd (cc)

is_dot : (c : ℕ) → 0 < one_if (false || c == b'.') → c ≡ b'.'
is_dot c h = ground arith

pub IsTail-rest : (a : ℕ) (next : List ℕ) → IsTail (a ∷ next) → IsTail next
IsTail-rest a [] t = tt
IsTail-rest a (b ∷ next) t = t.2

module _ (charsets : List (Charset × ℕ)) where
  -- An asterisk before the last dot takes the rest of a label, or everything.
  star_dot :
      (a : ℕ) (bytes : List ℕ)
      → is_asterisk a ≡ true
      → NoColon bytes
      → Matches charsets (a ∷ magic_dot ∷ []) bytes
  star_dot a [] h n = skip h dot_end
  star_dot a (c ∷ rest) h n = elim (Bool-cases (c == b'.')) [
    | inl e ↦ rw ((==_iff c b'.').0 e) (skip h dot_more)
    | inr e ↦ more h (not_bars a c e n.0) (star_dot a rest h n.1)
  ]

  may_end-Matches : (atoms : List ℕ) → may_end atoms ≡ true → Matches charsets atoms []
  unfolding may_end
  may_end-Matches [] h = done
  may_end-Matches (a ∷ []) h = elim (kinds a) [
    | inl e ↦ rw e dot_end
    | inr (inl e) ↦ skip e done
    | inr (inr k) ↦ absurd (ground arith)
  ]
  may_end-Matches (a ∷ b ∷ []) h = skip (ground arith) (rw (second a b h) dot_end)
  may_end-Matches (a ∷ b ∷ c ∷ next) h = absurd (cc)

  star_step :
      (bytes next : List ℕ) (a c : ℕ) (first : Bool)
      → is_asterisk a ≡ true
      → NoColon (c ∷ bytes)
      → (next ≢ magic_dot ∷ []
          → 0 < calls charsets next true (c ∷ bytes)
          → Matches charsets next (c ∷ bytes))
      → (is_empty bytes ≡ false
          → 0 < calls charsets (a ∷ next) false bytes
          → Matches charsets (a ∷ next) bytes)
      → 0 < calls charsets (a ∷ next) first (c ∷ bytes)
      → Matches charsets (a ∷ next) (c ∷ bytes)
  star_step bytes next a c first e n at_next at_rest h =
      elim (star_reasons (is_empty next) (bars a c) (is_empty bytes)
        (calls charsets next true (c ∷ bytes)) (calls charsets (a ∷ next) false bytes)
        (rw (calls_asterisk charsets a next first c bytes e) at h)) [
          | inl (_, some_calls) ↦ elim (last_dot-cases next) [
            | inl d ↦ rw d (star_dot a (c ∷ bytes) e n)
            | inr d ↦ skip e (at_next d some_calls)
          ]
          | inr (inl (free, at_end, last)) ↦
              more e free (rw (empty_only bytes at_end, empty_only next last) (skip e done))
          | inr (inr (free, not_end, some_calls)) ↦ more e free (at_rest not_end some_calls)
        ]

  byte_step :
      (bytes next : List ℕ) (a c : ℕ) (first : Bool)
      → a ≢ magic_dot
      → is_asterisk a ≡ false
      → (is_empty bytes ≡ false → 0 < calls charsets next false bytes → Matches charsets next bytes)
      → 0 < calls charsets (a ∷ next) first (c ∷ bytes)
      → Matches charsets (a ∷ next) (c ∷ bytes)
  byte_step bytes next a c first d e at_rest h =
      let (taken, reasons) =
        byte_reasons (takes_byte charsets a c) (is_empty bytes) (may_end next)
          (calls charsets next false bytes)
          (rw (calls_byte charsets a next first c bytes d e) at h) in
      byte d e taken (elim reasons [
        | inl (at_end, ends) ↦ rw (empty_only bytes at_end) (may_end-Matches next ends)
        | inr (not_end, some_calls) ↦ at_rest not_end some_calls
      ])

  dot_step :
      (bytes : List ℕ) (a c : ℕ) (first : Bool)
      → a ≡ magic_dot
      → (first ≡ true → (a ∷ []) ≢ magic_dot ∷ [])
      → 0 < calls charsets (a ∷ []) first (c ∷ bytes)
      → Matches charsets (a ∷ []) (c ∷ bytes)
  dot_step bytes a c true e f h = absurd (f refl (ap (λ x. x ∷ []) e))
  dot_step bytes a c false e f h =
      rw (e, is_dot c (rw (e, calls_last_dot charsets false c bytes) at h)) dot_more

  dot_alone :
      (bytes next : List ℕ) (a c : ℕ) (first : Bool)
      → a ≡ magic_dot
      → IsTail (a ∷ next)
      → (first ≡ true → (a ∷ next) ≢ magic_dot ∷ [])
      → 0 < calls charsets (a ∷ next) first (c ∷ bytes)
      → Matches charsets (a ∷ next) (c ∷ bytes)
  dot_alone bytes [] a c first e t f h = dot_step bytes a c first e f h
  dot_alone bytes (b ∷ next) a c first e t f h = absurd (t.0 e)

  pub calls-Matches :
      (bytes atoms : List ℕ) (c : ℕ) (first : Bool)
      → IsTail atoms
      → NoColon (c ∷ bytes)
      → (first ≡ true → atoms ≢ magic_dot ∷ [])
      → 0 < calls charsets atoms first (c ∷ bytes)
      → Matches charsets atoms (c ∷ bytes)
  calls-Matches bytes [] c first t n f h =
      absurd (omega (arith, calls-nil charsets first (c ∷ bytes)))
  calls-Matches [] (a ∷ next) c first t n f h = elim (kinds a) [
    | inl e ↦ dot_alone [] next a c first e t f h
    | inr (inl e) ↦
        star_step [] next a c first e n
          (λ d k. calls-Matches [] next c true (IsTail-rest a next t) n (λ _. d) k)
          (λ k. absurd (none_left k)) h
    | inr (inr (d, e)) ↦ byte_step [] next a c first d e (λ k. absurd (none_left k)) h
  ]
  calls-Matches (d ∷ bytes) (a ∷ next) c first t n f h = elim (kinds a) [
    | inl e ↦ dot_alone (d ∷ bytes) next a c first e t f h
    | inr (inl e) ↦
        star_step (d ∷ bytes) next a c first e n
          (λ k. calls-Matches (d ∷ bytes) next c true (IsTail-rest a next t) n (λ _. k))
          (λ _. calls-Matches bytes (a ∷ next) d false t n.1 (λ k. absurd (cc))) h
    | inr (inr (k, e)) ↦
        byte_step (d ∷ bytes) next a c first k e
          (λ _. calls-Matches bytes next d false (IsTail-rest a next t) n.1 (λ k. absurd (cc))) h
  ]
