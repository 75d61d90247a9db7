-- ===== src/Matchset/Match/Complete.antt =====
-- What the relation accepts, `match` calls out.
use chrome.Base.{
  ℕ, ◌+◌, ◌<◌, ◌≡◌, refl, ap, ◌∙◌, Bool, true, false, ◌||◌, ◌==◌, List, [], ◌∷◌, if◌then◌else◌,
  arith,
}
use chrome.Matchset.Charset.{Charset}
use chrome.Matchset.Parse.{magic_dot}
use chrome.Matchset.Match.{is_empty, is_asterisk, may_end}
use chrome.Matchset.Match.Count.{calls, one_if}
use chrome.Matchset.Match.Steps.{calls_last_dot, calls_asterisk, calls_byte}
use chrome.Matchset.Match.Sound.{IsTail-rest}
use chrome.Matchset.Match.Spec.{bars, Matches, IsTail}
use chrome.Matchset.Match.Spec.Matches.{dot_end, dot_more, byte, skip, more}

star_count :
    (e b r : Bool) (x y : ℕ)
    → b ≡ false
    → r ≡ false
    → 0 < y
    → 0 < (if e then 0 else x) + (if b then 0 else if r then one_if e else y)
star_count true b r x y h k l = rw (h, k) (omega arith)
star_count false b r x y h k l = rw (h, k) (omega arith)

first_dot : (first : Bool) (c : ℕ) → c ≡ b'.' → 0 < one_if (first || c == b'.')
first_dot true c e = omega arith
first_dot false c e = ground arith

module _ (charsets : List (Charset × ℕ)) where
  nothing_left :
      (b : ℕ) (next : List ℕ)
      → Matches charsets (b ∷ next) []
      → is_asterisk b ≡ false
      → (b ∷ next) ≡ magic_dot ∷ []
  nothing_left b next dot_end h = refl
  nothing_left b next (skip e m) h = absurd (cc)

  Matches-may_end :
      (atoms : List ℕ) → IsTail atoms → Matches charsets atoms [] → may_end atoms ≡ true
  unfolding may_end
  Matches-may_end [] t m = refl
  Matches-may_end (a ∷ []) t dot_end = refl
  Matches-may_end (a ∷ []) t (skip e m) = ground arith
  Matches-may_end (a ∷ b ∷ next) t (skip e m) =
      ap (λ atoms. may_end (a ∷ atoms)) (nothing_left b next m (t.1 e)) ∙ rw e refl

  last_label :
      (b : ℕ) (next : List ℕ) (c : ℕ)
      → Matches charsets (b ∷ next) []
      → is_asterisk b ≡ false
      → 0 < calls charsets (b ∷ next) true (c ∷ [])
  last_label b next c m h =
      rw (nothing_left b next m h, calls_last_dot charsets true c []) (omega arith)

  pub Matches-calls :
      (bytes atoms : List ℕ) (c : ℕ) (first : Bool)
      → IsTail atoms
      → Matches charsets atoms (c ∷ bytes)
      → 0 < calls charsets atoms first (c ∷ bytes)
  unfolding is_empty
  Matches-calls bytes atoms c first t dot_more =
      rw (calls_last_dot charsets first b'.' bytes) (first_dot first b'.' refl)
  Matches-calls [] (a ∷ next) c first t (byte d e taken m) =
      rw
        (
          calls_byte charsets a next first c [] d e,
          taken,
          Matches-may_end next (IsTail-rest a next t) m,
        )
        (omega arith)
  Matches-calls (d ∷ bytes) (a ∷ next) c first t (byte k e taken m) =
      rw (calls_byte charsets a next first c (d ∷ bytes) k e, taken)
        (Matches-calls bytes next d false (IsTail-rest a next t) m)
  Matches-calls bytes (a ∷ []) c first t (skip e m) = elim m [ ]
  Matches-calls bytes (a ∷ b ∷ next) c first t (skip e m) =
      rw (calls_asterisk charsets a (b ∷ next) first c bytes e)
        (omega (arith, Matches-calls bytes (b ∷ next) c true t.2 m))
  Matches-calls [] (a ∷ []) c first t (more e free m) =
      rw (calls_asterisk charsets a [] first c [] e, free) (omega arith)
  Matches-calls [] (a ∷ b ∷ next) c first t (more e free (skip _ m)) =
      rw (calls_asterisk charsets a (b ∷ next) first c [] e)
        (omega (arith, last_label b next c m (t.1 e)))
  Matches-calls (d ∷ bytes) (a ∷ next) c first t (more e free m) =
      rw (calls_asterisk charsets a next first c (d ∷ bytes) e) (
        star_count (is_empty next) (bars a c) false (calls charsets next true (c ∷ d ∷ bytes))
          (calls charsets (a ∷ next) false (d ∷ bytes)) free refl
          (Matches-calls bytes (a ∷ next) d false t m))
