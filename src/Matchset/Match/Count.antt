-- ===== src/Matchset/Match/Count.antt =====
-- The calls of `accumulate`, one pattern at a time: the patterns of a round do not interact, so the
-- calls for a list of patterns are the sum over its members.
use chrome.Base.{
  ℕ, ◌+◌, ◌≡◌, refl, sym, ap, ◌∙◌, Bool, true, false, List, [], ◌∷◌, ◌++◌, if◌then◌else◌, sum_by,
  arith,
}
use mathlib.Core.List.{append_assoc, append-nil}
use chrome.Matchset.Charset.{Charset}
use chrome.Matchset.Match.{Hits, match_bytes, check_all, check_pattern, join, no_patterns, hit_if}

abbrev pub one_if : Bool → ℕ
one_if true = 1
one_if false = 0

module _ (charsets : List (Charset × ℕ)) where
  -- The calls for one pattern.
  abbrev pub calls : List ℕ → Bool → List ℕ → ℕ
  calls atoms first bytes = match_bytes charsets (atoms ∷ []) first bytes

  -- The calls that a round has made and those of the rounds after it.
  abbrev pub after : Hits → List ℕ → ℕ
  after hits rest = hits.1 + match_bytes charsets hits.0 false rest

  pub match_bytes-end : (ps : List (List ℕ)) (first : Bool) → match_bytes charsets ps first [] ≡ 0
  unfolding match_bytes
  match_bytes-end ps first = refl

  match_bytes-nil : (first : Bool) (bytes : List ℕ) → match_bytes charsets [] first bytes ≡ 0
  unfolding match_bytes
  match_bytes-nil first [] = refl
  match_bytes-nil first (c ∷ rest) = refl

  match_bytes-round :
      (patterns : List (List ℕ)) (first : Bool) (c : ℕ) (rest : List ℕ)
      → match_bytes charsets patterns first (c ∷ rest)
        ≡ after (check_all charsets patterns first c rest) rest
  unfolding match_bytes
  match_bytes-round patterns first c rest = settle (check_all charsets patterns first c rest)
    where
      settle :
          (hits : Hits)
          → (if no_patterns hits.0 then hits.1 else hits.1 + match_bytes charsets hits.0 false rest)
            ≡ after hits rest
      settle ([], n) = omega (arith, match_bytes-nil false rest)
      settle (p ∷ ps, n) = refl

  patterns_append :
      (ps qs : List (List ℕ)) (first : Bool) (c : ℕ) (rest : List ℕ)
      → (check_all charsets (ps ++ qs) first c rest).0
        ≡ (check_all charsets ps first c rest).0 ++ (check_all charsets qs first c rest).0
  patterns_append [] qs first c rest = refl
  patterns_append (p ∷ ps) qs first c rest =
      rw (patterns_append ps qs first c rest)
        (sym (append_assoc (check_pattern charsets p first c rest).0 _ _))

  number_append :
      (ps qs : List (List ℕ)) (first : Bool) (c : ℕ) (rest : List ℕ)
      → (check_all charsets (ps ++ qs) first c rest).1
        ≡ (check_all charsets ps first c rest).1 + (check_all charsets qs first c rest).1
  number_append [] qs first c rest = omega arith
  number_append (p ∷ ps) qs first c rest = omega (arith, number_append ps qs first c rest)

  pub match_bytes-append :
      (ps qs : List (List ℕ)) (first : Bool) (bytes : List ℕ)
      → match_bytes charsets (ps ++ qs) first bytes
        ≡ match_bytes charsets ps first bytes + match_bytes charsets qs first bytes
  match_bytes-append ps qs first [] =
      omega (
        arith,
        match_bytes-end (ps ++ qs) first,
        match_bytes-end ps first,
        match_bytes-end qs first,
      )
  match_bytes-append ps qs first (c ∷ rest) =
      rw
        (
          match_bytes-round (ps ++ qs) first c rest,
          match_bytes-round ps first c rest,
          match_bytes-round qs first c rest,
          patterns_append ps qs first c rest,
          number_append ps qs first c rest,
        )
        (omega (
          arith,
          match_bytes-append (check_all charsets ps first c rest).0
              (check_all charsets qs first c rest).0 false rest,
        ))

  -- The calls for several patterns are the calls for each.
  pub match_bytes-sum :
      (ps : List (List ℕ)) (first : Bool) (bytes : List ℕ)
      → match_bytes charsets ps first bytes ≡ sum_by (λ p. calls p first bytes) ps
  match_bytes-sum [] first bytes = match_bytes-nil first bytes
  match_bytes-sum (p ∷ ps) first bytes =
      omega (arith, match_bytes-append (p ∷ []) ps first bytes, match_bytes-sum ps first bytes)

  pub after-join :
      (h k : Hits) (rest : List ℕ) → after (join h k) rest ≡ after h rest + after k rest
  after-join h k rest = omega (arith, match_bytes-append h.0 k.0 false rest)

  -- One round for one pattern.
  pub calls-round :
      (atoms : List ℕ) (first : Bool) (c : ℕ) (rest : List ℕ)
      → calls atoms first (c ∷ rest) ≡ after (check_pattern charsets atoms first c rest) rest
  calls-round atoms first c rest = rw (match_bytes-round (atoms ∷ []) first c rest) (
      omega (
        arith,
        ap (λ ps. match_bytes charsets ps false rest)
            (append-nil (check_pattern charsets atoms first c rest).0),
      ))

  pub after_none : (n : ℕ) (rest : List ℕ) → after ([], n) rest ≡ n
  after_none n rest = omega (arith, match_bytes-nil false rest)

  pub calls-nil : (first : Bool) (bytes : List ℕ) → calls [] first bytes ≡ 0
  unfolding check_pattern
  calls-nil first [] = match_bytes-end _ first
  calls-nil first (c ∷ rest) = calls-round [] first c rest ∙ after_none 0 rest

  pub after-hit_if : (b : Bool) (rest : List ℕ) → after (hit_if b) rest ≡ one_if b
  after-hit_if true rest = after_none 1 rest
  after-hit_if false rest = after_none 0 rest
