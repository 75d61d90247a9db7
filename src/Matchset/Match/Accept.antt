-- ===== src/Matchset/Match/Accept.antt =====
-- `match` calls out exactly what the relation accepts, a leading dot included.
use chrome.Base.{
  length, ℕ, ◌+◌, ◌<◌, zero, suc, ◌≡◌, ◌≢◌, refl, ap, ◌⊎◌, ◌↔◌, inl, inr, Bool, true, false, ◌==◌,
  List, [], ◌∷◌, ◌++◌, if◌then◌else◌, arith,
}
use native.Mathlib.Decide.{ℕ_discrete}
use chrome.Matchset.Charset.{Charset}
use chrome.Matchset.Parse.{magic_dot}
use chrome.Matchset.Match.Count.{match_bytes-end, calls, calls-nil}
use chrome.Matchset.Match.Steps.{calls_last_dot, calls_dot}
use chrome.Matchset.Match.Spec.{Matches, Accepts, IsTail, IsPattern, NoColon}
use chrome.Matchset.Match.Spec.Matches.{byte, skip, more}
use chrome.Matchset.Match.Spec.Accepts.{plain, any, at_start, behind_dot}
use chrome.Matchset.Match.Sound.{calls-Matches}
use chrome.Matchset.Match.Complete.{Matches-calls}

either : (x y : ℕ) → 0 < x + y → (0 < x) ⊎ (0 < y)
either zero y h = inr (omega arith)
either (suc x) y h = inl (omega arith)

on_dot : (c x : ℕ) → 0 < (if c == b'.' then x else 0) → (c ≡ b'.') × 0 < x
on_dot c x h = ground arith

module _ (charsets : List (Charset × ℕ)) where
  -- The atoms match from a place behind a dot.
  Behind : List ℕ → List ℕ → Type 0
  Behind atoms bytes =
      (before : List ℕ) × (c : ℕ) × (rest : List ℕ) × (bytes ≡ before ++ (b'.' ∷ c ∷ rest))
      × Matches charsets atoms (c ∷ rest)

  longer : (atoms bytes : List ℕ) (d : ℕ) → Behind atoms bytes → Behind atoms (d ∷ bytes)
  unfolding Behind
  longer atoms bytes d (before, c, rest, e, m) = (d ∷ before, c, rest, ap (λ xs. d ∷ xs) e, m)

  Behind-Accepts :
      (a : ℕ) (next bytes : List ℕ)
      → Behind (a ∷ next) bytes
      → Accepts charsets (magic_dot ∷ a ∷ next) bytes
  unfolding Behind
  Behind-Accepts a next bytes (before, c, rest, e, m) = rw e (behind_dot before m)

  calls_dot_later :
      (a c : ℕ) (next rest : List ℕ)
      → calls charsets (magic_dot ∷ a ∷ next) false (c ∷ rest)
        ≡ (if c == b'.' then calls charsets (a ∷ next) false rest else 0)
          + calls charsets (magic_dot ∷ a ∷ next) false rest
  calls_dot_later a c next rest = omega (arith, calls_dot charsets a next false c rest)

  calls_dot_first :
      (a c : ℕ) (next rest : List ℕ)
      → calls charsets (magic_dot ∷ a ∷ next) true (c ∷ rest)
        ≡ calls charsets (a ∷ next) true (c ∷ rest)
          + calls charsets (magic_dot ∷ a ∷ next) false (c ∷ rest)
  calls_dot_first a c next rest =
      omega (arith, calls_dot charsets a next true c rest, calls_dot_later a c next rest)

  calls_end : (atoms : List ℕ) (first : Bool) → calls charsets atoms first [] ≡ 0
  calls_end atoms first = match_bytes-end charsets (atoms ∷ []) first

  nothing_behind :
      (a c : ℕ) (next : List ℕ) → 0 < calls charsets (magic_dot ∷ a ∷ next) false (c ∷ []) → ⊥
  nothing_behind a c next h = elim (either _ _ (rw (calls_dot_later a c next []) at h)) [
    | inl k ↦
        omega
          (arith, (on_dot c (calls charsets (a ∷ next) false []) k).1, calls_end (a ∷ next) false)
    | inr k ↦ omega (arith, calls_end (magic_dot ∷ a ∷ next) false)
  ]

  calls-Behind :
      (a : ℕ) (next bytes : List ℕ)
      → IsTail (a ∷ next)
      → NoColon bytes
      → 0 < calls charsets (magic_dot ∷ a ∷ next) false bytes
      → Behind (a ∷ next) bytes
  unfolding Behind
  calls-Behind a next [] t n h = absurd (omega (arith, calls_end (magic_dot ∷ a ∷ next) false))
  calls-Behind a next (c ∷ []) t n h = absurd (nothing_behind a c next h)
  calls-Behind a next (c ∷ d ∷ rest) t n h =
      elim (either (if c == b'.' then calls charsets (a ∷ next) false (d ∷ rest) else 0)
        (calls charsets (magic_dot ∷ a ∷ next) false (d ∷ rest))
        (rw (calls_dot_later a c next (d ∷ rest)) at h)) [
          | inl k ↦
              let (e, l) = on_dot c (calls charsets (a ∷ next) false (d ∷ rest)) k in
              (
                [],
                d,
                rest,
                ap (λ x. x ∷ d ∷ rest) e,
                calls-Matches charsets rest (a ∷ next) d false t n.1 (λ x. absurd (cc)) l,
              )
          | inr k ↦ longer (a ∷ next) (d ∷ rest) c (calls-Behind a next (d ∷ rest) t n.1 k)
        ]

  behind_dot-calls :
      (a c : ℕ) (next before rest : List ℕ)
      → IsTail (a ∷ next)
      → Matches charsets (a ∷ next) (c ∷ rest)
      → 0 < calls charsets (magic_dot ∷ a ∷ next) false (before ++ (b'.' ∷ c ∷ rest))
  behind_dot-calls a c next [] rest t m =
      rw (calls_dot_later a b'.' next (c ∷ rest))
        (omega (arith, Matches-calls charsets rest (a ∷ next) c false t m))
  behind_dot-calls a c next (d ∷ before) rest t m =
      rw (calls_dot_later a d next (before ++ (b'.' ∷ c ∷ rest)))
        (omega (arith, behind_dot-calls a c next before rest t m))

  pub plainly :
      (a : ℕ) (next bytes : List ℕ)
      → a ≢ magic_dot
      → Accepts charsets (a ∷ next) bytes
      → Matches charsets (a ∷ next) bytes
  plainly a next bytes d (plain m) = m
  plainly a next bytes d any = absurd (d refl)
  plainly a next bytes d (at_start m) = absurd (d refl)
  plainly a next bytes d (behind_dot before m) = absurd (d refl)

  first_from_later :
      (a : ℕ) (next bytes : List ℕ)
      → 0 < calls charsets (magic_dot ∷ a ∷ next) false bytes
      → 0 < calls charsets (magic_dot ∷ a ∷ next) true bytes
  first_from_later a next [] h = absurd (omega (arith, calls_end (magic_dot ∷ a ∷ next) false))
  first_from_later a next (c ∷ bytes) h = omega (arith, calls_dot_first a c next bytes)

  Accepts-calls :
      (a : ℕ) (next bytes : List ℕ)
      → IsTail (a ∷ next)
      → Accepts charsets (magic_dot ∷ a ∷ next) bytes
      → 0 < length bytes
      → 0 < calls charsets (magic_dot ∷ a ∷ next) true bytes
  Accepts-calls a next bytes t (plain (byte d e taken m)) h = absurd (d refl)
  Accepts-calls a next bytes t (plain (skip e m)) h = absurd (cc)
  Accepts-calls a next bytes t (plain (more e free m)) h = absurd (cc)
  Accepts-calls a next (c ∷ bytes) t (at_start m) h =
      omega
        (arith, calls_dot_first a c next bytes, Matches-calls charsets bytes (a ∷ next) c true t m)
  Accepts-calls a next [] t (at_start m) h = absurd (omega arith)
  Accepts-calls a next bytes t (behind_dot before m) h =
      first_from_later a next _ (behind_dot-calls a _ next before _ t m)

  dotted_iff :
      (a c : ℕ) (next bytes : List ℕ)
      → a ≢ magic_dot
      → IsTail (a ∷ next)
      → NoColon (c ∷ bytes)
      → (0 < calls charsets (magic_dot ∷ a ∷ next) true (c ∷ bytes))
        ↔ Accepts charsets (magic_dot ∷ a ∷ next) (c ∷ bytes)
  dotted_iff a c next bytes d t n = (
    λ h.
        elim (either (calls charsets (a ∷ next) true (c ∷ bytes))
          (calls charsets (magic_dot ∷ a ∷ next) false (c ∷ bytes))
          (rw (calls_dot_first a c next bytes) at h)) [
            | inl k ↦
                at_start (calls-Matches charsets bytes (a ∷ next) c true t n (λ _ e. d (cc)) k)
            | inr k ↦ Behind-Accepts a next (c ∷ bytes) (calls-Behind a next (c ∷ bytes) t n k)
          ],
    λ x. Accepts-calls a next (c ∷ bytes) t x (omega arith),
  )

  tail_iff :
      (a c : ℕ) (next bytes : List ℕ)
      → a ≢ magic_dot
      → IsTail (a ∷ next)
      → NoColon (c ∷ bytes)
      → (0 < calls charsets (a ∷ next) true (c ∷ bytes)) ↔ Accepts charsets (a ∷ next) (c ∷ bytes)
  tail_iff a c next bytes d t n = (
    λ h. plain (calls-Matches charsets bytes (a ∷ next) c true t n (λ _ e. d (cc)) h),
    λ x. Matches-calls charsets bytes (a ∷ next) c true t (plainly a next (c ∷ bytes) d x),
  )

  pub calls_iff :
      (atoms : List ℕ) (c : ℕ) (bytes : List ℕ)
      → IsPattern atoms
      → NoColon (c ∷ bytes)
      → (0 < calls charsets atoms true (c ∷ bytes)) ↔ Accepts charsets atoms (c ∷ bytes)
  calls_iff [] c bytes p n = (
    λ h. absurd (omega (arith, calls-nil charsets true (c ∷ bytes))),
    λ x. elim x [ plain m ↦ elim m [ ] ],
  )
  calls_iff (a ∷ []) c bytes p n = elim (ℕ_discrete a magic_dot) [
    | yes e ↦ rw e (λ _. any, λ _. rw (calls_last_dot charsets true c bytes) (omega arith))
    | no d ↦ tail_iff a c [] bytes d tt n
  ]
  calls_iff (a ∷ b ∷ next) c bytes p n = elim (ℕ_discrete a magic_dot) [
    | yes e ↦ rw e (dotted_iff b c next bytes (p.1 e) p.0 n)
    | no d ↦ tail_iff a c (b ∷ next) bytes d (d, p.2, p.0) n
  ]
