-- ===== src/Matchset/Match/Steps.antt =====
-- What one round does to the calls for one pattern, by the kind of its first atom.
use chrome.Base.{
  ℕ, ◌+◌, ◌≡◌, ◌≢◌, refl, sym, ◌∙◌, Bool, true, false, ◌&&◌, ◌||◌, ◌==◌, List, [], ◌∷◌, ◌++◌,
  if◌then◌else◌, arith,
}
use chrome.Matchset.Charset.{Charset}
use chrome.Matchset.Parse.{magic_dot, magic_asterisk}
use chrome.Matchset.Match.{
  Hits, check_pattern, check_dot, check_asterisk, check_byte, is_empty, is_separator, is_asterisk,
  hit_if, takes_byte, may_end,
}
use chrome.Matchset.Match.Count.{
  calls, after, after-join, calls-round, after_none, after-hit_if, one_if, calls-nil,
  match_bytes-append,
}

asterisk_not_dot : (a : ℕ) → is_asterisk a ≡ true → (a == magic_dot) ≡ false
asterisk_not_dot a h = ground arith

not_dot : (a : ℕ) → a ≢ magic_dot → (a == magic_dot) ≡ false
not_dot a h = ground arith

module _ (charsets : List (Charset × ℕ)) where
  pub calls_last_dot :
      (first : Bool) (c : ℕ) (rest : List ℕ)
      → calls charsets (magic_dot ∷ []) first (c ∷ rest) ≡ one_if (first || c == b'.')
  unfolding check_pattern check_dot is_empty
  calls_last_dot first c rest =
      calls-round charsets (magic_dot ∷ []) first c rest
      ∙ after-hit_if charsets (first || c == b'.') rest

  after_if :
      (b : Bool) (h : Hits) (rest : List ℕ)
      → after charsets (if b then h else ([], 0)) rest ≡ (if b then after charsets h rest else 0)
  after_if true h rest = refl
  after_if false h rest = after_none charsets 0 rest

  after_unless :
      (b : Bool) (h : Hits) (rest : List ℕ)
      → after charsets (if b then ([], 0) else h) rest ≡ (if b then 0 else after charsets h rest)
  after_unless true h rest = after_none charsets 0 rest
  after_unless false h rest = refl

  after_kept :
      (p : List ℕ) (rest : List ℕ) → after charsets (p ∷ [], 0) rest ≡ calls charsets p false rest
  after_kept p rest = omega arith

  after_two :
      (b : Bool) (p q : List ℕ) (rest : List ℕ)
      → after charsets ((if b then p ∷ [] else []) ++ (q ∷ []), 0) rest
        ≡ (if b then calls charsets p false rest else 0) + calls charsets q false rest
  after_two true p q rest = omega (arith, match_bytes-append charsets (p ∷ []) (q ∷ []) false rest)
  after_two false p q rest = omega arith

  after_branch :
      (b : Bool) (h k : Hits) (rest : List ℕ)
      → after charsets (if b then h else k) rest
        ≡ (if b then after charsets h rest else after charsets k rest)
  after_branch true h k rest = refl
  after_branch false h k rest = refl

  after_next :
      (next : List ℕ) (rest : List ℕ)
      → after charsets (if is_empty next then ([], 0) else (next ∷ [], 0)) rest
        ≡ calls charsets next false rest
  unfolding is_empty
  after_next [] rest = after_none charsets 0 rest ∙ sym (calls-nil charsets false rest)
  after_next (x ∷ next) rest = after_kept (x ∷ next) rest

  pub calls_dot :
      (x : ℕ) (next : List ℕ) (first : Bool) (c : ℕ) (rest : List ℕ)
      → calls charsets (magic_dot ∷ x ∷ next) first (c ∷ rest)
        ≡ (if first then calls charsets (x ∷ next) true (c ∷ rest) else 0)
          + (if c == b'.' then calls charsets (x ∷ next) false rest else 0)
          + calls charsets (magic_dot ∷ x ∷ next) false rest
  unfolding check_pattern check_dot is_empty
  calls_dot x next first c rest =
      let nested = check_pattern charsets (x ∷ next) true c rest in
      let here = if first then nested else ([], 0) in
      let kept = (if c == b'.' then (x ∷ next) ∷ [] else []) ++ ((magic_dot ∷ x ∷ next) ∷ []) in
      calls-round charsets (magic_dot ∷ x ∷ next) first c rest
      ∙ after-join charsets here (kept, 0) rest
      ∙ rw
          (
            after_if first nested rest,
            after_two (c == b'.') (x ∷ next) (magic_dot ∷ x ∷ next) rest,
            calls-round charsets (x ∷ next) true c rest,
          )
          (omega arith)

  pub calls_asterisk :
      (a : ℕ) (next : List ℕ) (first : Bool) (c : ℕ) (rest : List ℕ)
      → is_asterisk a ≡ true
      → calls charsets (a ∷ next) first (c ∷ rest)
        ≡ (if is_empty next then 0 else calls charsets next true (c ∷ rest))
          + (if a == magic_asterisk && is_separator c
              then 0
              else if is_empty rest
              then one_if (is_empty next)
              else calls charsets (a ∷ next) false rest)
  unfolding check_pattern check_asterisk
  calls_asterisk a next first c rest h =
      let nested = check_pattern charsets next true c rest in
      let barred = a == magic_asterisk && is_separator c in
      let ahead = if is_empty rest then hit_if (is_empty next) else ((a ∷ next) ∷ [], 0) in
      rw
        (
          calls-round charsets (a ∷ next) first c rest,
          asterisk_not_dot a h,
          h,
          after-join charsets (if is_empty next then ([], 0) else nested)
              (if barred then ([], 0) else ahead) rest,
          after_unless (is_empty next) nested rest,
          after_unless barred ahead rest,
          after_branch (is_empty rest) (hit_if (is_empty next)) ((a ∷ next) ∷ [], 0) rest,
          after-hit_if charsets (is_empty next) rest,
          after_kept (a ∷ next) rest,
          calls-round charsets next true c rest,
        )
        refl

  pub calls_byte :
      (a : ℕ) (next : List ℕ) (first : Bool) (c : ℕ) (rest : List ℕ)
      → a ≢ magic_dot
      → is_asterisk a ≡ false
      → calls charsets (a ∷ next) first (c ∷ rest) ≡ (
          if takes_byte charsets a c
          then (if is_empty rest then one_if (may_end next) else calls charsets next false rest)
          else 0)
  unfolding check_pattern check_byte
  calls_byte a next first c rest h k =
      let kept = if is_empty next then ([], 0) else (next ∷ [], 0) in
      let ahead = if is_empty rest then hit_if (may_end next) else kept in
      rw
        (
          calls-round charsets (a ∷ next) first c rest,
          not_dot a h,
          k,
          after_branch (takes_byte charsets a c) ahead ([], 0) rest,
          after_none charsets 0 rest,
          after_branch (is_empty rest) (hit_if (may_end next)) kept rest,
          after-hit_if charsets (may_end next) rest,
          after_next next rest,
        )
        refl
