-- ===== src/Matchset/Match/Spec.antt =====
-- What a stored pattern means, by a relation. Patterns and sources are in reverse order, as `Add`
-- and `match` have them, so the last atom here is the first of the pattern as it was written.
use chrome.Base.{ℕ, ◌≡◌, ◌≢◌, Bool, true, false, ◌&&◌, ◌==◌, List, [], ◌∷◌, ◌++◌, All}
use chrome.Matchset.Charset.{Charset}
use chrome.Matchset.Parse.{magic_dot, magic_asterisk}
use chrome.Matchset.Match.{is_separator, is_asterisk, takes_byte}

-- A byte that the asterisk `a` does not run over.
abbrev pub bars : ℕ → ℕ → Bool
bars a c = a == magic_asterisk && is_separator c

module _ (charsets : List (Charset × ℕ)) where
  -- The atoms use up the source. A dot at the end is the end of the source, or a label more.
  pub data Matches : List ℕ → List ℕ → Type 0 where
    done : Matches [] []
    dot_end : Matches (magic_dot ∷ []) []
    dot_more : {rest : List ℕ} → Matches (magic_dot ∷ []) (b'.' ∷ rest)
    byte :
        {a c : ℕ} {next rest : List ℕ}
        → a ≢ magic_dot
        → is_asterisk a ≡ false
        → takes_byte charsets a c ≡ true
        → Matches next rest
        → Matches (a ∷ next) (c ∷ rest)
    skip :
        {a : ℕ} {next bytes : List ℕ}
        → is_asterisk a ≡ true
        → Matches next bytes
        → Matches (a ∷ next) bytes
    more :
        {a c : ℕ} {next rest : List ℕ}
        → is_asterisk a ≡ true
        → bars a c ≡ false
        → Matches (a ∷ next) rest
        → Matches (a ∷ next) (c ∷ rest)

  -- A dot at the start lets the rest begin at the source's start or behind any dot.
  pub data Accepts : List ℕ → List ℕ → Type 0 where
    plain : {atoms bytes : List ℕ} → Matches atoms bytes → Accepts atoms bytes
    any : {bytes : List ℕ} → Accepts (magic_dot ∷ []) bytes
    at_start :
        {a : ℕ} {next bytes : List ℕ}
        → Matches (a ∷ next) bytes
        → Accepts (magic_dot ∷ a ∷ next) bytes
    behind_dot :
        {a c : ℕ} {next rest : List ℕ} (before : List ℕ)
        → Matches (a ∷ next) (c ∷ rest)
        → Accepts (magic_dot ∷ a ∷ next) (before ++ b'.' ∷ c ∷ rest)

-- Dots stand at the end only, and no asterisk behind another.
abbrev pub IsTail : List ℕ → Type 0
IsTail [] = Unit
IsTail (a ∷ []) = Unit
IsTail (a ∷ b ∷ next) =
    a ≢ magic_dot × (is_asterisk a ≡ true → is_asterisk b ≡ false) × IsTail (b ∷ next)

-- A dot may stand at the start too.
abbrev pub IsPattern : List ℕ → Type 0
IsPattern [] = Unit
IsPattern (a ∷ []) = Unit
IsPattern (a ∷ b ∷ next) =
    IsTail (b ∷ next)
    × (a ≡ magic_dot → b ≢ magic_dot)
    × (is_asterisk a ≡ true → is_asterisk b ≡ false)

abbrev pub NoColon : List ℕ → Type 0
NoColon = All (λ c. c ≢ b':')
