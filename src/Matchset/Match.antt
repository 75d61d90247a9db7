-- ===== src/Matchset/Match.antt =====
-- `MatchSet.checkPattern`, `MatchSet.match` and `MatchSet.MatchAll` of matchset.go.
pub mod Count
pub mod Steps
pub mod Spec
pub mod Sound
pub mod Complete
pub mod Accept
pub mod Result
pub mod Domain
use chrome.Base.{
  ℕ, ◌+◌, zero, suc, Bool, true, false, ◌&&◌, ◌||◌, ◌==◌, List, [], ◌∷◌, ◌++◌, replicate, Option,
  none, some, if◌then◌else◌,
}
use mathlib.Core.List.{reverse}
use chrome.Matchset.Charset.{Charset, contains}
use chrome.Matchset.Parse.{
  MatchSet, magic_dot, magic_asterisk, magic_asterisk2, magic_question, magic_underscore,
  atom_to_charset,
}

-- The patterns that a call appends to `matches`, and the number of its calls of `accumulate`.
abbrev pub Hits : Type 0
Hits = List (List ℕ) × ℕ

unfoldable pub is_empty : List ℕ → Bool
is_empty [] = true
is_empty (_ ∷ _) = false

unfoldable pub is_separator : ℕ → Bool
is_separator c = c == b'.' || c == b':'

abbrev pub is_asterisk : ℕ → Bool
is_asterisk a = a == magic_asterisk || a == magic_asterisk2

abbrev in_class : Option Charset → ℕ → Bool
in_class none c = false
in_class (some s) c = contains s c

-- The last `case` of the `switch`, with those that fall through to it.
unfoldable pub takes_byte : List (Charset × ℕ) → ℕ → ℕ → Bool
takes_byte charsets atom c =
    if atom == magic_question
    then (if is_separator c then false else true)
    else if atom == magic_underscore
    then true
    else atom == c || in_class (atom_to_charset atom charsets) c

-- The atoms that are left when the source ends.
unfoldable pub may_end : List ℕ → Bool
may_end [] = true
may_end (a ∷ []) = a == magic_dot || is_asterisk a
may_end (a ∷ b ∷ []) = is_asterisk a && b == magic_dot
may_end _ = false

abbrev pub hit_if : Bool → Hits
hit_if true = ([], 1)
hit_if false = ([], 0)

abbrev pub join : Hits → Hits → Hits
join (p, n) (q, m) = (p ++ q, n + m)

-- The case of `magicDot`; `nested` is the inner call.
unfoldable pub check_dot : Hits → List ℕ → Bool → ℕ → Hits
check_dot nested next first c =
    if is_empty next
    then hit_if (first || c == b'.')
    else join (if first then nested else ([], 0))
        ((if c == b'.' then next ∷ [] else []) ++ ((magic_dot ∷ next) ∷ []), 0)

-- The case of the asterisks.
unfoldable pub check_asterisk : Hits → ℕ → List ℕ → ℕ → List ℕ → Hits
check_asterisk nested atom next c rest = join (if is_empty next then ([], 0) else nested) (
    if atom == magic_asterisk && is_separator c
    then ([], 0)
    else if is_empty rest
    then hit_if (is_empty next)
    else ((atom ∷ next) ∷ [], 0))

unfoldable pub check_byte : List (Charset × ℕ) → ℕ → List ℕ → ℕ → List ℕ → Hits
check_byte charsets atom next c rest =
    if takes_byte charsets atom c
    then (if is_empty rest
        then hit_if (may_end next)
        else if is_empty next
        then ([], 0)
        else (next ∷ [], 0))
    else ([], 0)

-- `checkPattern` at the byte `c` with the bytes `rest` behind it; `first` is `i == 0`.
unfoldable pub check_pattern : List (Charset × ℕ) → List ℕ → Bool → ℕ → List ℕ → Hits
check_pattern charsets [] first c rest = ([], 0)
check_pattern charsets (atom ∷ next) first c rest =
    let nested = check_pattern charsets next true c rest in
    if atom == magic_dot
    then check_dot nested next first c
    else if is_asterisk atom
    then check_asterisk nested atom next c rest
    else check_byte charsets atom next c rest

abbrev pub no_patterns : List (List ℕ) → Bool
no_patterns [] = true
no_patterns (_ ∷ _) = false

abbrev pub check_all : List (Charset × ℕ) → List (List ℕ) → Bool → ℕ → List ℕ → Hits
check_all charsets [] first c rest = ([], 0)
check_all charsets (atoms ∷ patterns) first c rest =
    join (check_pattern charsets atoms first c rest) (check_all charsets patterns first c rest)

-- The loop over the bytes of the reversed source. No patterns left is the `break`, since a round
-- without patterns calls nothing.
unfoldable pub match_bytes : List (Charset × ℕ) → List (List ℕ) → Bool → List ℕ → ℕ
match_bytes charsets patterns first [] = 0
match_bytes charsets patterns first (c ∷ rest) =
    let hits = check_all charsets patterns first c rest in
    let later = match_bytes charsets hits.0 false rest in
    if no_patterns hits.0 then hits.1 else hits.1 + later

unfoldable pub match_patterns :
    {A : Type 0} → List (Charset × ℕ) → List (List ℕ × A) → List ℕ → List A
match_patterns charsets [] bytes = []
match_patterns charsets ((atoms, «data») ∷ patterns) bytes =
    replicate (match_bytes charsets (atoms ∷ []) true bytes) «data»
    ++ match_patterns charsets patterns bytes

-- `MatchSet.MatchAll`: the data that `match` accumulates.
unfoldable pub match_all : {A : Type 0} → MatchSet A → List ℕ → List A
match_all set source = match_patterns set.charsets set.patterns (reverse source)
