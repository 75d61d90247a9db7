-- ===== src/Matchset/Tests.antt =====
-- The table of matchset_test.go, and the theorems at concrete inputs.
use chrome.Base.{
  ◌↔◌, arith, ℕ, Bool, true, false, not, ◌&&◌, List, [], ◌∷◌, Option, none, some, ◌≡◌, refl, codes,
  String, ◌>>=◌,
}
use mathlib.Core.List.{Memᴰ}
use chrome.Matchset.Group.Print.{single, range}
use chrome.Matchset.Group.Span.{add_span-endless}
use chrome.Matchset.Group.Class.{Means, charset_from_group-Means}
use chrome.Matchset.Parse.Ends.{Returns, add_pattern-Returns}
use chrome.Matchset.Match.Domain.{IsWithin, domain_iff}
use chrome.Matchset.Match.Result.{AcceptedFor, match_all_iff}
use chrome.Matchset.Charset.{contains, empty, add, invert, all, same}
use chrome.Matchset.Group.{
  charset_from_group, finish, read_bytes, read_byte, take_char, settle, add_span, start,
}
use chrome.Matchset.Parse.{
  MatchSet, add_pattern, new_set, parse, parse_loop, mark_dots, swap_atoms, push_atom, read_atom,
  plain_atom, charset_to_atom, atom_to_charset,
}
use chrome.Matchset.Match.{
  match_all, match_patterns, match_bytes, check_pattern, check_byte, check_asterisk, check_dot,
  may_end, takes_byte, is_separator, is_empty,
}

abbrev matched : List (Unit {0}) → Bool
matched [] = false
matched (_ ∷ _) = true

abbrev run : List ℕ → String → Option Bool
run source patt = do
  set ← add_pattern (new_set (Unit {0})) (codes patt) tt
  some (matched (match_all set source))

abbrev agrees : Bool → Option Bool → Bool
agrees b none = false
agrees true (some a) = a
agrees false (some a) = not a

abbrev every : (String → Bool) → List String → Bool
every p [] = true
every p (x ∷ xs) = p x && every p xs

abbrev matches : List ℕ → String → Bool
matches source patt = agrees true (run source patt)

abbrev misses : List ℕ → String → Bool
misses source patt = agrees false (run source patt)

co_uk_matches :
    every (matches (codes "co.uk")) (
      "co.uk" ∷ "*.uk" ∷ "co.*" ∷ "*.*" ∷ "*o.uk" ∷ "c*.uk" ∷ "co.*k" ∷ "co.u*" ∷ "**" ∷ "**uk"
      ∷ "co**" ∷ "co**uk" ∷ "?**uk" ∷ "**?**" ∷ "co**?" ∷ "." ∷ ".uk" ∷ ".co.uk" ∷ "co." ∷ "co.uk."
      ∷ ".co." ∷ ".uk." ∷ ".co.uk." ∷ ".*" ∷ ".*.*" ∷ "*." ∷ "*.*." ∷ ".*." ∷ ".*.*." ∷ "?o.uk"
      ∷ "c?.uk" ∷ "co.?k" ∷ "co.u?" ∷ "??.uk" ∷ "co.??" ∷ "c?.?k" ∷ "?o.u?" ∷ "??.??" ∷ "co_uk"
      ∷ "_____" ∷ ".??" ∷ ".??.??" ∷ "??." ∷ "??.??." ∷ ".??." ∷ ".??.??." ∷ ".?*" ∷ ".?*.?*"
      ∷ "?*." ∷ "?*.?*." ∷ ".?*." ∷ ".?*.?*." ∷ "co.?*" ∷ "co.??*" ∷ "?*.uk" ∷ "??*.uk"
      ∷ "co.[uk][uk]" ∷ "co.[a-z][a-z]" ∷ "co.[^0-9][^0-9]" ∷ "co.[^0-9][^0-9]*" ∷ "***" ∷ "****"
      ∷ "*?**" ∷ "**_" ∷ [])
    ≡ true
unfolding match_all match_patterns match_bytes check_pattern check_byte check_asterisk check_dot
    may_end takes_byte is_separator is_empty contains add_pattern parse parse_loop mark_dots
    swap_atoms push_atom read_atom plain_atom charset_to_atom atom_to_charset new_set
    charset_from_group finish read_bytes read_byte take_char settle add_span start empty add invert
    all same
co_uk_matches = refl

co_uk_misses :
    every (misses (codes "co.uk")) (
      "*" ∷ "co*uk" ∷ "**?uk" ∷ "co?**" ∷ "o.uk" ∷ "co.u" ∷ ".o.uk" ∷ "co.u." ∷ "..uk" ∷ "co.."
      ∷ "co?uk" ∷ "?????" ∷ "?." ∷ "???." ∷ ".?" ∷ ".???" ∷ "co.???*" ∷ "???*.uk" ∷ "co.[0-9][0-9]"
      ∷ "*?" ∷ [])
    ≡ true
unfolding match_all match_patterns match_bytes check_pattern check_byte check_asterisk check_dot
    may_end takes_byte is_separator is_empty contains add_pattern parse parse_loop mark_dots
    swap_atoms push_atom read_atom plain_atom charset_to_atom atom_to_charset new_set
    charset_from_group finish read_bytes read_byte take_char settle add_span start empty add invert
    all same
co_uk_misses = refl

letter_matches :
    every (matches (codes "a")) (
      "." ∷ "*" ∷ "?" ∷ "_" ∷ "[a]" ∷ "[a-]" ∷ "[a-z]" ∷ "[^]" ∷ "[^-]" ∷ "[^-z]" ∷ ".*a" ∷ ".**a"
      ∷ "" ∷ [])
    ≡ true
unfolding match_all match_patterns match_bytes check_pattern check_byte check_asterisk check_dot
    may_end takes_byte is_separator is_empty contains add_pattern parse parse_loop mark_dots
    swap_atoms push_atom read_atom plain_atom charset_to_atom atom_to_charset new_set
    charset_from_group finish read_bytes read_byte take_char settle add_span start empty add invert
    all same
letter_matches = refl

letter_misses : every (misses (codes "a")) ("[.]" ∷ "[*]" ∷ "[?]" ∷ "[_]" ∷ "[^a]" ∷ []) ≡ true
unfolding match_all match_patterns match_bytes check_pattern check_byte check_asterisk check_dot
    may_end takes_byte is_separator is_empty contains add_pattern parse parse_loop mark_dots
    swap_atoms push_atom read_atom plain_atom charset_to_atom atom_to_charset new_set
    charset_from_group finish read_bytes read_byte take_char settle add_span start empty add invert
    all same
letter_misses = refl

hyphen_matches : every (matches (codes "-")) ("[a-]" ∷ []) ≡ true
unfolding match_all match_patterns match_bytes check_pattern check_byte check_asterisk check_dot
    may_end takes_byte is_separator is_empty contains add_pattern parse parse_loop mark_dots
    swap_atoms push_atom read_atom plain_atom charset_to_atom atom_to_charset new_set
    charset_from_group finish read_bytes read_byte take_char settle add_span start empty add invert
    all same
hyphen_matches = refl

caret_matches : every (matches (codes "^")) ("[^]" ∷ []) ≡ true
unfolding match_all match_patterns match_bytes check_pattern check_byte check_asterisk check_dot
    may_end takes_byte is_separator is_empty contains add_pattern parse parse_loop mark_dots
    swap_atoms push_atom read_atom plain_atom charset_to_atom atom_to_charset new_set
    charset_from_group finish read_bytes read_byte take_char settle add_span start empty add invert
    all same
caret_matches = refl

hyphen_misses : every (misses (codes "-")) ("[^-]" ∷ []) ≡ true
unfolding match_all match_patterns match_bytes check_pattern check_byte check_asterisk check_dot
    may_end takes_byte is_separator is_empty contains add_pattern parse parse_loop mark_dots
    swap_atoms push_atom read_atom plain_atom charset_to_atom atom_to_charset new_set
    charset_from_group finish read_bytes read_byte take_char settle add_span start empty add invert
    all same
hyphen_misses = refl

no_source_misses : every (misses (codes "")) ("a" ∷ []) ≡ true
unfolding match_all match_patterns match_bytes check_pattern check_byte check_asterisk check_dot
    may_end takes_byte is_separator is_empty contains add_pattern parse parse_loop mark_dots
    swap_atoms push_atom read_atom plain_atom charset_to_atom atom_to_charset new_set
    charset_from_group finish read_bytes read_byte take_char settle add_span start empty add invert
    all same
no_source_misses = refl

-- Two asterisks in a row behind `?`, which the look-ahead at the end does not know.
stray_asterisks : misses (codes "x") "**?*" ≡ true
unfolding match_all match_patterns match_bytes check_pattern check_byte check_asterisk check_dot
    may_end takes_byte is_separator is_empty contains add_pattern parse parse_loop mark_dots
    swap_atoms push_atom read_atom plain_atom charset_to_atom atom_to_charset new_set
    charset_from_group finish read_bytes read_byte take_char settle add_span start empty add invert
    all same
stray_asterisks = refl

-- The dot behind an asterisk accepts at once, also in front of a colon.
over_colon : matches (codes "a:uk") ".*uk" ≡ true
unfolding match_all match_patterns match_bytes check_pattern check_byte check_asterisk check_dot
    may_end takes_byte is_separator is_empty contains add_pattern parse parse_loop mark_dots
    swap_atoms push_atom read_atom plain_atom charset_to_atom atom_to_charset new_set
    charset_from_group finish read_bytes read_byte take_char settle add_span start empty add invert
    all same
over_colon = refl

abbrev or_else : {A : Type 0} → A → Option A → A
or_else a none = a
or_else a (some b) = b

abbrev with_pattern : String → ℕ → MatchSet ℕ → MatchSet ℕ
with_pattern patt x set = or_else set (add_pattern set (codes patt) x)

abbrev two_patterns : MatchSet ℕ
two_patterns = with_pattern "*.org" 2 (with_pattern ".[a-u]k" 1 (new_set ℕ))

match_all_iff_example :
    Memᴰ 1 (match_all two_patterns (codes "co.uk"))
    ↔ AcceptedFor two_patterns.charsets two_patterns.patterns 1 (codes "ku.oc")
unfolding match_all match_patterns match_bytes check_pattern check_byte check_asterisk check_dot
    may_end takes_byte is_separator is_empty contains add_pattern parse parse_loop mark_dots
    swap_atoms push_atom read_atom plain_atom charset_to_atom atom_to_charset new_set
    charset_from_group finish read_bytes read_byte take_char settle add_span start empty add invert
    all same
match_all_iff_example =
    match_all_iff two_patterns (codes "co.uk") 1 (ground arith) (omega arith) (ground arith)

charset_from_group-Means_example :
    Means true
      (range b'a' b'f' ∷ single b'.' ∷ [])
      (codes "z")
      (charset_from_group (codes "^a-f.]z"))
charset_from_group-Means_example =
    charset_from_group-Means true (range b'a' b'f' ∷ single b'.' ∷ []) (codes "z") (ground arith)

add_pattern-Returns_example : Returns (add_pattern (new_set ℕ) (codes "*.[a-z]?") 7)
add_pattern-Returns_example = add_pattern-Returns (new_set ℕ) (codes "*.[a-z]?") 7 (ground arith)

add_span-endless_example : add_span 1000000 b'a' 255 empty ≡ none
add_span-endless_example = add_span-endless 1000000 b'a' empty (omega arith)

domain_iff_example :
    (set : MatchSet ℕ) × (add_pattern (new_set ℕ) (codes ".uk") 5 ≡ some set)
    × (Memᴰ 5 (match_all set (codes "co.uk")) ↔ IsWithin (codes "uk") (codes "co.uk"))
domain_iff_example =
    domain_iff (codes "uk") (codes "co.uk") 5 b'k' (codes "u") (ground arith) refl (ground arith)
      (omega arith) (ground arith)
