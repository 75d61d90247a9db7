-- ===== src/Http/Tests.antt =====
-- Small lists of hosts, and the theorems at concrete inputs.
use chrome.Base.{
  ℕ, ◌≡◌, ◌↔◌, refl, Bool, true, false, List, [], ◌∷◌, map, Option, none, some, arith, codes,
  String, ◌>>=◌,
}
use chrome.Netip.Addr.{Addr, invalid}
use chrome.Netip.RangeSet.{AddrRange}
use chrome.Netip.RangeSet.Invariant.{IsApart}
use chrome.Matchset.Charset.{empty, add, contains, all, same}
use chrome.Matchset.Group.{
  charset_from_group, finish, read_bytes, read_byte, take_char, settle, add_span, start,
}
use chrome.Matchset.Parse.{
  add_pattern, new_set, parse, parse_loop, mark_dots, swap_atoms, push_atom, read_atom, plain_atom,
  charset_to_atom, atom_to_charset,
}
use chrome.Matchset.Match.{
  match_all, match_patterns, match_bytes, check_pattern, check_byte, check_asterisk, check_dot,
  may_end, takes_byte, is_separator, is_empty,
}
use chrome.Base.Text.{Text, has_prefix, has_byte, has_text, same_text}
use chrome.Http.Rules.{
  Parser, PatternConfig, put_line, put_settings, put_pattern, put, get, split_line, split_port,
  all_digits, is_digit,
}
use chrome.Http.Lines.{
  scan_lines, lines_of, split_lines, trim_space, trim_left, is_space, include_path, parse_lines,
  checksum_lines,
}
use chrome.Http.Digest.{same_digest}
use chrome.Http.Allow.{
  Hosts, AllowList, add_patterns, init_list, is_valid, any_port, match_host, allow,
}
use chrome.Http.Allow.Meaning.{IsNamed, match_host_iff}
use chrome.Http.Maps.{StringMap, value_at, agree_on, map_equal, rewrite_host}
use chrome.Http.Maps.Same.{has_key, map_equal-value_at}
use chrome.Http.Cache.{Route, Target, first_route, new_cache, get_routes, get_routes-map}

abbrev no_prefix : Text → Option (AddrRange × Bool)
no_prefix s = none

abbrev no_string : Addr → Text
no_string a = []

abbrev one_file : Text → Option Text
one_file name = some (codes "a.uk")

abbrev no_file : Text → Option Text
no_file name = none

abbrev keep_name : Text → Text → Text
keep_name name file = file

abbrev no_rules : Parser
no_rules = record {
  includes = record { patterns = []; ipranges = [] };
  excludes = record { patterns = []; ipranges = [] };
}

abbrev list_of : String → Option AllowList
list_of what =
    parse_lines no_prefix no_string one_file keep_name 1 (codes ".") (scan_lines (codes what))
      no_rules
    >>= init_list

abbrev allows : String → String → String → Option Bool
allows what host port = list_of what >>= (λ l. some (allow l (codes host) (codes port) invalid))

included : allows ".org:80\n!bad.org\n # none\n@x" "a.uk" "443" ≡ some true
unfolding match_all match_patterns match_bytes check_pattern check_byte check_asterisk check_dot
    may_end takes_byte is_separator is_empty contains add_pattern parse parse_loop mark_dots
    swap_atoms push_atom read_atom plain_atom charset_to_atom atom_to_charset new_set
    charset_from_group finish read_bytes read_byte take_char settle add_span start empty add all
    same put_line put_settings put_pattern put get split_line split_port all_digits is_digit
    has_prefix has_byte has_text same_text scan_lines lines_of split_lines trim_space trim_left
    is_space include_path parse_lines checksum_lines add_patterns init_list is_valid any_port
    match_host allow
included = refl

port_matches : allows ".org:80\n!bad.org\n # none\n@x" "b.org" "80" ≡ some true
unfolding match_all match_patterns match_bytes check_pattern check_byte check_asterisk check_dot
    may_end takes_byte is_separator is_empty contains add_pattern parse parse_loop mark_dots
    swap_atoms push_atom read_atom plain_atom charset_to_atom atom_to_charset new_set
    charset_from_group finish read_bytes read_byte take_char settle add_span start empty add all
    same put_line put_settings put_pattern put get split_line split_port all_digits is_digit
    has_prefix has_byte has_text same_text scan_lines lines_of split_lines trim_space trim_left
    is_space include_path parse_lines checksum_lines add_patterns init_list is_valid any_port
    match_host allow
port_matches = refl

port_differs : allows ".org:80\n!bad.org\n # none\n@x" "b.org" "443" ≡ some false
unfolding match_all match_patterns match_bytes check_pattern check_byte check_asterisk check_dot
    may_end takes_byte is_separator is_empty contains add_pattern parse parse_loop mark_dots
    swap_atoms push_atom read_atom plain_atom charset_to_atom atom_to_charset new_set
    charset_from_group finish read_bytes read_byte take_char settle add_span start empty add all
    same put_line put_settings put_pattern put get split_line split_port all_digits is_digit
    has_prefix has_byte has_text same_text scan_lines lines_of split_lines trim_space trim_left
    is_space include_path parse_lines checksum_lines add_patterns init_list is_valid any_port
    match_host allow
port_differs = refl

excluded : allows ".org:80\n!bad.org\n # none\n@x" "bad.org" "80" ≡ some false
unfolding match_all match_patterns match_bytes check_pattern check_byte check_asterisk check_dot
    may_end takes_byte is_separator is_empty contains add_pattern parse parse_loop mark_dots
    swap_atoms push_atom read_atom plain_atom charset_to_atom atom_to_charset new_set
    charset_from_group finish read_bytes read_byte take_char settle add_span start empty add all
    same put_line put_settings put_pattern put get split_line split_port all_digits is_digit
    has_prefix has_byte has_text same_text scan_lines lines_of split_lines trim_space trim_left
    is_space include_path parse_lines checksum_lines add_patterns init_list is_valid any_port
    match_host allow
excluded = refl

same_digest_example :
    parse_lines no_prefix no_string one_file keep_name 1
      (codes ".")
      (scan_lines (codes "@x"))
      no_rules
    ≡ parse_lines no_prefix no_string no_file keep_name 0
        (codes ".")
        (scan_lines (codes "\na.uk\n"))
        no_rules
unfolding match_all match_patterns match_bytes check_pattern check_byte check_asterisk check_dot
    may_end takes_byte is_separator is_empty contains add_pattern parse parse_loop mark_dots
    swap_atoms push_atom read_atom plain_atom charset_to_atom atom_to_charset new_set
    charset_from_group finish read_bytes read_byte take_char settle add_span start empty add all
    same put_line put_settings put_pattern put get split_line split_port all_digits is_digit
    has_prefix has_byte has_text same_text scan_lines lines_of split_lines trim_space trim_left
    is_space include_path parse_lines checksum_lines add_patterns init_list is_valid any_port
    match_host allow
same_digest_example =
    same_digest no_prefix no_string keep_name one_file no_file 1 0 (codes ".") (codes ".")
      (codes "@x") (codes "\na.uk\n") (codes "a.uk\n") no_rules refl refl

abbrev or_else : {A : Type 0} → A → Option A → A
or_else a none = a
or_else a (some b) = b

abbrev two_hosts : Hosts
two_hosts = record {
  patterns = or_else (new_set PatternConfig) (
      add_patterns ((codes ".uk", none) ∷ (codes "*.org", some (codes "80" ∷ [])) ∷ [])
        (new_set PatternConfig));
  ipranges = [];
}

empty-IsApart : IsApart []
empty-IsApart = record { nonempty = λ i h. elim h [ ]; gap = λ i j h k. elim k [ ] }

match_host_iff_example :
    (match_host two_hosts (codes "a.org") (codes "80") invalid ≡ true)
    ↔ IsNamed two_hosts (codes "a.org") (codes "80") invalid
unfolding match_all match_patterns match_bytes check_pattern check_byte check_asterisk check_dot
    may_end takes_byte is_separator is_empty contains add_pattern parse parse_loop mark_dots
    swap_atoms push_atom read_atom plain_atom charset_to_atom atom_to_charset new_set
    charset_from_group finish read_bytes read_byte take_char settle add_span start empty add all
    same put_line put_settings put_pattern put get split_line split_port all_digits is_digit
    has_prefix has_byte has_text same_text scan_lines lines_of split_lines trim_space trim_left
    is_space include_path parse_lines checksum_lines add_patterns init_list is_valid any_port
    match_host allow
match_host_iff_example =
    match_host_iff two_hosts (codes "a.org") (codes "80") invalid (ground arith, empty-IsApart)
      (omega arith) (ground arith)

abbrev whole : Text → Target
whole s = record { host = s; port = []; addr = invalid }

abbrev one_route : List (Route ℕ)
one_route =
    record {
      name = codes "uk";
      allow_list = or_else record { includes = two_hosts; excludes = two_hosts } (list_of ".uk");
      proxy = 7;
    }
    ∷ []

get_routes-map_example :
    get_routes whole one_route
      (new_cache one_route)
      (codes "a.uk" ∷ codes "b.com" ∷ codes "a.uk" ∷ [])
    ≡ map
        (λ addr. first_route whole one_route (whole addr))
        (codes "a.uk" ∷ codes "b.com" ∷ codes "a.uk" ∷ [])
get_routes-map_example =
    get_routes-map whole one_route (codes "a.uk" ∷ codes "b.com" ∷ codes "a.uk" ∷ [])

abbrev redirects : StringMap
redirects = (codes "a", codes "b") ∷ (codes "c", codes "d:80") ∷ []

abbrev reordered : StringMap
reordered = (codes "c", codes "d:80") ∷ (codes "a", codes "b") ∷ []

map_equal-value_at_example : value_at redirects (codes "z") ≡ value_at reordered (codes "z")
unfolding map_equal agree_on value_at has_key same_text
map_equal-value_at_example = map_equal-value_at redirects reordered (codes "z") (ground arith) refl

-- An empty value hides a key that is only in the other map.
abbrev with_empty : StringMap
with_empty = (codes "x", []) ∷ (codes "a", codes "b") ∷ []

abbrev without_empty : StringMap
without_empty = (codes "a", codes "b") ∷ (codes "c", codes "d:80") ∷ []

taken_for_equal : map_equal with_empty without_empty ≡ true
unfolding map_equal agree_on value_at same_text
taken_for_equal = refl

rewrite_differs :
    (rewrite_host with_empty (codes "c") ≡ codes "c")
    × (rewrite_host without_empty (codes "c") ≡ codes "d:80")
unfolding rewrite_host value_at same_text has_byte
rewrite_differs = (refl, refl)
