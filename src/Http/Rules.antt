-- ===== src/Http/Rules.antt =====
-- One line of a list of hosts: `allowListParser` and `parseLine` of http.go. Two functions stand for
-- code elsewhere: `parse_prefix` is `netiputil.ParsePrefix`, and `addr_string` is the `String` of
-- the standard library's `netip.Addr`.
use chrome.Base.{
  ℕ, ◌-◌, Bool, true, false, ◌&&◌, ◌==◌, List, [], ◌∷◌, ◌++◌, Option, none, some, length, take,
  drop, leb, if◌then◌else◌, ◌>>=◌,
}
use chrome.Base.Text.{Text, has_byte, has_prefix, has_text, same_text}
use chrome.Netip.Addr.{Addr}
use chrome.Netip.RangeSet.{AddrRange, AddrRangeSet, add}

-- `*patternConfig`: the pointer nil is `none`, and stands for every port.
abbrev pub PatternConfig : Type 0
PatternConfig = Option (List Text)

-- The map from patterns, in the order of insertion.
abbrev pub Patterns : Type 0
Patterns = List (Text × PatternConfig)

pub record Settings : Type 0 where
  pub patterns : Patterns
  pub ipranges : AddrRangeSet

pub record Parser : Type 0 where
  pub includes : Settings
  pub excludes : Settings

unfoldable pub get : Patterns → Text → Option PatternConfig
get [] p = none
get ((q, c) ∷ m) p = if same_text q p then some c else get m p

unfoldable pub put : Patterns → Text → PatternConfig → Patterns
put [] p d = (p, d) ∷ []
put ((q, c) ∷ m) p d = if same_text q p then (q, d) ∷ m else (q, c) ∷ put m p d

unfoldable pub is_digit : ℕ → Bool
is_digit c = leb b'0' c && leb c b'9'

unfoldable pub all_digits : Text → Bool
all_digits [] = true
all_digits (c ∷ s) = is_digit c && all_digits s

abbrev is_nonempty : Text → Bool
is_nonempty [] = false
is_nonempty (_ ∷ _) = true

-- `rePortSuffix.FindString`, the leftmost match of `:\d+$`: a line is the part before the suffix
-- and the suffix.
unfoldable pub split_port : Text → Text × Text
split_port [] = ([], [])
split_port (c ∷ s) =
    let rest = split_port s in
    if c == b':' && is_nonempty s && all_digits s then ([], c ∷ s) else (c ∷ rest.0, rest.1)

abbrev last_is : ℕ → Text → Bool
last_is c [] = false
last_is c (a ∷ []) = a == c
last_is c (_ ∷ b ∷ s) = last_is c (b ∷ s)

-- The `switch` on the pattern: the pattern and the port suffix.
unfoldable pub split_line : Text → Text × Text
split_line line =
    let (pattern, suffix) = split_port line in
    if has_prefix pattern (b'[' ∷ []) && last_is b']' pattern
    then (take (length pattern - 2) (drop 1 pattern), suffix)
    else if is_nonempty suffix && has_byte b':' pattern
    then (line, [])
    else (pattern, suffix)

-- A port for a pattern that may be there.
abbrev put_port : Patterns → Text → Text → Option PatternConfig → Patterns
put_port m pattern port none = put m pattern (some (port ∷ []))
put_port m pattern port (some none) = m
put_port m pattern port (some (some ports)) =
    if has_text ports port then m else put m pattern (some (ports ++ (port ∷ [])))

unfoldable pub put_pattern : Patterns → Text × Text → Patterns
put_pattern m (pattern, []) = put m pattern none
put_pattern m (pattern, _ ∷ port) = put_port m pattern port (get m pattern)

abbrev put_host : Settings → Text → Settings
put_host s line = record s { patterns = put_pattern s.patterns (split_line line) }

module _ (parse_prefix : Text → Option (AddrRange × Bool)) (addr_string : Addr → Text) where
  abbrev put_prefix : Settings → Option (AddrRange × Bool) → Option Settings
  put_prefix s none = none
  put_prefix s (some (r, closed)) =
      let s' = record s { ipranges = add s.ipranges r } in
      some (if closed then put_host s' (addr_string r.high) else s')

  unfoldable pub put_settings : Text → Settings → Option Settings
  put_settings line s =
      if has_byte b'/' line then put_prefix s (parse_prefix line) else some (put_host s line)

  -- A line that includes no file; `none` is an error.
  unfoldable pub put_line : Text → Parser → Option Parser
  put_line [] p = none
  put_line (c ∷ line) p =
      if c == b'!'
      then (do s ← put_settings line p.excludes; some (record p { excludes = s }))
      else (do s ← put_settings (c ∷ line) p.includes; some (record p { includes = s }))
