-- ===== src/Http/Allow.antt =====
-- `allowList.Init`, `allowList.Allow` and `match` of http.go. The map of patterns is added in the
-- order of insertion, one of the orders that Go's iteration may take.
pub mod Meaning
use chrome.Base.{
  ℕ, Bool, true, false, not, ◌&&◌, ◌||◌, List, [], ◌∷◌, Option, none, some, if◌then◌else◌, ◌>>=◌,
}
use chrome.Netip.Addr.{Addr, invalid, v4, v6}
use chrome.Netip.RangeSet.{AddrRangeSet, contains}
use chrome.Matchset.Parse.{MatchSet, new_set, add_pattern}
use chrome.Matchset.Match.{match_all}
use chrome.Base.Text.{Text, has_text}
use chrome.Http.Rules.{PatternConfig, Patterns, Settings, Parser}

pub record Hosts : Type 0 where
  pub patterns : MatchSet PatternConfig
  pub ipranges : AddrRangeSet

pub record AllowList : Type 0 where
  pub includes : Hosts
  pub excludes : Hosts

unfoldable pub add_patterns : Patterns → MatchSet PatternConfig → Option (MatchSet PatternConfig)
add_patterns [] set = some set
add_patterns ((pattern, config) ∷ m) set = add_pattern set pattern config >>= add_patterns m

unfoldable pub init_list : Parser → Option AllowList
init_list p = do
  includes ← add_patterns p.includes.patterns (new_set PatternConfig)
  excludes ← add_patterns p.excludes.patterns (new_set PatternConfig)
  some record {
    includes = record { patterns = includes; ipranges = p.includes.ipranges };
    excludes = record { patterns = excludes; ipranges = p.excludes.ipranges };
  }

unfoldable pub is_valid : Addr → Bool
is_valid invalid = false
is_valid (v4 n) = true
is_valid (v6 n) = true

abbrev pub has_port : PatternConfig → Text → Bool
has_port none port = true
has_port (some ports) port = has_text ports port

unfoldable pub any_port : List PatternConfig → Text → Bool
any_port [] port = false
any_port (config ∷ configs) port = if has_port config port then true else any_port configs port

-- `match`
unfoldable pub match_host : Hosts → Text → Text → Addr → Bool
match_host hosts host port addr =
    if is_valid addr && contains hosts.ipranges addr
    then true
    else any_port (match_all hosts.patterns host) port

-- `allowList.Allow`
unfoldable pub allow : AllowList → Text → Text → Addr → Bool
allow l host port addr =
    match_host l.includes host port addr && not (match_host l.excludes host port addr)
