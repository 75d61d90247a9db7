-- ===== src/Http/Allow/Meaning.antt =====
-- Which hosts a list allows, by what its patterns and ranges mean.
use chrome.Base.{
  ◌<◌, ◌≡◌, ◌↔◌, refl, sym, ◌⊎◌, inl, inr, true, ◌&&◌, Bool-cases, List, [], ◌∷◌, length,
}
use mathlib.Core.List.{Memᴰ, reverse}
use chrome.Netip.Addr.{Addr, rank}
use chrome.Netip.RangeSet.{contains}
use chrome.Netip.RangeSet.Invariant.{IsApart, Covers, contains_iff}
use chrome.Matchset.Match.{match_all}
use chrome.Matchset.Match.Spec.{NoColon}
use chrome.Matchset.Match.Result.{AcceptedFor, ArePatterns, match_all_iff}
use chrome.Base.Text.{and_left, and_right, Text}
use chrome.Http.Rules.{PatternConfig}
use chrome.Http.Allow.{Hosts, is_valid, has_port, any_port, match_host}

-- Some configuration in the list is for the port.
any_port_iff :
    (configs : List PatternConfig) (port : Text)
    → (any_port configs port ≡ true)
      ↔ ((config : PatternConfig) × Memᴰ config configs × (has_port config port ≡ true))
unfolding any_port
any_port_iff configs port = (into configs, λ (config, m, e). back configs config m e)
  where
    into :
        (configs : List PatternConfig)
        → any_port configs port ≡ true
        → (config : PatternConfig) × Memᴰ config configs × (has_port config port ≡ true)
    into [] h = absurd (cc)
    into (config ∷ configs) h = elim (Bool-cases (has_port config port)) [
      | inl e ↦ (config, Memᴰ.head refl, e)
      | inr e ↦ let (c, m, f) = into configs (rw e at h) in (c, Memᴰ.tail m, f)
    ]

    back :
        (configs : List PatternConfig) (config : PatternConfig)
        → Memᴰ config configs
        → has_port config port ≡ true
        → any_port configs port ≡ true
    back [] config m e = elim m [ ]
    back (c ∷ configs) config (Memᴰ.head q) e = rw (sym q, e) refl
    back (c ∷ configs) config (Memᴰ.tail m) e = elim (Bool-cases (has_port c port)) [
      | inl f ↦ rw f refl
      | inr f ↦ rw f (back configs config m e)
    ]

-- The address lies in a range, or a pattern for the port accepts the host.
abbrev pub IsNamed : Hosts → Text → Text → Addr → Type 0
IsNamed hosts host port addr =
    ((is_valid addr ≡ true) × Covers hosts.ipranges (rank addr))
    ⊎ ((config : PatternConfig) × AcceptedFor hosts.patterns.charsets hosts.patterns.patterns config
          (reverse host)
        × (has_port config port ≡ true))

-- What `Init` gives: patterns in order, and ranges that are sorted and apart.
abbrev pub AreHosts : Hosts → Type 0
AreHosts hosts = ArePatterns hosts.patterns.patterns × IsApart hosts.ipranges

-- For hosts whose ranges are nonempty, sorted and apart and whose stored patterns have dots of
-- the magic kind at the ends only and no two asterisks in a row, and for a nonempty host
-- without a colon: the match succeeds exactly when the address is valid and lies in a range, or
-- some pattern that accepts the reversed host is stored with a configuration for every port or
-- for this one.
pub match_host_iff :
    (hosts : Hosts) (host port : Text) (addr : Addr)
    → AreHosts hosts
    → 0 < length host
    → NoColon host
    → (match_host hosts host port addr ≡ true) ↔ IsNamed hosts host port addr
unfolding match_host
match_host_iff hosts host port addr w l n = (into, back)
  where
    matches :
        (config : PatternConfig)
        → Memᴰ config (match_all hosts.patterns host)
          ↔ AcceptedFor hosts.patterns.charsets hosts.patterns.patterns config (reverse host)
    matches config = match_all_iff hosts.patterns host config w.0 l n

    into : match_host hosts host port addr ≡ true → IsNamed hosts host port addr
    into h = elim (Bool-cases (is_valid addr && contains hosts.ipranges addr)) [
      | inl e ↦ inl (
        and_left (is_valid addr) (contains hosts.ipranges addr) e,
        (contains_iff hosts.ipranges w.1 addr).0
            (and_right (is_valid addr) (contains hosts.ipranges addr) e),
      )
      | inr e ↦
          let (config, m, f) = (any_port_iff (match_all hosts.patterns host) port).0 (rw e at h) in
          inr (config, (matches config).0 m, f)
    ]

    back : IsNamed hosts host port addr → match_host hosts host port addr ≡ true
    back (inl (v, c)) = rw (v, (contains_iff hosts.ipranges w.1 addr).1 c) refl
    back (inr (config, a, f)) = elim (Bool-cases (is_valid addr && contains hosts.ipranges addr)) [
      | inl e ↦ rw e refl
      | inr e ↦
          rw e (
            (any_port_iff (match_all hosts.patterns host) port).1 (config, (matches config).1 a, f))
    ]
