-- ===== src/Dnstun/Tests.antt =====
-- The dns tunnel on concrete servers, answers and queries, and the theorems at concrete inputs.
use chrome.Base.{
  ℕ, ◌+◌, ◌*◌, ◌^◌, ◌-◌, ◌<◌, ◌≤◌, ◌≡◌, refl, false, List, [], ◌∷◌, Option, none, some, codes,
  arith,
}
use chrome.Base.Int.{pos}
use chrome.Base.Text.{Text, same_text, has_text}
use chrome.Base.Dict.{lookup, insert}
use chrome.Conn.Options.{second}
use chrome.Dnstun.Servers.{DnServer, to_upper, check_server, url_of, valid, url_without_host}
use chrome.Dnstun.Seconds.{ceil_seconds, add_whole, round_even, divide, doublings, log_two}
use chrome.Dnstun.Answers.{Rr, a, Message, TtlOptions, clamp_ttl, read_answer}
use chrome.Dnstun.Ages.{served, clamp_ttl_bounds}
use chrome.Dnstun.Routes.{
  Options, Route, trim_dot, search_route, find_route, get_route, allow, get_route_again,
}
use chrome.Dnstun.Worker.{
  Exchange, handed, Worker, Query, index_of, remove_at, delete_over, start_new, hand_over,
  take_query, take_queries,
}
use chrome.Matchset.Parse.{MatchSet, atom_to_charset}
use chrome.Matchset.Match.{
  match_all, match_patterns, match_bytes, check_pattern, check_byte, takes_byte, is_empty, may_end,
}
use chrome.Dnstun.Handing.{Turns, take_queries-Turns}

-- A server with an address and no name, over HTTP.
abbrev bare_server : DnServer
bare_server = record {
  name = [];
  ip = codes "10.0.0.1" ∷ [];
  over = codes "http";
  port = 0;
  path = [];
  method = [];
}

url_without_host_example :
    (s' : DnServer) × (check_server bare_server ≡ valid s') × (url_of s' ≡ codes "http://")
unfolding to_upper has_text same_text
url_without_host_example = url_without_host bare_server refl (λ e. absurd (cc)) refl refl refl

abbrev ttl_options : TtlOptions
ttl_options = record { ttl_min = pos (5 * second); ttl_max = pos (60 * second); ipv4_only = false }

clamp_ttl_bounds_example :
    (5 * second ≤ clamp_ttl ttl_options 300 * second)
    × (clamp_ttl ttl_options 300 * second < 60 * second + second)
clamp_ttl_bounds_example =
    clamp_ttl_bounds ttl_options 300 (omega arith) (omega arith) (omega arith)

clamp_ttl_300 : clamp_ttl ttl_options 300 ≡ 60
unfolding clamp_ttl ceil_seconds add_whole round_even divide doublings log_two
clamp_ttl_300 = refl

-- One nanosecond behind 2 ^ 24 seconds is lost, one behind 2 ^ 24 - 1 seconds is not.
nanosecond_lost : ceil_seconds (2 ^ 24 * second + 1) ≡ 2 ^ 24
unfolding ceil_seconds add_whole round_even divide doublings log_two
nanosecond_lost = refl

nanosecond_counts : ceil_seconds ((2 ^ 24 - 1) * second + 1) ≡ 2 ^ 24
unfolding ceil_seconds add_whole round_even divide doublings log_two
nanosecond_counts = refl

abbrev host_rr : Rr
host_rr = record { name = codes "a."; ttl = 300; rdata = a (some 7) }

abbrev answer : Message
answer = record { question = codes "a."; answer = host_rr ∷ []; ns = []; extra = [] }

-- Ten seconds after the answer came, it is given out with fifty seconds to live.
abbrev map_ttl : List Rr → List ℕ
map_ttl [] = []
map_ttl (rr ∷ rrs) = rr.ttl ∷ map_ttl rrs

served_later :
    map_ttl
      (served
        (read_answer ttl_options (codes "a.") (codes "a.") second answer)
        (11 * second)).answer
    ≡ 50 ∷ []
unfolding read_answer served clamp_ttl ceil_seconds add_whole round_even divide doublings log_two
served_later = refl

-- No patterns, and the pattern `a.uk`, whose atoms stand in reverse.
abbrev no_hosts : MatchSet Unit
no_hosts = record { patterns = []; next_atom = 5; charsets = [] }

abbrev one_host : MatchSet Unit
one_host = record no_hosts { patterns = (codes "ku.a", tt) ∷ [] }

abbrev uk_route : Route
uk_route = record {
  address = 1;
  name = codes "uk";
  allow_list = record { includes = one_host; excludes = no_hosts };
  servers = bare_server ∷ [];
}

abbrev uk_options : Options
uk_options = record { routes = uk_route ∷ []; redirects = (codes "a.org", codes "a.uk") ∷ [] }

abbrev plain_options : Options
plain_options = record { routes = uk_route ∷ []; redirects = [] }

redirected : search_route uk_options (codes "a.org") ≡ some 1
unfolding search_route find_route allow match_all match_patterns match_bytes check_pattern
    check_byte takes_byte is_empty may_end atom_to_charset lookup same_text
redirected = refl

get_route_again_example :
    (get_route uk_options (get_route plain_options (some []) (codes "a.org")).0 (codes "a.org")).1
    ≡ search_route plain_options (codes "a.org")
get_route_again_example = get_route_again plain_options uk_options [] (codes "a.org") tt

not_redirected : search_route plain_options (codes "a.org") ≡ none
unfolding search_route find_route allow match_all match_patterns match_bytes check_pattern
    check_byte takes_byte is_empty may_end atom_to_charset lookup same_text
not_redirected = refl

abbrev query_of : Text → Query
query_of fqdn = record { fqdn = fqdn; first = handed; is_over = λ n. false; second = handed }

abbrev fresh_worker : Worker
fresh_worker = record { sex = []; cache = some []; next = 0 }

abbrev queries : List Query
queries = query_of (codes "a.uk.") ∷ query_of (codes "b.uk.") ∷ query_of (codes "a.org.") ∷ []

abbrev numbers : List (Query × Option Exchange) → List ℕ
numbers [] = []
numbers ((q, none) ∷ ps) = numbers ps
numbers ((q, some ex) ∷ ps) = ex.number ∷ numbers ps

-- The first and the last query go to the same exchange.
two_exchanges : numbers (take_queries uk_options queries fresh_worker).1 ≡ 0 ∷ 1 ∷ 0 ∷ []
unfolding search_route find_route allow match_all match_patterns match_bytes check_pattern
    check_byte takes_byte is_empty may_end atom_to_charset lookup same_text insert trim_dot
    get_route take_queries take_query hand_over start_new delete_over index_of remove_at
two_exchanges = refl

take_queries-Turns_example : Turns uk_options (take_queries uk_options queries fresh_worker)
take_queries-Turns_example =
    take_queries-Turns uk_options queries fresh_worker (λ r. omega arith) tt
