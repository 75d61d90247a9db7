-- ===== src/Dnstun/Routes.antt =====
-- dnstun.go: the route of a domain, kept in `routeCache`. A pointer to a route is its address; the
-- proxy of a route is for the dialer only. The map of redirects gives the empty text for no entry.
use chrome.Base.{
  ℕ, ◌≡◌, refl, ◌∙◌, inl, inr, Bool, true, false, not, ◌&&◌, Bool-cases, List, [], ◌∷◌, All, Option,
  none, some, Option-cases, if◌then◌else◌, ◌==◌, if_intro,
}
use chrome.Base.Text.{Text, same_text, same_text→eq, same_text_refl}
use chrome.Base.Dict.{lookup, insert, lookup-insert}
use chrome.Matchset.Parse.{MatchSet}
use chrome.Matchset.Match.{match_all}
use chrome.Dnstun.Servers.{DnServer}

pub record AllowList : Type 0 where
  pub includes : MatchSet Unit
  pub excludes : MatchSet Unit

abbrev pub matches {ℓ} : {A : Type ℓ} → List A → Bool
matches [] = false
matches (_ ∷ _) = true

unfoldable pub allow : AllowList → Text → Bool
allow l domain =
    matches (match_all l.includes domain) && not (matches (match_all l.excludes domain))

pub record Route : Type 0 where
  pub address : ℕ
  pub name : Text
  pub allow_list : AllowList
  pub servers : List DnServer

pub record Options : Type 0 where
  pub routes : List Route
  pub redirects : List (Text × Text)

-- `strings.TrimSuffix(fqdn, ".")`
unfoldable pub trim_dot : Text → Text
trim_dot [] = []
trim_dot (c ∷ []) = if c == b'.' then [] else c ∷ []
trim_dot (c ∷ d ∷ s) = c ∷ trim_dot (d ∷ s)

abbrev pub or_domain : Text → Option Text → Text
or_domain domain none = domain
or_domain domain (some []) = domain
or_domain domain (some (c ∷ s)) = c ∷ s

unfoldable pub find_route : List Route → Text → Option ℕ
find_route [] dn = none
find_route (r ∷ routes) dn = if allow r.allow_list dn then some r.address else find_route routes dn

-- The search, on a miss.
unfoldable pub search_route : Options → Text → Option ℕ
search_route opts domain = find_route opts.routes (or_domain domain (lookup domain opts.redirects))

abbrev pub RouteCache : Type 0
RouteCache = List (Text × Option ℕ)

abbrev pub load_or_search : Options → RouteCache → Text → Option (Option ℕ) → RouteCache × Option ℕ
load_or_search opts cache domain (some r) = (cache, r)
load_or_search opts cache domain none =
    let r = search_route opts domain in (insert domain r cache, r)

-- `routeCache` is nil in options without routes.
unfoldable pub get_route : Options → Option RouteCache → Text → Option RouteCache × Option ℕ
get_route opts none domain = (none, none)
get_route opts (some cache) domain =
    let (cache', r) = load_or_search opts cache domain (lookup domain cache) in (some cache', r)

-- The entries of the cache are what the search finds.
abbrev pub IsSound : Options → Option RouteCache → Type 0
IsSound opts none = opts.routes ≡ []
IsSound opts (some cache) = All (λ entry. search_route opts entry.0 ≡ entry.1) cache

pub record Sound (opts : Options) (domain : Text) (o : Option RouteCache × Option ℕ) : Type 0 where
  pub answer : o.1 ≡ search_route opts domain
  pub sound : IsSound opts o.0

lookup-IsSound :
    (opts : Options) (cache : RouteCache) (domain : Text) (r : Option ℕ)
    → IsSound opts (some cache)
    → lookup domain cache ≡ some r
    → r ≡ search_route opts domain
unfolding lookup
lookup-IsSound opts [] domain r h e = absurd (cc)
lookup-IsSound opts ((d, q) ∷ cache) domain r h e = elim (Bool-cases (same_text d domain)) [
  | inl same ↦ cc (rw same at e, h.0, same_text→eq d domain same)
  | inr other ↦ lookup-IsSound opts cache domain r h.1 (rw other at e)
]

insert-IsSound :
    (opts : Options) (cache : RouteCache) (domain : Text)
    → IsSound opts (some cache)
    → IsSound opts (some (insert domain (search_route opts domain) cache))
unfolding insert
insert-IsSound opts [] domain h = (refl, tt)
insert-IsSound opts ((d, q) ∷ cache) domain h =
    if_intro (λ c. IsSound opts (some c)) (same_text d domain) _ _ (λ same. (refl, h.1))
      (λ other. (h.0, insert-IsSound opts cache domain h.1))

no_routes : (opts : Options) (domain : Text) → opts.routes ≡ [] → none ≡ search_route opts domain
unfolding search_route find_route
no_routes opts domain h = rw h refl

pub get_route-Sound :
    (opts : Options) (cache : Option RouteCache) (domain : Text)
    → IsSound opts cache
    → Sound opts domain (get_route opts cache domain)
unfolding get_route
get_route-Sound opts none domain h = record { answer = no_routes opts domain h; sound = h }
get_route-Sound opts (some cache) domain h = elim (Option-cases (lookup domain cache)) [
  | inl e ↦ rw e record { answer = refl; sound = insert-IsSound opts cache domain h }
  | inr (r, e) ↦ rw e record { answer = lookup-IsSound opts cache domain r h e; sound = h }
]

hit_again :
    (opts : Options) (cache : RouteCache) (domain : Text) (r : Option ℕ)
    → lookup domain cache ≡ some r
    → (get_route opts (some cache) domain).1 ≡ r
unfolding get_route
hit_again opts cache domain r e = rw e refl

inserted :
    (cache : RouteCache) (domain : Text) (r : Option ℕ)
    → lookup domain (insert domain r cache) ≡ some r
inserted cache domain r = rw (lookup-insert domain domain r cache, same_text_refl domain) refl

-- With a cache of routes that agrees with the search under some options, after a domain was
-- looked up under these, a lookup of it under any other options with the same cache gives what
-- the search under the first options gives.
pub get_route_again :
    (opts opts' : Options) (cache : RouteCache) (domain : Text)
    → IsSound opts (some cache)
    → (get_route opts' (get_route opts (some cache) domain).0 domain).1 ≡ search_route opts domain
unfolding get_route
get_route_again opts opts' cache domain h = elim (Option-cases (lookup domain cache)) [
  | inl e ↦
      let r = search_route opts domain in
      rw e (hit_again opts' (insert domain r cache) domain r (inserted cache domain r))
  | inr (r, e) ↦ rw e (hit_again opts' cache domain r e ∙ lookup-IsSound opts cache domain r h e)
]
