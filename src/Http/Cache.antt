-- ===== src/Http/Cache.antt =====
-- `handler.getopts` of http.go: the route for an address, kept in `routeCache`. `target` is what the
-- standard library makes of an address: `net.SplitHostPort`, `netip.ParseAddr`, `Unmap`, `String`.
use chrome.Base.{
  ◌≡◌, refl, sym, ◌∙◌, ◌⊎◌, inl, inr, Bool-cases, List, [], ◌∷◌, map, All, Option, none, some,
  Option-cases, if◌then◌else◌,
}
use chrome.Netip.Addr.{Addr}
use chrome.Base.Text.{Text, same_text, same_text→eq}
use chrome.Http.Allow.{AllowList, allow}

pub record Route (P : Type 0) : Type 0 where
  pub name : Text
  pub allow_list : AllowList
  pub proxy : P

pub record Target : Type 0 where
  pub host : Text
  pub port : Text
  pub addr : Addr

abbrev pub Cache : Type 0 → Type 0
Cache P = List (Text × Route P)

module _ {P : Type 0} where
  -- `routeCache` is nil, or `none`, in options without routes.
  abbrev pub new_cache : List (Route P) → Option (Cache P)
  new_cache [] = none
  new_cache (r ∷ routes) = some []

module _ {P : Type 0} (target : Text → Target) where
  -- The loop over the routes.
  unfoldable pub first_route : List (Route P) → Target → Option (Route P)
  first_route [] t = none
  first_route (r ∷ routes) t =
      if allow r.allow_list t.host t.port t.addr then some r else first_route routes t

  unfoldable pub load : Cache P → Text → Option (Route P)
  load [] addr = none
  load ((a, r) ∷ cache) addr = if same_text a addr then some r else load cache addr

  abbrev store : Cache P → Text → Option (Route P) → Cache P × Option (Route P)
  store cache addr none = (cache, none)
  store cache addr (some r) = ((addr, r) ∷ cache, some r)

  abbrev load_or_store :
      List (Route P) → Cache P → Text → Option (Route P) → Cache P × Option (Route P)
  load_or_store routes cache addr (some r) = (cache, some r)
  load_or_store routes cache addr none = store cache addr (first_route routes (target addr))

  unfoldable pub get_route :
      List (Route P) → Option (Cache P) → Text → Option (Cache P) × Option (Route P)
  get_route routes none addr = (none, none)
  get_route routes (some cache) addr =
      let (cache', r) = load_or_store routes cache addr (load cache addr) in (some cache', r)

  -- The answers to a sequence of addresses.
  unfoldable pub get_routes :
      List (Route P) → Option (Cache P) → List Text → List (Option (Route P))
  get_routes routes cache [] = []
  get_routes routes cache (addr ∷ addrs) =
      let (cache', r) = get_route routes cache addr in r ∷ get_routes routes cache' addrs

  -- The cache agrees with the search.
  IsSound : List (Route P) → Cache P → Type 0
  IsSound routes = All (λ entry. first_route routes (target entry.0) ≡ some entry.1)

  load-IsSound :
      (routes : List (Route P)) (cache : Cache P) (addr : Text)
      → IsSound routes cache
      → (load cache addr ≡ none) ⊎ (load cache addr ≡ first_route routes (target addr))
  unfolding load IsSound
  load-IsSound routes [] addr h = inl refl
  load-IsSound routes ((a, r) ∷ cache) addr h = elim (Bool-cases (same_text a addr)) [
    | inl e ↦ rw (e, sym (same_text→eq a addr e)) (inr (sym h.0))
    | inr e ↦ rw e (load-IsSound routes cache addr h.1)
  ]

  IsSoundIf : List (Route P) → Option (Cache P) → Type 0
  IsSoundIf routes none = routes ≡ []
  IsSoundIf routes (some cache) = IsSound routes cache

  new_cache-IsSoundIf : (routes : List (Route P)) → IsSoundIf routes (new_cache routes)
  unfolding IsSoundIf IsSound
  new_cache-IsSoundIf [] = refl
  new_cache-IsSoundIf (r ∷ routes) = tt

  -- One call: the answer is that of the search, and the cache stays sound.
  record Sound (routes : List (Route P)) (addr : Text) (o : Cache P × Option (Route P))
      : Type 0 where
    pub answer : o.1 ≡ first_route routes (target addr)
    pub sound : IsSound routes o.0

  store-Sound :
      (routes : List (Route P)) (cache : Cache P) (addr : Text)
      → IsSound routes cache
      → Sound routes addr (store cache addr (first_route routes (target addr)))
  unfolding IsSound
  store-Sound routes cache addr h = elim (Option-cases (first_route routes (target addr))) [
    | inl e ↦ rw e record { answer = sym e; sound = h }
    | inr (r, e) ↦ rw e record { answer = sym e; sound = (e, h) }
  ]

  hit :
      {o found : Option (Route P)} (r : Route P)
      → (o ≡ none) ⊎ (o ≡ found)
      → o ≡ some r
      → some r ≡ found
  hit r (inl n) e = absurd (cc (n, e))
  hit r (inr q) e = sym e ∙ q

  load_or_store-Sound :
      (routes : List (Route P)) (cache : Cache P) (addr : Text)
      → IsSound routes cache
      → Sound routes addr (load_or_store routes cache addr (load cache addr))
  load_or_store-Sound routes cache addr h = elim (Option-cases (load cache addr)) [
    | inl e ↦ rw e (store-Sound routes cache addr h)
    | inr (r, e) ↦ rw e record { answer = hit r (load-IsSound routes cache addr h) e; sound = h }
  ]

  record SoundIf (routes : List (Route P)) (addr : Text) (o : Option (Cache P) × Option (Route P))
      : Type 0 where
    pub answer : o.1 ≡ first_route routes (target addr)
    pub sound : IsSoundIf routes o.0

  no_routes :
      (routes : List (Route P)) (addr : Text)
      → routes ≡ []
      → none ≡ first_route routes (target addr)
  unfolding first_route
  no_routes routes addr h = rw h refl

  get_route-SoundIf :
      (routes : List (Route P)) (cache : Option (Cache P)) (addr : Text)
      → IsSoundIf routes cache
      → SoundIf routes addr (get_route routes cache addr)
  unfolding get_route IsSoundIf
  get_route-SoundIf routes none addr h = record { answer = no_routes routes addr h; sound = h }
  get_route-SoundIf routes (some cache) addr h =
      let s = load_or_store-Sound routes cache addr h in
      record { answer = s.answer; sound = s.sound }

  get_routes_from :
      (routes : List (Route P)) (cache : Option (Cache P)) (addrs : List Text)
      → IsSoundIf routes cache
      → get_routes routes cache addrs ≡ map (λ addr. first_route routes (target addr)) addrs
  unfolding get_routes
  get_routes_from routes cache [] h = refl
  get_routes_from routes cache (addr ∷ addrs) h =
      let r = get_route-SoundIf routes cache addr h in
      rw (r.answer, get_routes_from routes (get_route routes cache addr).0 addrs r.sound) refl

  -- For every list of routes and every sequence of addresses, starting from the cache that a
  -- configuration with these routes makes, the answers with the cache are those of the search
  -- through the routes for each address alone.
  pub get_routes-map :
      (routes : List (Route P)) (addrs : List Text)
      → get_routes routes (new_cache routes) addrs
        ≡ map (λ addr. first_route routes (target addr)) addrs
  get_routes-map routes addrs =
      get_routes_from routes (new_cache routes) addrs (new_cache-IsSoundIf routes)
