-- ===== src/Dnstun/Worker.antt =====
-- dnstun.go: `startWorker`, which hands each query to the exchange of its route, and starts one where
-- there is none. An exchange is known by its number; the cache of answers is left out, since an
-- answer that is found there is handed out and nothing else changes.
use chrome.Base.{
  ℕ, suc, ◌-◌, Bool, true, false, List, [], ◌∷◌, ◌++◌, Option, none, some, if◌then◌else◌, ◌==◌,
  length, take, set, get_elem?,
}
use chrome.Base.Text.{Text}
use chrome.Dnstun.Routes.{Options, RouteCache, trim_dot, get_route}

pub record Exchange : Type 0 where
  pub number : ℕ
  pub route : Option ℕ

abbrev pub same_route : Option ℕ → Option ℕ → Bool
same_route none none = true
same_route (some a) (some b) = a == b
same_route _ _ = false

-- What a `select` on an exchange, the client and the exchange's channel comes to.
pub data Choice : Type 0 where
  exchange_over client_left handed : Choice

pub record Worker : Type 0 where
  pub sex : List Exchange
  pub cache : Option RouteCache
  pub next : ℕ

-- One query, with the choices of its two `select`s, and the exchanges that are over in between.
pub record Query : Type 0 where
  pub fqdn : Text
  pub first : Choice
  pub is_over : ℕ → Bool
  pub second : Choice

abbrev pub next_index : Option ℕ → Option ℕ
next_index none = none
next_index (some i) = some (suc i)

-- `slices.IndexFunc`
unfoldable pub index_of : List Exchange → Option ℕ → Option ℕ
index_of [] route = none
index_of (ex ∷ sex) route =
    if same_route ex.route route then some 0 else next_index (index_of sex route)

abbrev pub replace_by : List Exchange → ℕ → ℕ → Option Exchange → List Exchange
replace_by sex i j none = sex
replace_by sex i j (some ex) = take j (set sex i ex)

-- The last exchange takes the place of the one that is over.
unfoldable pub remove_at : List Exchange → ℕ → List Exchange
remove_at sex i = let j = length sex - 1 in replace_by sex i j (get_elem? sex j)

unfoldable pub delete_over : (ℕ → Bool) → List Exchange → List Exchange
delete_over is_over [] = []
delete_over is_over (ex ∷ sex) =
    let rest = delete_over is_over sex in if is_over ex.number then rest else ex ∷ rest

-- The exchanges, and the one that got the query.
abbrev pub Outcome : Type 0
Outcome = List Exchange × Option Exchange

abbrev pub handed_to : Choice → Exchange → Option Exchange
handed_to handed ex = some ex
handed_to _ ex = none

unfoldable pub start_new : Query → ℕ → Option ℕ → List Exchange → Outcome
start_new q number route sex =
    let ex : Exchange = record { number = number; route = route } in
    (delete_over q.is_over sex ++ (ex ∷ []), handed_to q.second ex)

abbrev pub at_index : Query → ℕ → Option ℕ → List Exchange → ℕ → Choice → Outcome
at_index q number route sex i exchange_over = start_new q number route (remove_at sex i)
at_index q number route sex i client_left = (sex, none)
at_index q number route sex i handed = (sex, get_elem? sex i)

abbrev pub at_found : Query → ℕ → Option ℕ → List Exchange → Option ℕ → Outcome
at_found q number route sex none = start_new q number route sex
at_found q number route sex (some i) = at_index q number route sex i q.first

unfoldable pub hand_over : Query → ℕ → Option ℕ → List Exchange → Outcome
hand_over q number route sex = at_found q number route sex (index_of sex route)

-- A turn of the loop.
unfoldable pub take_query : Options → Query → Worker → Worker × Option Exchange
take_query opts q w =
    let (cache, route) = get_route opts w.cache (trim_dot q.fqdn) in
    let (sex, taker) = hand_over q w.next route w.sex in
    (record { sex = sex; cache = cache; next = suc w.next }, taker)

-- The turns for a sequence of queries: the worker, and for each query who got it.
unfoldable pub take_queries :
    Options → List Query → Worker → Worker × List (Query × Option Exchange)
take_queries opts [] w = (w, [])
take_queries opts (q ∷ qs) w =
    let (w', taker) = take_query opts q w in
    let (w'', takers) = take_queries opts qs w' in (w'', (q, taker) ∷ takers)
