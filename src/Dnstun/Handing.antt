-- ===== src/Dnstun/Handing.antt =====
-- dnstun.go: the worker has one exchange for a route, and a query goes to the exchange of its route.
use mathlib.Core.Path.{subst}
use chrome.Base.{
  ℕ, zero, suc, ◌+◌, ◌-◌, ◌≤◌, ◌≡◌, refl, ap, inl, inr, Bool, true, false, Bool-cases, List, [],
  ◌∷◌, All, Option, none, some, if◌then◌else◌, if_intro, length, take, set, get_elem?, sum_by,
  sum_by-set, sum_by-append, length-set, arith,
}
use chrome.Dnstun.Routes.{Options, IsSound, search_route, trim_dot, get_route, get_route-Sound}
use chrome.Dnstun.Worker.{
  Exchange, same_route, Choice, exchange_over, client_left, handed, Worker, Query, index_of,
  next_index, remove_at, delete_over, Outcome, handed_to, start_new, at_index, at_found, hand_over,
  take_query, take_queries,
}

module _ {ℓ} {A : Type ℓ} where
  last_exists : (x : A) (xs : List A) → (v : A) × (get_elem? (x ∷ xs) (length xs) ≡ some v)
  last_exists x [] = (x, refl)
  last_exists x (y ∷ xs) = last_exists y xs

  last-set :
      (xs : List A) (i j : ℕ) (v : A) → get_elem? xs j ≡ some v → get_elem? (set xs i v) j ≡ some v
  last-set [] i j v h = absurd (cc)
  last-set (x ∷ xs) zero zero v h = refl
  last-set (x ∷ xs) zero (suc j) v h = h
  last-set (x ∷ xs) (suc i) zero v h = h
  last-set (x ∷ xs) (suc i) (suc j) v h = last-set xs i j v h

  sum_by-take :
      (g : A → ℕ) (xs : List A) (j : ℕ) (v : A)
      → length xs ≡ suc j
      → get_elem? xs j ≡ some v
      → sum_by g (take j xs) + g v ≡ sum_by g xs
  sum_by-take g [] j v n h = absurd (cc)
  sum_by-take g (x ∷ []) zero v n h = ground (arith, h)
  sum_by-take g (x ∷ y ∷ xs) zero v n h = absurd (omega (arith, n))
  sum_by-take g (x ∷ xs) (suc j) v n h = omega (arith, sum_by-take g xs j v (omega (arith, n)) h)

remove_at-take :
    (sex : List Exchange) (i j : ℕ) (v : Exchange)
    → length sex ≡ suc j
    → get_elem? sex j ≡ some v
    → remove_at sex i ≡ take j (set sex i v)
unfolding remove_at
remove_at-take sex i j v n h = let e : length sex - 1 ≡ j = omega (arith, n) in rw (e, h) refl

sum_by-remove_at :
    (g : Exchange → ℕ) (sex : List Exchange) (i : ℕ) (u : Exchange)
    → get_elem? sex i ≡ some u
    → sum_by g (remove_at sex i) + g u ≡ sum_by g sex
sum_by-remove_at g [] i u h = absurd (cc)
sum_by-remove_at g (x ∷ sex) i u h =
    let (v, e) = last_exists x sex in
    rw (remove_at-take (x ∷ sex) i (length sex) v refl e) (
      omega (
        arith,
        sum_by-set g (x ∷ sex) i u v h,
        sum_by-take g (set (x ∷ sex) i v) (length sex) v (length-set (x ∷ sex) i v)
            (last-set (x ∷ sex) i (length sex) v e),
      ))

sum_by-delete_over :
    (g : Exchange → ℕ) (f : ℕ → Bool) (sex : List Exchange)
    → sum_by g (delete_over f sex) ≤ sum_by g sex
unfolding delete_over
sum_by-delete_over g f [] = omega arith
sum_by-delete_over g f (ex ∷ sex) =
    if_intro (λ s. sum_by g s ≤ sum_by g (ex ∷ sex)) (f ex.number) _ _
      (λ e. omega (arith, sum_by-delete_over g f sex))
      (λ e. omega (arith, sum_by-delete_over g f sex))

same_route→eq : (a b : Option ℕ) → same_route a b ≡ true → a ≡ b
same_route→eq none none h = refl
same_route→eq none (some b) h = absurd (cc)
same_route→eq (some a) none h = absurd (cc)
same_route→eq (some a) (some b) h = ap some (ground arith)

abbrev weight : Option ℕ → Exchange → ℕ
weight r ex = if same_route ex.route r then 1 else 0

abbrev count : Option ℕ → List Exchange → ℕ
count r sex = sum_by (weight r) sex

-- No two exchanges have the same route.
abbrev pub IsOne : List Exchange → Type 0
IsOne sex = (r : Option ℕ) → count r sex ≤ 1

abbrev pub Takes : Option ℕ → Option Exchange → Type 0
Takes route none = Unit
Takes route (some ex) = ex.route ≡ route

record Handed (route : Option ℕ) (o : Outcome) : Type 0 where
  pub one : IsOne o.0
  pub taker : Takes route o.1

abbrev Found : Option ℕ → List Exchange → Option ℕ → Type 0
Found route sex none = count route sex ≡ 0
Found route sex (some i) =
    (ex : Exchange) × (get_elem? sex i ≡ some ex) × (same_route ex.route route ≡ true)

found_later :
    (route : Option ℕ) (ex : Exchange) (sex : List Exchange) (o : Option ℕ)
    → same_route ex.route route ≡ false
    → Found route sex o
    → Found route (ex ∷ sex) (next_index o)
found_later route ex sex none e h = rw (e, h) refl
found_later route ex sex (some i) e h = h

index_of-Found : (route : Option ℕ) (sex : List Exchange) → Found route sex (index_of sex route)
unfolding index_of
index_of-Found route [] = refl
index_of-Found route (ex ∷ sex) =
    if_intro (Found route (ex ∷ sex)) (same_route ex.route route) _ _ (λ e. (ex, refl, e))
      (λ e. found_later route ex sex (index_of sex route) e (index_of-Found route sex))

handed_to-Takes : (c : Choice) (ex : Exchange) → Takes ex.route (handed_to c ex)
handed_to-Takes handed ex = refl
handed_to-Takes exchange_over ex = tt
handed_to-Takes client_left ex = tt

weight_self : (r : Option ℕ) (ex : Exchange) → same_route ex.route r ≡ true → weight r ex ≡ 1
weight_self r ex e = rw e refl

delete_over-IsOne :
    (q : Query) (n : ℕ) (route r : Option ℕ) (sex : List Exchange)
    → count route sex ≡ 0
    → count r sex ≤ 1
    → count r (start_new q n route sex).0 ≤ 1
unfolding start_new
delete_over-IsOne q n route r sex none_yet one =
    let ex : Exchange = record { number = n; route = route } in
    let d = sum_by-delete_over (weight r) q.is_over sex in
    let a = sum_by-append (weight r) (delete_over q.is_over sex) (ex ∷ []) in
    elim (Bool-cases (same_route route r)) [
      | inl e ↦ omega (
        arith,
        a,
        d,
        weight_self r ex e,
        ap (λ (k : Option ℕ). count k sex) (same_route→eq route r e),
      )
      | inr e ↦ let w : weight r ex ≡ 0 = rw e refl in omega (arith, a, d, w)
    ]

start_new-Takes :
    (q : Query) (n : ℕ) (route : Option ℕ) (sex : List Exchange)
    → Takes route (start_new q n route sex).1
unfolding start_new
start_new-Takes q n route sex = handed_to-Takes q.second record { number = n; route = route }

start_new-Handed :
    (q : Query) (n : ℕ) (route : Option ℕ) (sex : List Exchange)
    → count route sex ≡ 0
    → IsOne sex
    → Handed route (start_new q n route sex)
start_new-Handed q n route sex h one = record {
  one = λ r. delete_over-IsOne q n route r sex h (one r);
  taker = start_new-Takes q n route sex;
}

at_index-Handed :
    (q : Query) (n : ℕ) (route : Option ℕ) (sex : List Exchange) (i : ℕ) (c : Choice)
    → Found route sex (some i)
    → IsOne sex
    → Handed route (at_index q n route sex i c)
at_index-Handed q n route sex i exchange_over (ex, e, same) one =
    start_new-Handed q n route (remove_at sex i)
      (omega
        (arith, one route, sum_by-remove_at (weight route) sex i ex e, weight_self route ex same))
      (λ r. omega (arith, one r, sum_by-remove_at (weight r) sex i ex e))
at_index-Handed q n route sex i client_left f one = record { one = one; taker = tt }
at_index-Handed q n route sex i handed (ex, e, same) one = record {
  one = one;
  taker = rw e (same_route→eq ex.route route same);
}

at_found-Handed :
    (q : Query) (n : ℕ) (route : Option ℕ) (sex : List Exchange) (o : Option ℕ)
    → Found route sex o
    → IsOne sex
    → Handed route (at_found q n route sex o)
at_found-Handed q n route sex none h one = start_new-Handed q n route sex h one
at_found-Handed q n route sex (some i) h one = at_index-Handed q n route sex i q.first h one

hand_over-Handed :
    (q : Query) (n : ℕ) (route : Option ℕ) (sex : List Exchange)
    → IsOne sex
    → Handed route (hand_over q n route sex)
unfolding hand_over
hand_over-Handed q n route sex one =
    at_found-Handed q n route sex (index_of sex route) (index_of-Found route sex) one

abbrev pub wanted : Options → Query → Option ℕ
wanted opts q = search_route opts (trim_dot q.fqdn)

pub record Turns (opts : Options) (o : Worker × List (Query × Option Exchange)) : Type 0 where
  pub one : IsOne o.0.sex
  pub sound : IsSound opts o.0.cache
  pub takers : All (λ p. Takes (wanted opts p.0) p.1) o.1

record Turn (opts : Options) (q : Query) (o : Worker × Option Exchange) : Type 0 where
  pub one : IsOne o.0.sex
  pub sound : IsSound opts o.0.cache
  pub taker : Takes (wanted opts q) o.1

take_query-Turn :
    (opts : Options) (q : Query) (w : Worker)
    → IsOne w.sex
    → IsSound opts w.cache
    → Turn opts q (take_query opts q w)
unfolding take_query
take_query-Turn opts q w one sound =
    let o = get_route opts w.cache (trim_dot q.fqdn) in
    let s = get_route-Sound opts w.cache (trim_dot q.fqdn) sound in
    let h = hand_over-Handed q w.next o.1 w.sex one in
    record {
      one = h.one;
      sound = s.sound;
      taker = subst (λ (r : Option ℕ). Takes r (hand_over q w.next o.1 w.sex).1) s.answer h.taker;
    }

-- For a worker that has at most one exchange for a route and a cache that agrees with the
-- search, options, and a sequence of queries with whatever choices of the selects and whatever
-- exchanges end: afterwards it is again so, and each query that was handed over went to an
-- exchange of the route that the search through the routes finds for its domain, redirects
-- included.
pub take_queries-Turns :
    (opts : Options) (qs : List Query) (w : Worker)
    → IsOne w.sex
    → IsSound opts w.cache
    → Turns opts (take_queries opts qs w)
unfolding take_queries
take_queries-Turns opts [] w one sound = record { one = one; sound = sound; takers = tt }
take_queries-Turns opts (q ∷ qs) w one sound =
    let t = take_query-Turn opts q w one sound in
    let ts = take_queries-Turns opts qs (take_query opts q w).0 t.one t.sound in
    record { one = ts.one; sound = ts.sound; takers = (t.taker, ts.takers) }
