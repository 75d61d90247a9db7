-- ===== src/Failover/Queue/Order.antt =====
-- The loops of failover.go's `fix` put the array in descending order of score, and keep its items.
use chrome.Base.{
  ℕ, ◌+◌, ◌≡◌, refl, true, Bool-cases, inl, inr, List, [], ◌∷◌, arith, All, All-map, sum_by,
}
use chrome.Base.Int.{ℤ, ◌≤ℤ◌, leb_ℤ}
use chrome.Failover.Elem.{Elem}
use chrome.Failover.Queue.{Place, rejoin, sink, rise, rise_head, reorder}

-- `x` scores at least as much as every item.
abbrev pub Tops : Elem → List Elem → Type 0
Tops x = All (λ y. y.score ≤ℤ x.score)

abbrev pub IsDescending : List Elem → Type 0
IsDescending [] = Unit
IsDescending (x ∷ xs) = Tops x xs × IsDescending xs

abbrev pub IsAscending : List Elem → Type 0
IsAscending [] = Unit
IsAscending (x ∷ xs) = All (λ y. x.score ≤ℤ y.score) xs × IsAscending xs

-- Every item of the first list tops the second.
abbrev pub Over : List Elem → List Elem → Type 0
Over left right = All (λ l. Tops l right) left

Over-tail :
    (left : List Elem) (x : Elem) (right : List Elem) → Over left (x ∷ right) → Over left right
Over-tail left x right = All-map (λ l. Tops l (x ∷ right)) (λ l. Tops l right) left (λ l h. h.1)

Over-head :
    (left : List Elem) (x : Elem) (right : List Elem)
    → Over left (x ∷ right)
    → All (λ y. x.score ≤ℤ y.score) left
Over-head left x right =
    All-map (λ l. Tops l (x ∷ right)) (λ y. x.score ≤ℤ y.score) left (λ l h. h.0)

Over-cons :
    (left : List Elem) (x : Elem) (right : List Elem)
    → All (λ y. x.score ≤ℤ y.score) left
    → Over left right
    → Over left (x ∷ right)
Over-cons [] x right h o = tt
Over-cons (l ∷ left) x right h o = ((h.0, o.0), Over-cons left x right h.1 o.1)

Tops-trans : (x y : Elem) (xs : List Elem) → y.score ≤ℤ x.score → Tops y xs → Tops x xs
Tops-trans x y xs h =
    All-map (λ z. z.score ≤ℤ y.score) (λ z. z.score ≤ℤ x.score) xs (λ z k. omega arith)

pub Tops-cong : (x y : Elem) (xs : List Elem) → y.score ≡ x.score → Tops x xs → Tops y xs
Tops-cong x y xs e = All-map (λ z. z.score ≤ℤ x.score) (λ z. z.score ≤ℤ y.score) xs (λ z h. rw e h)

pub Over-cong :
    (left : List Elem) (x y : Elem) (right : List Elem)
    → y.score ≡ x.score
    → Over left (x ∷ right)
    → Over left (y ∷ right)
Over-cong left x y right e =
    All-map (λ l. Tops l (x ∷ right)) (λ l. Tops l (y ∷ right)) left (λ l h. (rw e h.0, h.1))

abbrev pub IsOrdered : List Elem → List Elem → Type 0
IsOrdered left right = IsAscending left × Over left right × IsDescending right

pub rejoin_parts :
    (left right : List Elem) → IsDescending (rejoin left right) → IsOrdered left right
rejoin_parts [] right h = (tt, tt, h)
rejoin_parts (p ∷ left) right h =
    let (a, o, d) = rejoin_parts left (p ∷ right) h in
    ((Over-head left p right o, a), (d.0, Over-tail left p right o), d.1)

pub rejoin-IsDescending :
    (left right : List Elem) → IsOrdered left right → IsDescending (rejoin left right)
rejoin-IsDescending [] right h = h.2
rejoin-IsDescending (p ∷ left) right (a, o, d) =
    rejoin-IsDescending left (p ∷ right) (a.1, Over-cons left p right a.0 o.1, (o.0, d))

module _ (P : Elem → Type 0) where
  pub All-sink : (x : Elem) (xs : List Elem) → P x → All P xs → All P (sink x xs)
  unfolding sink
  All-sink x [] h k = (h, tt)
  All-sink x (y ∷ ys) h k = elim (Bool-cases (leb_ℤ y.score x.score)) [
    | inl e ↦ rw e (h, k)
    | inr e ↦ rw e (k.0, All-sink x ys h k.1)
  ]

pub sink-IsDescending : (x : Elem) (xs : List Elem) → IsDescending xs → IsDescending (sink x xs)
unfolding sink
sink-IsDescending x [] h = (tt, tt)
sink-IsDescending x (y ∷ ys) h = elim (Bool-cases (leb_ℤ y.score x.score)) [
  | inl e ↦ rw e (((ground arith), Tops-trans x y ys (ground arith) h.0), h)
  | inr e ↦
      rw e (All-sink (λ z. z.score ≤ℤ y.score) x ys (ground arith) h.0, sink-IsDescending x ys h.1)
]

leb_ℤ_le : (a b : ℤ) → leb_ℤ a b ≡ true → a ≤ℤ b
leb_ℤ_le a b h = ground arith

Over-lower :
    (p : Elem) (left : List Elem) (x : Elem) (right : List Elem)
    → x.score ≤ℤ p.score
    → All (λ y. p.score ≤ℤ y.score) left
    → Over (p ∷ left) right
    → Over (p ∷ left) (x ∷ right)
Over-lower p left x right h a o = (
  (h, o.0),
  Over-cons left x right
      (All-map (λ y. p.score ≤ℤ y.score) (λ y. x.score ≤ℤ y.score) left (λ y k. omega arith) a) o.1,
)

rise-IsDescending :
    (left : List Elem) (x : Elem) (right : List Elem)
    → IsOrdered left right
    → Tops x right
    → IsDescending (rise left x right)
unfolding rise
rise-IsDescending [] x right h t = (t, h.2)
rise-IsDescending (p ∷ left) x right (a, o, d) t = elim (Bool-cases (leb_ℤ x.score p.score)) [
  | inl e ↦ rw e (
      rejoin-IsDescending (p ∷ left) (x ∷ right)
        (a, Over-lower p left x right (leb_ℤ_le x.score p.score e) a.0 o, (t, d)))
  | inr e ↦ rw e (
      rise-IsDescending left x (p ∷ right) (a.1, Over-cons left p right a.0 o.1, (o.0, d))
        (ground arith, t))
]

-- What the first loop leaves at the changed element's place, with the rest after it.
abbrev RisesWell : List Elem → List Elem → Type 0
RisesWell left [] = IsOrdered left []
RisesWell left (x ∷ xs) = IsOrdered left xs × Tops x xs

rise_head-IsDescending :
    (left xs : List Elem) → RisesWell left xs → IsDescending (rise_head left xs)
rise_head-IsDescending left [] h = rejoin-IsDescending left [] h
rise_head-IsDescending left (x ∷ xs) h = rise-IsDescending left x xs h.0 h.1

Over-sink :
    (left : List Elem) (x y : Elem) (ys : List Elem)
    → x.score ≤ℤ y.score
    → Over left (y ∷ ys)
    → Over left (sink x ys)
Over-sink [] x y ys h o = tt
Over-sink (l ∷ left) x y ys h o =
    (All-sink (λ z. z.score ≤ℤ l.score) x ys (omega arith) o.0.1, Over-sink left x y ys h o.1)

sink-RisesWell :
    (left : List Elem) (x : Elem) (xs : List Elem) → IsOrdered left xs → RisesWell left (sink x xs)
unfolding sink
sink-RisesWell left x [] h = (h, tt)
sink-RisesWell left x (y ∷ ys) (a, o, d) = elim (Bool-cases (leb_ℤ y.score x.score)) [
  | inl e ↦
      rw e (
        (a, o, d),
        (leb_ℤ_le y.score x.score e, Tops-trans x y ys (leb_ℤ_le y.score x.score e) d.0),
      )
  | inr e ↦ rw e (
    (a, Over-sink left x y ys (ground arith) o, sink-IsDescending x ys d.1),
    All-sink (λ z. z.score ≤ℤ y.score) x ys (ground arith) d.0,
  )
]

-- Whatever the new score is, the two loops restore the order.
pub reorder-IsDescending :
    (p : Place) (old : Elem)
    → IsDescending (rejoin p.left (old ∷ p.right))
    → IsDescending (reorder p)
unfolding reorder
reorder-IsDescending p old h =
    let (a, o, d) = rejoin_parts p.left (old ∷ p.right) h in
    rise_head-IsDescending p.left (sink p.elem p.right)
      (sink-RisesWell p.left p.elem p.right (a, Over-tail p.left old p.right o, d.1))

-- The loops only move items: every sum over them stays.
module _ (g : Elem → ℕ) where
  pub sum_by-rejoin :
      (left right : List Elem) → sum_by g (rejoin left right) ≡ sum_by g left + sum_by g right
  sum_by-rejoin [] right = omega arith
  sum_by-rejoin (p ∷ left) right = omega (arith, sum_by-rejoin left (p ∷ right))

  sum_by-sink : (x : Elem) (xs : List Elem) → sum_by g (sink x xs) ≡ g x + sum_by g xs
  unfolding sink
  sum_by-sink x [] = refl
  sum_by-sink x (y ∷ ys) = ground (arith, sum_by-sink x ys)

  sum_by-rise :
      (left : List Elem) (x : Elem) (right : List Elem)
      → sum_by g (rise left x right) ≡ sum_by g left + g x + sum_by g right
  unfolding rise
  sum_by-rise [] x right = omega arith
  sum_by-rise (p ∷ left) x right =
      ground (arith, sum_by-rise left x (p ∷ right), sum_by-rejoin left (p ∷ x ∷ right))

  sum_by-rise_head :
      (left xs : List Elem) → sum_by g (rise_head left xs) ≡ sum_by g left + sum_by g xs
  sum_by-rise_head left [] = sum_by-rejoin left []
  sum_by-rise_head left (x ∷ xs) = omega (arith, sum_by-rise left x xs)

  pub sum_by-reorder :
      (p : Place) → sum_by g (reorder p) ≡ sum_by g p.left + g p.elem + sum_by g p.right
  unfolding reorder
  sum_by-reorder p =
      omega (arith, sum_by-rise_head p.left (sink p.elem p.right), sum_by-sink p.elem p.right)

-- A predicate on all items survives too.
module _ (P : Elem → Type 0) where
  pub All-rejoin : (left right : List Elem) → All P left → All P right → All P (rejoin left right)
  All-rejoin [] right h k = k
  All-rejoin (p ∷ left) right h k = All-rejoin left (p ∷ right) h.1 (h.0, k)

  pub All-rejoin_parts :
      (left right : List Elem) → All P (rejoin left right) → All P left × All P right
  All-rejoin_parts [] right h = (tt, h)
  All-rejoin_parts (p ∷ left) right h =
      let (a, b) = All-rejoin_parts left (p ∷ right) h in ((b.0, a), b.1)

  All-rise :
      (left : List Elem) (x : Elem) (right : List Elem)
      → All P left
      → P x
      → All P right
      → All P (rise left x right)
  unfolding rise
  All-rise [] x right l h r = (h, r)
  All-rise (p ∷ left) x right l h r = elim (Bool-cases (leb_ℤ x.score p.score)) [
    | inl e ↦ rw e (All-rejoin (p ∷ left) (x ∷ right) l (h, r))
    | inr e ↦ rw e (All-rise left x (p ∷ right) l.1 h (l.0, r))
  ]

  All-rise_head : (left xs : List Elem) → All P left → All P xs → All P (rise_head left xs)
  All-rise_head left [] l r = All-rejoin left [] l tt
  All-rise_head left (x ∷ xs) l r = All-rise left x xs l r.0 r.1

  pub All-reorder : (p : Place) → All P p.left → P p.elem → All P p.right → All P (reorder p)
  unfolding reorder
  All-reorder p l h r = All-rise_head p.left (sink p.elem p.right) l (All-sink P p.elem p.right h r)
