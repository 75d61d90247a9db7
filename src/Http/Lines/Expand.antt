-- ===== src/Http/Lines/Expand.antt =====
-- The lines of a list with those of the files that it includes in place: both walks of http.go are
-- functions of them.
use chrome.Base.{
  ℕ, zero, suc, ◌≡◌, refl, sym, ap, ◌∙◌, inl, inr, Bool, true, false, ◌==◌, List, [], ◌∷◌, ◌++◌,
  Option, none, some, Option-cases, if◌then◌else◌, ◌>>=◌,
}
use chrome.Netip.Addr.{Addr}
use chrome.Netip.RangeSet.{AddrRange}
use chrome.Base.Text.{Text}
use chrome.Http.Rules.{Parser, put_line}
use chrome.Http.Lines.{scan_lines, include_path, parse_lines, checksum_lines}
use chrome.Http.Lines.Walk.{join_lines, join_lines-append}

bind_assoc :
    {A B C : Type 0} (o : Option A) (f : A → Option B) (g : B → Option C)
    → (o >>= f) >>= g ≡ o >>= (λ a. f a >>= g)
bind_assoc none f g = refl
bind_assoc (some a) f g = refl

bind-ext :
    {A B : Type 0} (o : Option A) {f g : A → Option B} → ((a : A) → f a ≡ g a) → o >>= f ≡ o >>= g
bind-ext none h = refl
bind-ext (some a) h = h a

abbrev nothing : {B : Type 0} → Option B
nothing = none

bind_none : {A B : Type 0} (o : Option A) → o >>= (λ _. nothing) ≡ nothing {B = B}
bind_none none = refl
bind_none (some a) = refl

abbrev join_all : Option (List Text) → Option Text
join_all o = o >>= (λ lines. some (join_lines lines))

-- The first lines and the rest, joined one by one or all together.
join_both :
    (first rest : Option (List Text)) {first' rest' : Option Text}
    → first' ≡ join_all first
    → rest' ≡ join_all rest
    → first' >>= (λ a. rest' >>= (λ b. some (a ++ b)))
      ≡ join_all (first >>= (λ a. rest >>= (λ b. some (a ++ b))))
join_both none rest e f = rw e refl
join_both (some a) none e f = rw (e, f) refl
join_both (some a) (some b) e f = rw (e, f) (ap some (sym (join_lines-append a b)))

join_if :
    (b : Bool) (x' y' : Option (List Text)) {x y : Option Text}
    → x ≡ join_all x'
    → y ≡ join_all y'
    → (if b then x else y) ≡ join_all (if b then x' else y')
join_if true x' y' h k = h
join_if false x' y' h k = k

join_bind :
    (o : Option Text) (g : Text → Option (List Text)) {f : Text → Option Text}
    → ((s : Text) → f s ≡ join_all (g s))
    → o >>= f ≡ join_all (o >>= g)
join_bind none g h = refl
join_bind (some s) g h = h s

module _ (parse_prefix : Text → Option (AddrRange × Bool)) (addr_string : Addr → Text) where
  put_lines : List Text → Parser → Option Parser
  put_lines [] p = some p
  put_lines (line ∷ lines) p = put_line parse_prefix addr_string line p >>= put_lines lines

  put_lines-append :
      (xs ys : List Text) (p : Parser) → put_lines (xs ++ ys) p ≡ put_lines xs p >>= put_lines ys
  unfolding put_lines
  put_lines-append [] ys p = refl
  put_lines-append (x ∷ xs) ys p =
      bind-ext (put_line parse_prefix addr_string x p) (put_lines-append xs ys)
      ∙ sym (bind_assoc (put_line parse_prefix addr_string x p) (put_lines xs) (put_lines ys))

  pub put_all : Parser → Option (List Text) → Option Parser
  put_all p o = o >>= (λ lines. put_lines lines p)

  put_both :
      (first rest : Option (List Text)) (p : Parser) {o : Option Parser}
      {f : Parser → Option Parser}
      → o ≡ put_all p first
      → ((q : Parser) → f q ≡ put_all q rest)
      → o >>= f ≡ put_all p (first >>= (λ a. rest >>= (λ b. some (a ++ b))))
  unfolding put_all
  put_both none rest p e f = rw e refl
  put_both (some a) none p e f = rw e (bind-ext (put_lines a p) f ∙ bind_none (put_lines a p))
  put_both (some a) (some b) p e f =
      rw e (bind-ext (put_lines a p) f ∙ sym (put_lines-append a b p))

  put_if :
      (b : Bool) (p : Parser) (x' y' : Option (List Text)) {x y : Option Parser}
      → x ≡ put_all p x'
      → y ≡ put_all p y'
      → (if b then x else y) ≡ put_all p (if b then x' else y')
  put_if true p x' y' h k = h
  put_if false p x' y' h k = k

  put_bind :
      (o : Option Text) (p : Parser) (g : Text → Option (List Text)) {f : Text → Option Parser}
      → ((s : Text) → f s ≡ put_all p (g s))
      → o >>= f ≡ put_all p (o >>= g)
  unfolding put_all
  put_bind none p g h = refl
  put_bind (some s) p g h = h s

  put_one :
      (line : Text) (p : Parser)
      → put_line parse_prefix addr_string line p ≡ put_all p (some (line ∷ []))
  unfolding put_all put_lines
  put_one line p = elim (Option-cases (put_line parse_prefix addr_string line p)) [
    | inl e ↦ rw e refl
    | inr (q, e) ↦ rw e refl
  ]

  put_none : (p : Parser) → none ≡ put_all p none
  unfolding put_all
  put_none p = refl

  put_nothing : (p : Parser) → some p ≡ put_all p (some [])
  unfolding put_all put_lines
  put_nothing p = refl

module _ (parse_prefix : Text → Option (AddrRange × Bool)) (addr_string : Addr → Text)
    (files : Text → Option Text) (join_dir : Text → Text → Text) where
  -- The lines of a list with those of its files in place, of which none includes a file.
  unfoldable pub expand : ℕ → Text → List Text → Option (List Text)
  expand k name [] = some []
  expand k name ([] ∷ lines) = none
  expand zero name ((c ∷ line) ∷ lines) = do
    first ← if c == b'@' then none else some ((c ∷ line) ∷ [])
    rest ← expand zero name lines
    some (first ++ rest)
  expand (suc k) name ((c ∷ line) ∷ lines) = do
    first ←
        if c == b'@'
        then files (include_path parse_prefix addr_string files join_dir name line) >>= (λ s.
          expand k (include_path parse_prefix addr_string files join_dir name line) (scan_lines s))
        else some ((c ∷ line) ∷ [])
    rest ← expand (suc k) name lines
    some (first ++ rest)

  pub checksum_lines-expand :
      (k : ℕ) (name : Text) (lines : List Text)
      → checksum_lines parse_prefix addr_string files join_dir k name lines
        ≡ expand k name lines >>= (λ ls. some (join_lines ls))
  unfolding checksum_lines expand
  checksum_lines-expand k name [] = refl
  checksum_lines-expand k name ([] ∷ lines) = refl
  checksum_lines-expand zero name ((c ∷ line) ∷ lines) =
      join_both (if c == b'@' then none else some ((c ∷ line) ∷ [])) (expand zero name lines)
        (join_if (c == b'@') none (some ((c ∷ line) ∷ [])) refl refl)
        (checksum_lines-expand zero name lines)
  checksum_lines-expand (suc k) name ((c ∷ line) ∷ lines) =
      let path = include_path parse_prefix addr_string files join_dir name line in
      join_both
        (if c == b'@'
          then files path >>= (λ s. expand k path (scan_lines s))
          else some ((c ∷ line) ∷ []))
        (expand (suc k) name lines)
        (join_if (c == b'@') (files path >>= (λ s. expand k path (scan_lines s)))
          (some ((c ∷ line) ∷ []))
          (join_bind (files path) (λ s. expand k path (scan_lines s))
            (λ s. checksum_lines-expand k path (scan_lines s)))
          refl)
        (checksum_lines-expand (suc k) name lines)

  pub parse_lines-expand :
      (k : ℕ) (name : Text) (lines : List Text) (p : Parser)
      → parse_lines parse_prefix addr_string files join_dir k name lines p
        ≡ put_all parse_prefix addr_string p (expand k name lines)
  unfolding parse_lines expand
  parse_lines-expand k name [] p = put_nothing parse_prefix addr_string p
  parse_lines-expand k name ([] ∷ lines) p = put_none parse_prefix addr_string p
  parse_lines-expand zero name ((c ∷ line) ∷ lines) p =
      put_both parse_prefix addr_string (if c == b'@' then none else some ((c ∷ line) ∷ []))
        (expand zero name lines) p
        (put_if parse_prefix addr_string (c == b'@') p none (some ((c ∷ line) ∷ []))
          (put_none parse_prefix addr_string p) (put_one parse_prefix addr_string (c ∷ line) p))
        (parse_lines-expand zero name lines)
  parse_lines-expand (suc k) name ((c ∷ line) ∷ lines) p =
      let path = include_path parse_prefix addr_string files join_dir name line in
      put_both parse_prefix addr_string
        (if c == b'@'
          then files path >>= (λ s. expand k path (scan_lines s))
          else some ((c ∷ line) ∷ []))
        (expand (suc k) name lines) p
        (put_if parse_prefix addr_string (c == b'@') p
          (files path >>= (λ s. expand k path (scan_lines s))) (some ((c ∷ line) ∷ []))
          (put_bind parse_prefix addr_string (files path) p (λ s. expand k path (scan_lines s))
            (λ s. parse_lines-expand k path (scan_lines s) p))
          (put_one parse_prefix addr_string (c ∷ line) p))
        (parse_lines-expand (suc k) name lines)
