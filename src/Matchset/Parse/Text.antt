-- ===== src/Matchset/Parse/Text.antt =====
-- Patterns of plain text behind a dot, as `Add` stores them.
use chrome.Base.{
  All-map, ==_false, ℕ, ◌<◌, ◌≤◌, ◌≡◌, ◌≢◌, refl, sym, ap, ◌∙◌, List, [], ◌∷◌, ◌++◌, All, some,
  length, arith,
}
use chrome.Base.Reverse.{reverse-reverse, reverse_onto, All-reverse_aux}
use mathlib.Core.List.{reverse, reverse_aux}
use chrome.Matchset.Parse.{
  MatchSet, magic_dot, plain_atom, read_atom, push_atom, parse_loop, dot_head, mark_dots, parse,
  swap_atoms, swap_all, add_pattern,
}

-- A byte that stands for itself. A dot inside a pattern is one.
abbrev pub IsPlain : ℕ → Type 0
IsPlain c = 4 < c × c ≢ b'[' × c ≢ b'*' × c ≢ b'?' × c ≢ b'_'

abbrev pub IsText : List ℕ → Type 0
IsText = All IsPlain

ne : (c k : ℕ) → 4 < c → k ≤ 4 → c ≢ k
ne c k h l e = omega arith

push_plain :
    (c : ℕ) (atoms : List ℕ) (last : ℕ) → 4 < c → push_atom c (atoms, last) ≡ (c ∷ atoms, c)
unfolding push_atom
push_plain c atoms last h =
    rw
      (
        ==_false (ne c 1 h (omega arith)),
        ==_false (ne c 2 h (omega arith)),
        ==_false (ne c 3 h (omega arith)),
        ==_false (ne c 4 h (omega arith)),
      )
      refl

not_swapped :
    (a : ℕ) (atoms : List ℕ)
    → 4 < a
    → All (λ c. 4 < c) atoms
    → swap_atoms a (atoms ++ (magic_dot ∷ [])) ≡ a ∷ (atoms ++ (magic_dot ∷ []))
unfolding swap_atoms
not_swapped a [] h k =
    rw (==_false (ne a 1 h (omega arith)), ==_false (ne a 2 h (omega arith))) refl
not_swapped a (b ∷ atoms) h k =
    rw (==_false (ne a 1 h (omega arith)), ==_false (ne a 2 h (omega arith)))
      (ap (λ xs. a ∷ xs) (not_swapped b atoms k.0 k.1))

dot_head_kept :
    (atoms : List ℕ) (last : ℕ) (before : List ℕ)
    → atoms ≡ last ∷ before
    → last ≢ b'.'
    → dot_head atoms ≡ atoms
dot_head_kept [] last before e h = refl
dot_head_kept (a ∷ atoms) last before e h =
    rw (==_false (λ (q : a ≡ b'.'). h (sym (ap head_of e) ∙ q))) refl
  where
    head_of : List ℕ → ℕ
    head_of [] = 0
    head_of (x ∷ xs) = x

reverse-dot : (c : ℕ) (text : List ℕ) → reverse (c ∷ text) ≡ reverse text ++ (c ∷ [])
reverse-dot c text = reverse_onto text [] (c ∷ [])

mark_leading :
    (text : List ℕ) (last : ℕ) (before : List ℕ)
    → reverse text ≡ last ∷ before
    → last ≢ b'.'
    → mark_dots (b'.' ∷ text) ≡ magic_dot ∷ text
unfolding mark_dots
mark_leading text last before e h =
    ap reverse (
      dot_head_kept (reverse (magic_dot ∷ text)) last (before ++ (magic_dot ∷ []))
        (reverse-dot magic_dot text ∙ ap (λ xs. xs ++ (magic_dot ∷ [])) e) h)
    ∙ reverse-reverse (magic_dot ∷ text)

swap_text :
    (atoms : List ℕ)
    → All (λ c. 4 < c) atoms
    → swap_all (atoms ++ (magic_dot ∷ [])) ≡ atoms ++ (magic_dot ∷ [])
unfolding swap_atoms
swap_text [] h = refl
swap_text (a ∷ atoms) h = not_swapped a atoms h.0 h.1

stored :
    (text : List ℕ) (last : ℕ) (before : List ℕ)
    → IsText text
    → reverse text ≡ last ∷ before
    → last ≢ b'.'
    → swap_all (reverse (mark_dots (reverse (reverse_aux (b'.' ∷ text) []))))
      ≡ reverse text ++ (magic_dot ∷ [])
stored text last before h e ne_dot =
    rw
      (
        reverse-reverse (b'.' ∷ text),
        mark_leading text last before e ne_dot,
        reverse-dot magic_dot text,
      )
      (swap_text (reverse text) (
        All-reverse_aux (λ c. 4 < c) text [] (All-map IsPlain (λ c. 4 < c) text (λ c p. p.0) h) tt))

dot-IsPlain : IsPlain b'.'
dot-IsPlain = (
  omega arith,
  (λ e. absurd (omega arith)),
  (λ e. absurd (omega arith)),
  (λ e. absurd (omega arith)),
  (λ e. absurd (omega arith)),
)

module _ {A : Type 0} where
  read_plain :
      (set : MatchSet A) (c : ℕ) (bytes : List ℕ)
      → IsPlain c
      → read_atom set c bytes ≡ some (set, c, bytes)
  unfolding read_atom plain_atom
  read_plain set c bytes h = rw (==_false h.1, ==_false h.2, ==_false h.3, ==_false h.4) refl

  -- The loop only turns the bytes around.
  parse_loop-IsText :
      (set : MatchSet A) (bytes atoms : List ℕ) (last : ℕ)
      → IsText bytes
      → (l : ℕ) × (parse_loop (length bytes) set bytes (atoms, last)
          ≡ some (set, (reverse_aux bytes atoms, l)))
  unfolding parse_loop
  parse_loop-IsText set [] atoms last h = (last, refl)
  parse_loop-IsText set (c ∷ bytes) atoms last h =
      let ih = parse_loop-IsText set bytes (c ∷ atoms) c h.1 in
      (ih.0, rw (read_plain set c bytes h.0, push_plain c atoms last h.0.0) ih.1)

  pub add_text :
      (set : MatchSet A) (text : List ℕ) (x : A) (last : ℕ) (before : List ℕ)
      → IsText text
      → reverse text ≡ last ∷ before
      → last ≢ b'.'
      → add_pattern set (b'.' ∷ text) x
        ≡ some
            (record set { patterns = set.patterns ++ ((reverse text ++ (magic_dot ∷ []), x) ∷ []) })
  unfolding add_pattern parse
  add_text set text x last before h e ne_dot =
      let r = parse_loop-IsText set (b'.' ∷ text) [] magic_dot (dot-IsPlain, h) in
      rw (r.1, stored text last before h e ne_dot) refl
