-- ===== src/Http/Lines/Walk.antt =====
-- The two walks through the files see the same lines: what is parsed depends on what is written to
-- the digest alone.
use chrome.Base.{
  ℕ, ◌≡◌, ◌≢◌, refl, sym, inl, inr, ◌==◌, ==_iff, Bool-cases, List, [], ◌∷◌, ◌++◌, All,
}
use mathlib.Core.List.{reverse, append_assoc}
use chrome.Base.Reverse.{All-reverse_aux}
use chrome.Base.Text.{Text}
use chrome.Http.Lines.{
  trim_left, trim_space, split_lines, add_head, lines_of, keep_line, scan_lines, is_space,
}

abbrev pub IsLine : Text → Type 0
IsLine = All (λ c. c ≢ b'\n')

abbrev pub join_lines : List Text → Text
join_lines [] = []
join_lines (line ∷ lines) = line ++ (b'\n' ∷ join_lines lines)

-- The first line ends at the first line feed.
join_lines-cancel :
    (a b : Text) (s t : Text)
    → IsLine a
    → IsLine b
    → a ++ (b'\n' ∷ s) ≡ b ++ (b'\n' ∷ t)
    → (a ≡ b) × (s ≡ t)
join_lines-cancel [] [] s t h k e = (refl, cc)
join_lines-cancel [] (c ∷ b) s t h k e = absurd (k.0 (cc))
join_lines-cancel (c ∷ a) [] s t h k e = absurd (h.0 (cc))
join_lines-cancel (c ∷ a) (d ∷ b) s t h k e =
    let (x, y) = join_lines-cancel a b s t h.1 k.1 (cc) in (cc, y)

empty_not_joined : (a s : Text) → [] ≢ a ++ (b'\n' ∷ s)
empty_not_joined [] s e = absurd (cc)
empty_not_joined (c ∷ a) s e = absurd (cc)

pub join_lines-injective :
    (xs ys : List Text) → All IsLine xs → All IsLine ys → join_lines xs ≡ join_lines ys → xs ≡ ys
join_lines-injective [] [] h k e = refl
join_lines-injective [] (y ∷ ys) h k e = absurd (empty_not_joined y (join_lines ys) e)
join_lines-injective (x ∷ xs) [] h k e = absurd (empty_not_joined x (join_lines xs) (sym e))
join_lines-injective (x ∷ xs) (y ∷ ys) h k e =
    let (a, b) = join_lines-cancel x y (join_lines xs) (join_lines ys) h.0 k.0 e in
    rw (a, join_lines-injective xs ys h.1 k.1 b) refl

pub join_lines-append : (xs ys : List Text) → join_lines (xs ++ ys) ≡ join_lines xs ++ join_lines ys
join_lines-append [] ys = refl
join_lines-append (x ∷ xs) ys =
    rw (join_lines-append xs ys) (sym (append_assoc x (b'\n' ∷ join_lines xs) (join_lines ys)))

-- No line that the scanner gives holds a line feed.
trim_left-IsLine : (s : Text) → IsLine s → IsLine (trim_left s)
unfolding trim_left
trim_left-IsLine [] h = tt
trim_left-IsLine (c ∷ s) h = elim (Bool-cases (is_space c)) [
  | inl e ↦ rw e (trim_left-IsLine s h.1)
  | inr e ↦ rw e h
]

trim_space-IsLine : (s : Text) → IsLine s → IsLine (trim_space s)
unfolding trim_space
trim_space-IsLine s h =
    All-reverse_aux _ (trim_left (reverse (trim_left s))) []
      (trim_left-IsLine _ (All-reverse_aux _ (trim_left s) [] (trim_left-IsLine s h) tt)) tt

add_head-IsLine :
    (c : ℕ) (lines : List Text) → c ≢ b'\n' → All IsLine lines → All IsLine (add_head c lines)
add_head-IsLine c [] h k = ((h, tt), tt)
add_head-IsLine c (line ∷ lines) h k = ((h, k.0), k.1)

split_lines-IsLine : (s : Text) → All IsLine (split_lines s)
unfolding split_lines
split_lines-IsLine [] = (tt, tt)
split_lines-IsLine (c ∷ s) = elim (Bool-cases (c == b'\n')) [
  | inl e ↦ rw e (tt, split_lines-IsLine s)
  | inr e ↦ rw e (
      add_head-IsLine c (split_lines s) (λ q. absurd (cc (e, (==_iff c b'\n').1 q)))
        (split_lines-IsLine s))
]

keep_line-IsLine :
    (line : Text) (lines : List Text)
    → IsLine line
    → All IsLine lines
    → All IsLine (keep_line line lines)
keep_line-IsLine [] lines h k = k
keep_line-IsLine (c ∷ line) lines h k = elim (Bool-cases (c == b'#')) [
  | inl e ↦ rw e k
  | inr e ↦ rw e (h, k)
]

lines_of-IsLine : (lines : List Text) → All IsLine lines → All IsLine (lines_of lines)
unfolding lines_of
lines_of-IsLine [] h = tt
lines_of-IsLine (line ∷ lines) h =
    keep_line-IsLine (trim_space line) (lines_of lines) (trim_space-IsLine line h.0)
      (lines_of-IsLine lines h.1)

pub scan_lines-IsLine : (s : Text) → All IsLine (scan_lines s)
unfolding scan_lines
scan_lines-IsLine s = lines_of-IsLine (split_lines s) (split_lines-IsLine s)
