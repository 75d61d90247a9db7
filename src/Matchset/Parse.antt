-- ===== src/Matchset/Parse.antt =====
-- `MatchSet.readAtom`, `MatchSet.parse` and `MatchSet.Add` of matchset.go. A pattern is the list of
-- its atoms: `Add` stores them in UTF-8 only to save memory.
pub mod Ends
pub mod Text
use chrome.Base.{
  ◌>>=◌, ℕ, zero, suc, ◌+◌, ◌-◌, ◌<◌, Bool, true, false, not, ◌&&◌, ◌||◌, ◌==◌, List, [], ◌∷◌, ◌++◌,
  Option, none, some, length, ltb, leb, if◌then◌else◌,
}
use mathlib.Core.List.{reverse}
use chrome.Matchset.Charset.{Charset, all, same}
use chrome.Matchset.Group.{charset_from_group}

abbrev pub magic_dot : ℕ
magic_dot = 0

abbrev pub magic_asterisk : ℕ
magic_asterisk = 1

abbrev pub magic_asterisk2 : ℕ
magic_asterisk2 = 2

abbrev pub magic_question : ℕ
magic_question = 3

abbrev pub magic_underscore : ℕ
magic_underscore = 4

-- The two maps hold the same pairs. `patterns` are the atoms of each pattern with its data.
pub record MatchSet (A : Type 0) : Type 0 where
  pub patterns : List (List ℕ × A)
  pub next_atom : ℕ
  pub charsets : List (Charset × ℕ)

unfoldable pub new_set : (A : Type 0) → MatchSet A
new_set A = record { patterns = []; next_atom = 0; charsets = [] }

-- `charSetToAtom`
unfoldable pub charset_to_atom : Charset → List (Charset × ℕ) → Option ℕ
charset_to_atom s [] = none
charset_to_atom s ((t, a) ∷ m) = if same s t then some a else charset_to_atom s m

-- `atomToCharSet`
unfoldable pub atom_to_charset : ℕ → List (Charset × ℕ) → Option Charset
atom_to_charset a [] = none
atom_to_charset a ((t, b) ∷ m) = if a == b then some t else atom_to_charset a m

-- A set, an atom and the bytes that are left.
abbrev pub Read : Type 0 → Type 0
Read A = MatchSet A × ℕ × List ℕ

abbrev pub skip_asterisk : List ℕ → ℕ × List ℕ
skip_asterisk [] = (magic_asterisk, [])
skip_asterisk (c ∷ bytes) =
    if c == b'*' then (magic_asterisk2, bytes) else (magic_asterisk, c ∷ bytes)

-- The `switch` on a byte that opens no class.
unfoldable pub plain_atom : ℕ → List ℕ → ℕ × List ℕ
plain_atom c bytes =
    if c == b'*'
    then skip_asterisk bytes
    else if c == b'?'
    then (magic_question, bytes)
    else if c == b'_'
    then (magic_underscore, bytes)
    else (c, bytes)

module _ {A : Type 0} where
  abbrev pub known_atom : MatchSet A → Charset → List ℕ → Option ℕ → Read A
  known_atom set s rest (some atom) = (set, atom, rest)
  known_atom set s rest none =
      if same s all
      then (set, magic_underscore, rest)
      else (let atom = if set.next_atom == 0 then 256 else set.next_atom in
          (record set { next_atom = atom + 1; charsets = (s, atom) ∷ set.charsets }, atom, rest))

  abbrev pub read_group : MatchSet A → Option (Charset × List ℕ) → Option (Read A)
  read_group set none = none
  read_group set (some (s, rest)) = some (known_atom set s rest (charset_to_atom s set.charsets))

  unfoldable pub read_atom : MatchSet A → ℕ → List ℕ → Option (Read A)
  read_atom set c bytes =
      if c == b'['
      then read_group set (charset_from_group bytes)
      else some (set, (plain_atom c bytes).0, (plain_atom c bytes).1)

-- `atoms` in reverse order, the last one first, and `lastAtom`.
abbrev pub Atoms : Type 0
Atoms = List ℕ × ℕ

abbrev set_last : ℕ → List ℕ → List ℕ
set_last b [] = []
set_last b (_ ∷ atoms) = b ∷ atoms

-- The last atom is overwritten, and another appended.
abbrev replace_last : ℕ → ℕ → List ℕ → List ℕ
replace_last a b [] = []
replace_last a b (_ ∷ atoms) = b ∷ a ∷ atoms

-- The `switch` on `currentAtom` in the loop of `parse`.
unfoldable pub push_atom : ℕ → Atoms → Atoms
push_atom atom (atoms, last) =
    if atom == magic_asterisk
    then (if last == magic_asterisk || last == magic_asterisk2
        then (atoms, last)
        else (magic_asterisk ∷ atoms, magic_asterisk))
    else if atom == magic_asterisk2
    then (if last == magic_asterisk
        then (set_last magic_asterisk2 atoms, magic_asterisk2)
        else if last == magic_asterisk2
        then (atoms, last)
        else (magic_asterisk2 ∷ atoms, magic_asterisk2))
    else if atom == magic_question
    then (if last == magic_asterisk
        then (replace_last magic_question magic_asterisk atoms, last)
        else (magic_question ∷ atoms, magic_question))
    else if atom == magic_underscore
    then (if last == magic_asterisk2
        then (replace_last magic_underscore magic_asterisk2 atoms, last)
        else (magic_underscore ∷ atoms, magic_underscore))
    else (atom ∷ atoms, atom)

-- The loop of `parse`. The fuel is the number of bytes, since each round takes one or more.
unfoldable pub parse_loop :
    {A : Type 0} → ℕ → MatchSet A → List ℕ → Atoms → Option (MatchSet A × Atoms)
parse_loop fuel set [] atoms = some (set, atoms)
parse_loop zero set (c ∷ bytes) atoms = none
parse_loop (suc fuel) set (c ∷ bytes) atoms = do
  (set', atom, rest) ← read_atom set c bytes
  parse_loop fuel set' rest (push_atom atom atoms)

abbrev pub dot_head : List ℕ → List ℕ
dot_head [] = []
dot_head (a ∷ atoms) = (if a == b'.' then magic_dot else a) ∷ atoms

-- What follows the loop, on the atoms in order.
unfoldable pub mark_dots : List ℕ → List ℕ
mark_dots [] = magic_dot ∷ []
mark_dots (a ∷ atoms) = reverse (dot_head (reverse (dot_head (a ∷ atoms))))

-- `parse`; the atoms come in order.
unfoldable pub parse : {A : Type 0} → MatchSet A → List ℕ → Option (MatchSet A × List ℕ)
parse set bytes = do
  (set', atoms) ← parse_loop (length bytes) set bytes ([], magic_dot)
  some (set', mark_dots (reverse atoms.0))

abbrev pub is_swapped : ℕ → ℕ → Bool
is_swapped a b =
    a == magic_asterisk && b == magic_question || a == magic_asterisk2 && b == magic_underscore

-- The second loop of `Add`.
unfoldable pub swap_atoms : ℕ → List ℕ → List ℕ
swap_atoms a [] = a ∷ []
swap_atoms a (b ∷ atoms) =
    let moved = swap_atoms a atoms in
    let kept = swap_atoms b atoms in if is_swapped a b then b ∷ moved else a ∷ kept

abbrev pub swap_all : List ℕ → List ℕ
swap_all [] = []
swap_all (a ∷ atoms) = swap_atoms a atoms

-- `MatchSet.Add`; `none` means that it does not return.
unfoldable pub add_pattern : {A : Type 0} → MatchSet A → List ℕ → A → Option (MatchSet A)
add_pattern set patt «data» = do
  (set', atoms) ← parse set patt
  some (record set' { patterns = set'.patterns ++ ((swap_all (reverse atoms), «data») ∷ []) })
