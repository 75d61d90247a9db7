-- ===== src/Matchset/Group/Class.antt =====
-- `charSetFromGroup` on a written class returns the set that the class means.
use chrome.Base.{
  ℕ, ◌<◌, ◌≡◌, ◌≢◌, refl, ap, ◌∙◌, Bool, true, false, not, ◌||◌, List, [], ◌∷◌, Option, some,
  if◌then◌else◌, All, arith,
}
use chrome.Matchset.Charset.{Charset, contains, invert, empty}
use chrome.Matchset.Charset.Laws.{
  IsWords, contains-invert, invert-IsWords, contains-empty, empty-IsWords,
}
use chrome.Matchset.Group.{
  State, start, settle, take_char, read_byte, read_bytes, finish, finish_group, charset_from_group,
}
use chrome.Matchset.Group.Print.{
  Item, single, range, first_byte, in_items, print_items, print_class, IsItem,
}
use chrome.Matchset.Group.Round.{
  Holds, Reads, state, pending, resting, pending-IsWords, not_same, read_items,
}

abbrev none_held : (ch : ℕ) → ch < 256 → Holds (λ c. false)
none_held ch h = record {
  ch = ch;
  rd = false;
  chars = empty;
  is_byte = h;
  is_words = empty-IsWords;
  holds = λ c _. contains-empty c;
}

finish-resting :
    (ch : ℕ) (rd inv : Bool) (s : Charset)
    → finish (resting ch rd s inv) ≡ (if inv then invert (pending ch rd s) else pending ch rd s)
unfolding finish
finish-resting ch true true s = refl
finish-resting ch true false s = refl
finish-resting ch false true s = refl
finish-resting ch false false s = refl

abbrev pub negate : Bool → Bool → Bool
negate inv x = if inv then not x else x

-- The class is read up to its bracket, and the set is that of the items.
pub record Means (inv : Bool) (items : List Item) (rest : List ℕ) (o : Option (Charset × List ℕ))
    : Type 0 where
  pub chars : Charset
  pub returns : o ≡ some (chars, rest)
  pub is_words : IsWords chars
  pub holds : (c : ℕ) → c < 256 → contains chars c ≡ negate inv (in_items items c)

-- A class has an item, and does not start with a caret by accident.
abbrev pub IsBody : Bool → List Item → Type 0
IsBody inv [] = ⊥
IsBody true (x ∷ items) = All IsItem (x ∷ items)
IsBody false (x ∷ items) = All IsItem (x ∷ items) × first_byte x ≢ b'^'

or_false : (x : Bool) → (x || false) ≡ x
or_false true = refl
or_false false = refl

read-Means :
    {inv : Bool} {items : List Item} {rest : List ℕ} {o : Option (State × List ℕ)}
    → Reads (λ c. in_items items c || false) inv rest o
    → Means inv items rest (finish_group o)
read-Means {inv = true} {items = items} r = record {
  chars = invert (pending r.after.ch r.after.rd r.after.chars);
  returns = rw (r.returns, finish-resting r.after.ch r.after.rd true r.after.chars) refl;
  is_words =
      invert-IsWords _
        (pending-IsWords r.after.ch r.after.rd r.after.chars r.after.is_words r.after.is_byte);
  holds = λ c hc.
      contains-invert _ c
        (pending-IsWords r.after.ch r.after.rd r.after.chars r.after.is_words r.after.is_byte) hc
      ∙ ap not (r.after.holds c hc ∙ or_false (in_items items c));
}
read-Means {inv = false} {items = items} r = record {
  chars = pending r.after.ch r.after.rd r.after.chars;
  returns = rw (r.returns, finish-resting r.after.ch r.after.rd false r.after.chars) refl;
  is_words = pending-IsWords r.after.ch r.after.rd r.after.chars r.after.is_words r.after.is_byte;
  holds = λ c hc. r.after.holds c hc ∙ or_false (in_items items c);
}

-- A caret at the start is taken back as soon as another byte follows.
read_caret :
    (a : ℕ) (bytes : List ℕ)
    → a ≢ b'-'
    → a ≢ b']'
    → read_bytes 0 (b'^' ∷ a ∷ bytes) start
      ≡ read_bytes 1 (a ∷ bytes) (state true (none_held b'^' (omega arith)))
unfolding read_bytes read_byte settle take_char start
read_caret a bytes h k = rw (not_same k, not_same h) refl

-- A class written as an optional caret, one or more items, each a byte or a range of bytes that
-- ends below 255, with no item that begins with a hyphen or a bracket and no caret at the start
-- by accident, and a closing bracket, is read up to that bracket, whatever stands behind it,
-- and the resulting set contains a byte below 256 exactly when the items do, or exactly when
-- they do not if the caret is there.
pub charset_from_group-Means :
    (inv : Bool) (items : List Item) (rest : List ℕ)
    → IsBody inv items
    → Means inv items rest (charset_from_group (print_class inv items rest))
unfolding charset_from_group start
charset_from_group-Means true [] rest h = elim h [ ]
charset_from_group-Means false [] rest h = elim h [ ]
charset_from_group-Means true (single a ∷ items) rest h =
    rw (read_caret a (print_items items rest) h.0.1 h.0.2) (
      read-Means (
        read_items true (single a ∷ items) rest 1 (none_held b'^' (omega arith)) h
          (λ e. absurd (omega arith))))
charset_from_group-Means true (range a b ∷ items) rest h =
    rw (read_caret a (b'-' ∷ b ∷ print_items items rest) h.0.0.1 h.0.0.2) (
      read-Means (
        read_items true (range a b ∷ items) rest 1 (none_held b'^' (omega arith)) h
          (λ e. absurd (omega arith))))
charset_from_group-Means false (x ∷ items) rest h =
    read-Means (read_items false (x ∷ items) rest 0 (none_held 0 (omega arith)) h.0 (λ _. h.1))
