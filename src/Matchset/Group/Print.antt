-- ===== src/Matchset/Group/Print.antt =====
-- Character classes as they are written in a pattern, and what they mean, against
-- `charSetFromGroup`.
use chrome.Base.{ℕ, ◌<◌, ◌≢◌, Bool, true, false, ◌&&◌, ◌||◌, ◌==◌, leb, List, [], ◌∷◌}

pub data Item : Type 0 where
  single : ℕ → Item
  range : ℕ → ℕ → Item

abbrev pub first_byte : Item → ℕ
first_byte (single c) = c
first_byte (range a b) = a

abbrev pub in_item : Item → ℕ → Bool
in_item (single a) c = a == c
in_item (range a b) c = leb a c && leb c b

abbrev pub in_items : List Item → ℕ → Bool
in_items [] c = false
in_items (x ∷ items) c = in_item x c || in_items items c

abbrev pub print_item : Item → List ℕ → List ℕ
print_item (single c) rest = c ∷ rest
print_item (range a b) rest = a ∷ b'-' ∷ b ∷ rest

-- The items up to the closing bracket, with `rest` behind it.
abbrev pub print_items : List Item → List ℕ → List ℕ
print_items [] rest = b']' ∷ rest
print_items (x ∷ items) rest = print_item x (print_items items rest)

abbrev pub print_class : Bool → List Item → List ℕ → List ℕ
print_class true items rest = b'^' ∷ print_items items rest
print_class false items rest = print_items items rest

abbrev pub IsStart : ℕ → Type 0
IsStart c = c < 256 × c ≢ b'-' × c ≢ b']'

abbrev pub IsItem : Item → Type 0
IsItem (single c) = IsStart c
IsItem (range a b) = IsStart a × b < 255 × b ≢ b']'
