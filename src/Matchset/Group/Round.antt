-- ===== src/Matchset/Group/Round.antt =====
-- `charSetFromGroup` on a written class, item by item.
use chrome.Base.{
  lt→ltb, ℕ, ◌+◌, ◌<◌, ◌≡◌, ◌≢◌, refl, ap, ◌∙◌, inl, inr, Bool, true, false, ◌&&◌, ◌||◌, ◌==◌, leb,
  ltb, List, [], ◌∷◌, Option, some, Bool-cases, All, arith,
}
use chrome.Matchset.Charset.{Charset, add, contains}
use chrome.Matchset.Charset.Laws.{IsWords, contains-add, add-IsWords}
use chrome.Matchset.Group.{State, add_span, span_fuel, settle, take_char, read_byte, read_bytes}
use chrome.Matchset.Group.Span.{Spanned, add_span-Spanned}
use chrome.Matchset.Group.Print.{Item, single, range, first_byte, in_items, print_items, IsItem}

-- A state between two items.
abbrev pub resting : ℕ → Bool → Charset → Bool → State
resting ch rd s inv = record {
  char = ch;
  char_read = rd;
  char_range = false;
  char_set = s;
  inverted = inv;
  may_be_inverted = false;
}

-- The set with the character that is still to be added.
abbrev pub pending : ℕ → Bool → Charset → Charset
pending ch true s = add s ch
pending ch false s = s

-- What such a state holds.
pub record Holds (p : ℕ → Bool) : Type 0 where
  pub ch : ℕ
  pub rd : Bool
  pub chars : Charset
  pub is_byte : ch < 256
  pub is_words : IsWords chars
  pub holds : (c : ℕ) → c < 256 → contains (pending ch rd chars) c ≡ p c

abbrev pub state : {p : ℕ → Bool} → Bool → Holds p → State
state inv r = resting r.ch r.rd r.chars inv

abbrev restate : {p q : ℕ → Bool} → ((c : ℕ) → p c ≡ q c) → Holds p → Holds q
restate h r = record {
  ch = r.ch;
  rd = r.rd;
  chars = r.chars;
  is_byte = r.is_byte;
  is_words = r.is_words;
  holds = λ c hc. r.holds c hc ∙ h c;
}

pub pending-IsWords :
    (ch : ℕ) (rd : Bool) (s : Charset) → IsWords s → ch < 256 → IsWords (pending ch rd s)
pending-IsWords ch true s w h = add-IsWords s ch w h
pending-IsWords ch false s w h = w

abbrev with_char : {p : ℕ → Bool} (a : ℕ) → a < 256 → Holds p → Holds (λ c. a == c || p c)
with_char a h r = record {
  ch = a;
  rd = true;
  chars = pending r.ch r.rd r.chars;
  is_byte = h;
  is_words = pending-IsWords r.ch r.rd r.chars r.is_words r.is_byte;
  holds = λ c hc.
      contains-add _ a c (pending-IsWords r.ch r.rd r.chars r.is_words r.is_byte).0 h
      ∙ ap (λ x. a == c || x) (r.holds c hc);
}

pub not_same : {a b : ℕ} → a ≢ b → (a == b) ≡ false
not_same h = ground arith

no_caret : (i a : ℕ) → (i ≡ 0 → a ≢ b'^') → (i == 0 && a == b'^') ≡ false
no_caret i a h = ground arith

read_char :
    (i a ch : ℕ) (rd inv : Bool) (s : Charset)
    → a ≢ b'-'
    → (i ≡ 0 → a ≢ b'^')
    → read_byte i a (resting ch rd s inv) ≡ some (resting a true (pending ch rd s) inv)
unfolding read_byte settle take_char
read_char i a ch true inv s h k = rw (not_same h, no_caret i a k) refl
read_char i a ch false inv s h k = rw (not_same h, no_caret i a k) refl

read_hyphen :
    (i a : ℕ) (inv : Bool) (s : Charset)
    → read_byte i b'-' (resting a true s inv)
      ≡ some (record (resting a true s inv) { char_range = true })
unfolding read_byte
read_hyphen i a inv s = refl

abbrev with_range :
    {p : ℕ → Bool} {a b : ℕ} {o : Option (ℕ × Charset)} (r : Holds p)
    → Spanned a b (pending r.ch r.rd r.chars) o
    → Holds (λ c. p c || leb a c && leb c b)
with_range {a = a} {b = b} r sp = record {
  ch = sp.char;
  rd = false;
  chars = sp.chars;
  is_byte = sp.is_byte;
  is_words = sp.is_words;
  holds = λ c hc. sp.holds c hc ∙ ap (λ x. x || leb a c && leb c b) (r.holds c hc);
}

read_end :
    (i a b : ℕ) (inv : Bool) (s : Charset) (sp : Spanned a b s (add_span span_fuel a b s))
    → read_byte i b (record (resting a true s inv) { char_range = true })
      ≡ some (resting sp.char false sp.chars inv)
unfolding read_byte settle
read_end i a b inv s sp = elim (Bool-cases (b == b'-')) [
  | inl e ↦ rw (e, sp.returns) refl
  | inr e ↦ rw (e, sp.returns) refl
]

not_closing : (i a : ℕ) → a ≢ b']' → (a == b']' && ltb 0 i) ≡ false
not_closing i a h = ground arith

-- One round of the loop.
read_more :
    (i a : ℕ) (bytes : List ℕ) (st st' : State)
    → a ≢ b']'
    → read_byte i a st ≡ some st'
    → read_bytes i (a ∷ bytes) st ≡ read_bytes (i + 1) bytes st'
unfolding read_bytes
read_more i a bytes st st' h e = rw (not_closing i a h, e) refl

-- The first byte may be a caret only behind another byte.
abbrev pub NoCaret : ℕ → List Item → Type 0
NoCaret i [] = 0 < i
NoCaret i (x ∷ items) = i ≡ 0 → first_byte x ≢ b'^'

shuffle : (x y z : Bool) → (x || (y || z)) ≡ ((y || x) || z)
shuffle x y z = ground arith

shuffle_right : (x y z : Bool) → (x || (z || y)) ≡ ((y || x) || z)
shuffle_right x y z = ground arith

later : (i : ℕ) (items : List Item) → NoCaret (i + 1) items
later i [] = omega arith
later i (x ∷ items) = λ e. absurd (omega arith)

pub record Reads (p : ℕ → Bool) (inv : Bool) (rest : List ℕ) (o : Option (State × List ℕ))
    : Type 0 where
  pub after : Holds p
  pub returns : o ≡ some (state inv after, rest)

read_close :
    (i : ℕ) (rest : List ℕ) (st : State) → 0 < i → read_bytes i (b']' ∷ rest) st ≡ some (st, rest)
unfolding read_bytes
read_close i rest st h = rw (lt→ltb 0 i h) refl

pub read_items :
    (inv : Bool) (items : List Item) (rest : List ℕ) (i : ℕ) {p : ℕ → Bool} (r : Holds p)
    → All IsItem items
    → NoCaret i items
    → Reads
        (λ c. in_items items c || p c)
        inv
        rest
        (read_bytes i (print_items items rest) (state inv r))
read_items inv [] rest i r h k = record { after = r; returns = read_close i rest (state inv r) k }
read_items inv (single a ∷ items) rest i {p} r h k =
    let ih = read_items inv items rest (i + 1) (with_char a h.0.0 r) h.1 (later i items) in
    record {
      after = restate (λ c. shuffle (in_items items c) (a == c) (p c)) ih.after;
      returns =
          read_more i a _ _ _ h.0.2 (read_char i a r.ch r.rd inv r.chars h.0.1 k) ∙ ih.returns;
    }
read_items inv (range a b ∷ items) rest i {p} r h k =
    let w = pending-IsWords r.ch r.rd r.chars r.is_words r.is_byte in
    let sp = add_span-Spanned span_fuel a b _ h.0.1 h.0.0.0 (omega arith) w in
    let ih =
      read_items inv items rest (i + 1 + 1 + 1) (with_range r sp) h.1 (later (i + 1 + 1) items) in
    record {
      after = restate (λ c. shuffle_right (in_items items c) (leb a c && leb c b) (p c)) ih.after;
      returns =
          read_more i a _ _ _ h.0.0.2 (read_char i a r.ch r.rd inv r.chars h.0.0.1 k)
          ∙ read_more (i + 1) b'-' _ _ _ (λ e. absurd (omega arith)) (read_hyphen (i + 1) a inv _)
          ∙ read_more (i + 1 + 1) b _ _ _ h.0.2 (read_end (i + 1 + 1) a b inv _ sp)
          ∙ ih.returns;
    }
