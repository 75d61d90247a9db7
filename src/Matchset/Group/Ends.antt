-- ===== src/Matchset/Group/Ends.antt =====
-- `charSetFromGroup` returns on bytes below the last one.
use chrome.Base.{
  ℕ, ◌+◌, ◌-◌, ◌%◌, ◌<◌, ◌≤◌, zero, suc, ◌≡◌, refl, inl, inr, Bool, true, false, not, ◌&&◌, ◌==◌,
  ltb, leb, leb→le, List, [], ◌∷◌, All, Option, some, length, if◌then◌else◌, Bool-cases, arith,
}
use chrome.Matchset.Charset.{Charset, add}
use chrome.Matchset.Group.{
  State, add_span, span_fuel, span_done, settle, take_char, read_byte, read_bytes,
}

abbrev pub AreLow : List ℕ → Type 0
AreLow = All (λ c. c < 255)

-- The result is there, and its character is a byte.
record Read (o : Option State) : Type 0 where
  pub st : State
  pub returns : o ≡ some st
  pub is_byte : st.char < 256

record Spans (o : Option (ℕ × Charset)) : Type 0 where
  pub char : ℕ
  pub chars : Charset
  pub returns : o ≡ some (char, chars)
  pub is_byte : char < 256

add_span-Spans :
    (k a b : ℕ) (s : Charset) → b < 255 → a < 256 → b + 1 - a < k → Spans (add_span k a b s)
unfolding add_span
add_span-Spans zero a b s hb ha h = absurd (omega arith)
add_span-Spans (suc k) a b s hb ha h = elim (Bool-cases (leb a b)) [
  | inl e ↦
      rw e (
        add_span-Spans k ((a + 1) % 256) b (add s a) hb (omega arith) (omega (arith, leb→le a b e)))
  | inr e ↦ rw e record { char = a; chars = s; returns = refl; is_byte = ha }
]

settle-char : (st : State) → (settle st).char ≡ st.char
unfolding settle
settle-char st = elim (Bool-cases st.may_be_inverted) [
  | inl e ↦ elim (Bool-cases st.char_range) [ inl r ↦ rw (e, r) refl | inr r ↦ rw (e, r) refl ]
  | inr e ↦ rw e refl
]

span_done-Read : (st : State) (o : Option (ℕ × Charset)) → Spans o → Read (span_done st o)
span_done-Read st o sp = rw sp.returns record {
  st = record st { char = sp.char; char_set = sp.chars; char_read = false; char_range = false };
  returns = refl;
  is_byte = sp.is_byte;
}

Read-if : (b : Bool) {x y : Option State} → Read x → Read y → Read (if b then x else y)
Read-if true p q = p
Read-if false p q = q

read_byte-Read : (i c : ℕ) (st : State) → c < 255 → st.char < 256 → Read (read_byte i c st)
unfolding read_byte take_char
read_byte-Read i c st h k =
    Read-if (c == b'-' && st.char_read && not st.char_range)
      record { st = record st { char_range = true }; returns = refl; is_byte = k }
      (Read-if (settle st).char_range
        (span_done-Read (settle st) _ (
          add_span-Spans span_fuel (settle st).char c (settle st).char_set h
            (omega (arith, settle-char st)) (omega arith)))
        record { st = take_char i c (settle st); returns = refl; is_byte = omega arith })

pub record ReadAll (bytes : List ℕ) (o : Option (State × List ℕ)) : Type 0 where
  pub st : State
  pub rest : List ℕ
  pub returns : o ≡ some (st, rest)
  pub shorter : length rest ≤ length bytes
  pub low : AreLow rest

one_longer :
    {bytes : List ℕ} {o : Option (State × List ℕ)} (c : ℕ) → ReadAll bytes o → ReadAll (c ∷ bytes) o
one_longer c r = record {
  st = r.st;
  rest = r.rest;
  returns = r.returns;
  shorter = omega (arith, r.shorter);
  low = r.low;
}

pub read_bytes-ReadAll :
    (i : ℕ) (bytes : List ℕ) (st : State)
    → AreLow bytes
    → st.char < 256
    → ReadAll bytes (read_bytes i bytes st)
unfolding read_bytes
read_bytes-ReadAll i [] st h k = record {
  st = st;
  rest = [];
  returns = refl;
  shorter = omega arith;
  low = tt;
}
read_bytes-ReadAll i (c ∷ bytes) st h k = elim (Bool-cases (c == b']' && ltb 0 i)) [
  | inl e ↦ rw e record { st = st; rest = bytes; returns = refl; shorter = omega arith; low = h.1 }
  | inr e ↦
      let r = read_byte-Read i c st h.0 k in
      rw (e, r.returns) (one_longer c (read_bytes-ReadAll (i + 1) bytes r.st h.1 r.is_byte))
]
