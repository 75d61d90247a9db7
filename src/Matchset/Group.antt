-- ===== src/Matchset/Group.antt =====
-- `charSetFromGroup` of matchset.go: a class, from behind its `[` up to its `]`.
pub mod Span
pub mod Print
pub mod Round
pub mod Class
pub mod Ends
use chrome.Base.{
  ℕ, zero, suc, ◌+◌, ◌%◌, Bool, true, false, not, ◌&&◌, ◌||◌, ◌==◌, List, [], ◌∷◌, Option, none,
  some, ltb, leb, if◌then◌else◌,
}
use chrome.Matchset.Charset.{Charset, empty, add, invert}

-- The local variables of the function.
pub record State : Type 0 where
  pub char : ℕ
  pub char_read : Bool
  pub char_range : Bool
  pub char_set : Charset
  pub inverted : Bool
  pub may_be_inverted : Bool

unfoldable pub start : State
start = record {
  char = 0;
  char_read = false;
  char_range = false;
  char_set = empty;
  inverted = false;
  may_be_inverted = false;
}

-- `for ; char <= by; char++` on bytes, whose `char++` wraps. `none` is a loop that has not ended
-- within the fuel.
unfoldable pub add_span : ℕ → ℕ → ℕ → Charset → Option (ℕ × Charset)
add_span zero char by s = none
add_span (suc k) char by s =
    let rest = add_span k ((char + 1) % 256) by (add s char) in
    if leb char by then rest else some (char, s)

-- At most 256 values of `char` are met, and one more test ends the loop.
abbrev pub span_fuel : ℕ
span_fuel = 257

abbrev pub span_done : State → Option (ℕ × Charset) → Option State
span_done st none = none
span_done st (some (char, s)) =
    some (record st { char = char; char_set = s; char_read = false; char_range = false })

-- The body of the loop behind the test for `-`, where `charSetMayBeInverted` is settled.
unfoldable pub settle : State → State
settle st =
    if st.may_be_inverted
    then (if st.char_range
        then record st { may_be_inverted = false }
        else record st { char_read = false; inverted = true; may_be_inverted = false })
    else st

unfoldable pub take_char : ℕ → ℕ → State → State
take_char i by st = record st {
  char = by;
  char_read = true;
  char_set = if st.char_read then add st.char_set st.char else st.char_set;
  may_be_inverted = if i == 0 && by == b'^' then true else st.may_be_inverted;
}

unfoldable pub read_byte : ℕ → ℕ → State → Option State
read_byte i by st =
    if by == b'-' && st.char_read && not st.char_range
    then some (record st { char_range = true })
    else (let st' = settle st in
        if st'.char_range
        then span_done st' (add_span span_fuel st'.char by st'.char_set)
        else some (take_char i by st'))

abbrev read_rest : (State → Option (State × List ℕ)) → Option State → Option (State × List ℕ)
read_rest k none = none
read_rest k (some st) = k st

-- The loop over the bytes; `i` is the position.
unfoldable pub read_bytes : ℕ → List ℕ → State → Option (State × List ℕ)
read_bytes i [] st = some (st, [])
read_bytes i (by ∷ bytes) st =
    if by == b']' && ltb 0 i
    then some (st, bytes)
    else read_rest (read_bytes (i + 1) bytes) (read_byte i by st)

-- What follows the loop.
unfoldable pub finish : State → Charset
finish st =
    let s1 =
      if st.char_read && not st.may_be_inverted then add st.char_set st.char else st.char_set in
    let s2 = if st.char_range then add s1 b'-' else s1 in
    if st.inverted || st.may_be_inverted then invert s2 else s2

abbrev pub finish_group : Option (State × List ℕ) → Option (Charset × List ℕ)
finish_group none = none
finish_group (some (st, rest)) = some (finish st, rest)

-- `none` means that the function does not return.
unfoldable pub charset_from_group : List ℕ → Option (Charset × List ℕ)
charset_from_group bytes = finish_group (read_bytes 0 bytes start)
