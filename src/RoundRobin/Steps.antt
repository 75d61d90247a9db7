-- ===== src/RoundRobin/Steps.antt =====
-- roundrobin.go: `getRemote` of each connection, one atomic operation at a time, and `LoadEvent`.
-- A pointer to an index is its position among the cells. A cell also keeps what the code does not:
-- the number of candidates it was made for and the values that it gave out, the newest first.
-- A connection is taken to have one call of its `getRemote` at a time.
use chrome.Base.{
  ℕ, ◌+◌, ◌%◌, Bool, true, false, ◌&&◌, List, [], ◌∷◌, ◌++◌, Option, none, some, if◌then◌else◌,
  ◌==◌, length, set, get_elem?,
}

pub record Cell : Type 0 where
  pub value : ℕ
  pub size : ℕ
  pub taken : List ℕ

-- What a connection keeps, and where its `getRemote` is: before the `Load` or before the swap.
pub record Options (P : Type 0) : Type 0 where
  pub candidates : List P
  pub index : Option ℕ

pub data Phase (P : Type 0) : Type 0 where
  idle : Phase P
  to_load : Options P → ℕ → Phase P
  to_swap : Options P → ℕ → ℕ → Phase P

pub record Client (P : Type 0) : Type 0 where
  pub index : Option ℕ
  pub index_loaded : ℕ
  pub phase : Phase P

-- `dialed` are the candidates that were dialed, the newest first.
pub record State (P : Type 0) : Type 0 where
  pub cells : List Cell
  pub opts : Options P
  pub clients : List (Client P)
  pub dialed : List P
  pub panicked : Bool

abbrev pub take_value : ℕ → Cell → Cell
take_value n cell = record cell { value = (cell.value + 1) % n; taken = cell.value ∷ cell.taken }

abbrev pub is_index : Option ℕ → ℕ → Bool
is_index none p = false
is_index (some q) p = q == p

module _ {P : Type 0} where
  abbrev pub no_options : Options P
  no_options = record { candidates = []; index = none }

  abbrev pub put : ℕ → Client P → State P → State P
  put i c s = record s { clients = set s.clients i c }

  abbrev pub dial_one : Option P → State P → State P
  dial_one none s = record s { panicked = true }
  dial_one (some d) s = record s { dialed = d ∷ s.dialed }

  -- `opts.Candidates[indexLoaded]`
  unfoldable pub dial : Options P → ℕ → State P → State P
  dial opts i s = dial_one (get_elem? opts.candidates i) s

  abbrev pub with_index : ℕ → Client P → State P → Option ℕ → State P
  with_index i c s none = record s { panicked = true }
  with_index i c s (some p) =
      if is_index c.index p
      then (let j = (c.index_loaded + 1) % length s.opts.candidates in
          dial s.opts j (put i (record c { index_loaded = j }) s))
      else put i (record c { index = some p; phase = to_load s.opts p }) s

  abbrev pub is_nil : List P → Bool
  is_nil [] = true
  is_nil (x ∷ xs) = false

  -- The beginning of `getRemote`; without candidates it gives `CloseConn`.
  unfoldable pub begin_dial : ℕ → Client P → State P → State P
  unfolding dial
  begin_dial i c s = if is_nil s.opts.candidates then s else with_index i c s s.opts.index

  abbrev pub load_cell : ℕ → Client P → Options P → ℕ → State P → Option Cell → State P
  load_cell i c opts p s none = s
  load_cell i c opts p s (some cell) = put i (record c { phase = to_swap opts p cell.value }) s

  abbrev pub swap_cell : ℕ → Client P → Options P → ℕ → ℕ → State P → Option Cell → State P
  swap_cell i c opts p v s none = s
  swap_cell i c opts p v s (some cell) =
      if cell.value == v
      then dial opts v (
          put i (record c { index_loaded = v; phase = idle })
            (record s { cells = set s.cells p (take_value (length opts.candidates) cell) }))
      else put i (record c { phase = to_load opts p }) s

  abbrev pub go_on : ℕ → Client P → State P → Phase P → State P
  go_on i c s idle = begin_dial i c s
  go_on i c s (to_load opts p) = load_cell i c opts p s (get_elem? s.cells p)
  go_on i c s (to_swap opts p v) = swap_cell i c opts p v s (get_elem? s.cells p)

  abbrev pub go_on_with : ℕ → State P → Option (Client P) → State P
  go_on_with i s none = s
  go_on_with i s (some c) = go_on i c s c.phase

  module _ (same : P → P → Bool) where
    -- `slices.EqualFunc`
    unfoldable pub equal_func : List P → List P → Bool
    equal_func [] [] = true
    equal_func (a ∷ as') (b ∷ bs) = same a b && equal_func as' bs
    equal_func _ _ = false

    -- `LoadEvent` with an address that is valid; `r` is the random number.
    unfoldable pub load_options : List P → ℕ → State P → State P
    load_options [] r s = record s { opts = no_options }
    load_options (d ∷ ds) r s =
        if equal_func (d ∷ ds) s.opts.candidates
        then record s { opts = record { candidates = d ∷ ds; index = s.opts.index } }
        else record s {
          cells =
              s.cells
              ++ (record { value = r % length (d ∷ ds); size = length (d ∷ ds); taken = [] } ∷ []);
          opts = record { candidates = d ∷ ds; index = some (length s.cells) };
        }

-- `quits` is the end of the job, after which receivers get no options.
pub data Event (P : Type 0) : Type 0 where
  loads : List P → ℕ → Event P
  quits : Event P
  opens : Event P
  continues : ℕ → Event P

module _ {P : Type 0} (same : P → P → Bool) where
  unfoldable pub step : Event P → State P → State P
  unfolding load_options begin_dial
  step (loads ds r) s = load_options same ds r s
  step quits s = record s { opts = no_options }
  step opens s = record s {
    clients = s.clients ++ (record { index = none; index_loaded = 0; phase = idle } ∷ []);
  }
  step (continues i) s = go_on_with i s (get_elem? s.clients i)

  unfoldable pub run : List (Event P) → State P → State P
  run [] s = s
  run (ev ∷ evs) s = run evs (step ev s)

abbrev pub start : (P : Type 0) → State P
start P = record { cells = []; opts = no_options; clients = []; dialed = []; panicked = false }
