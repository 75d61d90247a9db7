-- ===== src/RoundRobin/Safety.antt =====
-- roundrobin.go: no call of `getRemote` panics, and each index goes round the candidates.
use native.Mathlib.Nat.{mod-lt}
use mathlib.Core.Path.{subst}
use chrome.Base.{
  ℕ, zero, suc, ◌+◌, ◌%◌, ◌<◌, ◌≡◌, refl, sym, ap, Bool, true, false, List, [], ◌∷◌, ◌++◌, Option,
  none, some, if_intro, ◌==◌, ==_iff, length, set, get_elem?, All-set, All-append, All-get_elem?,
  arith,
}
use chrome.Base.Text.{and_right}
use chrome.RoundRobin.Steps.{
  Cell, Options, Phase, idle, to_load, to_swap, Client, State, no_options, put, dial, with_index,
  is_index, is_nil, begin_dial, load_cell, take_value, swap_cell, go_on, go_on_with, equal_func,
  load_options, Event, loads, quits, opens, continues, step, run, start,
}
use chrome.RoundRobin.Invariant.{
  GoodCell, Points, last_there, append-Keeps, set-Keeps, taken-GoodCell, same_size, GoodIndex,
  GoodPhase, Inv, keep_phases, keep_index,
}

module _ {P : Type 0} where
  -- A position below the length can be dialed.
  in_range : (ds : List P) (j : ℕ) → j < length ds → (d : P) × (get_elem? ds j ≡ some d)
  in_range [] j h = absurd (omega arith)
  in_range (d ∷ ds) zero h = (d, refl)
  in_range (d ∷ ds) (suc j) h = in_range ds j (omega arith)

  dial-Inv :
      (opts : Options P) (j : ℕ) (s : State P)
      → j < length opts.candidates
      → Inv s
      → Inv (dial opts j s)
  unfolding dial
  dial-Inv opts j s h k =
      let (d, e) = in_range opts.candidates j h in
      rw e record {
        cells_good = k.cells_good;
        opts_good = k.opts_good;
        clients_good = k.clients_good;
        calm = k.calm;
      }

  put-Inv :
      (i : ℕ) (c : Client P) (s : State P) → GoodPhase s.cells c.phase → Inv s → Inv (put i c s)
  put-Inv i c s g k = record {
    cells_good = k.cells_good;
    opts_good = k.opts_good;
    clients_good = All-set (λ c. GoodPhase s.cells c.phase) s.clients i c g k.clients_good;
    calm = k.calm;
  }

  some_length : (ds : List P) → 0 < length ds → ds ≡ [] → ⊥
  some_length ds h e = absurd (omega (arith, h, ap length e))

  not_nil : (ds : List P) → is_nil ds ≡ false → 0 < length ds
  not_nil [] h = absurd (cc)
  not_nil (d ∷ ds) h = omega arith

  with_index-Inv :
      (i : ℕ) (c : Client P) (s : State P) (o : Option ℕ)
      → GoodPhase s.cells c.phase
      → 0 < length s.opts.candidates
      → GoodIndex s.cells s.opts.candidates o
      → Inv s
      → Inv (with_index i c s o)
  with_index-Inv i c s none ph h g k = absurd (some_length s.opts.candidates h g)
  with_index-Inv i c s (some p) ph h g k =
      let j = (c.index_loaded + 1) % length s.opts.candidates in
      if_intro Inv (is_index c.index p) _ _
        (λ e.
          dial-Inv s.opts j (put i (record c { index_loaded = j }) s)
            (mod-lt (c.index_loaded + 1) h) (put-Inv i (record c { index_loaded = j }) s ph k))
        (λ e. put-Inv i (record c { index = some p; phase = to_load s.opts p }) s g k)

  begin_dial-Inv :
      (i : ℕ) (c : Client P) (s : State P)
      → GoodPhase s.cells c.phase
      → Inv s
      → Inv (begin_dial i c s)
  unfolding begin_dial
  begin_dial-Inv i c s g k =
      if_intro Inv (is_nil s.opts.candidates) _ _ (λ e. k)
        (λ e. with_index-Inv i c s s.opts.index g (not_nil s.opts.candidates e) k.opts_good k)

  load_cell-Inv :
      (i : ℕ) (c : Client P) (opts : Options P) (p : ℕ) (s : State P) (o : Option Cell)
      → Points s.cells p (length opts.candidates)
      → Inv s
      → Inv (load_cell i c opts p s o)
  load_cell-Inv i c opts p s none g k = k
  load_cell-Inv i c opts p s (some cell) g k =
      put-Inv i (record c { phase = to_swap opts p cell.value }) s g k

  swap-Inv :
      (s : State P) (p n : ℕ) (cell : Cell)
      → get_elem? s.cells p ≡ some cell
      → cell.size ≡ n
      → Inv s
      → Inv (record s { cells = set s.cells p (take_value n cell) })
  swap-Inv s p n cell e z k =
      let good = All-get_elem? GoodCell s.cells p cell k.cells_good e in
      let keeps = set-Keeps s.cells p cell (take_value n cell) e refl in
      record {
        cells_good =
            All-set GoodCell s.cells p (take_value n cell) (taken-GoodCell n cell z good)
              k.cells_good;
        opts_good = keep_index s.cells _ s.opts.candidates s.opts.index keeps k.opts_good;
        clients_good = keep_phases s.cells _ s.clients keeps k.clients_good;
        calm = k.calm;
      }

  swap_cell-Inv :
      (i : ℕ) (c : Client P) (opts : Options P) (p v : ℕ) (s : State P) (o : Option Cell)
      → get_elem? s.cells p ≡ o
      → Points s.cells p (length opts.candidates)
      → Inv s
      → Inv (swap_cell i c opts p v s o)
  swap_cell-Inv i c opts p v s none e g k = k
  swap_cell-Inv i c opts p v s (some cell) e g k =
      let n = length opts.candidates in
      let z : cell.size ≡ n = same_size s.cells p n cell e g in
      let good = All-get_elem? GoodCell s.cells p cell k.cells_good e in
      if_intro Inv (cell.value == v) _ _
        (λ same. dial-Inv opts v _ (omega (arith, good.0, z, (==_iff cell.value v).0 same)) (
          put-Inv i (record c { index_loaded = v; phase = idle }) _ tt (swap-Inv s p n cell e z k)))
        (λ other. put-Inv i (record c { phase = to_load opts p }) s g k)

  go_on-Inv :
      (i : ℕ) (c : Client P) (s : State P) (ph : Phase P)
      → GoodPhase s.cells c.phase
      → c.phase ≡ ph
      → Inv s
      → Inv (go_on i c s ph)
  go_on-Inv i c s idle g e k = begin_dial-Inv i c s g k
  go_on-Inv i c s (to_load opts p) g e k =
      load_cell-Inv i c opts p s (get_elem? s.cells p) (subst (GoodPhase s.cells) e g) k
  go_on-Inv i c s (to_swap opts p v) g e k =
      swap_cell-Inv i c opts p v s (get_elem? s.cells p) refl (subst (GoodPhase s.cells) e g) k

  go_on_with-Inv :
      (i : ℕ) (s : State P) (o : Option (Client P))
      → get_elem? s.clients i ≡ o
      → Inv s
      → Inv (go_on_with i s o)
  go_on_with-Inv i s none e k = k
  go_on_with-Inv i s (some c) e k =
      go_on-Inv i c s c.phase
        (All-get_elem? (λ c. GoodPhase s.cells c.phase) s.clients i c k.clients_good e) refl k

  set_options-Inv :
      (opts : Options P) (s : State P)
      → GoodIndex s.cells opts.candidates opts.index
      → Inv s
      → Inv (record s { opts = opts })
  set_options-Inv opts s g k = record {
    cells_good = k.cells_good;
    opts_good = g;
    clients_good = k.clients_good;
    calm = k.calm;
  }

  new_cell-Inv :
      (cell : Cell) (s : State P)
      → GoodCell cell
      → Inv s
      → Inv (record s { cells = s.cells ++ (cell ∷ []) })
  new_cell-Inv cell s g k =
      let keeps = append-Keeps s.cells (cell ∷ []) in
      record {
        cells_good = All-append GoodCell s.cells (cell ∷ []) k.cells_good (g, tt);
        opts_good = keep_index s.cells _ s.opts.candidates s.opts.index keeps k.opts_good;
        clients_good = keep_phases s.cells _ s.clients keeps k.clients_good;
        calm = k.calm;
      }

  module _ (same : P → P → Bool) where
    equal_func-length : (xs ys : List P) → equal_func same xs ys ≡ true → length xs ≡ length ys
    unfolding equal_func
    equal_func-length [] [] h = refl
    equal_func-length [] (y ∷ ys) h = absurd (cc)
    equal_func-length (x ∷ xs) [] h = absurd (cc)
    equal_func-length (x ∷ xs) (y ∷ ys) h =
        ap suc (equal_func-length xs ys (and_right (same x y) (equal_func same xs ys) h))

    carried :
        (cells : List Cell) (xs ys : List P) (o : Option ℕ)
        → 0 < length xs
        → length xs ≡ length ys
        → GoodIndex cells ys o
        → GoodIndex cells xs o
    carried cells xs ys none h e g = absurd (omega (arith, h, e, ap length g))
    carried cells xs ys (some p) h e g = subst (Points cells p) (sym e) g

    load_options-Inv : (ds : List P) (r : ℕ) (s : State P) → Inv s → Inv (load_options same ds r s)
    unfolding load_options
    load_options-Inv [] r s k = set_options-Inv no_options s refl k
    load_options-Inv (d ∷ ds) r s k =
        let n = length (d ∷ ds) in
        let positive : 0 < n = omega arith in
        let cell : Cell = record { value = r % n; size = n; taken = [] } in
        if_intro Inv (equal_func same (d ∷ ds) s.opts.candidates) _ _
          (λ e.
            set_options-Inv _ s
              (carried s.cells (d ∷ ds) s.opts.candidates s.opts.index positive
                (equal_func-length (d ∷ ds) s.opts.candidates e) k.opts_good)
              k)
          (λ e.
            set_options-Inv (record { candidates = d ∷ ds; index = some (length s.cells) }) _
              (cell, last_there s.cells cell, refl) (new_cell-Inv cell s (mod-lt r positive, tt) k))

    step-Inv : (ev : Event P) (s : State P) → Inv s → Inv (step same ev s)
    unfolding step
    step-Inv (loads ds r) s k = load_options-Inv ds r s k
    step-Inv quits s k = set_options-Inv no_options s refl k
    step-Inv opens s k = record {
      cells_good = k.cells_good;
      opts_good = k.opts_good;
      clients_good =
          All-append (λ c. GoodPhase s.cells c.phase) s.clients _ k.clients_good (tt, tt);
      calm = k.calm;
    }
    step-Inv (continues i) s k = go_on_with-Inv i s (get_elem? s.clients i) refl k

    run_from-Inv : (evs : List (Event P)) (s : State P) → Inv s → Inv (run same evs s)
    unfolding run
    run_from-Inv [] s k = k
    run_from-Inv (ev ∷ evs) s k = run_from-Inv evs (step same ev s) (step-Inv ev s k)

    -- After any loads of options, ends of the job, new connections and atomic operations of
    -- their calls of getRemote, each connection making one call at a time, in any order: no
    -- call has panicked, neither by a nil index nor by a position outside its candidates; every
    -- index has a value below the number of candidates it was made for; and the values that an
    -- index gave out go round its candidates one by one, whichever connections took them.
    pub clients_reached-Inv : (evs : List (Event P)) → Inv (run same evs (start P))
    clients_reached-Inv evs =
        run_from-Inv evs (start P)
          record { cells_good = tt; opts_good = refl; clients_good = tt; calm = refl }
