-- ===== src/RoundRobin/Invariant.antt =====
-- roundrobin.go: what always holds of the indexes, the options and the calls of `getRemote`.
use native.Mathlib.Nat.{mod-lt}
use mathlib.Core.Path.{subst}
use chrome.Base.{
  ℕ, zero, suc, ◌+◌, ◌%◌, ◌<◌, ◌≡◌, refl, sym, ap, ◌∙◌, false, List, [], ◌∷◌, ◌++◌, Option, none,
  some, length, set, get_elem?, All, All-map, arith,
}
use chrome.RoundRobin.Steps.{Cell, Phase, idle, to_load, to_swap, Client, State, take_value}

-- The newest value is the one before `v` modulo `n`, and so on.
abbrev pub IsRound : ℕ → ℕ → List ℕ → Type 0
IsRound n v [] = Unit
IsRound n v (i ∷ is) = (v ≡ (i + 1) % n) × IsRound n i is

abbrev pub GoodCell : Cell → Type 0
GoodCell c = (c.value < c.size) × IsRound c.size c.value c.taken

-- A pointer to a cell for so many candidates.
abbrev pub Points : List Cell → ℕ → ℕ → Type 0
Points cells p n = (c : Cell) × (get_elem? cells p ≡ some c) × (c.size ≡ n)

abbrev pub Keeps : List Cell → List Cell → Type 0
Keeps cells cells' = (p n : ℕ) → Points cells p n → Points cells' p n

pub there :
    (xs ys : List Cell) (p : ℕ) (c : Cell)
    → get_elem? xs p ≡ some c
    → get_elem? (xs ++ ys) p ≡ some c
there [] ys p c h = absurd (cc)
there (x ∷ xs) ys zero c h = h
there (x ∷ xs) ys (suc p) c h = there xs ys p c h

pub last_there : (xs : List Cell) (c : Cell) → get_elem? (xs ++ (c ∷ [])) (length xs) ≡ some c
last_there [] c = refl
last_there (x ∷ xs) c = last_there xs c

pub append-Keeps : (cells ys : List Cell) → Keeps cells (cells ++ ys)
append-Keeps cells ys p n (c, e, s) = (c, there cells ys p c e, s)

pub set-Keeps :
    (cells : List Cell) (q : ℕ) (c c' : Cell)
    → get_elem? cells q ≡ some c
    → c'.size ≡ c.size
    → Keeps cells (set cells q c')
set-Keeps [] q c c' e s p n h = absurd (cc)
set-Keeps (x ∷ xs) zero c c' e s zero n (b, f, t) = (c', refl, cc)
set-Keeps (x ∷ xs) zero c c' e s (suc p) n h = h
set-Keeps (x ∷ xs) (suc q) c c' e s zero n h = h
set-Keeps (x ∷ xs) (suc q) c c' e s (suc p) n h = set-Keeps xs q c c' e s p n h

pub taken-GoodCell :
    (n : ℕ) (cell : Cell) → cell.size ≡ n → GoodCell cell → GoodCell (take_value n cell)
taken-GoodCell n cell z g = (
  subst (λ m. (cell.value + 1) % n < m) (sym z) (mod-lt (cell.value + 1) (omega (arith, g.0, z))),
  (ap (λ m. (cell.value + 1) % m) (sym z), g.1),
)

pub same_size :
    (cells : List Cell) (p n : ℕ) (cell : Cell)
    → get_elem? cells p ≡ some cell
    → Points cells p n
    → cell.size ≡ n
same_size cells p n cell e (c, f, z) = let q : cell ≡ c = cc in ap (λ (c : Cell). c.size) q ∙ z

module _ {P : Type 0} where
  abbrev pub GoodIndex : List Cell → List P → Option ℕ → Type 0
  GoodIndex cells ds none = ds ≡ []
  GoodIndex cells ds (some p) = Points cells p (length ds)

  abbrev pub GoodPhase : List Cell → Phase P → Type 0
  GoodPhase cells idle = Unit
  GoodPhase cells (to_load opts p) = Points cells p (length opts.candidates)
  GoodPhase cells (to_swap opts p v) = Points cells p (length opts.candidates)

  pub record Inv (s : State P) : Type 0 where
    pub cells_good : All GoodCell s.cells
    pub opts_good : GoodIndex s.cells s.opts.candidates s.opts.index
    pub clients_good : All (λ c. GoodPhase s.cells c.phase) s.clients
    pub calm : s.panicked ≡ false

  pub keep_phase :
      (cells cells' : List Cell) (ph : Phase P)
      → Keeps cells cells'
      → GoodPhase cells ph
      → GoodPhase cells' ph
  keep_phase cells cells' idle k h = tt
  keep_phase cells cells' (to_load opts p) k h = k p (length opts.candidates) h
  keep_phase cells cells' (to_swap opts p v) k h = k p (length opts.candidates) h

  pub keep_phases :
      (cells cells' : List Cell) (cs : List (Client P))
      → Keeps cells cells'
      → All (λ c. GoodPhase cells c.phase) cs
      → All (λ c. GoodPhase cells' c.phase) cs
  keep_phases cells cells' cs k h =
      All-map (λ c. GoodPhase cells c.phase) (λ c. GoodPhase cells' c.phase) cs
        (λ c g. keep_phase cells cells' c.phase k g) h

  pub keep_index :
      (cells cells' : List Cell) (ds : List P) (o : Option ℕ)
      → Keeps cells cells'
      → GoodIndex cells ds o
      → GoodIndex cells' ds o
  keep_index cells cells' ds none k h = h
  keep_index cells cells' ds (some p) k h = k p (length ds) h
