-- ===== src/RoundRobin/Tests.antt =====
-- Two connections that take turns with three candidates, and the theorem at a concrete input.
use chrome.Base.{ℕ, ◌≡◌, refl, List, [], ◌∷◌, ◌==◌}
use chrome.RoundRobin.Steps.{
  Event, loads, opens, continues, begin_dial, dial, equal_func, load_options, run, step, start,
}
use chrome.RoundRobin.Invariant.{Inv}
use chrome.RoundRobin.Safety.{clients_reached-Inv}

-- The second connection loads its value before the first one swaps, so its first swap fails.
abbrev turns : List (Event ℕ)
turns =
    loads (5 ∷ 6 ∷ 7 ∷ []) 1
    ∷ opens
    ∷ opens
    ∷ continues 0
    ∷ continues 1
    ∷ continues 0
    ∷ continues 1
    ∷ continues 0
    ∷ continues 1
    ∷ continues 1
    ∷ continues 1
    ∷ continues 0
    ∷ []

all_dialed : (run (λ (a b : ℕ). a == b) turns (start ℕ)).dialed ≡ 7 ∷ 7 ∷ 6 ∷ []
unfolding run step begin_dial dial equal_func load_options
all_dialed = refl

clients_reached-Inv_example : Inv (run (λ (a b : ℕ). a == b) turns (start ℕ))
clients_reached-Inv_example = clients_reached-Inv (λ (a b : ℕ). a == b) turns
