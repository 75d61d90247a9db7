-- ===== src/Conn/Invariant/Ready.antt =====
-- What holds of an attempt survives when the loop or the reader ends.
use chrome.Base.{ℕ, ◌≡◌, Bool, true, List, All, All-map}
use chrome.Conn.State.{Attempt, Phase, dialing, trying, winning, relaying, closing, over}
use chrome.Conn.Acted.{Stage}
use chrome.Conn.Invariant.{Sound}

-- What holds where an attempt stands survives when the loop or the reader ends.
Stage-ready :
    (request : List ℕ) (r r' : Bool) (p : Phase) (a : Attempt)
    → (r ≡ true → r' ≡ true)
    → Stage request r p a
    → Stage request r' p a
Stage-ready request r r' relaying a f h = (h.0, h.1, h.2, h.3, f h.4, h.5, h.6, h.7, h.8, h.9)
Stage-ready request r r' dialing a f h = h
Stage-ready request r r' trying a f h = h
Stage-ready request r r' winning a f h = h
Stage-ready request r r' closing a f h = h
Stage-ready request r r' over a f h = h

pub AllSound-ready :
    (request : List ℕ) (r r' : Bool) (xs : List Attempt)
    → (r ≡ true → r' ≡ true)
    → All (Sound request r) xs
    → All (Sound request r') xs
AllSound-ready request r r' xs f h =
    All-map (Sound request r) (Sound request r') xs
      (λ a b. (b.0, Stage-ready request r r' a.phase a f b.1)) h
