-- ===== src/Conn/Invariant.antt =====
-- What holds between two events of a `NewConn`.
pub mod Acts
pub mod Ready
pub mod Loop
pub mod Reader
pub mod Runs
use chrome.Base.{
  ℕ, ◌+◌, ◌<◌, ◌≡◌, Bool, true, false, not, ◌&&◌, ◌⊎◌, List, [], ◌∷◌, ◌++◌, length, All, sum_by,
}
use chrome.Base.Int.{pos, ◌≤ℤ◌}
use chrome.Conn.Options.{ConnOptions}
use chrome.Conn.State.{
  State, Attempt, Timer, off, ticking, fired, LoopPc, guard, timer_wait, closing_wait, ended,
  response, max_attempts,
}
use chrome.Conn.Request.{max_request_size, conn_buf_size}
use chrome.Conn.Acted.{live, owes, one_if, in_flight, Sent, Stage}

-- The counters are those of the attempts, and stay within the limits of the options.
pub record Counts (opts : ConnOptions) (s : State) : Type 0 where
  pub counted : s.connections ≡ sum_by (λ a. live a.phase) s.all
  pub made : s.attempts ≡ length s.all
  pub room : pos s.connections ≤ℤ opts.parallel
  pub limit : pos s.attempts ≤ℤ opts.max_attempts

abbrev pub is_on : Timer → Bool
is_on off = false
is_on ticking = true
is_on fired = true

abbrev pub is_leaving : LoopPc → Bool
is_leaving guard = false
is_leaving timer_wait = false
is_leaving closing_wait = true
is_leaving ended = true

abbrev pub is_ended : LoopPc → Bool
is_ended guard = false
is_ended timer_wait = false
is_ended closing_wait = false
is_ended ended = true

-- The calls of `Add` without a `Done` are for the timer and the functions that wait for a context.
pub record Waits (s : State) : Type 0 where
  pub owed : s.pending ≡ one_if s.timer_running + sum_by (λ a. owes a.after_func) s.all
  pub calm : s.panicked ≡ false
  pub clock : s.timer_running ≡ is_on s.timer
  pub paced : s.newconn ≡ not s.timer_running
  pub ends : s.loop_done ≡ is_ended s.pc

-- Nothing was told, or that the first attempt won, or that all attempts failed and so the loop leaves.
abbrev pub ToldAs : Bool → State → Type 0
ToldAs leaving s =
    ((s.events ≡ []) × (s.has_winner ≡ false))
    ⊎ ((s.events ≡ response ∷ []) × (s.has_winner ≡ true) × (s.loop_stop ≡ true))
    ⊎ ((s.events ≡ max_attempts ∷ [])
        × (s.has_winner ≡ false)
        × (s.connections ≡ 0)
        × (leaving ≡ true))

abbrev pub Told : State → Type 0
Told s = ToldAs (is_leaving s.pc) s

pub record Winner (s : State) : Type 0 where
  pub winners : sum_by (λ a. one_if a.is_winner) s.all ≡ one_if s.has_winner
  pub told : Told s

-- The reader holds the first bytes of the client's stream, and stops when there are enough.
pub record Reading (stream : List ℕ) (s : State) : Type 0 where
  pub whole : s.request ++ s.input ≡ stream
  pub bounded : length s.request < max_request_size + conn_buf_size
  pub reading : s.read_done ≡ false → length s.request < max_request_size

-- Each attempt is sound.
abbrev pub Sound : List ℕ → Bool → Attempt → Type 0
Sound request ready a =
    Sent request a.wire a.sent (in_flight a.sender) × Stage request ready a.phase a

abbrev pub AllSound : State → Type 0
AllSound s = All (Sound s.request (s.loop_done && s.read_done)) s.all

pub record Inv (opts : ConnOptions) (stream : List ℕ) (s : State) : Type 0 where
  pub counts : Counts opts s
  pub waits : Waits s
  pub winner : Winner s
  pub reads : Reading stream s
  pub sound : AllSound s
