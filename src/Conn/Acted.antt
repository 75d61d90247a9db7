-- ===== src/Conn/Acted.antt =====
-- What one act of an attempt does: to the attempt, and to the counters that all share.
pub mod Acts
use chrome.Base.{
  ℕ, ◌+◌, ◌≤◌, ◌≡◌, ◌≢◌, refl, Bool, true, false, ◌&&◌, ◌⊎◌, List, [], ◌∷◌, ◌++◌, length, set,
}
use chrome.Conn.State.{
  State, Attempt, Phase, dialing, trying, winning, relaying, closing, over, Sender, unstarted,
  waits, send_done, writes, AfterFunc, unset, armed, started, finished, response,
}
use chrome.Conn.Attempt.{is_send_done, is_finished}

-- Whether an attempt counts in `connections`.
abbrev pub live : Phase → ℕ
live dialing = 1
live trying = 1
live winning = 1
live relaying = 1
live closing = 1
live over = 0

-- Whether a function that waits for the context is still to call `Done`.
abbrev pub owes : AfterFunc → ℕ
owes unset = 0
owes armed = 1
owes started = 1
owes finished = 0

abbrev pub one_if : Bool → ℕ
one_if true = 1
one_if false = 0

abbrev pub in_flight : Sender → List ℕ
in_flight unstarted = []
in_flight waits = []
in_flight send_done = []
in_flight (writes bs) = bs

abbrev pub is_idle : Sender → Bool
is_idle unstarted = true
is_idle waits = false
is_idle send_done = true
is_idle (writes bs) = false

-- The bytes on the wire, those under way and those not yet taken up are the request.
abbrev pub Sent : List ℕ → List ℕ → ℕ → List ℕ → Type 0
Sent request wire sent flight =
    (length wire ≡ sent) × ((rest : List ℕ) × (wire ++ (flight ++ rest) ≡ request))

abbrev pub has_started : Sender → Bool
has_started unstarted = false
has_started waits = true
has_started send_done = true
has_started (writes bs) = true

abbrev pub is_released : AfterFunc → Bool
is_released unset = false
is_released armed = false
is_released started = true
is_released finished = true

-- The sender and the function for the context will end, or have ended.
abbrev pub Stopping : Attempt → Type 0
Stopping a =
    (a.send_stop ≡ true) × (has_started a.sender ≡ true) × (is_released a.after_func ≡ true)

-- What holds of an attempt where its coroutine stands, `ready` being that the loop and the reader
-- are done.
abbrev pub Stage : List ℕ → Bool → Phase → Attempt → Type 0
Stage request ready dialing a =
    (a.sender ≡ unstarted)
    × (a.after_func ≡ unset)
    × (a.is_winner ≡ false)
    × (a.closed ≡ false)
    × (a.connected ≡ false)
Stage request ready trying a =
    (a.is_winner ≡ false)
    × (a.connected ≡ true)
    × (a.closed ≡ false)
    × (has_started a.sender ≡ true)
    × ¬ (a.after_func ≡ unset)
Stage request ready winning a =
    (a.is_winner ≡ true)
    × (a.connected ≡ true)
    × (a.closed ≡ false)
    × (a.timer_live ≡ false)
    × Stopping a
Stage request ready relaying a =
    (a.is_winner ≡ true)
    × (a.connected ≡ true)
    × (a.closed ≡ false)
    × (a.timer_live ≡ false)
    × (ready ≡ true)
    × (is_send_done a.sender ≡ true)
    × (is_finished a.after_func ≡ true)
    × (a.read_expired ≡ false)
    × (a.write_expired ≡ false)
    × (a.wire ++ a.prefix ≡ request)
Stage request ready closing a = (a.connected ≡ true) × (a.closed ≡ false) × Stopping a
Stage request ready over a =
    (a.closed ≡ a.connected)
    × (a.timer_live ≡ false)
    × (owes a.after_func ≡ 0)
    × (is_idle a.sender ≡ true)

-- An act leaves these alone.
pub record Kept (s s' : State) : Type 0 where
  pub input : s'.input ≡ s.input
  pub request : s'.request ≡ s.request
  pub read_done : s'.read_done ≡ s.read_done
  pub loop_done : s'.loop_done ≡ s.loop_done
  pub newconn : s'.newconn ≡ s.newconn
  pub attempts : s'.attempts ≡ s.attempts
  pub pc : s'.pc ≡ s.pc
  pub timer : s'.timer ≡ s.timer
  pub timer_running : s'.timer_running ≡ s.timer_running

-- Either nothing is won, or the attempt wins, which it does as the first one.
abbrev pub Won : Attempt → Attempt → State → State → Type 0
Won a a' s s' =
    ((a'.is_winner ≡ a.is_winner)
      × (s'.has_winner ≡ s.has_winner)
      × (s'.events ≡ s.events)
      × (s'.loop_stop ≡ s.loop_stop))
    ⊎ ((a.is_winner ≡ false)
        × (a'.is_winner ≡ true)
        × (s.has_winner ≡ false)
        × (s'.has_winner ≡ true)
        × (s'.events ≡ s.events ++ (response ∷ []))
        × (s'.loop_stop ≡ true)
        × (live a.phase ≡ 1))

pub record Acted (i : ℕ) (a a' : Attempt) (s s' : State) : Type 0 where
  pub placed : s'.all ≡ set s.all i a'
  pub kept : Kept s s'
  pub living : s'.connections + live a.phase ≡ s.connections + live a'.phase
  pub fewer : live a'.phase ≤ live a.phase
  pub owed : s'.pending + owes a.after_func ≡ s.pending + owes a'.after_func
  pub calm : s'.panicked ≡ s.panicked
  pub won : Won a a' s s'

-- An act that is not due does nothing.
abbrev pub Outcome : ℕ → Attempt → State → State → Type 0
Outcome i a s s' =
    (s' ≡ s)
    ⊎ ((a' : Attempt) × Acted i a a' s s'
        × Sent s.request a'.wire a'.sent (in_flight a'.sender)
        × Stage s.request (s.loop_done && s.read_done) a'.phase a')

-- What an act begins with.
pub record Due (a : Attempt) (s : State) : Type 0 where
  pub sent : Sent s.request a.wire a.sent (in_flight a.sender)
  pub stage : Stage s.request (s.loop_done && s.read_done) a.phase a
  pub alive : live a.phase ≤ s.connections
  pub owing : owes a.after_func ≤ s.pending
