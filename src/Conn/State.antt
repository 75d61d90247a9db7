-- ===== src/Conn/State.antt =====
-- conn.go: the variables that the coroutines of one `NewConn` share, and those of an attempt.
use chrome.Base.{ℕ, Bool, true, false, List, [], if◌then◌else◌, ◌==◌, ◌-◌, ◌+◌}

pub data ConnEvent : Type 0 where
  response max_attempts : ConnEvent

-- A `time.Timer` for which `AfterFunc` was called: `fired` means that its function was started and
-- what it spawned has not run.
pub data Timer : Type 0 where
  off ticking fired : Timer

-- Where the coroutine of the connection loop stands.
pub data LoopPc : Type 0 where
  guard : LoopPc  -- at the head of the loop
  timer_wait : LoopPc  -- at `awaitTimer` in the loop
  closing_wait : LoopPc  -- at `awaitTimer` in the deferred block
  ended : LoopPc

-- Where the coroutine of an attempt stands.
pub data Phase : Type 0 where
  dialing : Phase  -- waits for `getRemote`
  trying : Phase  -- waits for a first byte
  winning : Phase  -- waits until the loop, the reader and its own sender are done
  relaying : Phase
  closing : Phase  -- waits in its deferred block
  over : Phase

-- Where the coroutine that sends the request stands, with the bytes of a write under way.
pub data Sender : Type 0 where
  unstarted waits send_done : Sender
  writes : List ℕ → Sender

-- What became of the function given to `context.AfterFunc`.
pub data AfterFunc : Type 0 where
  unset armed started finished : AfterFunc

pub record Attempt : Type 0 where
  pub phase : Phase
  pub timer_live : Bool  -- `timer.Stop()` would return true
  pub canceled : Bool
  pub is_winner : Bool
  pub connected : Bool  -- `remote` is not nil
  pub closed : Bool
  pub sent : ℕ
  pub wire : List ℕ  -- the bytes that the remote end was sent
  pub sender : Sender
  pub send_stop : Bool
  pub after_func : AfterFunc
  pub read_expired : Bool  -- the remote connection has a read deadline in the past
  pub write_expired : Bool
  pub prefix : List ℕ  -- what the relay is to send before it reads from the pipe

pub record State : Type 0 where
  pub input : List ℕ  -- what the client writes and nothing has read yet
  pub request : List ℕ  -- `rr.req.data`
  pub read_done : Bool
  pub read_stop : Bool
  pub pipe_expired : Bool  -- the pipe has a read deadline in the past
  pub loop_done : Bool
  pub loop_stop : Bool
  pub newconn : Bool
  pub connections : ℕ
  pub attempts : ℕ
  pub pc : LoopPc
  pub timer : Timer
  pub timer_running : Bool
  pub has_winner : Bool
  pub events : List ConnEvent
  pub pending : ℕ  -- the calls of `Add` less those of `Done`
  pub panicked : Bool  -- there was a `Done` without an `Add`
  pub all : List Attempt

-- The calls of `Add` and `Done` in the code. What `WaitGroup.Go` adds for a goroutine that it starts,
-- and takes off when that ends, is not counted.
unfoldable pub wg_add : State → State
wg_add s = record s { pending = s.pending + 1 }

unfoldable pub wg_done : State → State
wg_done s =
    if s.pending == 0 then record s { panicked = true } else record s { pending = s.pending - 1 }

-- The state when the loop and the reader start, for a client that is to write `input`.
unfoldable pub init : List ℕ → State
init input = record {
  input = input;
  request = [];
  read_done = false;
  read_stop = false;
  pipe_expired = false;
  loop_done = false;
  loop_stop = false;
  newconn = true;
  connections = 0;
  attempts = 0;
  pc = guard;
  timer = off;
  timer_running = false;
  has_winner = false;
  events = [];
  pending = 0;
  panicked = false;
  all = [];
}

unfoldable pub new_attempt : Attempt
new_attempt = record {
  phase = dialing;
  timer_live = true;
  canceled = false;
  is_winner = false;
  connected = false;
  closed = false;
  sent = 0;
  wire = [];
  sender = unstarted;
  send_stop = false;
  after_func = unset;
  read_expired = false;
  write_expired = false;
  prefix = [];
}
