-- ===== src/Conn/Outgoing.antt =====
-- conn.go: the `Conn` that `NewConn` returns: the deadlines of the outgoing connection, by the
-- timeouts that were set last (`setOutgoingConn`, `SetOutgoingTimeout`).
use chrome.Base.{ℕ, ◌≡◌, refl, List, [], ◌∷◌, Option, none, some, if◌then◌else◌}
use chrome.Base.Int.{ℤ, pos, ◌+ℤ◌, eqb_ℤ}

-- What the remote connection was told: `none` is the zero time, which is no deadline.
pub record Deadlines : Type 0 where
  pub id : ℕ
  pub read : Option ℤ
  pub write : Option ℤ

pub record Conn : Type 0 where
  pub oc : Option Deadlines
  pub tr : ℤ
  pub tw : ℤ

-- `time.Now()` is an argument.
unfoldable pub to_deadline : ℤ → ℤ → Option ℤ
to_deadline now d = if eqb_ℤ d (pos 0) then none else some (now +ℤ d)

abbrev with_timeouts : ℤ → ℤ → ℤ → Option Deadlines → Option Deadlines
with_timeouts now tr tw none = none
with_timeouts now tr tw (some oc) =
    some (record oc { read = to_deadline now tr; write = to_deadline now tw })

-- `none` is the nil connection.
unfoldable pub set_outgoing_conn : ℤ → Option Deadlines → Conn → Conn
set_outgoing_conn now oc c = record c { oc = with_timeouts now c.tr c.tw oc }

unfoldable pub set_outgoing_timeout : ℤ → ℤ → ℤ → Conn → Conn
set_outgoing_timeout now tr tw c = record c { oc = with_timeouts now tr tw c.oc; tr = tr; tw = tw }

-- The calls: a connection with its id, or nil, and timeouts.
pub data Call : Type 0 where
  conn_set : ℤ → Option ℕ → Call
  timeout_set : ℤ → ℤ → ℤ → Call

abbrev fresh : Option ℕ → Option Deadlines
fresh none = none
fresh (some id) = some (record { id = id; read = none; write = none })

unfoldable pub call : Call → Conn → Conn
unfolding set_outgoing_conn set_outgoing_timeout
call (conn_set now id) c = set_outgoing_conn now (fresh id) c
call (timeout_set now tr tw) c = set_outgoing_timeout now tr tw c

unfoldable pub calls : List Call → Conn → Conn
calls [] c = c
calls (x ∷ xs) c = calls xs (call x c)

unfoldable pub new_outgoing : Conn
new_outgoing = record { oc = none; tr = pos 0; tw = pos 0 }

-- The same, by what the history says: the time of the last call, the last connection and the last
-- timeouts.
pub record Last : Type 0 where
  pub at : ℤ
  pub conn : Option ℕ
  pub read : ℤ
  pub write : ℤ

unfoldable pub last_calls : List Call → Last → Last
last_calls [] l = l
last_calls (conn_set now id ∷ xs) l = last_calls xs (record l { at = now; conn = id })
last_calls (timeout_set now tr tw ∷ xs) l =
    last_calls xs (record l { at = now; read = tr; write = tw })

abbrev pub outgoing : Last → Option ℕ → Option Deadlines
outgoing l none = none
outgoing l (some id) =
    some (record { id = id; read = to_deadline l.at l.read; write = to_deadline l.at l.write })

abbrev pub as_conn : Last → Conn
as_conn l = record { oc = outgoing l l.conn; tr = l.read; tw = l.write }

call_last : (x : Call) (l : Last) → call x (as_conn l) ≡ as_conn (last_calls (x ∷ []) l)
unfolding call last_calls
call_last (conn_set now none) l = refl
call_last (conn_set now (some id)) l = refl
call_last (timeout_set now tr tw) l = by_conn l.conn refl
  where
    by_conn :
        (o : Option ℕ)
        → l.conn ≡ o
        → set_outgoing_timeout now tr tw (as_conn l)
          ≡ as_conn (record l { at = now; read = tr; write = tw })
    by_conn none e = rw e refl
    by_conn (some id) e = rw e refl

calls_last : (xs : List Call) (l : Last) → calls xs (as_conn l) ≡ as_conn (last_calls xs l)
unfolding calls last_calls
calls_last [] l = refl
calls_last (conn_set now id ∷ xs) l =
    rw (call_last (conn_set now id) l) (calls_last xs (record l { at = now; conn = id }))
calls_last (timeout_set now tr tw ∷ xs) l =
    rw (call_last (timeout_set now tr tw) l)
      (calls_last xs (record l { at = now; read = tr; write = tw }))

abbrev pub at_first : ℤ → Last
at_first now = record { at = now; conn = none; read = pos 0; write = pos 0 }

-- After any calls that set or clear the outgoing connection or set the timeouts, in whatever
-- order, the outgoing connection is the last one set, and its deadlines are those of the
-- timeouts set last, counted from the time of the last call, where a timeout of zero is no
-- deadline.
pub calls-new_outgoing :
    (now : ℤ) (xs : List Call) → calls xs new_outgoing ≡ as_conn (last_calls xs (at_first now))
unfolding new_outgoing
calls-new_outgoing now xs = calls_last xs (at_first now)
