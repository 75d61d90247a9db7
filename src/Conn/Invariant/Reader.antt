-- ===== src/Conn/Invariant/Reader.antt =====
-- The reader keeps the invariant.
use mathlib.Core.List.{append_assoc}
use chrome.Base.{
  ℕ, ◌+◌, ◌<◌, ◌≡◌, sym, ap, ◌∙◌, Bool, true, false, ◌&&◌, ◌||◌, List, ◌++◌, length, length-append,
  length-take, take-append-drop, All, All-map, arith, if_intro, take, drop, min, leb,
}
use chrome.Conn.Options.{ConnOptions}
use chrome.Conn.State.{State, Attempt, Phase, dialing, trying, winning, relaying, closing, over}
use chrome.Conn.Request.{read_request, stop_conn_loop, conn_buf_size, max_request_size}
use chrome.Conn.Invariant.Ready.{AllSound-ready}
use chrome.Conn.Acted.{in_flight, Sent, Stage}
use chrome.Conn.Invariant.{Sound, Inv}

-- A run of the reader: what it held it holds, and more of the stream behind it.
Sent-append :
    (request wire more flight : List ℕ) (sent : ℕ)
    → Sent request wire sent flight
    → Sent (request ++ more) wire sent flight
Sent-append request wire more flight sent (l, (rest, e)) = (
  l,
  (
    rest ++ more,
    ap (λ zs. wire ++ zs) (sym (append_assoc flight rest more))
        ∙ sym (append_assoc wire (flight ++ rest) more)
        ∙ ap (λ zs. zs ++ more) e,
  ),
)

-- No relay has started while the reader reads.
Stage-append :
    (request request' : List ℕ) (r : Bool) (p : Phase) (a : Attempt)
    → Stage request false p a
    → Stage request' r p a
Stage-append request request' r relaying a h = absurd (cc (h.4))
Stage-append request request' r dialing a h = h
Stage-append request request' r trying a h = h
Stage-append request request' r winning a h = h
Stage-append request request' r closing a h = h
Stage-append request request' r over a h = h

AllSound-append :
    (request more : List ℕ) (r : Bool) (xs : List Attempt)
    → All (Sound request false) xs
    → All (Sound (request ++ more) r) xs
AllSound-append request more r xs h =
    All-map (Sound request false) (Sound (request ++ more) r) xs
      (λ a b. (
        Sent-append request a.wire more (in_flight a.sender) a.sent b.0,
        Stage-append request (request ++ more) r a.phase a b.1,
      ))
      h

module _ (opts : ConnOptions) (stream : List ℕ) where
  pub read_request-Inv :
      (n : ℕ) (err : Bool) (s : State) → Inv opts stream s → Inv opts stream (read_request n err s)
  unfolding read_request stop_conn_loop
  read_request-Inv n err s inv =
      if_intro Good s.read_done _ _ (λ done. inv)
        λ reading.
          if_intro Good (err || leb max_request_size (length (s.request ++ bytes))) _ _
            (λ stops. record {
              counts = ground arith;
              waits = ground arith;
              winner = ground arith;
              reads = record {
                whole = whole;
                bounded = bounded reading;
                reading = λ e. absurd (cc);
              };
              sound = sound (s.loop_done && true) reading;
            })
            (λ goes_on. record {
              counts = ground arith;
              waits = ground arith;
              winner = ground arith;
              reads = record {
                whole = whole;
                bounded = bounded reading;
                reading = λ e. ground (arith, goes_on);
              };
              sound = sound (s.loop_done && s.read_done) reading;
            })
    where
      Good : State → Type 0
      Good = Inv opts stream

      bytes : List ℕ
      bytes = take (min n conn_buf_size) s.input

      whole : (s.request ++ bytes) ++ drop (min n conn_buf_size) s.input ≡ stream
      whole =
          append_assoc s.request bytes (drop (min n conn_buf_size) s.input)
          ∙ ap (λ zs. s.request ++ zs) (take-append-drop (min n conn_buf_size) s.input)
          ∙ inv.reads.whole

      bounded : s.read_done ≡ false → length (s.request ++ bytes) < max_request_size + conn_buf_size
      bounded reading = omega (
        arith,
        inv.reads.reading reading,
        length-append s.request bytes,
        length-take (min n conn_buf_size) s.input,
      )

      sound : (r : Bool) → s.read_done ≡ false → All (Sound (s.request ++ bytes) r) s.all
      sound r reading = AllSound-append s.request bytes r s.all (
          AllSound-ready s.request (s.loop_done && s.read_done) false s.all (λ e. ground arith)
            inv.sound)
