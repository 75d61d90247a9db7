-- ===== src/Failover/Conn.antt =====
-- The wrapper `conn` of failover.go, which tells the queue how a connection went: its `Read` and its
-- `Close`, over the results of the wrapped connection.
use chrome.Base.{
  ℕ, ◌<◌, ◌≡◌, refl, ap, ◌∙◌, Bool, true, false, not, Bool-cases, ◌&&◌, ◌||◌, inl, inr, List, [],
  ◌∷◌, Option, none, some, arith, ltb, if◌then◌else◌,
}
use chrome.Failover.Queue.{Queue, fix}
use chrome.Failover.Queue.Fix.{Returns, fix-Inv}
use chrome.Failover.Queue.Invariant.{Inv}

pub record Conn : Type 0 where
  pub e : ℕ
  pub success : Bool
  pub failure : Bool
  pub readfailed : Bool

unfoldable pub new_conn : ℕ → Conn
new_conn e = record { e = e; success = false; failure = false; readfailed = false }

-- A call of a method, with what the wrapped `Read` returns: a count, and whether there is an error.
pub data Op : Type 0 where
  read : ℕ → Bool → Op
  close : Op

-- The queue after a report, which is `none` where the queue panics.
abbrev reported : Conn → Option Queue → Option (Conn × Queue)
reported c none = none
reported c (some q) = some (c, q)

unfoldable pub conn_read : ℕ → Bool → Conn → Queue → Option (Conn × Queue)
conn_read n err c q =
    let c' = record c { readfailed = if err then true else c.readfailed } in
    if ltb 0 n && not c.success
    then reported (record c' { success = true }) (fix q c.e true)
    else some (c', q)

unfoldable pub conn_close : Conn → Queue → Option (Conn × Queue)
conn_close c q =
    if not c.success && not c.failure && c.readfailed
    then reported (record c { failure = true }) (fix q c.e false)
    else some (c, q)

unfoldable pub conn_step : Op → Conn → Queue → Option (Conn × Queue)
unfolding conn_read conn_close
conn_step (read n err) c q = conn_read n err c q
conn_step close c q = conn_close c q

-- The calls in order; the queue that they leave.
abbrev run_rest : (Conn → Queue → Option Queue) → Option (Conn × Queue) → Option Queue
run_rest k none = none
run_rest k (some (c, q)) = k c q

unfoldable pub run : List Op → Conn → Queue → Option Queue
run [] c q = some q
run (op ∷ ops) c q = run_rest (run ops) (conn_step op c q)

-- The same, described by what was seen: the first byte read counts as a success, and a close after
-- a failed read and before any byte counts as a failure.
pub data Verdict : Type 0 where
  works fails : Verdict

unfoldable pub late_verdicts : List Op → List Verdict
late_verdicts [] = []
late_verdicts (read n err ∷ ops) = if ltb 0 n then works ∷ [] else late_verdicts ops
late_verdicts (close ∷ ops) = late_verdicts ops

unfoldable pub verdicts : Bool → List Op → List Verdict
verdicts failed [] = []
verdicts failed (read n err ∷ ops) = if ltb 0 n then works ∷ [] else verdicts (failed || err) ops
verdicts failed (close ∷ ops) = if failed then fails ∷ late_verdicts ops else verdicts false ops

abbrev pub is_works : Verdict → Bool
is_works works = true
is_works fails = false

abbrev tell_rest : (Queue → Option Queue) → Option Queue → Option Queue
tell_rest k none = none
tell_rest k (some q) = k q

unfoldable pub tell : ℕ → List Verdict → Queue → Option Queue
tell e [] q = some q
tell e (v ∷ vs) q = tell_rest (tell e vs) (fix q e (is_works v))

or_comm : (a b : Bool) → (if a then true else b) ≡ (b || a)
or_comm true true = refl
or_comm true false = refl
or_comm false true = refl
or_comm false false = refl

-- A connection that has succeeded reports nothing more.
run_silent : (ops : List Op) (c : Conn) (q : Queue) → c.success ≡ true → run ops c q ≡ some q
unfolding run conn_step
run_silent [] c q h = refl
run_silent (read n err ∷ ops) c q h =
    ground (arith, run_silent ops (record c { readfailed = if err then true else c.readfailed }) q)
run_silent (close ∷ ops) c q h = ground (arith, run_silent ops c q)

run_told :
    (ops : List Op) (c : Conn) (o : Option Queue)
    → c.success ≡ true
    → run_rest (run ops) (reported c o) ≡ tell_rest some o
run_told ops c none h = refl
run_told ops c (some q) h = run_silent ops c q h

-- After a failure was reported, only a first byte is still told.
run_late :
    (ops : List Op) (c : Conn) (q : Queue)
    → c.success ≡ false
    → c.failure ≡ true
    → run ops c q ≡ tell c.e (late_verdicts ops) q
unfolding run conn_step late_verdicts tell
run_late [] c q s f = refl
run_late (read n err ∷ ops) c q s f =
    let c' : Conn = record c { readfailed = if err then true else c.readfailed } in
    elim (Bool-cases (ltb 0 n)) [
      | inl b ↦ rw (b, s) (run_told ops (record c' { success = true }) (fix q c.e true) refl)
      | inr b ↦ rw b (run_late ops c' q s f)
    ]
run_late (close ∷ ops) c q s f = ground (arith, run_late ops c q)

run_failed :
    (ops : List Op) (c : Conn) (o : Option Queue)
    → c.success ≡ false
    → c.failure ≡ true
    → run_rest (run ops) (reported c o) ≡ tell_rest (tell c.e (late_verdicts ops)) o
run_failed ops c none s f = refl
run_failed ops c (some q) s f = run_late ops c q s f

run-verdicts :
    (ops : List Op) (c : Conn) (q : Queue)
    → c.success ≡ false
    → c.failure ≡ false
    → run ops c q ≡ tell c.e (verdicts c.readfailed ops) q
unfolding run conn_step verdicts tell
run-verdicts [] c q s f = refl
run-verdicts (read n err ∷ ops) c q s f =
    let c' : Conn = record c { readfailed = if err then true else c.readfailed } in
    elim (Bool-cases (ltb 0 n)) [
      | inl b ↦ rw (b, s) (run_told ops (record c' { success = true }) (fix q c.e true) refl)
      | inr b ↦ rw b (
          run-verdicts ops c' q s f
          ∙ ap (λ v. tell c.e (verdicts v ops) q) (or_comm err c.readfailed))
    ]
run-verdicts (close ∷ ops) c q s f = elim (Bool-cases c.readfailed) [
  | inl b ↦
      rw (b, s, f)
        (run_failed ops (record c { success = false; failure = true; readfailed = true })
          (fix q c.e false) refl refl)
  | inr b ↦ ground (arith, run-verdicts ops c q)
]

-- For every sequence of reads and closes on a new connection, the queue ends as if it had been
-- told only this: a success at the first read with a byte, preceded by a failure if a close
-- came after a failed read and before that byte; nothing is told twice.
pub run-new_conn :
    (e : ℕ) (ops : List Op) (q : Queue) → run ops (new_conn e) q ≡ tell e (verdicts false ops) q
unfolding new_conn
run-new_conn e ops q = run-verdicts ops (new_conn e) q refl refl

tell_rest-Inv :
    (n e : ℕ) (vs : List Verdict) (o : Option Queue)
    → ((q : Queue) → Inv n q → Returns (Inv n) (tell e vs q))
    → Returns (Inv n) o
    → Returns (Inv n) (tell_rest (tell e vs) o)
tell_rest-Inv n e vs none f r = r
tell_rest-Inv n e vs (some q) f r = f q r

tell-Inv :
    (n e : ℕ) (vs : List Verdict) (q : Queue) → e < n → Inv n q → Returns (Inv n) (tell e vs q)
unfolding tell
tell-Inv n e [] q h i = i
tell-Inv n e (v ∷ vs) q h i =
    tell_rest-Inv n e vs (fix q e (is_works v)) (λ q' i'. tell-Inv n e vs q' h i')
      (fix-Inv n q e (is_works v) i h)

-- For a connection to a candidate of a queue that satisfies the invariant, no sequence of reads
-- and closes makes the queue panic, and the queue satisfies the invariant afterwards.
pub run-Inv :
    (n e : ℕ) (ops : List Op) (q : Queue)
    → e < n
    → Inv n q
    → Returns (Inv n) (run ops (new_conn e) q)
run-Inv n e ops q h i = rw (run-new_conn e ops q) (tell-Inv n e (verdicts false ops) q h i)
