-- ===== src/Conn.antt =====
-- conn.go: `NewConn`, which tries to connect until an attempt gets an answer, with the loop that
-- starts attempts, the reader of the request, and each attempt with its sender.
-- The coroutines run one at a time on one executor, so a run is a sequence of events: an event is
-- one stretch of a coroutine, or what a timer, a dial, a read or a write returns. An event that is
-- not due leaves the state alone, as a coroutine that is resumed too early waits again.
pub mod Options
pub mod State
pub mod Timer
pub mod Attempt
pub mod Loop
pub mod Request
pub mod Step
pub mod Acted
pub mod Invariant
pub mod Outgoing
pub mod Safety
pub mod Pace
pub mod Progress
mod Tests
