-- ===== src/Relay.antt =====
-- relay.go: the relay between two connections.
pub mod Options
pub mod Loop
pub mod Ends
mod Tests
