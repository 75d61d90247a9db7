-- ===== src/RoundRobin.antt =====
-- service/socks/balancer/roundrobin/roundrobin.go: the index that connections share, and its owner.
pub mod Steps
pub mod Invariant
pub mod Safety
pub mod Tests
