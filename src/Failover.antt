-- ===== src/Failover.antt =====
-- service/socks/balancer/failover/failover.go: the candidates of a failover balancer, ordered by
-- their scores. `Elem` scores one candidate, `Queue` keeps them in order and counts the low and
-- the high ones, `Conn` reports what happens on a connection back to the queue.
pub mod Elem
pub mod Queue
pub mod Conn
mod Tests
