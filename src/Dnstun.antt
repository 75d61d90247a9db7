-- ===== src/Dnstun.antt =====
-- service/tcptun/dnstun/dnstun.go: the dns tunnel: its servers, its routes, the times to live of its
-- answers, and the exchanges that its worker hands queries to.
pub mod Servers
pub mod Seconds
pub mod Rounding
pub mod Answers
pub mod Ages
pub mod Routes
pub mod Worker
pub mod Handing
pub mod Tests
