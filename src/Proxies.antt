-- ===== src/Proxies.antt =====
-- proxy.go: chains of proxies.
pub mod Chain
pub mod Same
pub mod Tests
