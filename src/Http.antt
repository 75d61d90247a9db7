-- ===== src/Http.antt =====
-- service/http/http.go: the routes of the http proxy. `Rules` keeps what a line of a list of hosts
-- says, `Lines` reads a list with the files that it includes, `Digest` is the checksum of a list,
-- `Allow` decides for a host, `Cache` is the cache of routes, `Maps` are the redirects and the
-- rewritten hosts.
pub mod Lines
pub mod Rules
pub mod Digest
pub mod Allow
pub mod Cache
pub mod Maps
mod Tests
