-- ===== src/Matchset.antt =====
-- internal/matchset/matchset.go: sets of glob-like patterns over host names. `Charset` is the bit
-- set of bytes, `Group` reads a class in brackets, `Parse` turns a pattern into atoms, `Match` runs
-- the patterns over a source.
pub mod Charset
pub mod Group
pub mod Parse
pub mod Match
mod Tests
