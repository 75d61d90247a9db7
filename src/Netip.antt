-- ===== src/Netip.antt =====
-- internal/netiputil: sets of address ranges (rangeset.go), and prefixes as ranges (parse.go).
pub mod Addr
pub mod RangeSet
pub mod Prefix
mod Tests
