-- ===== src/Names.antt =====
-- helpers.go, identifiers.go and monitor/watchlist.go: the DNS names of a certificate and the watch
-- list that they are held against.
pub mod Text
pub mod Wildcard
pub mod Watchlist
pub mod Suffix
pub mod Identifiers
pub mod Sane
pub mod Covers
pub mod Certificate
pub mod Named
pub mod Sample
mod Tests
