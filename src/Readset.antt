-- ===== src/Readset.antt =====
-- internal/hp/readset.go: when a record made at another tree may be served because of what its run
-- was seen to read (tier 2). A nil read set is `none`.
pub mod Observed
pub mod Added
pub mod Match
pub mod Harmless
pub mod Promotion
pub mod Parse
pub mod Whole
mod Tests
