-- ===== src/Policy.antt =====
-- internal/hp/policy.go: the classifier of shell commands.
pub mod Tables
pub mod Syntax
pub mod Words
pub mod Heads
pub mod Classify
pub mod Recursion
pub mod Endless
pub mod Reasons
pub mod Chain
pub mod Hermetic
pub mod Writers
pub mod Readers
pub mod Safe
pub mod Plain
pub mod Run
mod Tests
