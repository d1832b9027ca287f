-- ===== src/Fingerprints.antt =====
-- Service fingerprints: zimascoped/src/collector/fingerprint.rs. The library document is a value, since
-- the reading of JSON is not the repository's own.
pub mod Question
pub mod Match
pub mod Compile
pub mod Library
pub mod Fallback
pub mod First
pub mod Valid
pub mod Termination
