-- ===== src/Enforcer.antt =====
-- Traffic Rule evaluation in the packet path: zimascope-ebpf/src/policy.rs.
pub mod Bucket
pub mod Evaluate
