-- ===== src/RulePolicy.antt =====
-- Traffic Rules in user space: zimascoped/src/policy/mod.rs, with the selectors of
-- zimascoped/src/query/ that rules target and the kernel-map operations of
-- zimascoped/src/collector/aya.rs that a compiled policy becomes.
pub mod Selectors
pub mod Rules
pub mod Compile
pub mod Diff
pub mod Apply
