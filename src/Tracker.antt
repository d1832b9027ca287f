-- ===== src/Tracker.antt =====
-- Flow reconciliation: `FlowTracker` of zimascoped/src/collector/tracker.rs. A method that mutates
-- the tracker returns the new one. The hash maps are association lists, so the order of the updates
-- for flows that age out is that of the list. Durations and instants are nanoseconds.
pub mod Clock
pub mod Merge
pub mod Reconcile
