-- ===== src/Query.antt =====
-- From the filters of the user to what the kernel can match: zimascoped/src/query, with the cgroup
-- index of zimascoped/src/cgroup.rs.
pub mod Lowering
pub mod Lowered
pub mod Containers
pub mod Agreement
pub mod Resolving
pub mod Cgroups
