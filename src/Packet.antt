-- ===== src/Packet.antt =====
-- Packet parsing in the eBPF programs: zimascope-ebpf/src/parse.rs, and the pointer-backed cursor
-- of zimascope-ebpf/src/tc.rs.
pub mod Cursor
pub mod Parse
