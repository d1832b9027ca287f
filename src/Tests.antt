-- ===== src/Tests.antt =====
-- Concrete packets, maps and polls, and the development's theorems applied to them.
mod Data
mod Names
mod Routes
mod Fingerprints
mod Packets
mod Rules
mod Path
mod Daemon
mod Policies
mod Compiling
mod Collecting
mod Selecting
