-- ===== src/Domains.antt =====
-- Domain evidence: the parsers of zimascope-ebpf/src/domain.rs over a packet cursor, and the decoder
-- of zimascoped/src/collector/domain.rs that turns samples into observations.
pub mod Dns
pub mod Padding
pub mod Agree
pub mod Dedupe
pub mod Normal
pub mod Names
pub mod Decoder
pub mod SniBounds
pub mod HostBounds
pub mod Options
pub mod Bounds
pub mod Message
pub mod RoundTrip
pub mod Reading
pub mod Sni
pub mod Host
