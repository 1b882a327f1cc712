-- ===== src/Streams.antt =====
-- src/governance/durable_stream_leases.py: the stream allocations that all replicas share.
pub mod Leases
pub mod Counts
pub mod Caps
