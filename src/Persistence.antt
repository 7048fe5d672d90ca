-- ===== src/Persistence.antt =====
-- The serialized form of a compressor: compressor/persistence.rs and
-- compressor/tables/session_space_normalizer/persistence.rs.
pub mod Ranges
pub mod Write
pub mod Listed
pub mod Clusters
pub mod Rebuilt
pub mod Sessions
pub mod Encodes
pub mod Remaps
pub mod Opened
pub mod Reads
pub mod RoundTrip
pub mod Resumed
pub mod Truncated
pub mod Read
