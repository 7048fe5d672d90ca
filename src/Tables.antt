-- ===== src/Tables.antt =====
-- The tables of the compressor:
-- rust-wasm-id-allocator/distributed-id-allocator/src/compressor/tables.
pub mod SessionSpace
pub mod SessionMap
pub mod Sessions
pub mod FinalSpace
pub mod Normalizer
pub mod Equals
pub mod Listing
