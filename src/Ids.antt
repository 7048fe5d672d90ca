-- ===== src/Ids.antt =====
-- The crate `id-types`: rust-wasm-id-allocator/id-types/src.
pub mod Errors
pub mod Local
pub mod Final
pub mod Space
pub mod Stable
pub mod Uuids
