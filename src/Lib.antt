-- ===== src/Lib.antt =====
-- The distributed ID allocator in Rust, rust-wasm-id-allocator/.
--
-- Every compressor of a network generates IDs on its own. An ID begins as a local ID of the
-- compressor's session, counted by generations: the first ID is -1, the next -2. Once a total order
-- of ID ranges is agreed on, every compressor finalizes the same ranges in the same order and so
-- gives each session clusters of final IDs, which are unique in the network. A compressor hands out
-- final IDs early where its own last cluster still has room. Each ID also stands for a UUID.
--
-- Files and the parts that they model:
-- - Common, with Tests, Lists, Last and Outcome: shared names and lemmas. A function that may panic
--   returns a `Run`, one that may fail a `Result`; a function that changes state returns the new
--   state beside its result, also where the result is an error.
-- - Word: the arithmetic of u64, i64 and u128. A number of type i64 is its bit pattern.
-- - Ids, with Errors, Local, Final, Space and Stable: rust-wasm-id-allocator/id-types/src. The
--   bitwise conversion of stable IDs is in Ids/Stable, its lemmas in Ids/Stable/Masks.
-- - Bytes: rust-wasm-id-allocator/distributed-id-allocator/src/compressor/persistence_utils.rs.
-- - Search: `binary_search_by` of Rust's standard library, with its fuel in Search/Fuel, and what it
--   finds in sorted intervals.
-- - Tables: distributed-id-allocator/src/compressor/tables. Tables/SessionSpace models the clusters,
--   the session space and the references, Tables/Sessions the table of all sessions,
--   Tables/SessionMap the `BTreeMap` in it, Tables/FinalSpace the final space and Tables/Normalizer
--   the ranges of IDs that were handed out as local IDs; Tables/Equals is the comparison of two
--   tables that debug builds have, Tables/Listing the text of the identifiers. A mutable reference
--   into a table is the part and a function that writes a changed part back.
-- - Compressor: distributed-id-allocator/src/compressor.rs. Allocate holds `generate_next_id` and
--   `take_next_range`, Finalize `finalize_range`, Normalize the two normalizations, Decompress
--   `decompress` and `recompress`. OwnSession states when the own state is valid, the children after
--   it prove what the operations make of it.
-- - Ledger: the finalized state that a network shares, without tables, references or machine words:
--   one list of all clusters, the latest first, and what a range does to it (`finalize_ledger`). It
--   is the specification of `finalize_range`. Its children prove what a range keeps (Keeps), what a
--   session's clusters are (Sessions, Growth, Distinct), and how the tables hold a ledger (Lays,
--   Writes, Opens, Places).
-- - Compressor/Shares says that a compressor shares a ledger; Extends, Grows, Refines, Finalizes and
--   Begins follow the branches of `finalize_range`, and Refinement puts them together. Deliver and
--   Agree are about a sequence of ranges on one compressor and on two. Network and Delivers are about
--   the own session after a finalization, Life about any sequence of generating, taking and
--   finalizing, with Stables and Finals on the IDs that it leaves. Foreign is about the finalized IDs
--   of any session, Recompress about the way back from a UUID, with Spread, Containing and Separated
--   on sessions whose identifiers are far apart, and Equals is `equals_test_only`.
-- - Persistence: distributed-id-allocator/src/compressor/persistence.rs in Write and Read, and
--   tables/session_space_normalizer/persistence.rs in Ranges. Listed, Clusters, Rebuilt, Sessions,
--   Encodes, Remaps, Opened and Reads follow the parts of the written bytes; RoundTrip and Resumed put
--   them together, and Truncated is about bytes that were cut off.
-- - Interop: rust-wasm-id-allocator/wasm-id-allocator/src/lib.rs, the wrapper for JavaScript, with
--   Ids/Uuids for the text of UUIDs. f64, JavaScript errors and the crate `uuid` are parameters;
--   Interop/Exact states what is relied on of the casts.
-- - Examples: a compressor that is run through its operations, and the theorems at values.
--
-- Each definition bears the name of the function that it models, with a prefix where two functions
-- share a name (`interop_` in Interop). A long function is split at its branches into helpers that
-- stand before it.
--
-- Bounds. A number is the natural number that its machine word holds; arithmetic wraps, as in a
-- release build, which also leaves out the debug assertions; the functions that only debug builds have
-- are modelled with the same arithmetic. `usize` has 64 bits. The length of a vector is not bounded,
-- as a vector fits in memory. The binary search runs on fuel, the length of the slice: each round
-- makes the part that is searched smaller, so the fuel does not run out.
--
-- A compressor's own state is valid (`IsOwn`) if its session space is a chain of clusters that begins
-- at generation 1, each full but the last; the normalizer's ranges ascend and end at the generated
-- count, which is below 2 ^ 63; what is finalized was taken; and what was not handed out as a local ID
-- lies in a cluster. A ledger is in order (`IsLedger`) if its clusters are valid, their final IDs run
-- without a gap, and each session's clusters begin at generation 1, follow each other without a gap
-- and are full but the latest. A network is modelled as the one total order of ranges that its
-- ordering service delivers, and a compressor as what it does between the deliveries. Session
-- identifiers are random; where the code relies on it that they do not meet, they are assumed to lie
-- 2 ^ 64 apart (`IsSpaced`). The `sort_by` of Rust's standard library is an insertion sort.
--
-- Not modelled: the reading, printing and random choice of UUIDs, which the crate `uuid` does (where
-- the code carries a UUID or its text through, the crate is a parameter, and a random UUID is an
-- argument); the Debug output and `to_debug_string`, which format the whole state; the TypeScript
-- implementations, which the Rust crates do not use.
pub mod Common
pub mod Word
pub mod Ids
pub mod Bytes
pub mod Search
pub mod Tables
pub mod Ledger
pub mod Compressor
pub mod Persistence
pub mod Interop
pub mod Examples
