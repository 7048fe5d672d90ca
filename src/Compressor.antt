-- ===== src/Compressor.antt =====
-- compressor.rs: the state of an `IdCompressor`, its construction and its small operations.
pub mod Allocate
pub mod Finalize
pub mod Normalize
pub mod Decompress
pub mod OwnSession
pub mod Generate
pub mod Handout
pub mod Handed
pub mod Delivers
pub mod Life
pub mod Stables
pub mod Finals
pub mod Foreign
pub mod OwnIds
pub mod Spaces
pub mod Taken
pub mod Shares
pub mod Extends
pub mod Grows
pub mod Refines
pub mod Finalizes
pub mod Begins
pub mod Refinement
pub mod Deliver
pub mod Agree
pub mod Network
pub mod Rejects
pub mod Fits
pub mod Unique
pub mod Uuids
pub mod Trace
pub mod Spread
pub mod Separated
pub mod Containing
pub mod Recompress
pub mod Equals
use distributed_id_allocator.Common.{
  ℕ, Option, none, some, Result, ok, err, ltb, if◌then◌else◌, Run,
}
use distributed_id_allocator.Word.{minus_one, neg_i64}
use distributed_id_allocator.Ids.Errors.{
  AllocatorError, invalid_cluster_capacity, no_token_for_session,
}
use distributed_id_allocator.Ids.Local.{to_generation_count, local_id_from_id}
use distributed_id_allocator.Ids.Final.{FinalId, final_id_from_id}
use distributed_id_allocator.Ids.Stable.{SessionId, UuidCrate, session_new}
use distributed_id_allocator.Tables.SessionSpace.{SessionSpaceRef, SessionSpace, get_index}
use distributed_id_allocator.Tables.Sessions.{
  Sessions, new_sessions, get_or_create, sessions_get, deref_session_space,
}
use distributed_id_allocator.Tables.FinalSpace.{FinalSpace, new_final_space}
use distributed_id_allocator.Tables.Normalizer.{SessionSpaceNormalizer, new_normalizer}

-- `NIL_TOKEN`.
abbrev pub nil_token : ℕ
nil_token = minus_one

-- `persistence::DEFAULT_CLUSTER_CAPACITY`.
abbrev pub default_cluster_capacity : ℕ
default_cluster_capacity = 512

pub record TelemetryStats : Type 0 where
  pub eager_final_count : ℕ
  pub local_id_count : ℕ
  pub expansion_count : ℕ
  pub cluster_creation_count : ℕ

-- `TelemetryStats::EMPTY`.
abbrev pub empty_stats : TelemetryStats
empty_stats = record {
  eager_final_count = 0;
  local_id_count = 0;
  expansion_count = 0;
  cluster_creation_count = 0;
}

pub record IdRange : Type 0 where
  pub id : SessionId
  pub range : Option (ℕ × ℕ)

pub record IdCompressor : Type 0 where
  pub session_id : SessionId
  pub local_session_ref : SessionSpaceRef
  pub generated_id_count : ℕ
  pub next_range_base_generation_count : ℕ
  pub final_id_limit : FinalId
  pub cluster_capacity : ℕ
  pub telemetry_stats : TelemetryStats
  pub sessions : Sessions
  pub final_space : FinalSpace
  pub session_space_normalizer : SessionSpaceNormalizer

unfoldable pub get_default_cluster_capacity : ℕ
get_default_cluster_capacity = default_cluster_capacity

unfoldable pub new_with_session_id : SessionId → IdCompressor
new_with_session_id session_id =
    let (local_session_ref, sessions) = get_or_create new_sessions session_id in
    record {
      session_id = session_id;
      local_session_ref = local_session_ref;
      generated_id_count = 0;
      next_range_base_generation_count = to_generation_count (local_id_from_id minus_one);
      final_id_limit = final_id_from_id 0;
      cluster_capacity = default_cluster_capacity;
      telemetry_stats = empty_stats;
      sessions = sessions;
      final_space = new_final_space;
      session_space_normalizer = new_normalizer;
    }

-- `IdCompressor::new`, with the random UUID that `Uuid::new_v4` returns.
unfoldable pub compressor_new : (crate : UuidCrate) → crate.Uuid → IdCompressor
compressor_new crate new_v4 = new_with_session_id (session_new crate new_v4)

abbrev pub get_local_session_id : IdCompressor → SessionId
get_local_session_id c = c.session_id

abbrev pub get_local_session_space : IdCompressor → Run SessionSpace
get_local_session_space c = deref_session_space c.sessions c.local_session_ref

-- `get_index() as i64`.
unfoldable pub get_session_token_from_session_id :
    IdCompressor → SessionId → Result ℕ AllocatorError
get_session_token_from_session_id c session_id = elim (sessions_get c.sessions session_id) [
  | none ↦ err no_token_for_session
  | some session_space ↦ ok (get_index session_space)
]

abbrev pub get_cluster_capacity : IdCompressor → ℕ
get_cluster_capacity c = c.cluster_capacity

unfoldable pub set_cluster_capacity :
    IdCompressor → ℕ → Result (Unit {0}) AllocatorError × IdCompressor
set_cluster_capacity c new_cluster_capacity =
    if ltb new_cluster_capacity 1
    then (err invalid_cluster_capacity, c)
    else (ok tt, record c { cluster_capacity = new_cluster_capacity })

-- Reading the telemetry resets it.
unfoldable pub get_telemetry_stats : IdCompressor → TelemetryStats × IdCompressor
get_telemetry_stats c = (c.telemetry_stats, record c { telemetry_stats = empty_stats })
