-- ===== src/Persistence/Read.antt =====
-- persistence.rs: `deserialize`. The crate `uuid` and the generator of a session ID are parameters.
use Prim.Native.String.{String}
use distributed_id_allocator.Common.{
  ℕ, zero, suc, List, [], ◌∷◌, ◌++◌, Option, none, some, Bool, true, false, not, ◌&&◌, Run, done,
  Result, ok, err, ◌>>=◌, unwrap, get_elem?, ◌==◌, if◌then◌else◌,
}
use distributed_id_allocator.Word.{minus_one}
use distributed_id_allocator.Bytes.{take_u32, take_u64, take_u128}
use distributed_id_allocator.Ids.Local.{LocalId, local_id_from_id, local_sub}
use distributed_id_allocator.Ids.Final.{FinalId, final_id_from_id, final_add}
use distributed_id_allocator.Ids.Stable.{
  SessionId, session_eq, session_id_from_id_u128, UuidCrate, session_new, session_id_from_uuid_u128,
}
use distributed_id_allocator.Tables.SessionSpace.{
  IdCluster, SessionSpaceRef, session_tail_cluster, session_add_cluster,
}
use distributed_id_allocator.Tables.Sessions.{get_or_create, deref_session_space_mut}
use distributed_id_allocator.Tables.FinalSpace.{final_tail_cluster, final_add_cluster}
use distributed_id_allocator.Compressor.{IdCompressor, new_with_session_id}
use distributed_id_allocator.Compressor.Finalize.{limit_after}
use distributed_id_allocator.Persistence.Ranges.{deserialize_normalizer}

pub data DeserializationError : Type 0 where
  invalid_resumed_session : DeserializationError
  unknown_version : DeserializationError
  malformed_input : DeserializationError

-- `impl ErrorString for DeserializationError`.
pub deserialization_error_string : DeserializationError → String
deserialization_error_string invalid_resumed_session = "Cannot resume existing session."
deserialization_error_string malformed_input = "Malformed serialized input."
deserialization_error_string unknown_version = "Unknown deserialization error."

-- The loop over the sessions: it ends at a session that is the new compressor's own.
unfoldable pub read_sessions :
    ℕ
    → Bool
    → List SessionSpaceRef
    → IdCompressor
    → List ℕ
    → Run (Result (List SessionSpaceRef × IdCompressor) DeserializationError × List ℕ)
read_sessions zero with_local_state session_ref_remap c deserializer =
    done (ok (session_ref_remap, c), deserializer)
read_sessions (suc session_count) with_local_state session_ref_remap c deserializer = do
  (id_u128, deserializer') ← take_u128 deserializer
  let session_id = session_id_from_id_u128 id_u128
  let (r, sessions) = get_or_create c.sessions session_id
  elim (not with_local_state && session_eq session_id c.session_id) [
    | true ↦ done (err invalid_resumed_session, deserializer')
    | false ↦
        read_sessions session_count with_local_state (session_ref_remap ++ (r ∷ []))
          (record c { sessions = sessions }) deserializer'
  ]

unfoldable pub read_cluster : Bool → List ℕ → Run (ℕ × ℕ × ℕ × List ℕ)
read_cluster true deser = do
  (session_index, deser') ← take_u32 deser
  (capacity, deser'') ← take_u32 deser'
  (count, deser''') ← take_u32 deser''
  done (session_index, capacity, count, deser''')
read_cluster false deser = do
  (session_index, deser') ← take_u64 deser
  (capacity, deser'') ← take_u64 deser'
  (count, deser''') ← take_u64 deser''
  done (session_index, capacity, count, deser''')

-- The local ID after the session's last cluster, or -1.
abbrev pub next_base_local : Option IdCluster → LocalId
next_base_local none = local_id_from_id minus_one
next_base_local (some cluster) = local_sub cluster.base_local_id cluster.capacity

-- One round of the loop over the clusters.
unfoldable pub add_read_cluster :
    List SessionSpaceRef → FinalId → ℕ → ℕ → ℕ → IdCompressor → Run IdCompressor
add_read_cluster session_ref_remap base_final_id session_index capacity count c = do
  session_space_ref ← unwrap (get_elem? session_ref_remap session_index)
  (session_space, put_space) ← deref_session_space_mut c.sessions session_space_ref
  let (new_cluster_ref, session_space') =
      session_add_cluster session_space session_space_ref (record {
        base_final_id = base_final_id;
        base_local_id = next_base_local (session_tail_cluster session_space);
        capacity = capacity;
        count = count;
      })
  done (record c {
    sessions = put_space session_space';
    final_space = final_add_cluster c.final_space new_cluster_ref;
  })

unfoldable pub read_clusters :
    ℕ → Bool → List SessionSpaceRef → FinalId → IdCompressor → List ℕ → Run (IdCompressor × List ℕ)
read_clusters zero is_32_bit session_ref_remap base_final_id c deserializer = done (c, deserializer)
read_clusters (suc cluster_count) is_32_bit session_ref_remap base_final_id c deserializer = do
  (session_index, capacity, count, deserializer') ← read_cluster is_32_bit deserializer
  c' ← add_read_cluster session_ref_remap base_final_id session_index capacity count c
  read_clusters cluster_count is_32_bit session_ref_remap (final_add base_final_id capacity) c'
      deserializer'

-- The clusters and the limit, after the sessions.
unfoldable pub read_finalized :
    Bool → List SessionSpaceRef → IdCompressor → List ℕ → Run IdCompressor
read_finalized is_32_bit session_ref_remap c deserializer = do
  (cluster_count, deserializer') ← take_u64 deserializer
  (c', _) ←
      read_clusters cluster_count is_32_bit session_ref_remap (final_id_from_id 0) c deserializer'
  last ← final_tail_cluster c'.final_space c'.sessions
  done (record c' { final_id_limit = limit_after (final_id_from_id 0) last })

module _ (crate : UuidCrate) (make_session_id : SessionId) where
  -- The compressor before the finalized state: a new one, or one with the local state that follows.
  unfoldable pub read_local : Bool → List ℕ → Run (IdCompressor × List ℕ)
  read_local false deserializer = done (new_with_session_id make_session_id, deserializer)
  read_local true deserializer = do
    (session_uuid_u128, deserializer₁) ← take_u128 deserializer
    let c = new_with_session_id (session_id_from_uuid_u128 crate session_uuid_u128)
    (generated_id_count, deserializer₂) ← take_u64 deserializer₁
    (next_range_base_generation_count, deserializer₃) ← take_u64 deserializer₂
    (normalizer, deserializer₄) ← deserialize_normalizer deserializer₃
    done (
      record c {
        generated_id_count = generated_id_count;
        next_range_base_generation_count = next_range_base_generation_count;
        session_space_normalizer = normalizer;
      },
      deserializer₄,
    )

  -- `v1::deserialize`.
  unfoldable pub deserialize_v1 : List ℕ → Run (Result IdCompressor DeserializationError)
  deserialize_v1 deserializer = do
    (local_flag, deserializer₁) ← take_u32 deserializer
    (bits_flag, deserializer₂) ← take_u32 deserializer₁
    let with_local_state = not (local_flag == 0)
    let is_32_bit = not (bits_flag == 0)
    (compressor, deserializer₃) ← read_local with_local_state deserializer₂
    (cluster_capacity, deserializer₄) ← take_u64 deserializer₃
    let sized = record compressor { cluster_capacity = cluster_capacity }
    (session_count, deserializer₅) ← take_u64 deserializer₄
    (sessions, deserializer₆) ← read_sessions session_count with_local_state [] sized deserializer₅
    elim sessions [
      | err e ↦ done (err e)
      | ok (session_ref_remap, c) ↦
          read_finalized is_32_bit session_ref_remap c deserializer₆ >>= λ c'. done (ok c')
    ]

  unfoldable pub deserialize : List ℕ → Run (Result IdCompressor DeserializationError)
  deserialize bytes = do
    (version, deserializer) ← take_u32 bytes
    if version == 1 then deserialize_v1 deserializer else done (err unknown_version)

  -- `IdCompressor::deserialize_with_session_id_generator`.
  abbrev pub deserialize_with_session_id_generator :
      List ℕ → Run (Result IdCompressor DeserializationError)
  deserialize_with_session_id_generator bytes = deserialize bytes

-- `IdCompressor::deserialize`, with the random UUID that `Uuid::new_v4` returns.
unfoldable pub compressor_deserialize :
    (crate : UuidCrate) → crate.Uuid → List ℕ → Run (Result IdCompressor DeserializationError)
compressor_deserialize crate new_v4 bytes = deserialize crate (session_new crate new_v4) bytes
