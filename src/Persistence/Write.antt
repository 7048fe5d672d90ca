-- ===== src/Persistence/Write.antt =====
-- persistence.rs: `serialize` and `serialize_with_local`.
use distributed_id_allocator.Common.{
  ℕ, ◌-◌, ◌*◌, ◌%◌, ◌^◌, List, [], ◌∷◌, ◌++◌, Option, none, some, Bool, true, false, Run, done,
  panicked, ◌>>=◌, length, drop, ltb, leb, ◌==◌, if◌then◌else◌,
}
use distributed_id_allocator.Word.{sub_u64}
use distributed_id_allocator.Bytes.{write_u32_to_vec, write_u64_to_vec, write_u128_to_vec}
use distributed_id_allocator.Ids.Final.{get_id_from_final_id}
use distributed_id_allocator.Ids.Stable.{stable_from_session, u128_from_stable}
use distributed_id_allocator.Tables.SessionSpace.{
  IdCluster, ClusterRef, max_allocated_final, get_session_space_ref, get_index,
}
use distributed_id_allocator.Tables.Sessions.{get_session_count, get_session_id_slice}
use distributed_id_allocator.Tables.FinalSpace.{final_tail_cluster, get_cluster_count, get_clusters}
use distributed_id_allocator.Compressor.{IdCompressor}
use distributed_id_allocator.Persistence.Ranges.{serialize_normalizer}

-- `bool as u32`.
abbrev pub bool_as_u32 : Bool → ℕ
bool_as_u32 true = 1
bool_as_u32 false = 0

abbrev pub largest_final : Option IdCluster → ℕ
largest_final none = 0
largest_final (some cluster) = get_id_from_final_id (max_allocated_final cluster)

-- Version, whether there is local state, and whether clusters are written in 32 bits.
unfoldable pub serialize_header : IdCompressor → Bool → List ℕ → Run (Bool × List ℕ)
serialize_header c is_local bytes = do
  last ← final_tail_cluster c.final_space c.sessions
  let is_32_bit = ltb (largest_final last) (2 ^ 32 - 1)
  let versioned = write_u32_to_vec bytes 1
  let with_local = write_u32_to_vec versioned (bool_as_u32 is_local)
  done (is_32_bit, write_u32_to_vec with_local (bool_as_u32 is_32_bit))

-- `write_cluster`: three numbers, in 32 or 64 bits.
unfoldable pub write_cluster : Bool → IdCluster → ℕ → List ℕ → List ℕ
write_cluster true cluster session_index_override bytes =
    write_u32_to_vec
      (write_u32_to_vec (write_u32_to_vec bytes (session_index_override % 2 ^ 32))
        (cluster.capacity % 2 ^ 32))
      (cluster.count % 2 ^ 32)
write_cluster false cluster session_index_override bytes =
    write_u64_to_vec
      (write_u64_to_vec (write_u64_to_vec bytes session_index_override) cluster.capacity)
      cluster.count

unfoldable pub write_clusters : Bool → ℕ → List (IdCluster × ClusterRef) → List ℕ → List ℕ
write_clusters is_32_bit session_count_delta [] bytes = bytes
write_clusters is_32_bit session_count_delta ((id_cluster, cluster_ref) ∷ clusters) bytes =
    write_clusters is_32_bit session_count_delta clusters (
      write_cluster is_32_bit id_cluster
        (sub_u64 (get_index (get_session_space_ref cluster_ref)) session_count_delta) bytes)

-- `&slice[from..]`, which panics where the slice is too short.
abbrev pub slice_from : List ℕ → ℕ → Run (List ℕ)
slice_from bytes from = if leb from (length bytes) then done (drop from bytes) else panicked

-- Without a generated ID the local session, the first in the list, is left out.
abbrev pub session_count_delta_of : IdCompressor → ℕ
session_count_delta_of c = if c.generated_id_count == 0 then 1 else 0

unfoldable pub serialize_finalized : IdCompressor → Bool → List ℕ → Run (List ℕ)
serialize_finalized c is_32_bit bytes = do
  let session_count = get_session_count c.sessions
  let delta = session_count_delta_of c
  let with_capacity = write_u64_to_vec bytes c.cluster_capacity
  let with_count = write_u64_to_vec with_capacity (sub_u64 session_count delta)
  session_slice ← slice_from (get_session_id_slice c.sessions) (delta * 16)
  let with_sessions = with_count ++ session_slice
  let with_cluster_count = write_u64_to_vec with_sessions (get_cluster_count c.final_space)
  clusters ← get_clusters c.final_space c.sessions
  done (write_clusters is_32_bit delta clusters with_cluster_count)

unfoldable pub serialize_without_local : IdCompressor → Run (List ℕ)
serialize_without_local c = do
  (is_32_bit, bytes) ← serialize_header c false []
  serialize_finalized c is_32_bit bytes

unfoldable pub serialize_with_local : IdCompressor → Run (List ℕ)
serialize_with_local c = do
  (is_32_bit, bytes) ← serialize_header c true []
  let with_session = write_u128_to_vec bytes (u128_from_stable (stable_from_session c.session_id))
  let with_generated = write_u64_to_vec with_session c.generated_id_count
  let with_next = write_u64_to_vec with_generated c.next_range_base_generation_count
  serialize_finalized c is_32_bit (serialize_normalizer c.session_space_normalizer with_next)

-- `IdCompressor::serialize`.
unfoldable pub serialize : IdCompressor → Bool → Run (List ℕ)
serialize c include_local_state =
    if include_local_state then serialize_with_local c else serialize_without_local c
