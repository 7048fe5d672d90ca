-- ===== src/Examples.antt =====
-- A compressor of a first session and a second session, for the tests and the witnesses.
mod Apart
mod Lives
mod Network
mod Numbers
mod Runs
mod Saved
mod Traces
mod Values
mod Witnesses
use distributed_id_allocator.Common.{
  ℕ, ◌+◌, ◌-◌, ◌*◌, ◌^◌, ◌≡◌, refl, List, [], ◌∷◌, ◌++◌, Option, none, some, Bool, true, false, Run,
  done, Result, ok, err, ◌>>=◌, arith,
}
use distributed_id_allocator.Word.{minus_one}
use distributed_id_allocator.Ids.Local.{
  to_generation_count, from_generation_count, local_eq_i64, local_sub, local_lt, local_eq,
}
use distributed_id_allocator.Ids.Space.{
  session_to_space, session_from_local, session_from_final, op_to_space, op_from_local,
  op_from_final,
}
use distributed_id_allocator.Ids.Stable.{
  SessionId, stable_from_u128, u128_from_stable, stable_add_local, stable_add, stable_sub_u64,
  stable_sub, stable_from_uuid, uuid_from_stable, session_from_uuid, session_id_from_uuid_u128,
}
use distributed_id_allocator.Bytes.{to_le_bytes, from_le_bytes, take_one, write_to_vec}
use distributed_id_allocator.Search.{search_loop, binary_search_by}
use distributed_id_allocator.Tables.SessionSpace.{
  IdCluster, SessionSpace, get_allocated_final, max_allocated_final, get_aligned_local, max_local,
  max_allocated_local, cluster_eq, cluster_chain_is_empty, session_tail_cluster,
  session_tail_cluster_mut, get_max_allocated_stable, session_add_cluster,
  session_add_empty_cluster, compare_local, compare_final, get_cluster_by_local,
  get_cluster_by_allocated_final, try_convert_to_final,
}
use distributed_id_allocator.Tables.SessionMap.{map_get, map_insert, last_in_range}
use distributed_id_allocator.Tables.Sessions.{
  get_session_count, get_or_create, get_session_id, sessions_get, deref_session_space,
  deref_session_space_mut, deref_cluster_mut, deref_cluster, get_containing_cluster, range_collides,
}
use distributed_id_allocator.Tables.FinalSpace.{
  get_cluster_count, final_add_cluster, final_search, final_tail_cluster, deref_all, get_clusters,
}
use distributed_id_allocator.Tables.Normalizer.{add_local_range, compare_range, contains}
use distributed_id_allocator.Compressor.{
  IdCompressor, get_default_cluster_capacity, new_with_session_id,
  get_session_token_from_session_id, set_cluster_capacity, get_telemetry_stats,
}
use distributed_id_allocator.Compressor.Allocate.{
  generate_next_local_id, next_id_after, generate_next_id, take_next_range,
}
use distributed_id_allocator.Compressor.Finalize.{
  add_empty_cluster, update_limit, overflow_to_new, grow_tail, finalize_at_tail,
  finalize_in_session, finalize_ids, finalize_range,
}
use distributed_id_allocator.Compressor.Normalize.{
  normalize_to_op_space, own_local_to_session_space, foreign_local_to_session_space,
  final_to_session_space, normalize_to_session_space_with_token, normalize_to_session_space,
}
use distributed_id_allocator.Compressor.Decompress.{
  is_decompressible, decompress_final, decompress, recompress_unfinalized, recompress_own,
  recompress_foreign, recompress,
}
use distributed_id_allocator.Persistence.Ranges.{
  write_ranges, serialize_normalizer, read_ranges, deserialize_normalizer,
}
use distributed_id_allocator.Persistence.Write.{
  serialize_header, write_cluster, write_clusters, serialize_finalized, serialize_without_local,
  serialize_with_local, serialize,
}
use distributed_id_allocator.Persistence.Read.{
  read_sessions, read_cluster, add_read_cluster, read_clusters, read_finalized, read_local,
  deserialize_v1, deserialize,
}
use distributed_id_allocator.Tables.Equals.{
  filtered_from, get_sorted_sessions, chain_eq, compare_sorted, sessions_equals_test_only,
  ref_equals_test_only, refs_equal, final_equals_test_only, ranges_eq, normalizer_eq,
}
use distributed_id_allocator.Compressor.Equals.{local_state_equals, equals_test_only}
use distributed_id_allocator.Compressor.Handout.{id_of_generation}
use distributed_id_allocator.Compressor.Spaces.{op_of_generation}

-- The sessions' UUIDs without version and variant.
abbrev pub session_a : SessionId
session_a = record { id = record { id = 5000 } }

abbrev pub session_b : SessionId
session_b = record { id = record { id = 9000000 } }

-- The first session's cluster: one ID is finalized, 512 more are allocated.
abbrev pub cluster_a : IdCluster
cluster_a = record {
  base_final_id = record { id = 0 };
  base_local_id = record { id = minus_one };
  capacity = 513;
  count = 1;
}

abbrev pub space_a : SessionSpace
space_a = record { cluster_chain = cluster_a ∷ [] }

-- A compressor of the first session after its first ID was finalized and two more were generated,
-- as final IDs.
abbrev pub used : IdCompressor
used = record {
  session_id = session_a;
  local_session_ref = record { index = 0 };
  generated_id_count = 3;
  next_range_base_generation_count = 2;
  final_id_limit = record { id = 1 };
  cluster_capacity = 512;
  telemetry_stats = record {
    eager_final_count = 2;
    local_id_count = 1;
    expansion_count = 0;
    cluster_creation_count = 1;
  };
  sessions = record {
    session_map = (session_a, record { index = 0 }) ∷ [];
    session_list = space_a ∷ [];
    session_ids = 136 ∷ 19 ∷ 0 ∷ 0 ∷ 0 ∷ 0 ∷ 0 ∷ 0 ∷ 0 ∷ 0 ∷ 0 ∷ 0 ∷ 0 ∷ 0 ∷ 0 ∷ 0 ∷ [];
  };
  final_space = record {
    clusters = record { session_space_ref = record { index = 0 }; cluster_chain_index = 0 } ∷ [];
  };
  session_space_normalizer = record { leading_locals = (record { id = minus_one }, 1) ∷ [] };
}

-- One name for the definitions that a run goes through.
unfoldable pub program : Unit {0}
unfolding to_generation_count from_generation_count local_eq_i64 local_sub local_lt local_eq
    session_to_space session_from_local session_from_final op_to_space op_from_local op_from_final
    stable_from_u128 u128_from_stable stable_add_local stable_add stable_sub_u64 stable_sub
    stable_from_uuid uuid_from_stable session_from_uuid session_id_from_uuid_u128 to_le_bytes
    from_le_bytes take_one write_to_vec search_loop binary_search_by get_allocated_final
    max_allocated_final get_aligned_local max_local max_allocated_local cluster_eq
    cluster_chain_is_empty session_tail_cluster session_tail_cluster_mut get_max_allocated_stable
    session_add_cluster session_add_empty_cluster compare_local compare_final get_cluster_by_local
    get_cluster_by_allocated_final try_convert_to_final map_get map_insert last_in_range
    get_session_count get_or_create get_session_id sessions_get deref_session_space
    deref_session_space_mut deref_cluster_mut deref_cluster get_containing_cluster range_collides
    get_cluster_count final_add_cluster final_search final_tail_cluster deref_all get_clusters
    add_local_range compare_range contains get_default_cluster_capacity new_with_session_id
    get_session_token_from_session_id set_cluster_capacity get_telemetry_stats
    generate_next_local_id next_id_after generate_next_id take_next_range add_empty_cluster
    update_limit overflow_to_new grow_tail finalize_at_tail finalize_in_session finalize_ids
    finalize_range normalize_to_op_space own_local_to_session_space foreign_local_to_session_space
    final_to_session_space normalize_to_session_space_with_token normalize_to_session_space
    is_decompressible decompress_final decompress recompress_unfinalized recompress_own
    recompress_foreign recompress write_ranges serialize_normalizer read_ranges
    deserialize_normalizer serialize_header write_cluster write_clusters serialize_finalized
    serialize_without_local serialize_with_local serialize read_sessions read_cluster
    add_read_cluster read_clusters read_finalized read_local deserialize_v1 deserialize
    id_of_generation op_of_generation filtered_from get_sorted_sessions chain_eq compare_sorted
    sessions_equals_test_only ref_equals_test_only refs_equal final_equals_test_only ranges_eq
    normalizer_eq local_state_equals equals_test_only
program = tt
