-- ===== src/Compressor/Decompress.antt =====
-- compressor.rs: `decompress` and `recompress`.
use distributed_id_allocator.Common.{
  ◌^◌, ◌%◌, Option, none, some, Bool, true, false, not, ◌&&◌, Run, done, Result, ok, err, ◌>>=◌,
  ltb, leb, if◌then◌else◌,
}
use distributed_id_allocator.Word.{add_u64, add_u128}
use distributed_id_allocator.Ids.Errors.{
  AllocatorError, invalid_session_space_id, invalid_stable_id,
}
use distributed_id_allocator.Ids.Local.{
  LocalId, to_generation_count, from_generation_count, local_lt,
}
use distributed_id_allocator.Ids.Final.{FinalId}
use distributed_id_allocator.Ids.Stable.{
  StableId, stable_from_session, session_add_local, stable_sub, stable_le,
}
use distributed_id_allocator.Ids.Space.{
  local, final, SessionSpaceId, session_to_space, session_from_local, session_from_final,
}
use distributed_id_allocator.Tables.SessionSpace.{
  IdCluster, SessionSpaceRef, get_session_space_ref, ref_eq, get_aligned_local, max_local,
  get_allocated_final,
}
use distributed_id_allocator.Tables.Sessions.{deref_cluster, get_session_id, get_containing_cluster}
use distributed_id_allocator.Tables.FinalSpace.{final_search}
use distributed_id_allocator.Tables.Normalizer.{contains}
use distributed_id_allocator.Compressor.{IdCompressor}

-- The checks on an ID past the cluster's count: it is good only if the local session handed it out
-- as a final ID.
unfoldable pub is_decompressible : IdCompressor → IdCluster → SessionSpaceRef → LocalId → Run Bool
is_decompressible c containing_cluster containing_session_space aligned_local =
    if local_lt aligned_local (max_local containing_cluster)
    then (if ref_eq containing_session_space c.local_session_ref
        then (contains c.session_space_normalizer aligned_local >>= λ known. done (
            if known
            then false
            else not (ltb c.generated_id_count (to_generation_count aligned_local))))
        else done false)
    else done true

abbrev decompress_aligned :
    IdCompressor
    → IdCluster
    → SessionSpaceRef
    → Option LocalId
    → Run (Result StableId AllocatorError)
decompress_aligned c containing_cluster containing_session_space none =
    done (err invalid_session_space_id)
decompress_aligned c containing_cluster containing_session_space (some aligned_local) =
    is_decompressible c containing_cluster containing_session_space aligned_local >>= λ good.
    if good
    then (get_session_id c.sessions containing_session_space >>= λ session_id.
        done (ok (session_add_local session_id aligned_local)))
    else done (err invalid_session_space_id)

unfoldable pub decompress_final : IdCompressor → FinalId → Run (Result StableId AllocatorError)
decompress_final c final_id = do
  found ← final_search c.final_space final_id c.sessions
  elim found [
    | none ↦ done (err invalid_session_space_id)
    | some containing_cluster_ref ↦
        deref_cluster c.sessions containing_cluster_ref >>= λ containing_cluster.
        decompress_aligned c containing_cluster (get_session_space_ref containing_cluster_ref)
          (get_aligned_local containing_cluster final_id)
  ]

unfoldable pub decompress : IdCompressor → SessionSpaceId → Run (Result StableId AllocatorError)
decompress c id = elim (session_to_space id) [
  | final final_id ↦ decompress_final c final_id
  | local local_id ↦ contains c.session_space_normalizer local_id >>= λ known. done (
      if not known
      then err invalid_session_space_id
      else ok (session_add_local c.session_id local_id))
]

-- `None`: the ID has no cluster; it may be a local ID that is not finalized.
unfoldable pub recompress_unfinalized :
    IdCompressor → StableId → Run (Result SessionSpaceId AllocatorError)
recompress_unfinalized c id =
    let session_as_stable = stable_from_session c.session_id in
    let gen_count_equivalent = add_u128 (stable_sub id session_as_stable) 1 in
    let local_equivalent = from_generation_count (gen_count_equivalent % 2 ^ 64) in
    if stable_le session_as_stable id && leb gen_count_equivalent c.generated_id_count
    then (contains c.session_space_normalizer local_equivalent >>= λ known.
        done (if known then ok (session_from_local local_equivalent) else err invalid_stable_id))
    else done (err invalid_stable_id)

abbrev allocated_or_invalid : Option FinalId → Result SessionSpaceId AllocatorError
allocated_or_invalid none = err invalid_stable_id
allocated_or_invalid (some allocated_final) = ok (session_from_final allocated_final)

-- The cluster is the local session's.
unfoldable pub recompress_own :
    IdCompressor → IdCluster → LocalId → Run (Result SessionSpaceId AllocatorError)
recompress_own c cluster corresponding_local = do
  known ← contains c.session_space_normalizer corresponding_local
  done (
      if known
      then ok (session_from_local corresponding_local)
      else if leb (to_generation_count corresponding_local) c.generated_id_count
      then allocated_or_invalid (get_allocated_final cluster corresponding_local)
      else err invalid_stable_id)

-- The cluster is another session's: only what is finalized counts.
unfoldable pub recompress_foreign : IdCluster → LocalId → Result SessionSpaceId AllocatorError
recompress_foreign cluster corresponding_local =
    if ltb (to_generation_count corresponding_local)
      (add_u64 (to_generation_count cluster.base_local_id) cluster.count)
    then allocated_or_invalid (get_allocated_final cluster corresponding_local)
    else err invalid_stable_id

unfoldable pub recompress : IdCompressor → StableId → Run (Result SessionSpaceId AllocatorError)
recompress c id = do
  containing ← get_containing_cluster c.sessions id
  elim containing [
    | none ↦ recompress_unfinalized c id
    | some (cluster, session_ref, corresponding_local) ↦
        if ref_eq session_ref c.local_session_ref
        then recompress_own c cluster corresponding_local
        else done (recompress_foreign cluster corresponding_local)
  ]
