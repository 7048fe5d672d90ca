-- ===== src/Compressor/Normalize.antt =====
-- compressor.rs: the normalization between session space and op space.
use distributed_id_allocator.Common.{
  ℕ, Option, none, some, true, false, not, Run, done, Result, ok, err, ◌>>=◌, leb, if◌then◌else◌,
}
use distributed_id_allocator.Ids.Errors.{
  AllocatorError, invalid_session_space_id, invalid_op_space_id,
}
use distributed_id_allocator.Ids.Local.{LocalId, to_generation_count}
use distributed_id_allocator.Ids.Final.{FinalId, final_lt}
use distributed_id_allocator.Ids.Stable.{SessionId}
use distributed_id_allocator.Ids.Space.{
  local, final, SessionSpaceId, session_to_space, session_from_local, session_from_final, OpSpaceId,
  op_is_local, op_to_space, op_from_local, op_from_final,
}
use distributed_id_allocator.Tables.SessionSpace.{
  create_from_token, ref_eq, try_convert_to_final, get_aligned_local,
  get_cluster_by_allocated_final,
}
use distributed_id_allocator.Tables.Sessions.{deref_session_space}
use distributed_id_allocator.Tables.Normalizer.{contains}
use distributed_id_allocator.Compressor.{
  IdCompressor, nil_token, get_local_session_space, get_session_token_from_session_id,
}

abbrev most_final : LocalId → Option FinalId → OpSpaceId
most_final local_id none = op_from_local local_id
most_final local_id (some converted_final) = op_from_final converted_final

unfoldable pub normalize_to_op_space :
    IdCompressor → SessionSpaceId → Run (Result OpSpaceId AllocatorError)
normalize_to_op_space c id = elim (session_to_space id) [
  | final final_id ↦ done (ok (op_from_final final_id))
  | local local_id ↦ contains c.session_space_normalizer local_id >>= λ known.
      if not known
      then done (err invalid_session_space_id)
      else (get_local_session_space c >>= λ space.
          try_convert_to_final space local_id true >>= λ converted.
          done (ok (most_final local_id converted)))
]

abbrev final_or_invalid : Option FinalId → Result SessionSpaceId AllocatorError
final_or_invalid none = err invalid_op_space_id
final_or_invalid (some f) = ok (session_from_final f)

-- A local ID that the local session sent.
unfoldable pub own_local_to_session_space :
    IdCompressor → LocalId → Run (Result SessionSpaceId AllocatorError)
own_local_to_session_space c local_to_normalize = do
  known ← contains c.session_space_normalizer local_to_normalize
  if known
      then done (ok (session_from_local local_to_normalize))
      else if leb (to_generation_count local_to_normalize) c.generated_id_count
      then (get_local_session_space c >>= λ space.
          try_convert_to_final space local_to_normalize true >>= λ converted.
          done (final_or_invalid converted))
      else done (err invalid_op_space_id)

-- A local ID from another session.
unfoldable pub foreign_local_to_session_space :
    IdCompressor → ℕ → LocalId → Run (Result SessionSpaceId AllocatorError)
foreign_local_to_session_space c originator_token local_to_normalize = do
  space ← deref_session_space c.sessions (create_from_token originator_token)
  converted ← try_convert_to_final space local_to_normalize false
  done (final_or_invalid converted)

-- A final ID whose cluster is in the local chain.
abbrev aligned_to_session_space :
    IdCompressor → FinalId → Option LocalId → Run (Result SessionSpaceId AllocatorError)
aligned_to_session_space c final_to_normalize none = done (err invalid_op_space_id)
aligned_to_session_space c final_to_normalize (some aligned_local) =
    contains c.session_space_normalizer aligned_local >>= λ known. done (
      if known
      then ok (session_from_local aligned_local)
      else if leb (to_generation_count aligned_local) c.generated_id_count
      then ok (session_from_final final_to_normalize)
      else err invalid_op_space_id)

unfoldable pub final_to_session_space :
    IdCompressor → FinalId → Run (Result SessionSpaceId AllocatorError)
final_to_session_space c final_to_normalize = do
  space ← get_local_session_space c
  containing ← get_cluster_by_allocated_final space final_to_normalize
  elim containing [
    | some containing_cluster ↦
        aligned_to_session_space c final_to_normalize
          (get_aligned_local containing_cluster final_to_normalize)
    | none ↦ done (
        if not (final_lt final_to_normalize c.final_id_limit)
        then err invalid_op_space_id
        else ok (session_from_final final_to_normalize))
  ]

unfoldable pub normalize_to_session_space_with_token :
    IdCompressor → OpSpaceId → ℕ → Run (Result SessionSpaceId AllocatorError)
normalize_to_session_space_with_token c id originator_token = elim (op_to_space id) [
  | local local_to_normalize ↦
      if ref_eq (create_from_token originator_token) c.local_session_ref
      then own_local_to_session_space c local_to_normalize
      else foreign_local_to_session_space c originator_token local_to_normalize
  | final final_to_normalize ↦ final_to_session_space c final_to_normalize
]

unfoldable pub normalize_to_session_space :
    IdCompressor → OpSpaceId → SessionId → Run (Result SessionSpaceId AllocatorError)
normalize_to_session_space c id originator = elim (get_session_token_from_session_id c originator) [
  | ok token ↦ normalize_to_session_space_with_token c id token
  | err e ↦
      if op_is_local id then done (err e) else normalize_to_session_space_with_token c id nil_token
]
