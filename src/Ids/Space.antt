-- ===== src/Ids/Space.antt =====
-- id-types/src/{compressed_id,session_space_id,op_space_id}.rs: the two spaces of compressed IDs.
use distributed_id_allocator.Common.{ℕ, ◌^◌, ◌<◌, ◌≡◌, Bool, not, arith, if◌then◌else◌}
use distributed_id_allocator.Word.{is_negative}
use distributed_id_allocator.Ids.Local.{LocalId, local_id_from_id, get_id_from_local_id}
use distributed_id_allocator.Ids.Local.Generations.{IsLocal}
use distributed_id_allocator.Ids.Final.{FinalId, final_id_from_id}

pub data CompressedId : Type 0 where
  local : LocalId → CompressedId
  final : FinalId → CompressedId

-- Both records hold the bit pattern of an `i64`.
pub record SessionSpaceId : Type 0 where
  pub id : ℕ

pub record OpSpaceId : Type 0 where
  pub id : ℕ

abbrev pub session_is_local : SessionSpaceId → Bool
session_is_local s = is_negative s.id

abbrev pub session_is_final : SessionSpaceId → Bool
session_is_final s = not (is_negative s.id)

unfoldable pub session_to_space : SessionSpaceId → CompressedId
session_to_space s =
    if session_is_local s then local (local_id_from_id s.id) else final (final_id_from_id s.id)

unfoldable pub session_from_local : LocalId → SessionSpaceId
session_from_local l = record { id = get_id_from_local_id l }

unfoldable pub session_from_final : FinalId → SessionSpaceId
session_from_final f = record { id = f.id }

abbrev pub op_is_local : OpSpaceId → Bool
op_is_local s = is_negative s.id

abbrev pub op_is_final : OpSpaceId → Bool
op_is_final s = not (is_negative s.id)

unfoldable pub op_to_space : OpSpaceId → CompressedId
op_to_space s =
    if op_is_local s then local (local_id_from_id s.id) else final (final_id_from_id s.id)

unfoldable pub op_from_local : LocalId → OpSpaceId
op_from_local l = record { id = get_id_from_local_id l }

unfoldable pub op_from_final : FinalId → OpSpaceId
op_from_final f = record { id = f.id }

-- A final ID below 2 ^ 63 is a non-negative `i64`.
abbrev pub IsFinal : FinalId → Type 0
IsFinal f = f.id < 2 ^ 63

pub session_to_space-from_local :
    (l : LocalId) → IsLocal l → session_to_space (session_from_local l) ≡ local l
unfolding session_to_space session_from_local
session_to_space-from_local l h = ground arith

pub session_to_space-from_final :
    (f : FinalId) → IsFinal f → session_to_space (session_from_final f) ≡ final f
unfolding session_to_space session_from_final
session_to_space-from_final f h = ground arith

pub op_to_space-from_local : (l : LocalId) → IsLocal l → op_to_space (op_from_local l) ≡ local l
unfolding op_to_space op_from_local
op_to_space-from_local l h = ground arith

pub op_to_space-from_final : (f : FinalId) → IsFinal f → op_to_space (op_from_final f) ≡ final f
unfolding op_to_space op_from_final
op_to_space-from_final f h = ground arith
