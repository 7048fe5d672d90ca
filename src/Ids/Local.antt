-- ===== src/Ids/Local.antt =====
-- id-types/src/local_id.rs: IDs that are local to a session.
-- The `debug_assert!` of `local_id_from_id` is not compiled into a release build.
pub mod Generations
use distributed_id_allocator.Common.{ℕ, Bool, ◌==◌}
use distributed_id_allocator.Word.{neg_i64, sub_i64, ltb_i64}

-- `id` is the bit pattern of an `i64`.
pub record LocalId : Type 0 where
  pub id : ℕ

abbrev pub local_id_from_id : ℕ → LocalId
local_id_from_id id = record { id = id }

abbrev pub get_id_from_local_id : LocalId → ℕ
get_id_from_local_id local_id = local_id.id

-- `(-self.id) as u64`.
unfoldable pub to_generation_count : LocalId → ℕ
to_generation_count local_id = neg_i64 local_id.id

unfoldable pub from_generation_count : ℕ → LocalId
from_generation_count generation_count = local_id_from_id (neg_i64 generation_count)

-- `LocalId == i64`.
unfoldable pub local_eq_i64 : LocalId → ℕ → Bool
local_eq_i64 local_id other = local_id.id == other

-- `LocalId - u64`.
unfoldable pub local_sub : LocalId → ℕ → LocalId
local_sub local_id rhs = local_id_from_id (sub_i64 local_id.id rhs)

-- The derived order and equality are those of the field.
unfoldable pub local_lt : LocalId → LocalId → Bool
local_lt a b = ltb_i64 a.id b.id

unfoldable pub local_eq : LocalId → LocalId → Bool
local_eq a b = a.id == b.id
