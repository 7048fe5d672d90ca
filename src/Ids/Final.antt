-- ===== src/Ids/Final.antt =====
-- id-types/src/final_id.rs: IDs that are unique in the network of compressors.
use distributed_id_allocator.Common.{ℕ, Bool, ltb, ◌==◌}
use distributed_id_allocator.Word.{add_u64, sub_i64}

pub record FinalId : Type 0 where
  pub id : ℕ

abbrev pub final_id_from_id : ℕ → FinalId
final_id_from_id id = record { id = id }

abbrev pub get_id_from_final_id : FinalId → ℕ
get_id_from_final_id final_id = final_id.id

-- `FinalId + u64`.
abbrev pub final_add : FinalId → ℕ → FinalId
final_add final_id rhs = record { id = add_u64 final_id.id rhs }

-- `FinalId - FinalId`, the bit pattern of an `i64`.
abbrev pub final_sub : FinalId → FinalId → ℕ
final_sub a b = sub_i64 a.id b.id

-- The derived order and equality.
abbrev pub final_lt : FinalId → FinalId → Bool
final_lt a b = ltb a.id b.id

abbrev pub final_eq : FinalId → FinalId → Bool
final_eq a b = a.id == b.id
