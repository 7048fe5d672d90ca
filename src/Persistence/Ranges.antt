-- ===== src/Persistence/Ranges.antt =====
-- session_space_normalizer/persistence.rs: a count, then a generation count and a length for each
-- range of the normalizer.
pub mod RoundTrip
use distributed_id_allocator.Common.{ℕ, zero, suc, List, [], ◌∷◌, ◌++◌, Run, done, ◌>>=◌, length}
use distributed_id_allocator.Bytes.{write_to_vec, write_u64_to_vec, take_one, take_u64}
use distributed_id_allocator.Ids.Local.{LocalId, to_generation_count, from_generation_count}
use distributed_id_allocator.Tables.Normalizer.{SessionSpaceNormalizer}

-- The `for_each` over the ranges.
unfoldable pub write_ranges : List (LocalId × ℕ) → List ℕ → List ℕ
write_ranges [] bytes = bytes
write_ranges ((local, count) ∷ ranges) bytes =
    write_ranges ranges
      (write_u64_to_vec (write_u64_to_vec bytes (to_generation_count local)) count)

unfoldable pub serialize_normalizer : SessionSpaceNormalizer → List ℕ → List ℕ
serialize_normalizer n bytes =
    write_ranges n.leading_locals (write_u64_to_vec bytes (length n.leading_locals))

-- The loop `for _ in 0..len`, over the ranges pushed so far.
unfoldable pub read_ranges : ℕ → List (LocalId × ℕ) → List ℕ → Run (SessionSpaceNormalizer × List ℕ)
read_ranges zero ranges deserializer = done (record { leading_locals = ranges }, deserializer)
read_ranges (suc len) ranges deserializer = do
  (gen_count, deserializer') ← take_u64 deserializer
  (count, deserializer'') ← take_u64 deserializer'
  read_ranges len (ranges ++ ((from_generation_count gen_count, count) ∷ [])) deserializer''

unfoldable pub deserialize_normalizer : List ℕ → Run (SessionSpaceNormalizer × List ℕ)
deserialize_normalizer deserializer = do
  (len, deserializer') ← take_u64 deserializer
  read_ranges len [] deserializer'
