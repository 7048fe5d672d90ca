-- ===== src/Examples/Runs.antt =====
-- Runs of a compressor through its operations.
use distributed_id_allocator.Common.{ℕ, ◌≡◌, refl, some, Run, done, Result, ok, err, ◌>>=◌}
use distributed_id_allocator.Ids.Errors.{
  AllocatorError, no_token_for_session, range_finalized_out_of_order,
}
use distributed_id_allocator.Ids.Stable.{UuidCrate}
use distributed_id_allocator.Compressor.{
  empty_stats, IdCompressor, IdRange, new_with_session_id, get_session_token_from_session_id,
}
use distributed_id_allocator.Compressor.Allocate.{generate_next_id, take_next_range}
use distributed_id_allocator.Compressor.Finalize.{finalize_range}
use distributed_id_allocator.Compressor.Decompress.{decompress, recompress}
use distributed_id_allocator.Persistence.Write.{serialize_with_local}
use distributed_id_allocator.Persistence.Read.{deserialize}
use distributed_id_allocator.Examples.{session_a, session_b, used, program}

-- One ID is generated and its range is finalized; then two more are generated.
run_used : Run (Result (Unit {0}) AllocatorError × IdCompressor)
run_used = do
  (_, c₁) ← generate_next_id (new_with_session_id session_a)
  let (range, c₂) = take_next_range c₁
  (result, c₃) ← finalize_range c₂ range
  (_, c₄) ← generate_next_id c₃
  (_, c₅) ← generate_next_id c₄
  done (result, c₅)

run_used_result : run_used ≡ done (ok tt, used)
unfolding program run_used
run_used_result = refl

-- The third ID in its stable form, and back.
decompress-used : decompress used (record { id = 2 }) ≡ done (ok (record { id = 5002 }))
unfolding program
decompress-used = refl

recompress-used : recompress used (record { id = 5002 }) ≡ done (ok (record { id = 2 }))
unfolding program
recompress-used = refl

-- A crate that keeps a UUID as its number.
abbrev pub number_crate : UuidCrate
number_crate = record {
  Uuid = ℕ;
  from_u128 = λ n. n;
  as_u128 = λ u. u;
  as_u128-from_u128 = λ n h. refl;
}

-- A compressor that is written and read is the same one, but for its telemetry.
read_used :
    (serialize_with_local used >>= deserialize number_crate session_b)
    ≡ done (ok (record used { telemetry_stats = empty_stats }))
unfolding program
read_used = refl

-- A second session's range that does not begin at its first ID: it is refused, yet the session has
-- a token afterwards.
late_range : IdRange
late_range = record { id = session_b; range = some (2, 1) }

token_after_late_range : Run (Result (Unit {0}) AllocatorError × Result ℕ AllocatorError)
token_after_late_range = do
  (result, c) ← finalize_range used late_range
  done (result, get_session_token_from_session_id c session_b)

token_before : get_session_token_from_session_id used session_b ≡ err no_token_for_session
unfolding program
token_before = refl

token_after : token_after_late_range ≡ done (err range_finalized_out_of_order, ok 1)
unfolding program late_range token_after_late_range
token_after = refl
