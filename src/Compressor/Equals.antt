-- ===== src/Compressor/Equals.antt =====
-- compressor.rs: `equals_test_only`, which debug builds have.
pub mod Occupied
pub mod Parts
pub mod Shared
use distributed_id_allocator.Common.{
  Bool, true, false, not, ◌&&◌, ◌||◌, Run, done, ◌>>=◌, ◌==◌, if◌then◌else◌,
}
use distributed_id_allocator.Ids.Final.{final_eq}
use distributed_id_allocator.Ids.Stable.{session_eq}
use distributed_id_allocator.Tables.Equals.{
  sessions_equals_test_only, final_equals_test_only, normalizer_eq,
}
use distributed_id_allocator.Compressor.{IdCompressor}

unfoldable pub local_state_equals : IdCompressor → IdCompressor → Bool
local_state_equals c other =
    session_eq c.session_id other.session_id
    && (c.generated_id_count == other.generated_id_count)
    && (c.next_range_base_generation_count == other.next_range_base_generation_count)
    && normalizer_eq c.session_space_normalizer other.session_space_normalizer

unfoldable pub equals_test_only : IdCompressor → IdCompressor → Bool → Run Bool
equals_test_only c other compare_local_state =
    if not (final_eq c.final_id_limit other.final_id_limit)
    then done false
    else (sessions_equals_test_only c.sessions other.sessions >>= λ same_sessions.
        if not same_sessions
        then done false
        else (final_equals_test_only c.final_space other.final_space c.sessions other.sessions
            >>= λ same_finals.
                if not same_finals || not (c.cluster_capacity == other.cluster_capacity)
                then done false
                else done (not (compare_local_state && not (local_state_equals c other)))))
