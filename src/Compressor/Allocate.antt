-- ===== src/Compressor/Allocate.antt =====
-- compressor.rs: `generate_next_id` and `take_next_range`.
use distributed_id_allocator.Common.{Option, none, some, Run, done, ◌>>=◌, ltb, ◌==◌, if◌then◌else◌}
use distributed_id_allocator.Word.{add_u64, sub_u64, neg_i64}
use distributed_id_allocator.Ids.Local.{LocalId, to_generation_count, local_id_from_id}
use distributed_id_allocator.Ids.Final.{final_add}
use distributed_id_allocator.Ids.Space.{SessionSpaceId, session_from_local, session_from_final}
use distributed_id_allocator.Tables.SessionSpace.{IdCluster, session_tail_cluster}
use distributed_id_allocator.Tables.Normalizer.{add_local_range}
use distributed_id_allocator.Compressor.{IdCompressor, IdRange, get_local_session_space}

unfoldable pub generate_next_local_id : IdCompressor → LocalId × IdCompressor
generate_next_local_id c =
    let new_local = local_id_from_id (neg_i64 c.generated_id_count) in
    let stats = c.telemetry_stats in
    (
      new_local,
      record c {
        telemetry_stats = record stats { local_id_count = add_u64 stats.local_id_count 1 };
        session_space_normalizer = add_local_range c.session_space_normalizer new_local 1;
      },
    )

abbrev next_local : IdCompressor → SessionSpaceId × IdCompressor
next_local c = let (l, c') = generate_next_local_id c in (session_from_local l, c')

-- The rest of `generate_next_id`, after the count was increased.
unfoldable pub next_id_after : IdCompressor → Option IdCluster → SessionSpaceId × IdCompressor
next_id_after c none = next_local c
next_id_after c (some tail_cluster) =
    let cluster_offset =
      sub_u64 c.generated_id_count (to_generation_count tail_cluster.base_local_id) in
    let stats = c.telemetry_stats in
    if ltb cluster_offset tail_cluster.capacity
    then (
      session_from_final (final_add tail_cluster.base_final_id cluster_offset),
      record c {
        telemetry_stats = record stats { eager_final_count = add_u64 stats.eager_final_count 1 };
      },
    )
    else next_local c

unfoldable pub generate_next_id : IdCompressor → Run (SessionSpaceId × IdCompressor)
generate_next_id c =
    let counted = record c { generated_id_count = add_u64 c.generated_id_count 1 } in
    get_local_session_space counted >>= λ space.
    done (next_id_after counted (session_tail_cluster space))

-- The assertion that the count is positive cannot fail where it stands: a `u64` is not negative.
unfoldable pub take_next_range : IdCompressor → IdRange × IdCompressor
take_next_range c =
    let count = sub_u64 c.generated_id_count (sub_u64 c.next_range_base_generation_count 1) in
    if count == 0 then (record { id = c.session_id; range = none }, c) else (
      record { id = c.session_id; range = some (c.next_range_base_generation_count, count) },
      record c { next_range_base_generation_count = add_u64 c.generated_id_count 1 },
    )
