-- ===== src/Compressor/Finalize.antt =====
-- compressor.rs: `finalize_range` and `add_empty_cluster`. An error keeps what the call changed
-- before it, so each function returns the compressor beside its result.
use distributed_id_allocator.Common.{
  ℕ, Option, none, some, not, Run, done, Result, ok, err, ◌>>=◌, unwrap, leb, ◌==◌, if◌then◌else◌,
}
use distributed_id_allocator.Word.{add_u64, sub_u64, minus_one}
use distributed_id_allocator.Ids.Errors.{
  AllocatorError, malformed_id_range, cluster_collision, range_finalized_out_of_order,
}
use distributed_id_allocator.Ids.Local.{
  LocalId, from_generation_count, local_eq_i64, local_sub, local_eq,
}
use distributed_id_allocator.Ids.Final.{FinalId, final_id_from_id, final_add, final_eq}
use distributed_id_allocator.Ids.Stable.{
  SessionId, stable_from_session, stable_add_local, stable_add,
}
use distributed_id_allocator.Tables.SessionSpace.{
  IdCluster, SessionSpaceRef, ClusterRef, cluster_chain_is_empty, session_tail_cluster_mut,
  session_add_empty_cluster,
}
use distributed_id_allocator.Tables.Sessions.{
  Sessions, get_or_create, deref_session_space_mut, deref_cluster_mut, range_collides,
}
use distributed_id_allocator.Tables.FinalSpace.{final_tail_cluster, final_add_cluster}
use distributed_id_allocator.Compressor.{IdCompressor, IdRange}

abbrev pub Finalized : Type 0
Finalized = Run (Result (Unit {0}) AllocatorError × IdCompressor)

-- The final ID after the last cluster's capacity, or 0.
abbrev pub next_base_final : Option IdCluster → FinalId
next_base_final none = final_id_from_id 0
next_base_final (some cluster) = final_add cluster.base_final_id cluster.capacity

unfoldable pub add_empty_cluster :
    IdCompressor → SessionSpaceRef → LocalId → ℕ → Run (ClusterRef × IdCompressor)
add_empty_cluster c session_space_ref base_local capacity = do
  last ← final_tail_cluster c.final_space c.sessions
  (session_space, put_space) ← deref_session_space_mut c.sessions session_space_ref
  let (new_cluster_ref, session_space') =
      session_add_empty_cluster session_space session_space_ref (next_base_final last) base_local
        capacity
  done (
    new_cluster_ref,
    record c {
      sessions = put_space session_space';
      final_space = final_add_cluster c.final_space new_cluster_ref;
    },
  )

abbrev pub count_creation : IdCompressor → IdCompressor
count_creation c =
    let stats = c.telemetry_stats in
    record c {
      telemetry_stats = record stats {
        cluster_creation_count = add_u64 stats.cluster_creation_count 1;
      };
    }

abbrev pub count_expansion : IdCompressor → IdCompressor
count_expansion c =
    let stats = c.telemetry_stats in
    record c {
      telemetry_stats = record stats { expansion_count = add_u64 stats.expansion_count 1 };
    }

-- The end of `finalize_range`: the limit follows the last cluster.
abbrev pub limit_after : FinalId → Option IdCluster → FinalId
limit_after limit none = limit
limit_after limit (some cluster) = final_add cluster.base_final_id cluster.count

unfoldable pub update_limit : IdCompressor → Finalized
update_limit c = do
  last ← final_tail_cluster c.final_space c.sessions
  done (ok tt, record c { final_id_limit = limit_after c.final_id_limit last })

-- Tail cluster is not the last cluster: `c` holds it filled already. The rest of the range
-- overflows to a new cluster.
unfoldable pub overflow_to_new : IdCompressor → SessionSpaceRef → LocalId → ℕ → ℕ → Run IdCompressor
overflow_to_new c session_space_ref base_local overflow new_claimed_final_count = do
  (new_cluster_ref, c') ←
      add_empty_cluster (count_creation c) session_space_ref base_local new_claimed_final_count
  (cluster, put_cluster) ← deref_cluster_mut c'.sessions new_cluster_ref
  done (record c' {
    sessions = put_cluster (record cluster { count = add_u64 cluster.count overflow });
  })

-- The branches on the tail cluster's remaining capacity. `put` writes the tail cluster back.
unfoldable pub grow_tail :
    IdCompressor
    → SessionSpaceRef
    → LocalId
    → ℕ
    → FinalId
    → IdCluster
    → (IdCluster → Sessions)
    → Run IdCompressor
grow_tail c session_space_ref range_base_local range_len last_cluster_base_final tail put =
    let remaining_capacity = sub_u64 tail.capacity tail.count in
    let overflow = sub_u64 range_len remaining_capacity in
    let new_claimed_final_count = add_u64 overflow c.cluster_capacity in
    if leb range_len remaining_capacity
    then done (record c { sessions = put (record tail { count = add_u64 tail.count range_len }) })
    else if final_eq tail.base_final_id last_cluster_base_final
    then done (
        count_expansion (record c {
          sessions = put (record tail {
            capacity = add_u64 tail.capacity new_claimed_final_count;
            count = add_u64 tail.count range_len;
          });
        }))
    else overflow_to_new (record c { sessions = put (record tail { count = tail.capacity }) })
        session_space_ref (local_sub range_base_local remaining_capacity) overflow
        new_claimed_final_count

-- From the second use of the session space on: the range must follow the tail cluster's count.
unfoldable pub finalize_at_tail : IdCompressor → SessionSpaceRef → LocalId → ℕ → Finalized
finalize_at_tail c session_space_ref range_base_local range_len = do
  last? ← final_tail_cluster c.final_space c.sessions
  last ← unwrap last?
  (space, put_space) ← deref_session_space_mut c.sessions session_space_ref
  (tail, put_tail) ← unwrap (session_tail_cluster_mut space)
  if not (local_eq (local_sub tail.base_local_id tail.count) range_base_local)
      then done (err range_finalized_out_of_order, c)
      else (grow_tail c session_space_ref range_base_local range_len last.base_final_id tail
            (λ t. put_space (put_tail t))
          >>= update_limit)

-- The first cluster in the session space, where its chain is empty.
unfoldable pub finalize_in_session : IdCompressor → SessionSpaceRef → LocalId → ℕ → Finalized
finalize_in_session c session_space_ref range_base_local range_len = do
  (space, put_space) ← deref_session_space_mut c.sessions session_space_ref
  if cluster_chain_is_empty space
      then (if not (local_eq_i64 range_base_local minus_one)
          then done (err range_finalized_out_of_order, c)
          else (add_empty_cluster (count_creation c) session_space_ref range_base_local
                (add_u64 c.cluster_capacity range_len)
              >>= λ (_, c'). finalize_at_tail c' session_space_ref range_base_local range_len))
      else finalize_at_tail c session_space_ref range_base_local range_len

-- A range with IDs: the collision check, and the session's entry in the tables.
unfoldable pub finalize_ids : IdCompressor → SessionId → ℕ → ℕ → Finalized
finalize_ids c session_id range_base_gen_count range_len =
    let range_base_local = from_generation_count range_base_gen_count in
    let range_base_stable = stable_add_local (stable_from_session session_id) range_base_local in
    let range_max = stable_add (stable_add range_base_stable range_len) c.cluster_capacity in
    let (session_space_ref, sessions) = get_or_create c.sessions session_id in
    range_collides c.sessions session_id range_base_stable range_max >>= λ collides.
    if collides
    then done (err cluster_collision, c)
    else finalize_in_session (record c { sessions = sessions }) session_space_ref range_base_local
        range_len

unfoldable pub finalize_range : IdCompressor → IdRange → Finalized
finalize_range c r = elim r.range [
  | none ↦ done (ok tt, c)
  | some (range_base_gen_count, range_len) ↦
      if range_len == 0
      then done (err malformed_id_range, c)
      else finalize_ids c r.id range_base_gen_count range_len
]
