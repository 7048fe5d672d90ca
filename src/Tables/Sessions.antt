-- ===== src/Tables/Sessions.antt =====
-- tables/session_space.rs: `Sessions`, the session spaces of all sessions and their identifiers.
-- The identifiers are kept as bytes, sixteen for each session, in the order of the list.
pub mod Holds
pub mod Create
use distributed_id_allocator.Common.{
  ℕ, ◌+◌, ◌-◌, ◌*◌, ◌%◌, ◌^◌, List, [], ◌∷◌, ◌++◌, Option, none, some, Bool, true, false, not, ◌&&◌,
  Run, done, panicked, ◌>>=◌, unwrap, length, get_elem?, set, leb, if◌then◌else◌,
}
use distributed_id_allocator.Word.{add_u64, sub_u64, neg_i64}
use distributed_id_allocator.Bytes.{to_le_bytes, from_le_bytes, slice}
use distributed_id_allocator.Ids.Local.{LocalId, from_generation_count, local_id_from_id}
use distributed_id_allocator.Ids.Stable.{
  StableId, SessionId, session_nil, session_id_from_id_u128, session_id_from_stable_id,
  bytes_from_session, stable_from_session, session_add_local, session_eq, stable_add, stable_sub,
  stable_lt, stable_le,
}
use distributed_id_allocator.Tables.SessionSpace.{
  IdCluster, SessionSpace, SessionSpaceRef, ClusterRef, new_session_space, get_max_allocated_stable,
  get_cluster_by_local,
}
use distributed_id_allocator.Tables.SessionMap.{SessionMap, map_get, map_insert, last_in_range}

pub record Sessions : Type 0 where
  pub session_map : SessionMap
  pub session_list : List SessionSpace
  pub session_ids : List ℕ

-- `Sessions::new`.
abbrev pub new_sessions : Sessions
new_sessions = record { session_map = []; session_list = []; session_ids = [] }

unfoldable pub get_session_count : Sessions → ℕ
get_session_count s = length s.session_list

unfoldable pub get_or_create : Sessions → SessionId → SessionSpaceRef × Sessions
get_or_create s session_id = elim (map_get s.session_map session_id) [
  | some r ↦ (r, s)
  | none ↦
      let new_session_space_ref : SessionSpaceRef = record { index = length s.session_list } in
      (
        new_session_space_ref,
        record {
          session_map = map_insert s.session_map session_id new_session_space_ref;
          session_list = s.session_list ++ (new_session_space ∷ []);
          session_ids = s.session_ids ++ bytes_from_session session_id;
        },
      )
]

unfoldable pub get_session_id : Sessions → SessionSpaceRef → Run SessionId
get_session_id s session_space_ref = do
  bytes ← slice s.session_ids (session_space_ref.index * 16) 16
  done (session_id_from_id_u128 (from_le_bytes bytes))

-- `Sessions::get`.
unfoldable pub sessions_get : Sessions → SessionId → Option SessionSpaceRef
sessions_get s session_id = map_get s.session_map session_id

unfoldable pub deref_session_space : Sessions → SessionSpaceRef → Run SessionSpace
deref_session_space s session_space_ref = unwrap (get_elem? s.session_list session_space_ref.index)

unfoldable pub deref_session_space_mut :
    Sessions → SessionSpaceRef → Run (SessionSpace × (SessionSpace → Sessions))
deref_session_space_mut s session_space_ref = do
  space ← unwrap (get_elem? s.session_list session_space_ref.index)
  done (space, λ new. record s { session_list = set s.session_list session_space_ref.index new })

unfoldable pub deref_cluster_mut : Sessions → ClusterRef → Run (IdCluster × (IdCluster → Sessions))
deref_cluster_mut s cluster_ref = do
  (space, put_space) ← deref_session_space_mut s cluster_ref.session_space_ref
  cluster ← unwrap (get_elem? space.cluster_chain cluster_ref.cluster_chain_index)
  done (
    cluster,
    λ new.
        put_space
          (record { cluster_chain = set space.cluster_chain cluster_ref.cluster_chain_index new }),
  )

unfoldable pub deref_cluster : Sessions → ClusterRef → Run IdCluster
deref_cluster s cluster_ref = do
  space ← deref_session_space s cluster_ref.session_space_ref
  unwrap (get_elem? space.cluster_chain cluster_ref.cluster_chain_index)

abbrev pub get_session_id_slice : Sessions → List ℕ
get_session_id_slice s = s.session_ids

-- The end of `get_containing_cluster`, from the cluster that holds the aligned local ID on.
-- `-(delta as i64) - 1` is the originator's local ID.
abbrev pub check_containing :
    StableId
    → SessionId
    → SessionSpaceRef
    → Option IdCluster
    → Option (IdCluster × SessionSpaceRef × LocalId)
check_containing query session_id session_space_ref none = none
check_containing query session_id session_space_ref (some cluster_match) =
    let cluster_min_stable = session_add_local session_id cluster_match.base_local_id in
    let cluster_max_stable = stable_add cluster_min_stable cluster_match.capacity in
    let delta = stable_sub query (stable_from_session session_id) in
    let originator_local = local_id_from_id (sub_u64 (neg_i64 (delta % 2 ^ 64)) 1) in
    if stable_le cluster_min_stable query && stable_le query cluster_max_stable
    then some (cluster_match, session_space_ref, originator_local)
    else none

-- `query > max` returns `None` before the search.
abbrev pub containing_in :
    Sessions
    → StableId
    → SessionId
    → SessionSpaceRef
    → SessionSpace
    → Run (Option (IdCluster × SessionSpaceRef × LocalId))
containing_in s query session_id session_space_ref session_space =
    let delta = stable_sub query (stable_from_session session_id) in
    let aligned_local = from_generation_count (add_u64 (delta % 2 ^ 64) 1) in
    if stable_lt (get_max_allocated_stable session_space session_id) query
    then done none
    else (get_cluster_by_local session_space aligned_local true >>= λ found.
        done (check_containing query session_id session_space_ref found))

unfoldable pub get_containing_cluster :
    Sessions → StableId → Run (Option (IdCluster × SessionSpaceRef × LocalId))
get_containing_cluster s query =
    elim (last_in_range s.session_map session_nil (session_id_from_stable_id query)) [
      | none ↦ done none
      | some (_, session_space_ref) ↦ deref_session_space s session_space_ref >>= λ session_space.
          get_session_id s session_space_ref >>= λ session_id.
          containing_in s query session_id session_space_ref session_space
    ]

unfoldable pub range_collides : Sessions → SessionId → StableId → StableId → Run Bool
range_collides s originator range_base range_max =
    elim (last_in_range s.session_map session_nil (session_id_from_stable_id range_max)) [
      | none ↦ done false
      | some (_, session_space_ref) ↦ deref_session_space s session_space_ref >>= λ session_space.
          get_session_id s session_space_ref >>= λ session_id. done (
            not (session_eq originator session_id)
            && stable_le range_base (get_max_allocated_stable session_space session_id))
    ]
