-- ===== src/Tables/Equals.antt =====
-- `equals_test_only` of tables/{session_space,final_space}.rs, which debug builds have: whether two
-- compressors' tables hold the same clusters, for all that they may know other empty sessions.
pub mod Sorted
use distributed_id_allocator.Common.{
  ℕ, suc, List, [], ◌∷◌, none, some, Bool, true, false, not, ◌&&◌, ◌||◌, Run, done, panicked, ◌>>=◌,
  length, ◌==◌, if◌then◌else◌,
}
use distributed_id_allocator.Ids.Local.{LocalId, local_eq}
use distributed_id_allocator.Ids.Stable.{SessionId, session_eq, stable_lt}
use distributed_id_allocator.Tables.SessionSpace.{
  IdCluster, SessionSpace, ClusterRef, cluster_eq, cluster_chain_is_empty,
}
use distributed_id_allocator.Tables.SessionMap.{SessionMap, map_get}
use distributed_id_allocator.Tables.Sessions.{Sessions, get_session_id}
use distributed_id_allocator.Tables.FinalSpace.{FinalSpace}
use distributed_id_allocator.Tables.Normalizer.{SessionSpaceNormalizer}

-- The session spaces from an index on that are not empty, each with its session.
unfoldable pub filtered_from :
    Sessions → ℕ → List SessionSpace → Run (List (SessionSpace × SessionId))
filtered_from sessions index [] = done []
filtered_from sessions index (space ∷ spaces) = elim (cluster_chain_is_empty space) [
  | true ↦ filtered_from sessions (suc index) spaces
  | false ↦ get_session_id sessions (record { index = index }) >>= λ session_id.
      filtered_from sessions (suc index) spaces >>= λ rest. done ((space, session_id) ∷ rest)
]

-- `sort_by` of Rust's standard library with the order of the identifiers, as an insertion sort,
-- which leaves equal ones in their order.
abbrev pub insert_session :
    SessionSpace × SessionId → List (SessionSpace × SessionId) → List (SessionSpace × SessionId)
insert_session x [] = x ∷ []
insert_session x (y ∷ ys) =
    let rest = insert_session x ys in if stable_lt y.1.id x.1.id then y ∷ rest else x ∷ y ∷ ys

abbrev pub sort_sessions : List (SessionSpace × SessionId) → List (SessionSpace × SessionId)
sort_sessions [] = []
sort_sessions (x ∷ xs) = insert_session x (sort_sessions xs)

unfoldable pub get_sorted_sessions : Sessions → Run (List (SessionSpace × SessionId))
get_sorted_sessions sessions =
    filtered_from sessions 0 sessions.session_list >>= λ filtered. done (sort_sessions filtered)

-- The derived equality of the vectors.
unfoldable pub chain_eq : List IdCluster → List IdCluster → Bool
chain_eq [] [] = true
chain_eq [] (_ ∷ _) = false
chain_eq (_ ∷ _) [] = false
chain_eq (a ∷ chain_a) (b ∷ chain_b) = cluster_eq a b && chain_eq chain_a chain_b

abbrev pub contains_key : SessionMap → SessionId → Bool
contains_key map key = elim (map_get map key) [ none ↦ false | some _ ↦ true ]

-- The loop over both sorted vectors.
unfoldable pub compare_sorted :
    Sessions → Sessions → List (SessionSpace × SessionId) → List (SessionSpace × SessionId) → Bool
compare_sorted a b [] [] = true
compare_sorted a b [] (_ ∷ _) = false
compare_sorted a b (_ ∷ _) [] = false
compare_sorted a b ((space_a, session_id_a) ∷ filtered_a) ((space_b, session_id_b) ∷ filtered_b) =
    let rest = compare_sorted a b filtered_a filtered_b in
    if not (session_eq session_id_a session_id_b)
      || not (chain_eq space_a.cluster_chain space_b.cluster_chain)
    then false
    else if not (contains_key a.session_map session_id_a)
        || not (contains_key b.session_map session_id_b)
    then false
    else rest

-- `Sessions::equals_test_only`.
unfoldable pub sessions_equals_test_only : Sessions → Sessions → Run Bool
sessions_equals_test_only sessions other = do
  filtered_a ← get_sorted_sessions sessions
  filtered_b ← get_sorted_sessions other
  done (compare_sorted sessions other filtered_a filtered_b)

-- `ClusterRef::equals_test_only`.
unfoldable pub ref_equals_test_only : ClusterRef → ClusterRef → Sessions → Sessions → Run Bool
ref_equals_test_only ref other sessions_self sessions_other = do
  session_id_a ← get_session_id sessions_self ref.session_space_ref
  session_id_b ← get_session_id sessions_other other.session_space_ref
  done (
      session_eq session_id_a session_id_b
      && (ref.cluster_chain_index == other.cluster_chain_index))

-- The loop of `FinalSpace::equals_test_only` over the places of the first vector.
unfoldable pub refs_equal : List ClusterRef → List ClusterRef → Sessions → Sessions → Run Bool
refs_equal [] others sessions_self sessions_other = done true
refs_equal (_ ∷ _) [] sessions_self sessions_other = panicked
refs_equal (ref ∷ refs) (other ∷ others) sessions_self sessions_other =
    ref_equals_test_only ref other sessions_self sessions_other >>= λ same. elim same [
      | false ↦ done false
      | true ↦ refs_equal refs others sessions_self sessions_other
    ]

-- `FinalSpace::equals_test_only`.
unfoldable pub final_equals_test_only : FinalSpace → FinalSpace → Sessions → Sessions → Run Bool
final_equals_test_only final_space other sessions_self sessions_other =
    if not (length final_space.clusters == length other.clusters)
    then done false
    else refs_equal final_space.clusters other.clusters sessions_self sessions_other

-- The derived equality of the ranges.
unfoldable pub ranges_eq : List (LocalId × ℕ) → List (LocalId × ℕ) → Bool
ranges_eq [] [] = true
ranges_eq [] (_ ∷ _) = false
ranges_eq (_ ∷ _) [] = false
ranges_eq ((base, count) ∷ ranges) ((other_base, other_count) ∷ others) =
    local_eq base other_base && (count == other_count) && ranges_eq ranges others

-- `impl PartialEq for SessionSpaceNormalizer`.
unfoldable pub normalizer_eq : SessionSpaceNormalizer → SessionSpaceNormalizer → Bool
normalizer_eq a b = ranges_eq a.leading_locals b.leading_locals
