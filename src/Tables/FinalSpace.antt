-- ===== src/Tables/FinalSpace.antt =====
-- tables/final_space.rs: references to all clusters, in the order of their final IDs. The order
-- check of `add_cluster` is a debug assertion, which a release build leaves out.
pub mod Locate
pub mod Rewritten
use distributed_id_allocator.Common.{
  ℕ, List, [], ◌∷◌, ◌++◌, Option, none, some, Run, done, ◌>>=◌, length, get_last?,
}
use distributed_id_allocator.Ids.Final.{FinalId}
use distributed_id_allocator.Search.{binary_search_by, found_at}
use distributed_id_allocator.Tables.SessionSpace.{IdCluster, ClusterRef, compare_final}
use distributed_id_allocator.Tables.Sessions.{Sessions, deref_cluster}

pub record FinalSpace : Type 0 where
  pub clusters : List ClusterRef

-- `FinalSpace::new`.
abbrev pub new_final_space : FinalSpace
new_final_space = record { clusters = [] }

unfoldable pub get_cluster_count : FinalSpace → ℕ
get_cluster_count f = length f.clusters

-- `FinalSpace::add_cluster`.
unfoldable pub final_add_cluster : FinalSpace → ClusterRef → FinalSpace
final_add_cluster f new_cluster_ref = record { clusters = f.clusters ++ (new_cluster_ref ∷ []) }

-- `FinalSpace::search`.
unfoldable pub final_search : FinalSpace → FinalId → Sessions → Run (Option ClusterRef)
final_search f target_final sessions = do
  found ←
      binary_search_by f.clusters
        (λ r. deref_cluster sessions r >>= λ c. done (compare_final target_final c))
  found_at f.clusters found

-- `FinalSpace::get_tail_cluster`.
unfoldable pub final_tail_cluster : FinalSpace → Sessions → Run (Option IdCluster)
final_tail_cluster f sessions = elim (get_last? f.clusters) [
  | none ↦ done none
  | some r ↦ deref_cluster sessions r >>= λ c. done (some c)
]

-- `get_clusters`: each cluster with its reference.
unfoldable pub deref_all : List ClusterRef → Sessions → Run (List (IdCluster × ClusterRef))
deref_all [] sessions = done []
deref_all (r ∷ refs) sessions = do
  c ← deref_cluster sessions r
  rest ← deref_all refs sessions
  done ((c, r) ∷ rest)

unfoldable pub get_clusters : FinalSpace → Sessions → Run (List (IdCluster × ClusterRef))
get_clusters f sessions = deref_all f.clusters sessions
