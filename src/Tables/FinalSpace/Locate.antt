-- ===== src/Tables/FinalSpace/Locate.antt =====
-- The search in the final space finds the cluster that holds a final ID.
use distributed_id_allocator.Common.{
  ℕ, ◌+◌, ◌≤◌, ◌≡◌, ap, done, panicked, ◌>>=◌, All, All-imp, All-get, Sorted, arith,
}
use distributed_id_allocator.Search.Intervals.{find_interval, binary_search_by-find_interval}
use distributed_id_allocator.Ids.Final.{FinalId}
use distributed_id_allocator.Tables.SessionSpace.{IdCluster, ClusterRef, compare_final}
use distributed_id_allocator.Tables.SessionSpace.Chain.{IsCluster, base_final}
use distributed_id_allocator.Tables.SessionSpace.Lookup.{compare_final-place}
use distributed_id_allocator.Tables.Sessions.{Sessions, deref_cluster}
use distributed_id_allocator.Tables.FinalSpace.{FinalSpace, final_search}

-- The first final ID and the capacity of the cluster behind a reference.
abbrev pub first_final : Sessions → ClusterRef → ℕ
first_final s r = elim (deref_cluster s r) [ done k ↦ base_final k | panicked ↦ 0 ]

abbrev pub final_capacity : Sessions → ClusterRef → ℕ
final_capacity s r = elim (deref_cluster s r) [ done k ↦ k.capacity | panicked ↦ 0 ]

-- Each reference leads to a valid cluster, and the clusters' final IDs ascend without overlap.
pub record IsFinalSpace (s : Sessions) (f : FinalSpace) : Type 0 where
  pub leads : All (λ r. (k : IdCluster) × (deref_cluster s r ≡ done k) × IsCluster k) f.clusters
  pub sorted : Sorted (λ a b. first_final s a + final_capacity s a ≤ first_final s b) f.clusters

module _ (s : Sessions) (f : FinalSpace) (v : IsFinalSpace s f) where
  -- In a valid final space, whose references lead to valid clusters with ascending final IDs, the
  -- binary search of `final_search` returns the reference that a walk finds for the final ID, and
  -- never panics.
  pub final_search-find_interval :
      (target : FinalId)
      → final_search f target s
        ≡ done (find_interval (first_final s) (final_capacity s) target.id f.clusters)
  unfolding final_search
  final_search-find_interval target =
      binary_search_by-find_interval (first_final s) (final_capacity s) target.id f.clusters
        (All-imp f.clusters
          (λ r (k, e, i). rw (final_capacity, e) (omega (arith, i.count_pos, i.count_le))) v.leads)
        v.sorted (λ r. deref_cluster s r >>= λ c. done (compare_final target c))
        (λ i r e.
          let (k, p, q) = All-get _ f.clusters i v.leads e in
          rw (first_final, final_capacity, p) (ap done (compare_final-place target k q)))
