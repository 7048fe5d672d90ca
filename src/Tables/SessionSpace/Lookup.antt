-- ===== src/Tables/SessionSpace/Lookup.antt =====
-- The searches of a session's cluster chain against a walk along the chain.
use Prim.Native.Nat.{Ordering}
use distributed_id_allocator.Common.{
  ℕ, ◌+◌, ◌-◌, ◌^◌, ◌≤◌, ◌≡◌, ap, List, Option, Bool, true, false, done, arith, All, All-imp,
  All-get, if◌then◌else◌,
}
use distributed_id_allocator.Word.{sub_u64}
use distributed_id_allocator.Ids.Local.{LocalId, to_generation_count, local_sub, local_lt}
use distributed_id_allocator.Ids.Local.Generations.{
  IsLocal, to_generation_count-local_sub, local_lt-generation,
}
use distributed_id_allocator.Ids.Final.{FinalId}
use distributed_id_allocator.Search.Intervals.{find_interval, place, binary_search_by-find_interval}
use distributed_id_allocator.Tables.SessionSpace.{
  IdCluster, SessionSpace, compare_local, compare_final, get_cluster_by_local,
  get_cluster_by_allocated_final,
}
use distributed_id_allocator.Tables.SessionSpace.Chain.{
  IsCluster, IsChain, base_generation, base_final, capacity_of, count_of, IsChain-clusters,
  IsChain-Sorted_local, IsChain-Sorted_count, IsChain-Sorted_final,
}

-- How many local IDs of a cluster a search takes in: the allocated ones or the finalized ones.
abbrev pub extent : Bool → IdCluster → ℕ
extent true = capacity_of
extent false = count_of

-- The cluster whose first IDs, as many as its extent, hold the local ID.
abbrev pub cluster_of_local : Bool → LocalId → List IdCluster → Option IdCluster
cluster_of_local include_allocated l =
    find_interval base_generation (extent include_allocated) (to_generation_count l)

abbrev pub cluster_of_final : FinalId → List IdCluster → Option IdCluster
cluster_of_final f = find_interval base_final capacity_of f.id

-- The three tests of `compare_local`, for a cluster of which `size` local IDs count.
place_by_local :
    (l base : LocalId) (n size : ℕ)
    → IsLocal l
    → IsLocal base
    → n ≡ size - 1
    → 1 ≤ size
    → to_generation_count base + size ≤ 2 ^ 63
    → (if local_lt l (local_sub base n)
        then Ordering.lt
        else if local_lt base l
        then Ordering.gt
        else Ordering.eq)
      ≡ place (to_generation_count base) size (to_generation_count l)
place_by_local l base n size h k e p q = ground (
  arith,
  local_lt-generation l (local_sub base n) h,
  local_lt-generation base l k h,
  to_generation_count-local_sub base n k,
)

compare_local-place :
    (l : LocalId) (b : Bool) (c : IdCluster)
    → IsLocal l
    → IsCluster c
    → compare_local l b c ≡ place (base_generation c) (extent b c) (to_generation_count l)
unfolding compare_local
compare_local-place l true c h k =
    place_by_local l c.base_local_id (sub_u64 c.capacity 1) c.capacity h k.base_IsLocal
      (omega (arith, k.count_pos, k.count_le, k.local_fits))
      (omega (arith, k.count_pos, k.count_le)) k.local_fits
compare_local-place l false c h k =
    place_by_local l c.base_local_id (sub_u64 c.count 1) c.count h k.base_IsLocal
      (omega (arith, k.count_pos, k.count_le, k.local_fits)) k.count_pos
      (omega (arith, k.count_le, k.local_fits))

pub compare_final-place :
    (f : FinalId) (c : IdCluster)
    → IsCluster c
    → compare_final f c ≡ place (base_final c) (capacity_of c) f.id
unfolding compare_final
compare_final-place f c k = ground (arith, k.count_pos, k.count_le, k.final_fits)

module _ (s : SessionSpace) (g₀ f₀ : ℕ) (chain : IsChain g₀ f₀ s.cluster_chain) where
  clusters : All IsCluster s.cluster_chain
  clusters = IsChain-clusters g₀ f₀ s.cluster_chain chain

  -- On a valid chain the binary search of `get_cluster_by_local` returns the cluster that a walk
  -- along the chain finds for the local ID, by the allocated IDs or by the finalized ones, and
  -- never panics.
  pub get_cluster_by_local-cluster_of_local :
      (l : LocalId) (b : Bool)
      → IsLocal l
      → get_cluster_by_local s l b ≡ done (cluster_of_local b l s.cluster_chain)
  unfolding get_cluster_by_local
  get_cluster_by_local-cluster_of_local l true h =
      binary_search_by-find_interval base_generation capacity_of (to_generation_count l)
        s.cluster_chain
        (All-imp s.cluster_chain (λ c k. omega (arith, k.count_pos, k.count_le)) clusters)
        (IsChain-Sorted_local g₀ f₀ s.cluster_chain chain) (λ c. done (compare_local l true c))
        (λ i c e.
          ap done (compare_local-place l true c h (All-get IsCluster s.cluster_chain i clusters e)))
  get_cluster_by_local-cluster_of_local l false h =
      binary_search_by-find_interval base_generation count_of (to_generation_count l)
        s.cluster_chain (All-imp s.cluster_chain (λ c k. k.count_pos) clusters)
        (IsChain-Sorted_count g₀ f₀ s.cluster_chain chain) (λ c. done (compare_local l false c))
        (λ i c e.
          ap done
            (compare_local-place l false c h (All-get IsCluster s.cluster_chain i clusters e)))

  -- On a valid chain the binary search of `get_cluster_by_allocated_final` returns the cluster
  -- that a walk along the chain finds for the final ID, and never panics.
  pub get_cluster_by_allocated_final-cluster_of_final :
      (f : FinalId) → get_cluster_by_allocated_final s f ≡ done (cluster_of_final f s.cluster_chain)
  unfolding get_cluster_by_allocated_final
  get_cluster_by_allocated_final-cluster_of_final f =
      binary_search_by-find_interval base_final capacity_of f.id s.cluster_chain
        (All-imp s.cluster_chain (λ c k. omega (arith, k.count_pos, k.count_le)) clusters)
        (IsChain-Sorted_final g₀ f₀ s.cluster_chain chain) (λ c. done (compare_final f c))
        (λ i c e.
          ap done (compare_final-place f c (All-get IsCluster s.cluster_chain i clusters e)))
