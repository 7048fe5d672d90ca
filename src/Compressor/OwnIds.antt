-- ===== src/Compressor/OwnIds.antt =====
-- Where the IDs of a compressor's own generations lie: in the normalizer or in a cluster.
use distributed_id_allocator.Common.{
  ℕ, ◌+◌, ◌≤◌, ◌<◌, ◌≡◌, refl, ap, ◌∙◌, some, some-injective, true, false, done, arith, Bool-cases,
  inl, inr, ◌⊎◌, All-get,
}
use distributed_id_allocator.Ids.Local.{LocalId, to_generation_count, from_generation_count}
use distributed_id_allocator.Ids.Local.Generations.{
  IsLocal, to_generation_count-from_generation_count,
}
use distributed_id_allocator.Ids.Space.{
  SessionSpaceId, IsFinal, session_from_local, session_from_final,
}
use distributed_id_allocator.Search.Intervals.{find_interval_sound, find_interval_complete}
use distributed_id_allocator.Tables.SessionSpace.{
  IdCluster, SessionSpace, get_aligned_local, try_convert_to_final,
}
use distributed_id_allocator.Tables.SessionSpace.Chain.{
  IsCluster, IsChain-clusters, IsChain-Sorted_final, base_generation, base_final, capacity_of,
}
use distributed_id_allocator.Tables.SessionSpace.End.{chain_end_covers}
use distributed_id_allocator.Tables.SessionSpace.Lookup.{cluster_of_local, cluster_of_final}
use distributed_id_allocator.Tables.SessionSpace.Align.{
  final_beside, final_of_local, try_convert_to_final-final_of_local, get_allocated_final_within,
  get_aligned_local-get_allocated_final,
}
use distributed_id_allocator.Tables.Normalizer.{contains}
use distributed_id_allocator.Tables.Normalizer.Contains.{contains-covers}
use distributed_id_allocator.Compressor.{IdCompressor}
use distributed_id_allocator.Compressor.OwnSession.{IsOwn, handed_local}
use distributed_id_allocator.Compressor.Handout.{id_of_generation}

module _ (c : IdCompressor) (space : SessionSpace) (v : IsOwn c space) (g : ℕ) (pos : 1 ≤ g)
    (generated : g ≤ c.generated_id_count) where
  abbrev pub l : LocalId
  l = from_generation_count g

  pub l_lem : IsLocal l × (to_generation_count l ≡ g)
  l_lem = to_generation_count-from_generation_count g pos (omega (arith, v.generated_fits))

  pub contains_lem : contains c.session_space_normalizer l ≡ done (handed_local c g)
  contains_lem =
      contains-covers (c.generated_id_count + 1) c.session_space_normalizer l v.normalized l_lem.0
      ∙ ap (λ n. done (handed_local c n)) l_lem.1

  pub convert_lem :
      try_convert_to_final space l true
      ≡ done (final_of_local l (cluster_of_local true l space.cluster_chain))
  convert_lem = try_convert_to_final-final_of_local space 1 0 v.chain l true l_lem.0

  -- The cluster of the generation, by its local ID, is the one by its final ID too.
  module _ (k : IdCluster) (e : cluster_of_local true l space.cluster_chain ≡ some k) where
    pub in-IsCluster :
        IsCluster k
        × (base_generation k ≤ to_generation_count l)
        × (to_generation_count l < base_generation k + k.capacity)
        × (cluster_of_final (final_beside l k) space.cluster_chain ≡ some k)
    in-IsCluster =
        let (i, p, lo, hi) =
          find_interval_sound base_generation capacity_of (to_generation_count l)
            space.cluster_chain e in
        (
          All-get IsCluster space.cluster_chain i (IsChain-clusters 1 0 space.cluster_chain v.chain)
              p,
          lo,
          hi,
          find_interval_complete base_final capacity_of (final_beside l k).id space.cluster_chain i
              k (IsChain-Sorted_final 1 0 space.cluster_chain v.chain) p (omega arith)
              (omega (arith, lo, hi)),
        )

    pub beside_IsFinal : IsFinal (final_beside l k)
    beside_IsFinal = omega (arith, in-IsCluster.0.final_fits, in-IsCluster.1, in-IsCluster.2)

    pub aligned_lem : get_aligned_local k (final_beside l k) ≡ some l
    aligned_lem =
        get_aligned_local-get_allocated_final k in-IsCluster.0 l l_lem.0
          (get_allocated_final_within k in-IsCluster.0 l l_lem.0 in-IsCluster.1 in-IsCluster.2)

  -- An ID that was not handed out as a local ID is in a cluster.
  pub eager_cluster :
      handed_local c g ≡ false
      → (k : IdCluster) × (cluster_of_local true l space.cluster_chain ≡ some k)
  eager_cluster h =
      chain_end_covers 1 0 (to_generation_count l) space.cluster_chain v.chain
        (omega (arith, l_lem.1)) (omega (arith, l_lem.1, v.eager g pos generated h))

  -- Each generation has an ID.
  pub id_exists : (id : SessionSpaceId) × (id_of_generation c space g ≡ some id)
  unfolding id_of_generation
  id_exists = elim (Bool-cases (handed_local c g)) [
    | inl h ↦ (session_from_local l, rw h refl)
    | inr h ↦
        let (k, n) = eager_cluster h in (session_from_final (final_beside l k), rw (h, n) refl)
  ]

  pub id_cases :
      (id : SessionSpaceId)
      → id_of_generation c space g ≡ some id
      → ((handed_local c g ≡ true) × (session_from_local l ≡ id))
        ⊎ ((k : IdCluster) × (handed_local c g ≡ false)
            × (cluster_of_local true l space.cluster_chain ≡ some k)
            × (session_from_final (final_beside l k) ≡ id))
  unfolding id_of_generation
  id_cases id e = elim (Bool-cases (handed_local c g)) [
    | inl h ↦ inl (h, some-injective _ _ (rw (h) at e))
    | inr h ↦ let (k, n) = eager_cluster h in inr (k, h, n, some-injective _ _ (rw (h, n) at e))
  ]
