-- ===== src/Tables/SessionSpace/Align.antt =====
-- Local and final IDs of one cluster run side by side.
use distributed_id_allocator.Common.{
  ℕ, ◌+◌, ◌-◌, ◌≤◌, ◌<◌, ◌≡◌, refl, ap, ◌∙◌, Option, none, some, Bool, true, false, done, arith,
  Option-cases, inl, inr, All-get,
}
use distributed_id_allocator.Ids.Local.{LocalId, to_generation_count, local_sub}
use distributed_id_allocator.Ids.Local.Generations.{
  IsLocal, generation_bounds, to_generation_count-local_sub, to_generation_count-injective,
}
use distributed_id_allocator.Ids.Final.{FinalId, final_sub}
use distributed_id_allocator.Search.Intervals.{find_interval_sound}
use distributed_id_allocator.Tables.SessionSpace.{
  IdCluster, SessionSpace, get_allocated_final, get_aligned_local, max_allocated_final,
  try_convert_to_final,
}
use distributed_id_allocator.Tables.SessionSpace.Chain.{
  IsCluster, IsChain, base_generation, base_final, IsChain-clusters,
}
use distributed_id_allocator.Tables.SessionSpace.Lookup.{
  cluster_of_local, extent, get_cluster_by_local-cluster_of_local,
}

-- The final ID that stands beside a local ID of the cluster.
abbrev pub final_beside : LocalId → IdCluster → FinalId
final_beside l c = record { id = base_final c + (to_generation_count l - base_generation c) }

module _ (c : IdCluster) (v : IsCluster c) where
  pub get_allocated_final_within :
      (l : LocalId)
      → IsLocal l
      → base_generation c ≤ to_generation_count l
      → to_generation_count l < base_generation c + c.capacity
      → get_allocated_final c l ≡ some (final_beside l c)
  unfolding get_allocated_final
  get_allocated_final_within l h p q = ground (
    arith,
    v.local_fits,
    v.final_fits,
    generation_bounds l h,
    generation_bounds c.base_local_id v.base_IsLocal,
  )

  pub get_allocated_final_bounds :
      (l : LocalId) {f : FinalId}
      → IsLocal l
      → get_allocated_final c l ≡ some f
      → (base_generation c ≤ to_generation_count l)
        × (to_generation_count l < base_generation c + c.capacity)
        × (f.id ≡ base_final c + (to_generation_count l - base_generation c))
  unfolding get_allocated_final
  get_allocated_final_bounds l h e = ground (
    arith,
    v.local_fits,
    v.final_fits,
    generation_bounds l h,
    generation_bounds c.base_local_id v.base_IsLocal,
  )

  pub get_aligned_local_bounds :
      (f : FinalId) {l : LocalId}
      → get_aligned_local c f ≡ some l
      → (base_final c ≤ f.id)
        × (f.id < base_final c + c.capacity)
        × IsLocal l
        × (to_generation_count l ≡ base_generation c + (f.id - base_final c))
  unfolding get_aligned_local max_allocated_final
  get_aligned_local_bounds f e = ground (
    arith,
    v.base_IsLocal,
    v.count_pos,
    v.count_le,
    v.local_fits,
    v.final_fits,
    to_generation_count-local_sub c.base_local_id (final_sub f c.base_final_id),
  )

  pub get_aligned_local_within :
      (f : FinalId)
      → base_final c ≤ f.id
      → f.id < base_final c + c.capacity
      → get_aligned_local c f ≡ some (local_sub c.base_local_id (f.id - base_final c))
  unfolding get_aligned_local max_allocated_final
  get_aligned_local_within f p q = ground (arith, v.final_fits)

  -- In a valid cluster, the final ID allocated for a local ID is aligned with that local ID again.
  pub get_aligned_local-get_allocated_final :
      (l : LocalId) {f : FinalId}
      → IsLocal l
      → get_allocated_final c l ≡ some f
      → get_aligned_local c f ≡ some l
  get_aligned_local-get_allocated_final l {f} h e =
      let b = get_allocated_final_bounds l h e in
      let d : ℕ = f.id - base_final c in
      let g =
        to_generation_count-local_sub c.base_local_id d v.base_IsLocal
          (omega (arith, b.1, b.2, v.local_fits)) in
      get_aligned_local_within f (omega (arith, b.2)) (omega (arith, b.0, b.1, b.2))
      ∙ ap some (
          to_generation_count-injective (local_sub c.base_local_id d) l g.0 h
            (omega (arith, g.1, b.0, b.2)))

  -- In a valid cluster, the local ID aligned with a final ID has that final ID allocated.
  pub get_allocated_final-get_aligned_local :
      (f : FinalId) {l : LocalId}
      → get_aligned_local c f ≡ some l
      → get_allocated_final c l ≡ some f
  get_allocated_final-get_aligned_local f {l} e =
      let b = get_aligned_local_bounds f e in
      get_allocated_final_within l b.2 (omega (arith, b.3)) (omega (arith, b.0, b.1, b.3))
      ∙ ground (arith, b.0, b.3)

-- What `try_convert_to_final` returns: the final ID beside the local ID in its cluster.
abbrev pub final_of_local : LocalId → Option IdCluster → Option FinalId
final_of_local l none = none
final_of_local l (some c) = some (final_beside l c)

module _ (s : SessionSpace) (g₀ f₀ : ℕ) (chain : IsChain g₀ f₀ s.cluster_chain) where
  found_within :
      (l : LocalId) (b : Bool) {c : IdCluster}
      → cluster_of_local b l s.cluster_chain ≡ some c
      → IsCluster c
        × (base_generation c ≤ to_generation_count l)
        × (to_generation_count l < base_generation c + c.capacity)
  found_within l true e =
      let (i, p, lo, hi) = find_interval_sound base_generation (extent true) _ s.cluster_chain e in
      (All-get IsCluster s.cluster_chain i (IsChain-clusters g₀ f₀ s.cluster_chain chain) p, lo, hi)
  found_within l false e =
      let (i, p, lo, hi) = find_interval_sound base_generation (extent false) _ s.cluster_chain e in
      let k =
        All-get IsCluster s.cluster_chain i (IsChain-clusters g₀ f₀ s.cluster_chain chain) p in
      (k, lo, omega (arith, k.count_le, hi))

  -- On a valid chain of clusters `try_convert_to_final` of a local ID never panics: it returns the
  -- final ID at the same place in the cluster that holds the local ID (among the allocated IDs or
  -- the finalized ones, as asked), and none if no cluster does.
  pub try_convert_to_final-final_of_local :
      (l : LocalId) (b : Bool)
      → IsLocal l
      → try_convert_to_final s l b ≡ done (final_of_local l (cluster_of_local b l s.cluster_chain))
  unfolding try_convert_to_final
  try_convert_to_final-final_of_local l b h =
      elim (Option-cases (cluster_of_local b l s.cluster_chain)) [
        | inl e ↦ rw (get_cluster_by_local-cluster_of_local s g₀ f₀ chain l b h, e) refl
        | inr (c, e) ↦
            let (k, lo, hi) = found_within l b e in
            rw
              (
                get_cluster_by_local-cluster_of_local s g₀ f₀ chain l b h,
                e,
                get_allocated_final_within c k l h lo hi,
              )
              refl
      ]
