-- ===== src/Compressor/Unique.antt =====
-- No two generations of a compressor share an ID.
use distributed_id_allocator.Common.{
  ◌≢◌, ℕ, ◌≤◌, ◌≡◌, refl, sym, ap, subst, ◌∙◌, Option, none, some, some-injective, inl, inr,
}
use distributed_id_allocator.Ids.Local.{LocalId, from_generation_count, to_generation_count}
use distributed_id_allocator.Ids.Space.{
  SessionSpaceId, CompressedId, local, final, session_to_space, session_to_space-from_local,
  session_to_space-from_final,
}
use distributed_id_allocator.Tables.SessionSpace.{IdCluster, SessionSpace, get_aligned_local}
use distributed_id_allocator.Tables.SessionSpace.Lookup.{cluster_of_final}
use distributed_id_allocator.Tables.SessionSpace.Align.{final_beside}
use distributed_id_allocator.Compressor.{IdCompressor}
use distributed_id_allocator.Compressor.OwnSession.{IsOwn}
use distributed_id_allocator.Compressor.Handout.{id_of_generation}
use distributed_id_allocator.Compressor.OwnIds.{
  id_exists, id_cases, in-IsCluster, aligned_lem, beside_IsFinal, l_lem,
}

module _ (c : IdCompressor) (space : SessionSpace) (v : IsOwn c space) where
  -- The local ID that the compressed ID leads to: itself, or the one aligned with it.
  abbrev local_of_space : CompressedId → Option LocalId
  local_of_space (local l) = some l
  local_of_space (final f) = aligned_in (cluster_of_final f space.cluster_chain)
    where
      aligned_in : Option IdCluster → Option LocalId
      aligned_in none = none
      aligned_in (some k) = get_aligned_local k f

  -- A generation's ID leads back to the generation's local ID.
  local_of_id :
      (g : ℕ)
      → 1 ≤ g
      → g ≤ c.generated_id_count
      → (id : SessionSpaceId) → id_of_generation c space g ≡ some id
      → local_of_space (session_to_space id) ≡ some (from_generation_count g)
  local_of_id g p q id e = elim (id_cases c space v g p q id e) [
    | inl (h, s) ↦
        subst (λ i. local_of_space (session_to_space i) ≡ some (from_generation_count g)) s
          (rw (session_to_space-from_local (from_generation_count g) (l_lem c space v g p q).0)
            refl)
    | inr (k, h, n, s) ↦
        subst (λ i. local_of_space (session_to_space i) ≡ some (from_generation_count g)) s
          (rw
            (
              session_to_space-from_final (final_beside (from_generation_count g) k)
                  (beside_IsFinal c space v g p q k n),
              (in-IsCluster c space v g p q k n).3,
              aligned_lem c space v g p q k n,
            )
            refl)
  ]

  pub id_of_generation-injective :
      (g h : ℕ) (id : SessionSpaceId)
      → 1 ≤ g
      → g ≤ c.generated_id_count
      → 1 ≤ h
      → h ≤ c.generated_id_count
      → id_of_generation c space g ≡ some id
      → id_of_generation c space h ≡ some id
      → g ≡ h
  id_of_generation-injective g h id p q r s e f =
      let same : from_generation_count g ≡ from_generation_count h =
        some-injective _ _ (sym (local_of_id g p q id e) ∙ local_of_id h r s id f) in
      sym (l_lem c space v g p q).1 ∙ ap to_generation_count same ∙ (l_lem c space v h r s).1

  -- On a compressor whose own state is valid, two different generations that were generated have
  -- different session space IDs.
  id_of_generation-distinct :
      (g h : ℕ)
      → 1 ≤ g
      → g ≤ c.generated_id_count
      → 1 ≤ h
      → h ≤ c.generated_id_count
      → g ≢ h
      → id_of_generation c space g ≢ id_of_generation c space h
  id_of_generation-distinct g h p q r s g≢h same =
      let (id, e) = id_exists c space v h r s in
      g≢h (id_of_generation-injective g h id p q r s (same ∙ e) e)
