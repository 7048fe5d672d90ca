-- ===== src/Compressor/Uuids.antt =====
-- The stable ID of a generation: the session's identifier, counted on from it.
use distributed_id_allocator.Common.{
  ℕ, ◌+◌, ◌-◌, ◌^◌, ◌%◌, ◌≤◌, ◌≡◌, refl, ap, subst, ◌∙◌, some, true, false, done, ok, get_elem?,
  arith, inl, inr,
}
use distributed_id_allocator.Ids.Local.{LocalId, from_generation_count, to_generation_count}
use distributed_id_allocator.Ids.Stable.{stable_add_local, session_add_local}
use distributed_id_allocator.Ids.Space.{
  SessionSpaceId, session_from_local, session_from_final, session_to_space-from_local,
  session_to_space-from_final,
}
use distributed_id_allocator.Search.Intervals.{find_interval_sound, find_interval_complete}
use distributed_id_allocator.Tables.SessionSpace.{IdCluster, SessionSpace, ClusterRef}
use distributed_id_allocator.Tables.SessionSpace.Chain.{base_generation, capacity_of}
use distributed_id_allocator.Tables.SessionSpace.Lookup.{cluster_of_local}
use distributed_id_allocator.Tables.SessionSpace.Align.{final_beside}
use distributed_id_allocator.Tables.Sessions.{deref_cluster, get_session_id}
use distributed_id_allocator.Tables.FinalSpace.{final_search}
use distributed_id_allocator.Tables.FinalSpace.Locate.{
  IsFinalSpace, first_final, final_capacity, final_search-find_interval,
}
use distributed_id_allocator.Compressor.{IdCompressor}
use distributed_id_allocator.Compressor.OwnSession.{IsOwn, handed_local}
use distributed_id_allocator.Compressor.Handout.{id_of_generation}
use distributed_id_allocator.Compressor.OwnIds.{
  id_cases, contains_lem, aligned_lem, beside_IsFinal, l_lem,
}
use distributed_id_allocator.Compressor.Decompress.{decompress, decompress_final, is_decompressible}

-- The tables hold the compressor's session and, in the final space, its clusters.
pub record IsPlaced (c : IdCompressor) (space : SessionSpace) : Type 0 where
  pub final_valid : IsFinalSpace c.sessions c.final_space
  pub session : get_session_id c.sessions c.local_session_ref ≡ done c.session_id
  pub refers :
      (i : ℕ) (k : IdCluster)
      → get_elem? space.cluster_chain i ≡ some k
      → (j : ℕ) × (get_elem? c.final_space.clusters j
          ≡ some (record { session_space_ref = c.local_session_ref; cluster_chain_index = i }))

module _ (c : IdCompressor) (space : SessionSpace) (v : IsOwn c space) (w : IsPlaced c space) where
  abbrev ref_of : ℕ → ClusterRef
  ref_of i = record { session_space_ref = c.local_session_ref; cluster_chain_index = i }

  deref_own :
      (i : ℕ) (k : IdCluster)
      → get_elem? space.cluster_chain i ≡ some k
      → deref_cluster c.sessions (ref_of i) ≡ done k
  unfolding deref_cluster
  deref_own i k e = rw (v.own_space, e) refl

  module _ (g : ℕ) (pos : 1 ≤ g) (generated : g ≤ c.generated_id_count) where
    abbrev own_local : LocalId
    own_local = from_generation_count g

    decompress_local :
        handed_local c g ≡ true
        → decompress c (session_from_local own_local)
          ≡ done (ok (session_add_local c.session_id own_local))
    unfolding decompress
    decompress_local h =
        rw
          (
            decompress,
            session_to_space-from_local own_local (l_lem c space v g pos generated).0,
            contains_lem c space v g pos generated,
            h,
          )
          refl

    module _ (k : IdCluster) (h : handed_local c g ≡ false)
        (n : cluster_of_local true own_local space.cluster_chain ≡ some k) where
      -- The final space refers to the generation's cluster.
      found :
          (i : ℕ) × (deref_cluster c.sessions (ref_of i) ≡ done k)
          × (final_search c.final_space (final_beside own_local k) c.sessions
              ≡ done (some (ref_of i)))
      found =
          let (i, e, lo, hi) =
            find_interval_sound base_generation capacity_of (to_generation_count own_local)
              space.cluster_chain n in
          let (j, r) = w.refers i k e in
          let d = deref_own i k e in
          (
            i,
            d,
            final_search-find_interval c.sessions c.final_space w.final_valid
                  (final_beside own_local k)
                ∙ ap done (
                    find_interval_complete (first_final c.sessions) (final_capacity c.sessions)
                      (final_beside own_local k).id c.final_space.clusters j (ref_of i)
                      w.final_valid.sorted r (rw (first_final, d) (omega arith))
                      (rw (first_final, final_capacity, d) (omega (arith, lo, hi)))),
          )

      -- The ID is past what is finalized, but the session handed it out as a final ID.
      eager_good : is_decompressible c k c.local_session_ref own_local ≡ done true
      unfolding is_decompressible
      eager_good =
          let gen = (l_lem c space v g pos generated).1 in
          let known = contains_lem c space v g pos generated in
          ground (arith, known, h, gen, generated)

      decompress_eager :
          decompress c (session_from_final (final_beside own_local k))
          ≡ done (ok (session_add_local c.session_id own_local))
      unfolding decompress decompress_final
      decompress_eager =
          let (i, d, s) = found in
          rw
            (
              decompress,
              session_to_space-from_final (final_beside own_local k)
                  (beside_IsFinal c space v g pos generated k n),
              decompress_final,
              s,
              d,
              aligned_lem c space v g pos generated k n,
              eager_good,
              w.session,
            )
            refl

    stable_lem :
        session_add_local c.session_id own_local
        ≡ record { id = (c.session_id.id.id + (g - 1)) % 2 ^ 128 }
    unfolding stable_add_local
    stable_lem =
        let gen = (l_lem c space v g pos generated).1 in
        let fits = v.generated_fits in
        ap (λ n. record { id = n }) (omega (arith, gen, fits, pos, generated))

    decompress_own :
        (id : SessionSpaceId)
        → id_of_generation c space g ≡ some id
        → decompress c id ≡ done (ok (session_add_local c.session_id own_local))
    decompress_own id e = elim (id_cases c space v g pos generated id e) [
      | inl (h, p) ↦
          subst (λ i. decompress c i ≡ done (ok (session_add_local c.session_id own_local))) p
            (decompress_local h)
      | inr (k, h, n, p) ↦
          subst (λ i. decompress c i ≡ done (ok (session_add_local c.session_id own_local))) p
            (decompress_eager k h n)
    ]

    -- On a compressor whose own state is valid, and whose tables hold its session and, in a valid
    -- final space, its clusters, `decompress` takes the session space ID of generation g, local or
    -- final, to the stable ID g - 1 past the session's identifier, modulo 2 ^ 128; it neither
    -- fails nor panics.
    pub decompress_lem :
        (id : SessionSpaceId)
        → id_of_generation c space g ≡ some id
        → decompress c id ≡ done (ok (record { id = (c.session_id.id.id + (g - 1)) % 2 ^ 128 }))
    decompress_lem id e = decompress_own id e ∙ ap (λ s. done (ok s)) stable_lem
