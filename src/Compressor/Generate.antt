-- ===== src/Compressor/Generate.antt =====
-- `generate_next_id` on a compressor whose own session is well formed.
use distributed_id_allocator.Common.{
  ℕ, ◌+◌, ◌^◌, ◌≤◌, ◌<◌, ◌≡◌, refl, some, ◌||◌, done, get_last?, ◌==◌, arith, Option-cases, inl,
  inr, ap, ◌∙◌, subst,
}
use distributed_id_allocator.Word.{add_u64}
use distributed_id_allocator.Ids.Local.{LocalId, to_generation_count, from_generation_count}
use distributed_id_allocator.Ids.Local.Generations.{
  IsLocal, to_generation_count-from_generation_count,
}
use distributed_id_allocator.Ids.Space.{session_from_local, session_from_final}
use distributed_id_allocator.Tables.SessionSpace.{IdCluster, SessionSpace, session_tail_cluster}
use distributed_id_allocator.Tables.SessionSpace.Chain.{base_generation, next_generation}
use distributed_id_allocator.Tables.SessionSpace.End.{
  chain_end, chain_end-get_last?, IsChain-get_last?,
}
use distributed_id_allocator.Tables.SessionSpace.Align.{final_beside}
use distributed_id_allocator.Tables.Normalizer.{add_local_range}
use distributed_id_allocator.Tables.Normalizer.Contains.{IsNormalized, IsRange, IsNormalized-mono}
use distributed_id_allocator.Tables.Normalizer.Add.{
  add_local_range-IsNormalized, covers-add_local_range,
}
use distributed_id_allocator.Compressor.{IdCompressor}
use distributed_id_allocator.Compressor.Allocate.{
  generate_next_local_id, next_id_after, generate_next_id,
}
use distributed_id_allocator.Compressor.OwnSession.{IsOwn, handed_local}

module _ (c : IdCompressor) (space : SessionSpace) (v : IsOwn c space)
    (room : c.generated_id_count + 1 < 2 ^ 63) where
  abbrev pub g : ℕ
  g = c.generated_id_count + 1

  counted : IdCompressor
  counted = record c { generated_id_count = add_u64 c.generated_id_count 1 }

  generate_next_id_steps :
      generate_next_id c ≡ done (next_id_after counted (get_last? space.cluster_chain))
  unfolding generate_next_id counted session_tail_cluster
  generate_next_id_steps = rw v.own_space refl

  abbrev pub new_local : LocalId
  new_local = from_generation_count g

  pub new_local_lem : IsLocal new_local × (to_generation_count new_local ≡ g)
  new_local_lem = to_generation_count-from_generation_count g (omega arith) (omega arith)

  -- The state after a local ID, and after a final ID.
  abbrev pub after_local : IdCompressor
  after_local =
      let stats = c.telemetry_stats in
      record c {
        generated_id_count = g;
        telemetry_stats = record stats { local_id_count = add_u64 stats.local_id_count 1 };
        session_space_normalizer = add_local_range c.session_space_normalizer new_local 1;
      }

  abbrev pub after_final : IdCompressor
  after_final =
      let stats = c.telemetry_stats in
      record c {
        generated_id_count = g;
        telemetry_stats = record stats { eager_final_count = add_u64 stats.eager_final_count 1 };
      }

  new-IsRange : IsRange (new_local, 1)
  new-IsRange = record {
    base_IsLocal = new_local_lem.0;
    count_pos = omega arith;
    fits = omega (arith, new_local_lem.1);
  }

  -- The new generation is the only one that becomes local.
  pub handed_after_local : (h : ℕ) → handed_local after_local h ≡ (handed_local c h || (h == g))
  handed_after_local h =
      covers-add_local_range g c.session_space_normalizer new_local 1 v.normalized new-IsRange
        (omega (arith, new_local_lem.1)) h
      ∙ ground (arith, new_local_lem.1)

  pub after_local-IsOwn : IsOwn after_local space
  after_local-IsOwn = record {
    own_space = v.own_space;
    chain = v.chain;
    normalized =
        subst (λ n. IsNormalized (n + 1) after_local.session_space_normalizer) new_local_lem.1
          (add_local_range-IsNormalized g c.session_space_normalizer new_local 1 v.normalized
            new-IsRange (omega (arith, new_local_lem.1)));
    generated_fits = room;
    next_pos = v.next_pos;
    next_le = omega (arith, v.next_le);
    finalized_le = v.finalized_le;
    eager = λ h p q e.
        v.eager h p (ground (arith, handed_after_local h)) (ground (arith, handed_after_local h));
  }

  pub after_final-IsOwn : g < chain_end 1 space.cluster_chain → IsOwn after_final space
  after_final-IsOwn fits = record {
    own_space = v.own_space;
    chain = v.chain;
    normalized = IsNormalized-mono g (g + 1) (omega arith) v.normalized;
    generated_fits = room;
    next_pos = v.next_pos;
    next_le = omega (arith, v.next_le);
    finalized_le = v.finalized_le;
    eager = λ h p q e. ground (arith, v.eager h p);
  }

  counted-eq : counted ≡ record c { generated_id_count = g }
  unfolding counted
  counted-eq = ap (λ n. record c { generated_id_count = n }) (omega arith)

  steps :
      generate_next_id c
      ≡ done (next_id_after (record c { generated_id_count = g }) (get_last? space.cluster_chain))
  steps =
      generate_next_id_steps
      ∙ ap (λ d. done (next_id_after d (get_last? space.cluster_chain))) counted-eq

  -- The test on the last cluster's room.
  module _ (t : IdCluster) (e : get_last? space.cluster_chain ≡ some t) where
    pub begun : base_generation t ≤ c.generated_id_count
    begun =
        let k = (IsChain-get_last? 1 0 space.cluster_chain v.chain e).0 in
        omega (arith, v.finalized_le t e, v.next_le, k.count_pos)

    no_room :
        next_generation t ≤ g
        → next_id_after (record c { generated_id_count = g }) (some t)
          ≡ (session_from_local new_local, after_local)
    unfolding next_id_after from_generation_count generate_next_local_id
    no_room past = ground (arith, begun)

    room_left :
        g < next_generation t
        → next_id_after (record c { generated_id_count = g }) (some t)
          ≡ (session_from_final (final_beside new_local t), after_final)
    unfolding next_id_after
    room_left fits =
        let k = (IsChain-get_last? 1 0 space.cluster_chain v.chain e).0 in
        ground (arith, begun, new_local_lem.1, k.final_fits, k.local_fits)

  -- With no room in the last cluster the new ID is local.
  pub generate_local :
      chain_end 1 space.cluster_chain ≤ g
      → generate_next_id c ≡ done (session_from_local new_local, after_local)
  generate_local past = steps ∙ elim (Option-cases (get_last? space.cluster_chain)) [
    | inl e ↦ rw e (unfold next_id_after from_generation_count generate_next_local_id in refl)
    | inr (t, e) ↦
        rw e (ap done (no_room t e (omega (arith, chain_end-get_last? 1 space.cluster_chain e))))
  ]

  -- With room it is the next final ID of that cluster.
  pub generate_final :
      (t : IdCluster)
      → get_last? space.cluster_chain ≡ some t
      → g < next_generation t
      → generate_next_id c ≡ done (session_from_final (final_beside new_local t), after_final)
  generate_final t e fits = steps ∙ rw e (ap done (room_left t e fits))
