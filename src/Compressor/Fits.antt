-- ===== src/Compressor/Fits.antt =====
-- `finalize_range` of a range of the own session that fits in the session's last cluster.
use distributed_id_allocator.Common.{
  length, get_last?-Snoc, All, All-back, ℕ, ◌+◌, ◌-◌, ◌≤◌, ◌≡◌, refl, sym, subst, ◌∙◌, List, [],
  ◌∷◌, some, some-injective, true, false, done, ok, leb, get_elem?, get_elem?-set, get_last?,
  set_last, arith,
}
use distributed_id_allocator.Word.{add_u64, sub_u64}
use distributed_id_allocator.Ids.Local.{LocalId, from_generation_count, local_eq, local_sub}
use distributed_id_allocator.Ids.Local.Generations.{
  local_eq-generation, to_generation_count-local_sub, to_generation_count-from_generation_count,
}
use distributed_id_allocator.Ids.Final.{FinalId}
use distributed_id_allocator.Tables.SessionSpace.{
  IdCluster, SessionSpace, SessionSpaceRef, session_tail_cluster_mut, cluster_chain_is_empty,
}
use distributed_id_allocator.Tables.SessionSpace.Chain.{
  IsCluster, IsChain-clusters, base_generation,
}
use distributed_id_allocator.Tables.SessionSpace.Grow.{
  filled, filled-IsChain, filled-chain_end, filled-final_of_local, filled-last,
}
use distributed_id_allocator.Tables.Sessions.{
  get_or_create, range_collides, Sessions, deref_session_space, deref_session_space_mut,
}
use distributed_id_allocator.Tables.FinalSpace.{final_tail_cluster}
use distributed_id_allocator.Compressor.{IdCompressor}
use distributed_id_allocator.Compressor.Finalize.{
  finalize_range, finalize_at_tail, grow_tail, update_limit, limit_after,
}
use distributed_id_allocator.Tables.SessionMap.{map_get}
use distributed_id_allocator.Compressor.Finalize.{finalize_ids, finalize_in_session}
use distributed_id_allocator.Compressor.Rejects.{base_stable, max_stable}
use distributed_id_allocator.Compressor.OwnSession.{IsOwn}
use distributed_id_allocator.Compressor.Handout.{id_of_generation}
use distributed_id_allocator.Tables.FinalSpace.Rewritten.{rewritten, final_tail_cluster-rewritten}

module _ (c : IdCompressor) (space : SessionSpace) (v : IsOwn c space) (t last : IdCluster)
    (len : ℕ) (ends : get_last? space.cluster_chain ≡ some t)
    (final_ends : final_tail_cluster c.final_space c.sessions ≡ done (some last)) (pos : 1 ≤ len)
    (fits : t.count + len ≤ t.capacity)
    (taken : base_generation t + t.count + len ≤ c.next_range_base_generation_count) where
  abbrev pub grown : SessionSpace
  grown = record { cluster_chain = set_last space.cluster_chain (filled t len fits) }

  abbrev grown_sessions : Sessions
  grown_sessions =
      rewritten c.sessions c.local_session_ref.index space (length space.cluster_chain - 1)
        (filled t len fits)

  own_at : get_elem? c.sessions.session_list c.local_session_ref.index ≡ some space
  unfolding deref_session_space
  own_at = let e = v.own_space in ground arith

  last_after :
      (last' : IdCluster) × (final_tail_cluster c.final_space grown_sessions ≡ done (some last'))
  last_after =
      final_tail_cluster-rewritten c.sessions c.local_session_ref.index space
        (length space.cluster_chain - 1) (filled t len fits) own_at c.final_space final_ends

  abbrev after_fit : IdCompressor
  after_fit = record c {
    sessions = grown_sessions;
    final_id_limit = limit_after c.final_id_limit (some last_after.0);
  }

  tail-IsCluster : IsCluster t
  tail-IsCluster =
      let s = get_last?-Snoc space.cluster_chain t ends in
      (All-back IsCluster s.front (t ∷ [])
        (subst (All IsCluster) s.shape (IsChain-clusters 1 0 space.cluster_chain v.chain))).0

  after_fit-IsOwn : IsOwn after_fit grown
  unfolding deref_session_space
  after_fit-IsOwn = record {
    own_space =
        rw
          (
            deref_session_space,
            get_elem?-set c.sessions.session_list c.local_session_ref.index grown own_at,
          )
          refl;
    chain = filled-IsChain t len fits space.cluster_chain ends 1 0 v.chain;
    normalized = v.normalized;
    generated_fits = v.generated_fits;
    next_pos = v.next_pos;
    next_le = v.next_le;
    finalized_le = λ k e.
        let same : filled t len fits ≡ k =
          some-injective _ _ (sym (filled-last t len fits space.cluster_chain ends) ∙ e) in
        subst (λ z. base_generation z + z.count ≤ c.next_range_base_generation_count) same
          (omega (arith, taken));
    eager = λ g p q h.
        omega (arith, v.eager g p q h, filled-chain_end t len fits space.cluster_chain ends 1);
  }

  grow_tail_fits :
      (d : IdCompressor) (s : SessionSpaceRef) (l : LocalId) (f : FinalId)
      (put : IdCluster → Sessions)
      → grow_tail d s l len f t put ≡ done (record d { sessions = put (filled t len fits) })
  unfolding grow_tail
  grow_tail_fits d s l f put =
      let k = tail-IsCluster in
      let sum : add_u64 t.count len ≡ t.count + len = omega (arith, fits, k.local_fits) in
      let room : leb len (sub_u64 t.capacity t.count) ≡ true =
        ground (arith, fits, k.local_fits, k.count_le) in
      rw (grow_tail, room, sum) refl

  module _ (known : map_get c.sessions.session_map c.session_id ≡ some c.local_session_ref)
      (apart : range_collides c.sessions c.session_id
          (base_stable c.session_id (base_generation t + t.count))
          (max_stable c c.session_id (base_generation t + t.count) len)
        ≡ done false) where
    abbrev base : ℕ
    base = base_generation t + t.count

    follows : local_eq (local_sub t.base_local_id t.count) (from_generation_count base) ≡ true
    follows =
        let k = tail-IsCluster in
        let g =
          to_generation_count-from_generation_count base (omega (arith, k.count_pos))
            (omega (arith, k.count_le, k.local_fits)) in
        let n =
          to_generation_count-local_sub t.base_local_id t.count k.base_IsLocal
            (omega (arith, k.count_le, k.local_fits)) in
        local_eq-generation (local_sub t.base_local_id t.count) (from_generation_count base) n.0 g.0
        ∙ ground (arith, g.1, n.1)

    limit_lem : update_limit (record c { sessions = grown_sessions }) ≡ done (ok tt, after_fit)
    unfolding update_limit
    limit_lem = rw (update_limit, last_after.1) refl

    at_tail_fits :
        finalize_at_tail c c.local_session_ref (from_generation_count base) len
        ≡ done (ok tt, after_fit)
    unfolding finalize_at_tail deref_session_space_mut session_tail_cluster_mut
    at_tail_fits =
        rw
          (
            finalize_at_tail,
            final_ends,
            own_at,
            session_tail_cluster_mut,
            ends,
            follows,
            grow_tail_fits c c.local_session_ref (from_generation_count base) last.base_final_id
                (λ z.
                  rewritten c.sessions c.local_session_ref.index space
                    (length space.cluster_chain - 1) z),
          )
          limit_lem

    not_empty : cluster_chain_is_empty space ≡ false
    unfolding cluster_chain_is_empty
    not_empty = go space.cluster_chain ends
      where
        go :
            (ks : List IdCluster)
            → get_last? ks ≡ some t
            → cluster_chain_is_empty (record { cluster_chain = ks }) ≡ false
        go [] e = ground arith
        go (k ∷ ks) e = refl

    in_session :
        finalize_in_session c c.local_session_ref (from_generation_count base) len
        ≡ done (ok tt, after_fit)
    unfolding finalize_in_session deref_session_space_mut
    in_session = rw (finalize_in_session, own_at, not_empty) at_tail_fits

    -- On a compressor whose own state is valid and whose final space has a last cluster, a range
    -- of the own, known session that was taken, begins after the last finalized generation, fits
    -- in the session's last cluster and does not collide is finalized: `finalize_range` returns
    -- ok, the own state stays valid with the cluster's count increased by the range's length, and
    -- each generation keeps its session space ID.
    pub finalize_range_fits :
        (c' : IdCompressor) × (finalize_range c
            (record { id = c.session_id; range = some (base, len) })
          ≡ done (ok tt, c'))
        × IsOwn c' grown
        × ((g : ℕ) → id_of_generation c' grown g ≡ id_of_generation c space g)
    unfolding finalize_range finalize_ids get_or_create id_of_generation
    finalize_range_fits = (
      after_fit,
      ground (arith, apart, known, in_session),
      after_fit-IsOwn,
      λ g.
          rw (filled-final_of_local t len fits space.cluster_chain ends (from_generation_count g))
            refl,
    )
