-- ===== src/Compressor/Rejects.antt =====
-- The ranges that `finalize_range` refuses, and what it keeps of them.
use distributed_id_allocator.Common.{
  ℕ, ◌^◌, ◌≤◌, ◌≡◌, refl, ◌∙◌, none, some, true, false, done, err, get_elem?,
  get_elem?-append_length, arith,
}
use distributed_id_allocator.Common.{◌≢◌, ◌∷◌, [], List, get_last?, ◌+◌, some}
use distributed_id_allocator.Ids.Local.{local_eq, local_sub}
use distributed_id_allocator.Ids.Local.Generations.{
  local_eq-generation, to_generation_count-local_sub,
}
use distributed_id_allocator.Tables.SessionSpace.{IdCluster, session_tail_cluster_mut}
use distributed_id_allocator.Tables.SessionSpace.Chain.{IsCluster, base_generation}
use distributed_id_allocator.Tables.FinalSpace.{final_tail_cluster}
use distributed_id_allocator.Compressor.Finalize.{finalize_at_tail}
use distributed_id_allocator.Word.{minus_one}
use distributed_id_allocator.Ids.Errors.{cluster_collision, range_finalized_out_of_order}
use distributed_id_allocator.Ids.Local.{from_generation_count, local_eq_i64}
use distributed_id_allocator.Ids.Local.Generations.{
  local_eq_i64-minus_one, to_generation_count-from_generation_count,
}
use distributed_id_allocator.Ids.Stable.{
  SessionId, StableId, stable_from_session, stable_add_local, stable_add,
}
use distributed_id_allocator.Tables.SessionSpace.{
  SessionSpace, SessionSpaceRef, new_session_space, cluster_chain_is_empty,
}
use distributed_id_allocator.Tables.SessionMap.{map_get}
use distributed_id_allocator.Tables.Sessions.{
  get_or_create, range_collides, deref_session_space_mut,
}
use distributed_id_allocator.Compressor.{IdCompressor}
use distributed_id_allocator.Compressor.Finalize.{finalize_range, finalize_ids, finalize_in_session}

-- The stable ID of a range's first ID.
abbrev pub base_stable : SessionId → ℕ → StableId
base_stable session base =
    stable_add_local (stable_from_session session) (from_generation_count base)

-- Where the range ends, with the capacity that a new cluster would add.
abbrev pub max_stable : IdCompressor → SessionId → ℕ → ℕ → StableId
max_stable c session base len =
    stable_add (stable_add (base_stable session base) len) c.cluster_capacity

module _ (c : IdCompressor) (session : SessionId) (base len : ℕ) (pos : 1 ≤ len) where
  -- A range with IDs that collides with another session's clusters is refused as a collision, and
  -- nothing changes.
  pub finalize_range_collision :
      range_collides c.sessions session (base_stable session base) (max_stable c session base len)
        ≡ done true
      → finalize_range c (record { id = session; range = some (base, len) })
        ≡ done (err cluster_collision, c)
  unfolding finalize_range finalize_ids
  finalize_range_collision collides = ground (arith, collides)

  out_of_order :
      (d : IdCompressor) (space : SessionSpace) (s : SessionSpaceRef)
      → get_elem? d.sessions.session_list s.index ≡ some space
      → cluster_chain_is_empty space ≡ true
      → local_eq_i64 (from_generation_count base) minus_one ≡ false
      → finalize_in_session d s (from_generation_count base) len
        ≡ done (err range_finalized_out_of_order, d)
  unfolding finalize_in_session deref_session_space_mut
  out_of_order d space s at empty late = rw (at, empty, late) refl

  opened :
      map_get c.sessions.session_map session ≡ none
      → get_elem?
          (get_or_create c.sessions session).1.session_list
          (get_or_create c.sessions session).0.index
        ≡ some new_session_space
  unfolding get_or_create
  opened unknown =
      rw (get_or_create, unknown)
        (get_elem?-append_length c.sessions.session_list new_session_space)

  -- A range with IDs from the generations 2 to 2 ^ 63 on, of a session that the compressor does
  -- not know, and that does not collide with another session, is refused as out of order; but the
  -- session is in the tables of the sessions afterwards, as `get_or_create` left them, and the
  -- rest of the compressor is unchanged.
  pub finalize_range_unopened :
      map_get c.sessions.session_map session ≡ none
      → range_collides c.sessions session (base_stable session base) (max_stable c session base len)
        ≡ done false
      → 2 ≤ base
      → base ≤ 2 ^ 63
      → finalize_range c (record { id = session; range = some (base, len) })
        ≡ done (
          err range_finalized_out_of_order,
          record c { sessions = (get_or_create c.sessions session).1 },
        )
  unfolding finalize_range finalize_ids cluster_chain_is_empty
  finalize_range_unopened unknown apart lo hi =
      let g = to_generation_count-from_generation_count base (omega arith) hi in
      let late : local_eq_i64 (from_generation_count base) minus_one ≡ false =
        local_eq_i64-minus_one (from_generation_count base) g.0 ∙ ground (arith, g.1) in
      ground (
        arith,
        apart,
        out_of_order (record c { sessions = (get_or_create c.sessions session).1 })
            new_session_space (get_or_create c.sessions session).0 (opened unknown) refl late,
      )

  module _ (s : SessionSpaceRef) (space : SessionSpace) (tail last : IdCluster)
      (known : map_get c.sessions.session_map session ≡ some s)
      (at : get_elem? c.sessions.session_list s.index ≡ some space)
      (ends : get_last? space.cluster_chain ≡ some tail)
      (final_ends : final_tail_cluster c.final_space c.sessions ≡ done (some last))
      (valid : IsCluster tail) where
    not_empty : cluster_chain_is_empty space ≡ false
    unfolding cluster_chain_is_empty
    not_empty = go space.cluster_chain ends
      where
        go :
            (ks : List IdCluster)
            → get_last? ks ≡ some tail
            → cluster_chain_is_empty (record { cluster_chain = ks }) ≡ false
        go [] e = ground arith
        go (k ∷ ks) e = refl

    not_next :
        1 ≤ base
        → base ≤ 2 ^ 63
        → base ≢ base_generation tail + tail.count
        → local_eq (local_sub tail.base_local_id tail.count) (from_generation_count base) ≡ false
    not_next lo hi other =
        let g = to_generation_count-from_generation_count base lo hi in
        let n =
          to_generation_count-local_sub tail.base_local_id tail.count valid.base_IsLocal
            (omega (arith, valid.count_le, valid.local_fits)) in
        local_eq-generation (local_sub tail.base_local_id tail.count) (from_generation_count base)
          n.0 g.0
        ∙ ground (arith, g.1, n.1, other)

    at_tail :
        local_eq (local_sub tail.base_local_id tail.count) (from_generation_count base) ≡ false
        → finalize_in_session c s (from_generation_count base) len
          ≡ done (err range_finalized_out_of_order, c)
    unfolding finalize_in_session finalize_at_tail deref_session_space_mut session_tail_cluster_mut
    at_tail late =
        rw
          (
            finalize_in_session, finalize_at_tail, at, not_empty, final_ends,
            session_tail_cluster_mut, ends, late,
          )
          refl

    -- For a known session with a valid last cluster, a range with IDs, from a generation up to 2 ^
    -- 63 on, that does not collide with another session and does not begin at the generation after
    -- the last finalized one is refused as out of order, and nothing changes.
    pub finalize_range_out_of_order :
        range_collides c.sessions session (base_stable session base) (max_stable c session base len)
          ≡ done false
        → 1 ≤ base
        → base ≤ 2 ^ 63
        → base ≢ base_generation tail + tail.count
        → finalize_range c (record { id = session; range = some (base, len) })
          ≡ done (err range_finalized_out_of_order, c)
    unfolding finalize_range finalize_ids get_or_create
    finalize_range_out_of_order apart lo hi other =
        ground (arith, apart, known, at_tail (not_next lo hi other))
