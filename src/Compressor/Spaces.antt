-- ===== src/Compressor/Spaces.antt =====
-- The two normalizations of an ID that the compressor handed out undo each other.
use distributed_id_allocator.Common.{
  ℕ, ◌≤◌, ◌≡◌, refl, ap, ◌∙◌, none, some, true, false, done, ok, arith, Option-cases, inl, inr,
  subst,
}
use distributed_id_allocator.Ids.Local.{LocalId, from_generation_count}
use distributed_id_allocator.Ids.Space.{
  SessionSpaceId, OpSpaceId, session_from_local, session_from_final, op_from_local, op_from_final,
  session_to_space-from_local, session_to_space-from_final, op_to_space-from_local,
  op_to_space-from_final,
}
use distributed_id_allocator.Tables.SessionSpace.{IdCluster, SessionSpace}
use distributed_id_allocator.Tables.SessionSpace.Lookup.{
  cluster_of_local, get_cluster_by_allocated_final-cluster_of_final,
}
use distributed_id_allocator.Tables.SessionSpace.Align.{final_beside, final_of_local}
use distributed_id_allocator.Compressor.{IdCompressor}
use distributed_id_allocator.Compressor.Normalize.{
  normalize_to_op_space, normalize_to_session_space_with_token, own_local_to_session_space,
  final_to_session_space,
}
use distributed_id_allocator.Compressor.OwnSession.{IsOwn, handed_local}
use distributed_id_allocator.Compressor.Handout.{id_of_generation}
use distributed_id_allocator.Compressor.OwnIds.{
  l_lem, contains_lem, convert_lem, in-IsCluster, aligned_lem, beside_IsFinal, id_cases,
}

-- The op space ID of a generation, in its most final form.
unfoldable pub op_of_generation : SessionSpace → ℕ → OpSpaceId
op_of_generation space g =
    let l = from_generation_count g in
    elim (final_of_local l (cluster_of_local true l space.cluster_chain)) [
      | none ↦ op_from_local l
      | some f ↦ op_from_final f
    ]

module _ (c : IdCompressor) (space : SessionSpace) (v : IsOwn c space) (g : ℕ) (pos : 1 ≤ g)
    (generated : g ≤ c.generated_id_count) where
  abbrev l : LocalId
  l = from_generation_count g

  local_to_op :
      handed_local c g ≡ true
      → normalize_to_op_space c (session_from_local l) ≡ done (ok (op_of_generation space g))
  unfolding normalize_to_op_space op_of_generation
  local_to_op h = elim (Option-cases (cluster_of_local true l space.cluster_chain)) [
    | inl n ↦
        rw
          (
            normalize_to_op_space,
            op_of_generation,
            session_to_space-from_local l (l_lem c space v g pos generated).0,
            contains_lem c space v g pos generated,
            h,
            v.own_space,
            convert_lem c space v g pos generated,
            n,
          )
          refl
    | inr (k, n) ↦
        rw
          (
            normalize_to_op_space,
            op_of_generation,
            session_to_space-from_local l (l_lem c space v g pos generated).0,
            contains_lem c space v g pos generated,
            h,
            v.own_space,
            convert_lem c space v g pos generated,
            n,
          )
          refl
  ]

  final_to_op :
      (k : IdCluster)
      → cluster_of_local true l space.cluster_chain ≡ some k
      → normalize_to_op_space c (session_from_final (final_beside l k))
        ≡ done (ok (op_of_generation space g))
  unfolding normalize_to_op_space op_of_generation
  final_to_op k n =
      rw
        (
          normalize_to_op_space,
          op_of_generation,
          session_to_space-from_final (final_beside l k)
              (beside_IsFinal c space v g pos generated k n),
          n,
        )
        refl

  -- On a compressor whose own state is valid, `normalize_to_op_space` takes the session space ID
  -- of each generation that was generated to its final ID if a cluster of the session has one,
  -- else to its local ID; it neither fails nor panics.
  pub normalize_to_op_space_lem :
      (id : SessionSpaceId)
      → id_of_generation c space g ≡ some id
      → normalize_to_op_space c id ≡ done (ok (op_of_generation space g))
  normalize_to_op_space_lem id e = elim (id_cases c space v g pos generated id e) [
    | inl (h, p) ↦
        subst (λ i. normalize_to_op_space c i ≡ done (ok (op_of_generation space g))) p
          (local_to_op h)
    | inr (k, _, n, p) ↦
        subst (λ i. normalize_to_op_space c i ≡ done (ok (op_of_generation space g))) p
          (final_to_op k n)
  ]

  local_to_session :
      handed_local c g ≡ true
      → normalize_to_session_space_with_token c (op_of_generation space g) c.local_session_ref.index
        ≡ done (ok (session_from_local l))
  unfolding normalize_to_session_space_with_token op_of_generation own_local_to_session_space
      final_to_session_space
  local_to_session h = elim (Option-cases (cluster_of_local true l space.cluster_chain)) [
    | inl n ↦
        rw
          (
            normalize_to_session_space_with_token,
            op_of_generation,
            n,
            op_to_space-from_local l (l_lem c space v g pos generated).0,
            contains_lem c space v g pos generated,
            h,
          )
          (ground arith)
    | inr (k, n) ↦
        rw
          (
            normalize_to_session_space_with_token,
            op_of_generation,
            n,
            op_to_space-from_final (final_beside l k)
                (beside_IsFinal c space v g pos generated k n),
            v.own_space,
            get_cluster_by_allocated_final-cluster_of_final space 1 0 v.chain (final_beside l k),
            (in-IsCluster c space v g pos generated k n).3,
            aligned_lem c space v g pos generated k n,
            contains_lem c space v g pos generated,
            h,
          )
          refl
  ]

  final_to_session :
      (k : IdCluster)
      → handed_local c g ≡ false
      → cluster_of_local true l space.cluster_chain ≡ some k
      → normalize_to_session_space_with_token c (op_of_generation space g) c.local_session_ref.index
        ≡ done (ok (session_from_final (final_beside l k)))
  unfolding normalize_to_session_space_with_token op_of_generation final_to_session_space
  final_to_session k h n =
      rw
        (
          normalize_to_session_space_with_token,
          op_of_generation,
          n,
          op_to_space-from_final (final_beside l k) (beside_IsFinal c space v g pos generated k n),
          v.own_space,
          get_cluster_by_allocated_final-cluster_of_final space 1 0 v.chain (final_beside l k),
          (in-IsCluster c space v g pos generated k n).3,
          aligned_lem c space v g pos generated k n,
          contains_lem c space v g pos generated,
          h,
        )
        (ground (arith, (l_lem c space v g pos generated).1))

  -- On a compressor whose own state is valid, the op space ID of a generation that was generated,
  -- in its most final form, normalizes with the session's own token to the very session space ID
  -- that the generation was handed out as.
  pub normalize_to_session_space-op_of_generation :
      (id : SessionSpaceId)
      → id_of_generation c space g ≡ some id
      → normalize_to_session_space_with_token c (op_of_generation space g) c.local_session_ref.index
        ≡ done (ok id)
  normalize_to_session_space-op_of_generation id e =
      elim (id_cases c space v g pos generated id e) [
        | inl (h, p) ↦ local_to_session h ∙ ap (λ i. done (ok i)) p
        | inr (k, h, n, p) ↦ final_to_session k h n ∙ ap (λ i. done (ok i)) p
      ]
