-- ===== src/Compressor/Finals.antt =====
-- The IDs of an own range, once it is finalized.
use distributed_id_allocator.Common.{
  ℕ, ◌+◌, ◌≤◌, ◌<◌, ◌≡◌, refl, sym, ap, subst, ◌∙◌, some, true, Result, ok, done, done-injective,
  arith, ==-self,
}
use distributed_id_allocator.Ids.Errors.{AllocatorError}
use distributed_id_allocator.Ids.Final.{FinalId}
use distributed_id_allocator.Ids.Local.{from_generation_count, to_generation_count}
use distributed_id_allocator.Ids.Space.{SessionSpaceId, IsFinal, op_from_final}
use distributed_id_allocator.Ids.Stable.{session_eq}
use distributed_id_allocator.Tables.SessionSpace.Align.{final_of_local, final_beside}
use distributed_id_allocator.Tables.SessionSpace.Lookup.{cluster_of_local}
use distributed_id_allocator.Tables.SessionSpace.End.{
  chain_end, chain_end_covers, chain_end-get_last?,
}
use distributed_id_allocator.Ledger.{Ledger, IsLedger, chain_of, finalize_ledger}
use distributed_id_allocator.Ledger.Chains.{get_last?-chain_of}
use distributed_id_allocator.Ledger.Order.{tail_of-IsCluster}
use distributed_id_allocator.Ledger.Sessions.{chain_of-IsChain}
use distributed_id_allocator.Ledger.Growth.{finalize_ledger_end}
use distributed_id_allocator.Compressor.{IdCompressor}
use distributed_id_allocator.Compressor.Finalize.{finalize_range}
use distributed_id_allocator.Compressor.Normalize.{normalize_to_op_space}
use distributed_id_allocator.Compressor.OwnSession.{IsOwn}
use distributed_id_allocator.Compressor.OwnIds.{l_lem, beside_IsFinal}
use distributed_id_allocator.Compressor.Handout.{id_of_generation}
use distributed_id_allocator.Compressor.Spaces.{op_of_generation, normalize_to_op_space_lem}
use distributed_id_allocator.Compressor.Refinement.{Follows, finalize_range-Follows}
use distributed_id_allocator.Compressor.Finalizes.{Finalizes}
use distributed_id_allocator.Tables.Sessions.Create.{ids_after}
use distributed_id_allocator.Compressor.Deliver.{Range, range_of, ledger_or}
use distributed_id_allocator.Compressor.Network.{space_in}
use distributed_id_allocator.Compressor.Delivers.{
  IsDeliverable, after_range, Delivers, finalize_range-Delivers,
}
use distributed_id_allocator.Compressor.Life.{IsMember}

-- A generation in the own chain has a final ID.
covered-op :
    (d : IdCompressor) (m : Ledger)
    → IsOwn d (space_in d m)
    → IsLedger m
    → (g : ℕ) → 1 ≤ g
    → g ≤ d.generated_id_count
    → g < chain_end 1 (chain_of d.session_id m)
    → (f : FinalId) × (final_of_local
          (from_generation_count g)
          (cluster_of_local true (from_generation_count g) (chain_of d.session_id m))
        ≡ some f)
      × IsFinal f
      × (op_of_generation (space_in d m) g ≡ op_from_final f)
unfolding op_of_generation
covered-op d m v h g p le q =
    let gen = (l_lem d (space_in d m) v g p le).1 in
    let (k, e) =
      chain_end_covers 1 0 (to_generation_count (from_generation_count g)) (chain_of d.session_id m)
        (chain_of-IsChain d.session_id m h) (omega (arith, gen, p)) (omega (arith, gen, q)) in
    (
      final_beside (from_generation_count g) k,
      rw e refl,
      beside_IsFinal d (space_in d m) v g p le k e,
      rw (op_of_generation, e) refl,
    )

module _ (c : IdCompressor) (l m : Ledger) (v : IsMember c l) (r : Range) (w : IsDeliverable c l r)
    (mine : r.session ≡ c.session_id)
    (next : finalize_ledger c.cluster_capacity l r.session r.base r.len ≡ some m) where
  -- The own range is what is finalized of the session's last cluster.
  ends_after :
      (d : IdCompressor) → Delivers c l r d → r.base + r.len ≤ chain_end 1 (chain_of c.session_id m)
  ends_after d s =
      let h : IsLedger m = subst (λ o. IsLedger (ledger_or l o)) next s.shares.ledger in
      let (k, e, sum) =
        finalize_ledger_end c.cluster_capacity l m r.session r.base r.len next h w.starts
          (omega (arith, w.room)) in
      let valid = (tail_of-IsCluster r.session m k h e).0 in
      let reach =
        ap (λ s. chain_end 1 (chain_of s m)) (sym mine)
        ∙ chain_end-get_last? 1 (chain_of r.session m) (get_last?-chain_of r.session m ∙ e) in
      omega (arith, reach, sum, valid.count_le)

  -- The session's chain after the range is the one in the ledger that takes it.
  ledger_final :
      (d : IdCompressor) (g : ℕ) (f : FinalId)
      → d.session_id ≡ c.session_id
      → final_of_local (from_generation_count g) (
          cluster_of_local true
            (from_generation_count g)
            (chain_of d.session_id (after_range c l r)))
        ≡ some f
      → final_of_local
          (from_generation_count g)
          (cluster_of_local true (from_generation_count g) (chain_of c.session_id m))
        ≡ some f
  ledger_final d g f same e =
      subst
        (λ z.
          final_of_local (from_generation_count g)
            (cluster_of_local true (from_generation_count g) (chain_of c.session_id z))
          ≡ some f)
        (ap (ledger_or l) next)
        (subst
          (λ s.
            final_of_local (from_generation_count g)
              (cluster_of_local true (from_generation_count g) (chain_of s (after_range c l r)))
            ≡ some f)
          same e)

  -- On a compressor that shares a ledger and whose own state is valid, `finalize_range` on a range
  -- of its own that it took, that the ledger takes, that is not empty, does not collide and stays
  -- with the room for a new cluster within an `i64` returns ok, and afterwards
  -- `normalize_to_op_space` takes the session space ID of every generation up to the range's end
  -- to the final ID, below 2 ^ 63, beside the generation in the session's cluster that holds it in
  -- the ledger after the range.
  pub finalize_range-IsFinal :
      (d : IdCompressor) × (finalize_range c (range_of r) ≡ done (ok tt, d))
      × ((g : ℕ) (id : SessionSpaceId)
          → 1 ≤ g
          → g < r.base + r.len
          → id_of_generation c (space_in c l) g ≡ some id
          → (f : FinalId) × (final_of_local
                (from_generation_count g)
                (cluster_of_local true (from_generation_count g) (chain_of c.session_id m))
              ≡ some f)
            × IsFinal f
            × (normalize_to_op_space d id ≡ done (ok (op_from_final f))))
  finalize_range-IsFinal =
      let s = v.shares in
      let (d, run) = finalize_range-Delivers c v.known l s v.own r w in
      let taken : Finalizes c (ids_after c.sessions v.known r.session) m
          (finalize_range c (range_of r)) =
        subst
          (λ o.
            Follows c (ids_after c.sessions v.known r.session) l o (finalize_range c (range_of r)))
          next
          (finalize_range-Follows c v.known l s r.session w.wide r.base r.len w.not_empty w.starts
            w.room w.final_room w.apart) in
      let accepted : ◌≡◌ {A = Result (Unit {0}) AllocatorError × IdCompressor} (run.result, d)
          (ok tt, taken.after) =
        done-injective (sym run.returns ∙ taken.returns) in
      let count = run.same.generated in
      let bound = w.taken (ap (λ z. session_eq z c.session_id) mine ∙ ==-self c.session_id.id.id) in
      let reach =
        subst (λ z. r.base + r.len ≤ chain_end 1 (chain_of c.session_id z))
          (sym (ap (ledger_or l) next)) (ends_after d run) in
      let reach_d =
        subst (λ z. r.base + r.len ≤ chain_end 1 (chain_of z (after_range c l r)))
          (sym run.same.session) reach in
      (
        d,
        run.returns ∙ ap (λ z. done (z, d)) (ap (λ z. z.0) accepted),
        λ g id p q e.
            let v_own = v.own in
            let le : g ≤ c.generated_id_count = omega (arith, q, bound, v_own.next_le) in
            let le_d : g ≤ d.generated_id_count = omega (arith, le, count) in
            let (f, beside, bound_f, is) =
              covered-op d (after_range c l r) run.own run.shares.ledger g p le_d
                (omega (arith, q, reach_d)) in
            (
              f,
              ledger_final d g f run.same.session beside,
              bound_f,
              normalize_to_op_space_lem d (space_in d (after_range c l r)) run.own g p le_d id
                    (run.keeps g p le ∙ e)
                  ∙ ap (λ z. done (ok z)) is,
            ),
      )
