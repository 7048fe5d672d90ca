-- ===== src/Compressor/Finalizes.antt =====
-- `finalize_range` does to the tables what `finalize_ledger` does to the shared ledger.
use distributed_id_allocator.Common.{
  ==-self, ℕ, ◌+◌, ◌^◌, ◌≤◌, ◌≡◌, refl, sym, ap, subst, ◌∙◌, List, ◌∷◌, some, true, false, Run,
  done, Result, ok, err, ◌>>=◌, ◌==◌, arith, get_elem?,
}
use distributed_id_allocator.Ids.Errors.{AllocatorError, range_finalized_out_of_order}
use distributed_id_allocator.Ids.Local.{from_generation_count, local_eq, local_sub}
use distributed_id_allocator.Ids.Stable.{SessionId}
use distributed_id_allocator.Tables.SessionSpace.{IdCluster, SessionSpaceRef}
use distributed_id_allocator.Tables.SessionSpace.Chain.{IsCluster, base_generation}
use distributed_id_allocator.Tables.Sessions.{deref_session_space_mut}
use distributed_id_allocator.Ledger.{
  Entry, Ledger, IsLedger, tail_of, head_cluster, end_final, extend,
}
use distributed_id_allocator.Ledger.Order.{tail_of-IsCluster}
use distributed_id_allocator.Ledger.Keeps.{extend-IsLedger}
use distributed_id_allocator.Compressor.{IdCompressor}
use distributed_id_allocator.Compressor.Finalize.{finalize_in_session, update_limit}
use distributed_id_allocator.Compressor.Shares.{
  IsSameLocal-tables, IsSameLocal-trans, Shares, IsSameLocal, limit_of, update_limit-limit_of,
}
use distributed_id_allocator.Compressor.Grows.{grow, Steps, extend-Steps}
use distributed_id_allocator.Compressor.Refines.{
  chain_is_empty-some, at_tail_grows, at_tail_refused, follows_lem,
}

-- What a finalization makes of a compressor that shares a ledger: it returns, shares the ledger `m`
-- and keeps its own data.
pub record Finalizes (d : IdCompressor) (ids : List SessionId) (m : Ledger)
    (run : Run (Result (Unit {0}) AllocatorError × IdCompressor)) : Type 0 where
  pub after : IdCompressor
  pub returns : run ≡ done (ok tt, after)
  pub shares : Shares after ids m
  pub same : IsSameLocal d after

-- The end of `finalize_range`, after the tables were changed.
pub close :
    (d : IdCompressor) (ids : List SessionId) (x : Entry) (r : Ledger) (run : Run IdCompressor)
    → get_elem? ids d.local_session_ref.index ≡ some d.session_id
    → IsLedger (x ∷ r)
    → Steps d ids (x ∷ r) run
    → Finalizes d ids (x ∷ r) (run >>= update_limit)
close d ids x r run own h s = record {
  after = record s.after { final_id_limit = limit_of (x ∷ r) };
  returns =
      ap (λ m. m >>= update_limit) s.returns ∙ update_limit-limit_of s.after ids x r s.lays h.0;
  shares = record {
    lays = s.lays;
    ledger = h;
    own =
        ap (λ (z : SessionSpaceRef). get_elem? ids z.index) s.same.session_ref
        ∙ own
        ∙ ap some (sym s.same.session);
    limit = refl;
  };
  same = IsSameLocal-trans s.same (IsSameLocal-tables _ _ _ _ _);
}

module _ (d : IdCompressor) (ids : List SessionId) (l : Ledger) (v : Shares d ids l) (i : ℕ)
    (key : SessionId) (e : get_elem? ids i ≡ some key) (len : ℕ) (pos : 1 ≤ len)
    (final_room : end_final l + len + d.cluster_capacity ≤ 2 ^ 63) where
  abbrev pub in_session : ℕ → Run (Result (Unit {0}) AllocatorError × IdCompressor)
  in_session base = finalize_in_session d (record { index = i }) (from_generation_count base) len

  module _ (k last : IdCluster) (t : tail_of key l ≡ some k)
      (head : head_cluster l ≡ some last) where
    tail-IsCluster : IsCluster k
    tail-IsCluster = (tail_of-IsCluster key l k v.ledger t).0

    -- The session's next range.
    pub next_Finalizes :
        (x : Entry) (r : Ledger)
        → base_generation k + k.count + len + d.cluster_capacity ≤ 2 ^ 63
        → extend d.cluster_capacity l key k len ≡ x ∷ r
        → Finalizes d ids (x ∷ r) (in_session (base_generation k + k.count))
    unfolding finalize_in_session deref_session_space_mut
    next_Finalizes x r room ext =
        let base : ℕ = base_generation k + k.count in
        let follows : local_eq (local_sub k.base_local_id k.count) (from_generation_count base)
            ≡ true =
          follows_lem k base tail-IsCluster (omega (arith, tail-IsCluster.count_pos))
            (omega (arith, room))
          ∙ ==-self base in
        rw
          (
            finalize_in_session,
            v.lays.spaces i key e,
            chain_is_empty-some key l t,
            at_tail_grows d ids l v.lays i key e base len k last t head follows,
          )
          (close d ids x r (grow d ids l v.lays i key e k t len last.base_final_id) v.own
            (subst IsLedger ext
              (extend-IsLedger d.cluster_capacity l key len v.ledger pos final_room k t room))
            (subst (λ m. Steps d ids m (grow d ids l v.lays i key e k t len last.base_final_id)) ext
              (extend-Steps d ids l v.lays i key e k t len last v.ledger head room final_room)))

    -- Any other range of the session.
    pub late_refused :
        (base : ℕ)
        → 1 ≤ base
        → base ≤ 2 ^ 63
        → (base == base_generation k + k.count) ≡ false
        → in_session base ≡ done (err range_finalized_out_of_order, d)
    unfolding finalize_in_session deref_session_space_mut
    late_refused base lo hi other =
        rw
          (
            finalize_in_session,
            v.lays.spaces i key e,
            chain_is_empty-some key l t,
            at_tail_refused d ids l v.lays i key e base len k last t head
                (follows_lem k base tail-IsCluster lo hi ∙ other),
          )
          refl
