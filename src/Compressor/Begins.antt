-- ===== src/Compressor/Begins.antt =====
-- `finalize_range` on a session without clusters: its first range makes a cluster, another is refused.
use distributed_id_allocator.Common.{
  ==-self, ℕ, ◌+◌, ◌^◌, ◌≤◌, ◌≡◌, refl, ap, subst, List, ◌∷◌, none, some, true, false, Run, done,
  Result, err, ◌==◌, arith, set_last, get_elem?,
}
use distributed_id_allocator.Word.{add_u64}
use distributed_id_allocator.Ids.Errors.{AllocatorError, range_finalized_out_of_order}
use distributed_id_allocator.Ids.Local.{
  to_generation_count, from_generation_count, local_eq, local_sub,
}
use distributed_id_allocator.Ids.Stable.{SessionId, session_eq}
use distributed_id_allocator.Tables.SessionSpace.{IdCluster}
use distributed_id_allocator.Tables.SessionSpace.Chain.{base_generation}
use distributed_id_allocator.Tables.Sessions.{deref_session_space_mut}
use distributed_id_allocator.Ledger.{Ledger, chain_of, tail_of, update_tail, end_final, new_cluster}
use distributed_id_allocator.Ledger.Lays.{Lays}
use distributed_id_allocator.Ledger.Keeps.{first-IsLedger}
use distributed_id_allocator.Ledger.Writes.{with_space, cons-Lays}
use distributed_id_allocator.Compressor.{IdCompressor}
use distributed_id_allocator.Compressor.Finalize.{finalize_in_session, grow_tail, count_creation}
use distributed_id_allocator.Compressor.Shares.{IsSameLocal-tables, IsSameLocal-trans, Shares}
use distributed_id_allocator.Compressor.Extends.{empty_cluster, with_cluster, add_empty_cluster_lem}
use distributed_id_allocator.Compressor.Grows.{grow, Steps, fit-Steps}
use distributed_id_allocator.Compressor.Refines.{chain_is_empty-none, at_tail_grows, first_lem}
use distributed_id_allocator.Compressor.Grows.{fit-Steps}
use distributed_id_allocator.Compressor.Finalizes.{Finalizes, close, in_session}

module _ (d : IdCompressor) (ids : List SessionId) (l : Ledger) (v : Shares d ids l) (i : ℕ)
    (key : SessionId) (e : get_elem? ids i ≡ some key) (len : ℕ) (pos : 1 ≤ len)
    (final_room : end_final l + len + d.cluster_capacity ≤ 2 ^ 63) where
  abbrev run_from : ℕ → Run (Result (Unit {0}) AllocatorError × IdCompressor)
  run_from = in_session d ids l v i key e len pos final_room

  module _ (t : tail_of key l ≡ none) where
    pub early_refused :
        (base : ℕ)
        → 1 ≤ base
        → base ≤ 2 ^ 63
        → (base == 1) ≡ false
        → run_from base ≡ done (err range_finalized_out_of_order, d)
    unfolding finalize_in_session deref_session_space_mut
    early_refused base lo hi other =
        rw
          (
            finalize_in_session,
            v.lays.spaces i key e,
            chain_is_empty-none key l t,
            first_lem base lo hi,
            other,
          )
          refl

    abbrev opened : IdCluster
    opened =
        empty_cluster (count_creation d) ids l v.lays i key e (from_generation_count 1)
          (d.cluster_capacity + len)

    abbrev with_opened : IdCompressor
    with_opened = with_cluster (count_creation d) ids l v.lays i key e opened

    abbrev opened_ledger : Ledger
    opened_ledger = record { session = key; cluster = opened } ∷ l

    opened-Lays : Lays with_opened.sessions with_opened.final_space ids opened_ledger
    opened-Lays = cons-Lays d.sessions d.final_space ids l v.lays i key e opened

    self : session_eq key key ≡ true
    self = ==-self key.id.id

    opened_tail : tail_of key opened_ledger ≡ some opened
    opened_tail = rw (tail_of, self) refl

    opened_base : base_generation opened + opened.count ≡ 1
    unfolding to_generation_count from_generation_count
    opened_base = refl

    opened_follows :
        local_eq (local_sub opened.base_local_id opened.count) (from_generation_count 1) ≡ true
    unfolding local_eq local_sub from_generation_count
    opened_follows = refl

    claimed : add_u64 d.cluster_capacity len ≡ d.cluster_capacity + len
    claimed = omega (arith, final_room)

    abbrev first_ledger : Ledger
    first_ledger =
        record {
          session = key;
          cluster = new_cluster (end_final l) 1 (d.cluster_capacity + len) len;
        }
        ∷ l

    opened_filled :
        update_tail key (record opened { count = opened.count + len }) opened_ledger ≡ first_ledger
    opened_filled =
        let n : 0 + len ≡ len = omega arith in
        rw (update_tail, self)
          (ap
            (λ z.
              record {
                session = key;
                cluster = new_cluster (end_final l) 1 (d.cluster_capacity + len) z;
              }
              ∷ l)
            n)

    opened-Steps : Steps with_opened ids first_ledger (
        grow_tail with_opened
          (record { index = i })
          (from_generation_count 1)
          len
          opened.base_final_id
          opened
          (λ new. with_space with_opened.sessions i (set_last (chain_of key opened_ledger) new)))
    opened-Steps =
        let s =
          fit-Steps with_opened ids opened_ledger opened-Lays i key e opened opened_tail len
            opened.base_final_id (omega arith) (omega (arith, final_room)) in
        subst
          (λ b. Steps with_opened ids first_ledger (
            grow_tail with_opened (record { index = i }) (from_generation_count b) len
              opened.base_final_id opened
              (λ new.
                with_space with_opened.sessions i (set_last (chain_of key opened_ledger) new))))
          opened_base
          (subst
            (λ m. Steps with_opened ids m (
              grow with_opened ids opened_ledger opened-Lays i key e opened opened_tail len
                opened.base_final_id))
            opened_filled s)

    -- The new cluster leaves the compressor's own data as they are.
    same_start :
        {m : Ledger} {run : Run (Result (Unit {0}) AllocatorError × IdCompressor)}
        → Finalizes with_opened ids m run
        → Finalizes d ids m run
    same_start f = record {
      after = f.after;
      returns = f.returns;
      shares = f.shares;
      same = IsSameLocal-trans (IsSameLocal-tables _ _ _ _ _) f.same;
    }

    -- The session's first range.
    pub first_Finalizes :
        1 + len + d.cluster_capacity ≤ 2 ^ 63
        → Finalizes d ids
            (record {
              session = key;
              cluster = new_cluster (end_final l) 1 (d.cluster_capacity + len) len;
            }
              ∷ l)
            (run_from 1)
    unfolding finalize_in_session deref_session_space_mut
    first_Finalizes room =
        rw
          (
            finalize_in_session,
            v.lays.spaces i key e,
            chain_is_empty-none key l t,
            first_lem 1 (omega arith) (omega arith),
            claimed,
            add_empty_cluster_lem (count_creation d) ids l v.lays i key e (from_generation_count 1)
                (d.cluster_capacity + len) (omega (arith, final_room)),
          )
          (rw
            (at_tail_grows with_opened ids opened_ledger opened-Lays i key e 1 len opened opened
              opened_tail refl opened_follows)
            (same_start (
              close with_opened ids
                (record {
                  session = key;
                  cluster = new_cluster (end_final l) 1 (d.cluster_capacity + len) len;
                })
                l _ v.own
                (first-IsLedger d.cluster_capacity l key len v.ledger pos final_room t room)
                opened-Steps)))
