-- ===== src/Compressor/Grows.antt =====
-- The three branches of `grow_tail`, each as the ledger's extension.
use distributed_id_allocator.Common.{
  leb-true, leb-false, ℕ, ◌+◌, ◌-◌, ◌^◌, ◌≤◌, ◌<◌, ◌≡◌, refl, subst, ◌∙◌, List, [], ◌∷◌, ◌++◌, some,
  true, false, Run, done, leb, arith, length, set, set_last, get_elem?, Bool-cases, inl, inr,
}
use distributed_id_allocator.Word.{add_u64, sub_u64}
use distributed_id_allocator.Ids.Local.{from_generation_count, local_sub}
use distributed_id_allocator.Ids.Local.Generations.{
  to_generation_count-from_generation_count, to_generation_count-local_sub,
  to_generation_count-injective,
}
use distributed_id_allocator.Ids.Final.{FinalId, final_eq}
use distributed_id_allocator.Ids.Stable.{SessionId}
use distributed_id_allocator.Tables.SessionSpace.{IdCluster}
use distributed_id_allocator.Tables.SessionSpace.Chain.{IsCluster, base_generation, next_generation}
use distributed_id_allocator.Tables.Sessions.{Sessions}
use distributed_id_allocator.Ledger.{
  Ledger, IsLedger, chain_of, tail_of, update_tail, head_cluster, is_head, end_final, new_cluster,
  extend,
}
use distributed_id_allocator.Ledger.Lays.{ref_to, Lays}
use distributed_id_allocator.Ledger.Writes.{with_space, update_tail-Lays}
use distributed_id_allocator.Compressor.{IdCompressor}
use distributed_id_allocator.Compressor.Finalize.{
  overflow_to_new, grow_tail, count_creation, count_expansion,
}
use distributed_id_allocator.Compressor.Shares.{IsSameLocal-tables, IsSameLocal}
use distributed_id_allocator.Compressor.Extends.{
  add_empty_cluster_lem, deref_cluster_mut_lem, rewritten_cluster-Lays,
}
use distributed_id_allocator.Ledger.Order.{tail_of-IsCluster, final_eq-is_head}
use distributed_id_allocator.Ledger.Update.{end_final-update_tail}

-- What a step from `d` makes: the compressor lays out the ledger `m`, its own data as before.
pub record Steps (d : IdCompressor) (ids : List SessionId) (m : Ledger) (run : Run IdCompressor)
    : Type 0 where
  pub after : IdCompressor
  pub returns : run ≡ done after
  pub lays : Lays after.sessions after.final_space ids m
  pub same : IsSameLocal d after

module _ (d : IdCompressor) (ids : List SessionId) (l : Ledger)
    (v : Lays d.sessions d.final_space ids l) (i : ℕ) (key : SessionId)
    (e : get_elem? ids i ≡ some key) (k : IdCluster) (t : tail_of key l ≡ some k) (len : ℕ) where
  abbrev pub put : IdCluster → Sessions
  put new = with_space d.sessions i (set_last (chain_of key l) new)

  abbrev pub grow : FinalId → Run IdCompressor
  grow last =
      grow_tail d (record { index = i }) (from_generation_count (base_generation k + k.count)) len
        last k put

  put-Lays : (new : IdCluster) → Lays (put new) d.final_space ids (update_tail key new l)
  put-Lays new = update_tail-Lays d.sessions d.final_space ids l v i key e k new t

  pub fit-Steps :
      (last : FinalId)
      → k.count + len ≤ k.capacity
      → k.capacity ≤ 2 ^ 63
      → Steps d ids (update_tail key (record k { count = k.count + len }) l) (grow last)
  unfolding grow_tail
  fit-Steps last fits small =
      let room : leb len (sub_u64 k.capacity k.count) ≡ true = ground (arith, fits, small) in
      let sum : add_u64 k.count len ≡ k.count + len = omega (arith, fits, small) in
      record {
        after = record d { sessions = put (record k { count = k.count + len }) };
        returns = rw (grow_tail, room, sum) refl;
        lays = put-Lays (record k { count = k.count + len });
        same = IsSameLocal-tables _ _ _ _ _;
      }

  module _ (size_room : base_generation k + k.count + len + d.cluster_capacity ≤ 2 ^ 63)
      (valid : IsCluster k) (past : k.capacity < k.count + len) where
    no_room : leb len (sub_u64 k.capacity k.count) ≡ false
    no_room =
        let small = valid.local_fits in let le = valid.count_le in ground (arith, past, small, le)

    remaining_lem : sub_u64 k.capacity k.count ≡ k.capacity - k.count
    remaining_lem = omega (arith, valid.count_le, valid.local_fits)

    overflow_lem : sub_u64 len (sub_u64 k.capacity k.count) ≡ k.count + len - k.capacity
    overflow_lem = omega (arith, remaining_lem, valid.count_le, past, size_room)

    claimed_lem :
        add_u64 (k.count + len - k.capacity) d.cluster_capacity
        ≡ k.count + len - k.capacity + d.cluster_capacity
    claimed_lem = omega (arith, size_room)

    expand-Steps :
        (last : FinalId)
        → final_eq k.base_final_id last ≡ true
        → Steps d ids
            (update_tail key
              (record k { capacity = k.count + len + d.cluster_capacity; count = k.count + len })
              l)
            (grow last)
    unfolding grow_tail
    expand-Steps last latest =
        let larger : add_u64 k.capacity (k.count + len - k.capacity + d.cluster_capacity)
            ≡ k.count + len + d.cluster_capacity =
          omega (arith, size_room, past) in
        let sum : add_u64 k.count len ≡ k.count + len = omega (arith, size_room) in
        let new : IdCluster = record k {
          capacity = k.count + len + d.cluster_capacity;
          count = k.count + len;
        } in
        record {
          after = count_expansion (record d { sessions = put new });
          returns = rw (grow_tail, no_room, overflow_lem, claimed_lem, latest, larger, sum) refl;
          lays = put-Lays new;
          same = IsSameLocal-tables _ _ _ _ _;
        }

    abbrev filled : IdCluster
    filled = record k { count = k.capacity }

    abbrev below : Ledger
    below = update_tail key filled l

    abbrev overflow : ℕ
    overflow = k.count + len - k.capacity

    abbrev claimed : ℕ
    claimed = overflow + d.cluster_capacity

    abbrev with_filled : IdCompressor
    with_filled = count_creation (record d { sessions = put filled })

    abbrev added : IdCluster
    added = new_cluster (end_final below) (next_generation k) claimed overflow

    -- What does not fit begins at the first generation after the cluster.
    next_local :
        local_sub (from_generation_count (base_generation k + k.count)) (sub_u64 k.capacity k.count)
        ≡ from_generation_count (next_generation k)
    next_local =
        let fits = valid.local_fits in
        let base =
          to_generation_count-from_generation_count (base_generation k + k.count)
            (omega (arith, valid.count_pos)) (omega (arith, valid.count_le, fits)) in
        let next =
          to_generation_count-from_generation_count (next_generation k)
            (omega (arith, valid.count_pos, valid.count_le)) (omega (arith, fits)) in
        let moved =
          to_generation_count-local_sub (from_generation_count (base_generation k + k.count))
            (sub_u64 k.capacity k.count) base.0
            (omega (arith, base.1, remaining_lem, valid.count_le, fits)) in
        to_generation_count-injective
          (local_sub (from_generation_count (base_generation k + k.count))
            (sub_u64 k.capacity k.count))
          (from_generation_count (next_generation k)) moved.0 next.0
          (omega (arith, moved.1, base.1, next.1, remaining_lem, valid.count_le))

    abbrev overflowed : IdCompressor
    overflowed = record with_filled {
      sessions =
          with_space
            (with_space (put filled) i (chain_of key below ++ (record added { count = 0 } ∷ []))) i
            (set (chain_of key below ++ (record added { count = 0 } ∷ []))
              (length (chain_of key below)) added);
      final_space = record {
        clusters = d.final_space.clusters ++ (ref_to i (length (chain_of key below)) ∷ []);
      };
    }

    overflow_to_new_lem :
        end_final below < 2 ^ 64
        → overflow_to_new
            (record d { sessions = put filled })
            (record { index = i })
            (from_generation_count (next_generation k))
            overflow
            claimed
          ≡ done overflowed
    unfolding overflow_to_new
    overflow_to_new_lem room =
        let small : add_u64 0 overflow ≡ overflow = omega (arith, size_room) in
        rw
          (
            overflow_to_new,
            add_empty_cluster_lem with_filled ids below (put-Lays filled) i key e
                (from_generation_count (next_generation k)) claimed room,
            deref_cluster_mut_lem with_filled ids below (put-Lays filled) i key e
                (record added { count = 0 }),
            small,
          )
          refl

    overflow-Steps :
        (last : FinalId)
        → final_eq k.base_final_id last ≡ false
        → end_final l < 2 ^ 64
        → Steps d ids
            (record {
              session = key;
              cluster = new_cluster (end_final l) (next_generation k) claimed overflow;
            }
              ∷ below)
            (grow last)
    unfolding grow_tail
    overflow-Steps last other room =
        let same : end_final below ≡ end_final l = end_final-update_tail key k filled l t refl in
        subst
          (λ n.
            Steps d ids
              (record {
                session = key;
                cluster = new_cluster n (next_generation k) claimed overflow;
              }
                ∷ below)
              (grow last))
          same
          (record {
            after = overflowed;
            returns =
                rw (grow_tail, no_room, other, overflow_lem, claimed_lem, next_local)
                  (overflow_to_new_lem (omega (arith, same, room)));
            lays =
                rewritten_cluster-Lays with_filled ids below (put-Lays filled) i key e
                  (record added { count = 0 }) added;
            same = IsSameLocal-tables _ _ _ _ _;
          })

  -- `grow_tail` extends the ledger by a session's next range.
  pub extend-Steps :
      (last : IdCluster)
      → IsLedger l
      → head_cluster l ≡ some last
      → base_generation k + k.count + len + d.cluster_capacity ≤ 2 ^ 63
      → end_final l + len + d.cluster_capacity ≤ 2 ^ 63
      → Steps d ids (extend d.cluster_capacity l key k len) (grow last.base_final_id)
  extend-Steps last h head size_room final_room =
      let valid = (tail_of-IsCluster key l k h t).0 in
      let test = final_eq-is_head key l k last h t head in
      elim (Bool-cases (leb (k.count + len) k.capacity)) [
        | inl fits ↦ rw fits (
            fit-Steps last.base_final_id (leb-true (k.count + len) k.capacity fits)
              (omega (arith, valid.local_fits, valid.count_pos)))
        | inr past ↦ elim (Bool-cases (is_head key l)) [
          | inl b ↦
              rw (past, b)
                (expand-Steps size_room valid (leb-false (k.count + len) k.capacity past)
                  last.base_final_id (test ∙ b))
          | inr b ↦
              rw (past, b)
                (overflow-Steps size_room valid (leb-false (k.count + len) k.capacity past)
                  last.base_final_id (test ∙ b) (omega (arith, final_room)))
        ]
      ]
