-- ===== src/Ledger/Keeps.antt =====
-- Finalizing a range keeps a ledger in order.
use distributed_id_allocator.Common.{
  ==-true, ℕ, ◌+◌, ◌-◌, ◌^◌, ◌≤◌, ◌<◌, ◌≡◌, refl, sym, ap, subst, ◌∙◌, [], ◌∷◌, none, some,
  some-injective, true, leb, ◌==◌, arith, Option-cases, Bool-cases, inl, inr,
}
use distributed_id_allocator.Ids.Local.Generations.{to_generation_count-from_generation_count}
use distributed_id_allocator.Ids.Stable.{SessionId}
use distributed_id_allocator.Tables.SessionSpace.{IdCluster}
use distributed_id_allocator.Tables.SessionSpace.Chain.{
  IsCluster, base_generation, base_final, next_generation, next_final,
}
use distributed_id_allocator.Ledger.{
  Ledger, tail_of, update_tail, is_head, end_final, end_generation, IsFull, IsLedger, new_cluster,
  extend, finalize_ledger,
}
use distributed_id_allocator.Ledger.Order.{tail_of-IsCluster}
use distributed_id_allocator.Ledger.Update.{
  tail_of-update_tail, end_final-update_tail, update_tail-IsLedger,
}

-- A new cluster in order, whose generations and final IDs fit in an `i64`.
new_cluster-IsCluster :
    (f g cap n : ℕ)
    → 1 ≤ g
    → 1 ≤ n
    → n ≤ cap
    → g + cap ≤ 2 ^ 63
    → f + cap ≤ 2 ^ 63
    → IsCluster (new_cluster f g cap n) × (base_generation (new_cluster f g cap n) ≡ g)
new_cluster-IsCluster f g cap n p q r s t =
    let e = to_generation_count-from_generation_count g p (omega (arith, s)) in
    (
      record {
        base_IsLocal = e.0;
        count_pos = q;
        count_le = r;
        local_fits = omega (arith, e.1, s);
        final_fits = t;
      },
      e.1,
    )

module _ (size : ℕ) (l : Ledger) (key : SessionId) (len : ℕ) (h : IsLedger l) (pos : 1 ≤ len)
    (final_room : end_final l + len + size ≤ 2 ^ 63) where
  pub first-IsLedger :
      tail_of key l ≡ none
      → 1 + len + size ≤ 2 ^ 63
      → IsLedger
          (record { session = key; cluster = new_cluster (end_final l) 1 (size + len) len } ∷ l)
  first-IsLedger e room =
      let n =
        new_cluster-IsCluster (end_final l) 1 (size + len) len (omega arith) pos (omega arith)
          (omega (arith, room)) (omega (arith, final_room)) in
      (n.0, refl, n.1 ∙ ap end_generation (sym e), subst IsFull (sym e) tt, h)

  module _ (k : IdCluster) (e : tail_of key l ≡ some k)
      (room : base_generation k + k.count + len + size ≤ 2 ^ 63) where
    valid : IsCluster k × (next_final k ≤ end_final l)
    valid = tail_of-IsCluster key l k h e

    fit-IsLedger :
        k.count + len ≤ k.capacity
        → IsLedger (update_tail key (record k { count = k.count + len }) l)
    fit-IsLedger fits =
        update_tail-IsLedger key k (record k { count = k.count + len }) l h e
          (record {
            base_IsLocal = valid.0.base_IsLocal;
            count_pos = omega (arith, valid.0.count_pos);
            count_le = fits;
            local_fits = valid.0.local_fits;
            final_fits = valid.0.final_fits;
          })
          refl refl refl

    filled-IsLedger : IsLedger (update_tail key (record k { count = k.capacity }) l)
    filled-IsLedger =
        update_tail-IsLedger key k (record k { count = k.capacity }) l h e
          (record {
            base_IsLocal = valid.0.base_IsLocal;
            count_pos = omega (arith, valid.0.count_pos, valid.0.count_le);
            count_le = omega arith;
            local_fits = valid.0.local_fits;
            final_fits = valid.0.final_fits;
          })
          refl refl refl

    overflow-IsLedger :
        k.capacity < k.count + len
        → IsLedger (
            record {
              session = key;
              cluster =
                  new_cluster
                    (end_final l)
                    (next_generation k)
                    (k.count + len - k.capacity + size)
                    (k.count + len - k.capacity);
            }
            ∷ update_tail key (record k { count = k.capacity }) l)
    overflow-IsLedger past =
        let full = tail_of-update_tail key k (record k { count = k.capacity }) l e in
        let n =
          new_cluster-IsCluster (end_final l) (next_generation k)
            (k.count + len - k.capacity + size) (k.count + len - k.capacity)
            (omega (arith, valid.0.count_pos, valid.0.count_le)) (omega (arith, past)) (omega arith)
            (omega (arith, room, valid.0.count_le, past))
            (omega (arith, final_room, valid.0.count_le, past)) in
        (
          n.0,
          sym (end_final-update_tail key k (record k { count = k.capacity }) l e refl),
          n.1 ∙ ap end_generation (sym full),
          subst IsFull (sym full) refl,
          filled-IsLedger,
        )

  expand-IsLedger :
      (k : IdCluster)
      → tail_of key l ≡ some k
      → base_generation k + k.count + len + size ≤ 2 ^ 63
      → is_head key l ≡ true
      → k.capacity < k.count + len
      → IsLedger
          (update_tail key (record k { capacity = k.count + len + size; count = k.count + len }) l)
  expand-IsLedger k e room = go l h e final_room
    where
      go :
          (m : Ledger)
          → IsLedger m
          → tail_of key m ≡ some k
          → end_final m + len + size ≤ 2 ^ 63
          → is_head key m ≡ true
          → k.capacity < k.count + len
          → IsLedger (
              update_tail key
                (record k { capacity = k.count + len + size; count = k.count + len })
                m)
      go [] v f r b past = tt
      go (d ∷ m) v f r b past =
          let same : d.cluster ≡ k = some-injective _ _ (rw b at f) in
          let c = subst IsCluster same v.0 in
          rw b (
            record {
              base_IsLocal = c.base_IsLocal;
              count_pos = omega (arith, pos);
              count_le = omega arith;
              local_fits = omega (arith, room);
              final_fits = omega (arith, ap next_final same, ap base_final same, r, c.count_le);
            },
            ap base_final (sym same) ∙ v.1,
            ap base_generation (sym same) ∙ v.2,
            v.3,
            v.4,
          )

  pub extend-IsLedger :
      (k : IdCluster)
      → tail_of key l ≡ some k
      → base_generation k + k.count + len + size ≤ 2 ^ 63
      → IsLedger (extend size l key k len)
  extend-IsLedger k e room = elim (Bool-cases (leb (k.count + len) k.capacity)) [
    | inl fits ↦ rw fits (fit-IsLedger k e room (ground arith))
    | inr past ↦ elim (Bool-cases (is_head key l)) [
      | inl b ↦ rw (past, b) (expand-IsLedger k e room b (ground arith))
      | inr b ↦ rw (past, b) (overflow-IsLedger k e room (ground arith))
    ]
  ]

  -- A range that the ledger takes leaves it in order.
  pub finalize_ledger-IsLedger :
      (base : ℕ) (m : Ledger)
      → base + len + size ≤ 2 ^ 63
      → finalize_ledger size l key base len ≡ some m
      → IsLedger m
  finalize_ledger-IsLedger base m room f = elim (Option-cases (tail_of key l)) [
    | inl e ↦ elim (Bool-cases (base == 1)) [
      | inl b ↦
          subst IsLedger (some-injective _ _ (rw (finalize_ledger, e, b) at f))
            (first-IsLedger e (omega (arith, room, ==-true base 1 b)))
      | inr b ↦ let g : none ≡ some m = rw (finalize_ledger, e, b) at f in absurd (cc)
    ]
    | inr (k, e) ↦ elim (Bool-cases (base == base_generation k + k.count)) [
      | inl b ↦
          subst IsLedger (some-injective _ _ (rw (finalize_ledger, e, b) at f)) (
            extend-IsLedger k e (omega (arith, room, ==-true base (base_generation k + k.count) b)))
      | inr b ↦ let g : none ≡ some m = rw (finalize_ledger, e, b) at f in absurd (cc)
    ]
  ]
