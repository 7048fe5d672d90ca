-- ===== src/Compressor/Refinement.antt =====
-- `finalize_range` on a compressor that shares a ledger is `finalize_ledger` on the ledger.
use mathlib.Core.List.{nil≢cons}
use distributed_id_allocator.Common.{
  ◌≢◌, ℕ, ◌+◌, ◌^◌, ◌≤◌, ◌<◌, ◌≡◌, refl, sym, subst, ◌∙◌, List, [], ◌∷◌, Option, none, some, false,
  Run, done, Result, err, ◌==◌, ==-true, leb, arith, get_elem?, get_elem?-append_left, get_elem?_lt,
  Bool-cases, Option-cases, inl, inr,
}
use distributed_id_allocator.Ids.Errors.{AllocatorError, range_finalized_out_of_order}
use distributed_id_allocator.Ids.Stable.{SessionId, session_eq}
use distributed_id_allocator.Tables.SessionSpace.{IdCluster}
use distributed_id_allocator.Tables.SessionSpace.Chain.{base_generation}
use distributed_id_allocator.Tables.SessionMap.{map_get}
use distributed_id_allocator.Tables.Sessions.{get_or_create, range_collides}
use distributed_id_allocator.Tables.Sessions.Create.{ids_after, get_or_create_ref}
use distributed_id_allocator.Ledger.{
  Entry, Ledger, tail_of, update_tail, is_head, end_final, new_cluster, extend, finalize_ledger,
}
use distributed_id_allocator.Ledger.Opens.{get_or_create-Lays}
use distributed_id_allocator.Compressor.{IdCompressor}
use distributed_id_allocator.Compressor.Finalize.{finalize_range, finalize_ids}
use distributed_id_allocator.Compressor.Shares.{
  IsSameLocal-tables, IsSameLocal-trans, Shares, IsSameLocal,
}
use distributed_id_allocator.Compressor.Rejects.{base_stable, max_stable}
use distributed_id_allocator.Compressor.Refines.{head_cluster-some}
use distributed_id_allocator.Compressor.Begins.{early_refused, first_Finalizes}
use distributed_id_allocator.Compressor.Finalizes.{
  Finalizes, in_session, next_Finalizes, late_refused,
}

abbrev pub Outcome : Type 0
Outcome = Run (Result (Unit {0}) AllocatorError × IdCompressor)

-- A range out of order: the error, and the ledger as before.
pub record Refuses (c : IdCompressor) (ids : List SessionId) (l : Ledger) (run : Outcome)
    : Type 0 where
  pub after : IdCompressor
  pub returns : run ≡ done (err range_finalized_out_of_order, after)
  pub shares : Shares after ids l
  pub same : IsSameLocal c after

-- The run does what the ledger does.
abbrev pub Follows : IdCompressor → List SessionId → Ledger → Option Ledger → Outcome → Type 0
Follows c ids l none run = Refuses c ids l run
Follows c ids l (some m) run = Finalizes c ids m run

update_tail-ne-nil :
    (key : SessionId) (k : IdCluster) (x : Entry) (l : Ledger) → update_tail key k (x ∷ l) ≢ []
update_tail-ne-nil key k x l e = elim (Bool-cases (session_eq x.session key)) [
  | inl b ↦ nil≢cons (sym (rw (update_tail, b) at e))
  | inr b ↦ nil≢cons (sym (rw (update_tail, b) at e))
]

extend-ne-nil :
    (size : ℕ) (l : Ledger) (key : SessionId) (k : IdCluster) (len : ℕ)
    → tail_of key l ≡ some k
    → extend size l key k len ≢ []
extend-ne-nil size [] key k len t e = ground arith
extend-ne-nil size (x ∷ l) key k len t e = elim (Bool-cases (leb (k.count + len) k.capacity)) [
  | inl a ↦ update_tail-ne-nil key _ x l (rw (extend, a) at e)
  | inr a ↦ elim (Bool-cases (is_head key (x ∷ l))) [
    | inl b ↦ nil≢cons (sym (rw (extend, a, is_head, b) at e))
    | inr b ↦ nil≢cons (sym (rw (extend, a, is_head, b) at e))
  ]
]

extend-cons :
    (size : ℕ) (l : Ledger) (key : SessionId) (k : IdCluster) (len : ℕ)
    → tail_of key l ≡ some k
    → (y : Entry) × (r : Ledger) × (extend size l key k len ≡ y ∷ r)
extend-cons size l key k len t = go (extend size l key k len) refl
  where
    go :
        (m : Ledger)
        → extend size l key k len ≡ m
        → (y : Entry) × (r : Ledger) × (extend size l key k len ≡ y ∷ r)
    go [] e = absurd (extend-ne-nil size l key k len t e)
    go (y ∷ r) e = (y, r, e)

module _ (d : IdCompressor) (ids : List SessionId) (l : Ledger) (v : Shares d ids l) (i : ℕ)
    (key : SessionId) (e : get_elem? ids i ≡ some key) (base len : ℕ) (pos : 1 ≤ len)
    (lo : 1 ≤ base) (room : base + len + d.cluster_capacity ≤ 2 ^ 63)
    (final_room : end_final l + len + d.cluster_capacity ≤ 2 ^ 63) where
  refused :
      in_session d ids l v i key e len pos final_room base
        ≡ done (err range_finalized_out_of_order, d)
      → Refuses d ids l (in_session d ids l v i key e len pos final_room base)
  refused r = record { after = d; returns = r; shares = v; same = IsSameLocal-tables _ _ _ _ _ }

  in_session-Follows :
      Follows d ids l
        (finalize_ledger d.cluster_capacity l key base len)
        (in_session d ids l v i key e len pos final_room base)
  in_session-Follows = elim (Option-cases (tail_of key l)) [
    | inl t ↦ elim (Bool-cases (base == 1)) [
      | inl b ↦
          rw (finalize_ledger, t, b)
            (subst
              (λ n.
                Finalizes d ids
                  (record {
                    session = key;
                    cluster = new_cluster (end_final l) 1 (d.cluster_capacity + len) len;
                  }
                    ∷ l)
                  (in_session d ids l v i key e len pos final_room n))
              (sym (==-true base 1 b))
              (first_Finalizes d ids l v i key e len pos final_room t (omega (arith, room, lo))))
      | inr b ↦
          rw (finalize_ledger, t, b)
            (refused (
              early_refused d ids l v i key e len pos final_room t base lo (omega (arith, room)) b))
    ]
    | inr (k, t) ↦ elim (Bool-cases (base == base_generation k + k.count)) [
      | inl b ↦
          let (last, head) = head_cluster-some key l t in
          let (x, r, ext) = extend-cons d.cluster_capacity l key k len t in
          let next = ==-true base (base_generation k + k.count) b in
          rw (finalize_ledger, t, b)
            (subst
              (λ n.
                Finalizes d ids (extend d.cluster_capacity l key k len)
                  (in_session d ids l v i key e len pos final_room n))
              (sym next)
              (subst
                (λ m.
                  Finalizes d ids m
                    (in_session d ids l v i key e len pos final_room (base_generation k + k.count)))
                (sym ext)
                (next_Finalizes d ids l v i key e len pos final_room k last t head x r
                  (omega (arith, room, next)) ext)))
      | inr b ↦
          let (last, head) = head_cluster-some key l t in
          rw (finalize_ledger, t, b)
            (refused (
              late_refused d ids l v i key e len pos final_room k last t head base lo
                (omega (arith, room)) b))
    ]
  ]

module _ (c : IdCompressor) (ids : List SessionId) (l : Ledger) (v : Shares c ids l)
    (key : SessionId) (wide : key.id.id < 2 ^ 128) (base len : ℕ) (pos : 1 ≤ len) (lo : 1 ≤ base)
    (room : base + len + c.cluster_capacity ≤ 2 ^ 63)
    (final_room : end_final l + len + c.cluster_capacity ≤ 2 ^ 63) where
  abbrev opened : IdCompressor
  opened = record c { sessions = (get_or_create c.sessions key).1 }

  abbrev known_ids : List SessionId
  known_ids = ids_after c.sessions ids key

  still_own : get_elem? known_ids c.local_session_ref.index ≡ some c.session_id
  still_own = elim (Option-cases (map_get c.sessions.session_map key)) [
    | inl e ↦
        rw (ids_after, e)
          (get_elem?-append_left ids (key ∷ []) c.local_session_ref.index
              (get_elem?_lt ids c.local_session_ref.index v.own)
            ∙ v.own)
    | inr (r, e) ↦ rw (ids_after, e) v.own
  ]

  opened-Shares : Shares opened known_ids l
  opened-Shares = record {
    lays = get_or_create-Lays c.sessions c.final_space ids l v.lays key wide;
    ledger = v.ledger;
    own = still_own;
    limit = v.limit;
  }

  -- What holds from the opened compressor on holds from the first.
  Follows-opened :
      (o : Option Ledger) (run : Outcome)
      → Follows opened known_ids l o run
      → Follows c known_ids l o run
  Follows-opened none run f = record {
    after = f.after;
    returns = f.returns;
    shares = f.shares;
    same = IsSameLocal-trans (IsSameLocal-tables _ _ _ _ _) f.same;
  }
  Follows-opened (some m) run f = record {
    after = f.after;
    returns = f.returns;
    shares = f.shares;
    same = IsSameLocal-trans (IsSameLocal-tables _ _ _ _ _) f.same;
  }

  -- On a compressor that shares a ledger (its tables hold each session's clusters in the order of
  -- the ledger, its final space refers to all of them, its own session is known and its limit is
  -- the ledger's), `finalize_range` on a range of any session, known or not, that is not empty,
  -- does not collide and stays with the room for a new cluster within an `i64` does what
  -- `finalize_ledger` does: if the ledger takes the range, the call returns ok and the compressor
  -- shares the ledger after it; if not, it returns RangeFinalizedOutOfOrder and the compressor
  -- shares the same ledger. Either way the session, the generated count, the next range's base,
  -- the cluster capacity and the normalizer stay.
  pub finalize_range-Follows :
      range_collides c.sessions key (base_stable key base) (max_stable c key base len) ≡ done false
      → Follows c known_ids l
          (finalize_ledger c.cluster_capacity l key base len)
          (finalize_range c (record { id = key; range = some (base, len) }))
  unfolding finalize_range finalize_ids
  finalize_range-Follows apart =
      let some_ids : (len == 0) ≡ false = ground arith in
      rw (finalize_range, some_ids, finalize_ids, apart)
        (Follows-opened (finalize_ledger c.cluster_capacity l key base len) _ (
          in_session-Follows opened known_ids l opened-Shares (get_or_create c.sessions key).0.index
            key (get_or_create_ref c.sessions ids v.lays.tables key) base len pos lo room
            final_room))
