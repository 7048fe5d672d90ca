-- ===== src/Compressor/Spread.antt =====
-- Sessions whose identifiers are far apart do not collide.
use distributed_id_allocator.Common.{
  ℕ, ◌+◌, ◌-◌, ◌^◌, ◌≤◌, ◌<◌, ◌≡◌, refl, sym, ap, List, false, not, ◌&&◌, done, arith, All, All-get,
  ◌⊎◌, inl, inr, Option-cases,
}
use distributed_id_allocator.Word.{sub_u64}
use distributed_id_allocator.Ids.Local.Generations.{
  to_generation_count-from_generation_count, to_generation_count-local_sub, generation_bounds,
}
use distributed_id_allocator.Ids.Stable.{
  SessionId, session_nil, session_eq, session_id_from_stable_id, stable_le, stable_add_local,
  stable_add,
}
use distributed_id_allocator.Tables.SessionSpace.{get_max_allocated_stable, max_allocated_local}
use distributed_id_allocator.Tables.SessionMap.{last_in_range}
use distributed_id_allocator.Tables.SessionMap.Order.{last_in_range-some}
use distributed_id_allocator.Tables.Sessions.{range_collides, deref_session_space}
use distributed_id_allocator.Tables.Sessions.Holds.{get_session_id_lem}
use distributed_id_allocator.Ledger.{Ledger, chain_of, tail_of, IsLedger}
use distributed_id_allocator.Ledger.Chains.{get_last?-chain_of}
use distributed_id_allocator.Ledger.Order.{tail_of-IsCluster}
use distributed_id_allocator.Compressor.{IdCompressor}
use distributed_id_allocator.Compressor.Rejects.{base_stable, max_stable}
use distributed_id_allocator.Compressor.Shares.{Shares}

-- The identifiers are the same, or 2 ^ 64 apart at least.
abbrev pub IsSpaced : SessionId → SessionId → Type 0
IsSpaced a b = (a.id.id ≡ b.id.id) ⊎ (a.id.id + 2 ^ 64 ≤ b.id.id) ⊎ (b.id.id + 2 ^ 64 ≤ a.id.id)

pub IsSpaced-sym : (a b : SessionId) → IsSpaced a b → IsSpaced b a
IsSpaced-sym a b (inl e) = inl (sym e)
IsSpaced-sym a b (inr (inl p)) = inr (inr p)
IsSpaced-sym a b (inr (inr p)) = inr (inl p)

-- The allocated stable IDs of a session lie within 2 ^ 63 of its identifier.
max_allocated_near :
    (key : SessionId) (l : Ledger)
    → IsLedger l
    → key.id.id < 2 ^ 122
    → (get_max_allocated_stable (record { cluster_chain = chain_of key l }) key).id
      ≤ key.id.id + 2 ^ 63
unfolding get_max_allocated_stable max_allocated_local stable_add_local
max_allocated_near key l h small = elim (Option-cases (tail_of key l)) [
  | inl n ↦ rw (get_max_allocated_stable, get_last?-chain_of key l, n) (omega arith)
  | inr (t, n) ↦
      let (v, _) = tail_of-IsCluster key l t h n in
      let (_, at) =
        to_generation_count-local_sub t.base_local_id (sub_u64 t.capacity 1) v.base_IsLocal
          (omega (arith, v.local_fits)) in
      rw (get_max_allocated_stable, get_last?-chain_of key l, n)
        (omega
          (arith, at, small, v.local_fits, (generation_bounds t.base_local_id v.base_IsLocal).0))
]

module _ (c : IdCompressor) (ids : List SessionId) (l : Ledger) (v : Shares c ids l)
    (key : SessionId) (small : key.id.id < 2 ^ 122) (spaced : All (IsSpaced key) ids) (base len : ℕ)
    (starts : 1 ≤ base) (room : base + len + c.cluster_capacity ≤ 2 ^ 63) where
  base_lem : (base_stable key base).id ≡ key.id.id + base - 1
  unfolding stable_add_local
  base_lem =
      let (_, g) = to_generation_count-from_generation_count base starts (omega (arith, room)) in
      omega (arith, g, small, room, starts)

  max_lem : (max_stable c key base len).id ≡ key.id.id + base - 1 + len + c.cluster_capacity
  unfolding stable_add
  max_lem = omega (arith, base_lem, small, room, starts)

  -- What the comparison comes to, with another session that begins below the range's end.
  other_clear :
      (other : SessionId)
      → IsSpaced key other
      → other.id.id ≤ (max_stable c key base len).id
      → (not (session_eq key other)
          && stable_le
              (base_stable key base)
              (get_max_allocated_stable (record { cluster_chain = chain_of other l }) other))
        ≡ false
  other_clear other (inl e) below = ground (arith, e)
  other_clear other (inr (inl p)) below = absurd (omega (arith, p, below, max_lem, room, starts))
  other_clear other (inr (inr p)) below =
      let near = max_allocated_near other l v.ledger (omega (arith, p, small)) in
      ground (arith, p, near, base_lem, starts)

  -- On a compressor that shares a ledger, `range_collides` finds no collision for a range of a
  -- session whose identifier is below 2 ^ 122 and at least 2 ^ 64 apart from that of every other
  -- session that the compressor knows, if the range begins at generation 1 or later and stays with
  -- the room for a new cluster within an `i64`.
  pub range_collides-spaced :
      range_collides c.sessions key (base_stable key base) (max_stable c key base len) ≡ done false
  unfolding range_collides deref_session_space
  range_collides-spaced =
      let high = session_id_from_stable_id (max_stable c key base len) in
      elim (Option-cases (last_in_range c.sessions.session_map session_nil high)) [
        | inl n ↦ rw (range_collides, n) refl
        | inr ((other, r), n) ↦
            let last =
              last_in_range-some c.sessions.session_map session_nil high other r
                v.lays.tables.ascending n in
            let at = v.lays.tables.refers other r last.present in
            rw
              (
                range_collides,
                n,
                v.lays.spaces r.index other at,
                get_session_id_lem c.sessions ids v.lays.tables r other at,
              )
              (ap done
                (other_clear other (All-get (IsSpaced key) ids r.index spaced at) last.within.1))
      ]
