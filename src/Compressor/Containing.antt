-- ===== src/Compressor/Containing.antt =====
-- The cluster that holds a stable ID, among sessions whose identifiers are far apart.
use distributed_id_allocator.Common.{
  ℕ, ◌+◌, ◌-◌, ◌^◌, ◌%◌, ◌≤◌, ◌<◌, ◌≡◌, refl, sym, ap, ap₂, ◌∙◌, List, Option, none, some, true,
  done, arith, get_elem?, get_last?, All, All-get, inl, inr, Option-cases, Bool-cases,
}
use distributed_id_allocator.Word.{sub_u64, add_u64, neg_i64}
use distributed_id_allocator.Ids.Local.{
  LocalId, to_generation_count, from_generation_count, local_id_from_id,
}
use distributed_id_allocator.Ids.Local.Generations.{
  IsLocal, to_generation_count-from_generation_count, to_generation_count-local_sub,
  generation_bounds,
}
use distributed_id_allocator.Ids.Stable.{
  SessionId, StableId, session_nil, session_eq, session_id_from_stable_id, stable_from_session,
  stable_le, stable_lt, stable_sub, stable_add_local, stable_add, session_add_local,
}
use distributed_id_allocator.Search.Intervals.{find_interval_sound}
use distributed_id_allocator.Tables.SessionSpace.{
  IdCluster, SessionSpace, SessionSpaceRef, get_max_allocated_stable, max_allocated_local,
}
use distributed_id_allocator.Tables.SessionSpace.Chain.{
  IsCluster, IsChain, IsChain-clusters, base_generation, capacity_of,
}
use distributed_id_allocator.Tables.SessionSpace.End.{
  chain_end, chain_end-get_last?, chain_end-none, chain_end_beyond, IsChain-get_last?,
}
use distributed_id_allocator.Tables.SessionSpace.Lookup.{
  cluster_of_local, get_cluster_by_local-cluster_of_local,
}
use distributed_id_allocator.Tables.SessionMap.{last_in_range}
use distributed_id_allocator.Tables.SessionMap.Order.{last_in_range-none, last_in_range-some}
use distributed_id_allocator.Tables.Sessions.{
  Sessions, get_containing_cluster, check_containing, containing_in, deref_session_space,
}
use distributed_id_allocator.Tables.Sessions.Holds.{get_session_id_lem}
use distributed_id_allocator.Ledger.{Ledger, chain_of}
use distributed_id_allocator.Ledger.Writes.{Holds-distinct, SessionId-eq}
use distributed_id_allocator.Ledger.Sessions.{chain_of-IsChain}
use distributed_id_allocator.Compressor.{IdCompressor}
use distributed_id_allocator.Compressor.Shares.{Shares}
use distributed_id_allocator.Compressor.Spread.{IsSpaced}

-- The stable ID of a session's generation.
abbrev pub stable_of : SessionId → ℕ → StableId
stable_of key g = record { id = key.id.id + (g - 1) }

-- A cluster, with the session's reference and the local ID of the generation.
abbrev pub held_by :
    SessionSpaceRef → LocalId → Option IdCluster → Option (IdCluster × SessionSpaceRef × LocalId)
held_by r local none = none
held_by r local (some k) = some (k, r, local)

module _ (key : SessionId) (small : key.id.id < 2 ^ 122) (space : SessionSpace)
    (chain : IsChain 1 0 space.cluster_chain) (r : SessionSpaceRef) (g : ℕ) (lo : 1 ≤ g)
    (hi : g ≤ 2 ^ 63) where
  abbrev own_local : LocalId
  own_local = from_generation_count g

  local_lem : IsLocal own_local × (to_generation_count own_local ≡ g)
  local_lem = to_generation_count-from_generation_count g lo hi

  aligned :
      from_generation_count
        (add_u64 (stable_sub (stable_of key g) (stable_from_session key) % 2 ^ 64) 1)
      ≡ own_local
  unfolding stable_sub from_generation_count
  aligned = ap (λ n. record { id = neg_i64 n }) (omega (arith, small, lo, hi))

  originator :
      local_id_from_id
        (sub_u64 (neg_i64 (stable_sub (stable_of key g) (stable_from_session key) % 2 ^ 64)) 1)
      ≡ own_local
  unfolding stable_sub from_generation_count
  originator = ap (λ n. record { id = n }) (omega (arith, small, lo, hi))

  -- The greatest stable ID of the session's clusters.
  max_at :
      (t : IdCluster)
      → get_last? space.cluster_chain ≡ some t
      → (get_max_allocated_stable space key).id ≡ key.id.id + (chain_end 1 space.cluster_chain - 2)
  unfolding get_max_allocated_stable max_allocated_local stable_add_local
  max_at t e =
      let (v, _) = IsChain-get_last? 1 0 space.cluster_chain chain e in
      let end = chain_end-get_last? 1 space.cluster_chain e in
      let (_, at) =
        to_generation_count-local_sub t.base_local_id (sub_u64 t.capacity 1) v.base_IsLocal
          (omega (arith, v.local_fits, v.count_pos, v.count_le)) in
      rw (get_max_allocated_stable, e)
        (omega (
          arith,
          at,
          small,
          v.local_fits,
          v.count_pos,
          v.count_le,
          end,
          (generation_bounds t.base_local_id v.base_IsLocal).0,
        ))

  check_some :
      (k : IdCluster)
      → IsCluster k
      → base_generation k ≤ g
      → g < base_generation k + k.capacity
      → check_containing (stable_of key g) key r (some k) ≡ some (k, r, own_local)
  unfolding stable_add_local stable_add
  check_some k v p q =
      let first = (generation_bounds k.base_local_id v.base_IsLocal).0 in
      let low : stable_le (session_add_local key k.base_local_id) (stable_of key g) ≡ true =
        ground (arith, small, first, p, hi, v.local_fits) in
      let high : stable_le (stable_of key g)
            (stable_add (session_add_local key k.base_local_id) k.capacity)
          ≡ true =
        ground (arith, small, first, q, hi, v.local_fits) in
      rw (low, high) (ap (λ o. some (k, r, o)) originator)

  abbrev holder : Option IdCluster
  holder = cluster_of_local true own_local space.cluster_chain

  beyond : stable_lt (get_max_allocated_stable space key) (stable_of key g) ≡ true → holder ≡ none
  beyond past =
      chain_end_beyond 1 0 (to_generation_count own_local) space.cluster_chain chain
        (elim (Option-cases (get_last? space.cluster_chain)) [
          | inl n ↦ omega (arith, chain_end-none 1 space.cluster_chain n, local_lem.1, lo)
          | inr (t, e) ↦ ground (arith, max_at t e, past, local_lem.1, lo)
        ])

  checked : check_containing (stable_of key g) key r holder ≡ held_by r own_local holder
  checked = elim (Option-cases holder) [
    | inl n ↦ rw n refl
    | inr (k, n) ↦
        let (i, at, p, q) =
          find_interval_sound base_generation capacity_of (to_generation_count own_local)
            space.cluster_chain n in
        let valid =
          All-get IsCluster space.cluster_chain i (IsChain-clusters 1 0 space.cluster_chain chain)
            at in
        rw n (check_some k valid (omega (arith, p, local_lem.1)) (omega (arith, q, local_lem.1)))
  ]

  containing_in_lem :
      (s : Sessions)
      → containing_in s (stable_of key g) key r space ≡ done (held_by r own_local holder)
  containing_in_lem s =
      let search =
        get_cluster_by_local-cluster_of_local space 1 0 chain own_local true local_lem.0 in
      elim (Bool-cases (stable_lt (get_max_allocated_stable space key) (stable_of key g))) [
        | inl past ↦ rw (past) (ap (λ k. done (held_by r own_local k)) (sym (beyond past)))
        | inr within ↦ rw (within, aligned, search) (ap done checked)
      ]

module _ (c : IdCompressor) (ids : List SessionId) (l : Ledger) (v : Shares c ids l) (i : ℕ)
    (key : SessionId) (e : get_elem? ids i ≡ some key) (small : key.id.id < 2 ^ 122)
    (real : 1 ≤ key.id.id) (spaced : All (IsSpaced key) ids) (g : ℕ) (lo : 1 ≤ g)
    (hi : g ≤ 2 ^ 63) where
  abbrev high : SessionId
  high = session_id_from_stable_id (stable_of key g)

  -- The session is the last one that begins at the stable ID or before.
  session_found :
      last_in_range c.sessions.session_map session_nil high ≡ some (key, record { index = i })
  session_found =
      let tables = v.lays.tables in
      let known = tables.known key i e in
      elim (Option-cases (last_in_range c.sessions.session_map session_nil high)) [
        | inl n ↦ absurd (
            last_in_range-none c.sessions.session_map session_nil high key n known
              (omega (arith, real), omega (arith, lo)))
        | inr ((other, r), n) ↦
            let last =
              last_in_range-some c.sessions.session_map session_nil high other r tables.ascending
                n in
            let at = tables.refers other r last.present in
            let above = last.greatest key _ known (omega (arith, real), omega (arith, lo)) in
            let near = All-get (IsSpaced key) ids r.index spaced at in
            let same : session_eq other key ≡ true =
              ground (arith, near, above, last.within.1, hi) in
            let index = Holds-distinct tables r.index i other key at e same in
            n ∙ ap₂ (λ k j. some (k, record { index = j })) (SessionId-eq other key same) index
      ]

  -- On a compressor that shares a ledger, if the identifier of a session that it knows is below 2
  -- ^ 122, not nil, and at least 2 ^ 64 apart from that of every other session that it knows,
  -- `get_containing_cluster` of the session's stable ID of any generation from 1 to 2 ^ 63 returns
  -- the cluster of the session that holds the generation among its allocated ones, with the
  -- session's reference and the generation's local ID, and none if no cluster does; it never
  -- panics.
  pub get_containing_cluster_lem :
      get_containing_cluster c.sessions (stable_of key g)
      ≡ done (
          held_by
            (record { index = i })
            (from_generation_count g)
            (cluster_of_local true (from_generation_count g) (chain_of key l)))
  unfolding get_containing_cluster deref_session_space
  get_containing_cluster_lem =
      rw
        (
          get_containing_cluster,
          session_found,
          v.lays.spaces i key e,
          get_session_id_lem c.sessions ids v.lays.tables (record { index = i }) key e,
        )
        (containing_in_lem key small (record { cluster_chain = chain_of key l })
          (chain_of-IsChain key l v.ledger) (record { index = i }) g lo hi c.sessions)
