-- ===== src/Compressor/Refines.antt =====
-- The branches of `finalize_range`, on tables that lay out a ledger.
use distributed_id_allocator.Common.{
  ℕ, ◌+◌, ◌^◌, ◌≤◌, ◌≡◌, refl, ap, ◌∙◌, List, [], ◌∷◌, none, some, true, false, done, err, ◌>>=◌,
  ◌==◌, arith, get_last?, set_last, get_elem?,
}
use distributed_id_allocator.Word.{minus_one}
use distributed_id_allocator.Ids.Errors.{range_finalized_out_of_order}
use distributed_id_allocator.Ids.Local.{from_generation_count, local_eq, local_eq_i64, local_sub}
use distributed_id_allocator.Ids.Local.Generations.{
  to_generation_count-from_generation_count, to_generation_count-local_sub, local_eq-generation,
  local_eq_i64-minus_one,
}
use distributed_id_allocator.Ids.Stable.{SessionId}
use distributed_id_allocator.Tables.SessionSpace.{
  IdCluster, session_tail_cluster_mut, cluster_chain_is_empty,
}
use distributed_id_allocator.Tables.SessionSpace.Chain.{IsCluster, base_generation}
use distributed_id_allocator.Tables.Sessions.{deref_session_space_mut}
use distributed_id_allocator.Ledger.{Ledger, chain_of, tail_of, head_cluster}
use distributed_id_allocator.Ledger.Chains.{get_last?-chain_of}
use distributed_id_allocator.Ledger.Lays.{Lays, final_tail_cluster-head_cluster}
use distributed_id_allocator.Ledger.Writes.{with_space}
use distributed_id_allocator.Compressor.{IdCompressor}
use distributed_id_allocator.Compressor.Finalize.{finalize_at_tail, grow_tail, update_limit}

-- A session that has a cluster is not empty, and the latest cluster of all is not missing.
pub chain_is_empty-none :
    (key : SessionId) (l : Ledger)
    → tail_of key l ≡ none
    → cluster_chain_is_empty (record { cluster_chain = chain_of key l }) ≡ true
unfolding cluster_chain_is_empty
chain_is_empty-none key l e = go (chain_of key l) (get_last?-chain_of key l ∙ e)
  where
    go :
        (ks : List IdCluster)
        → get_last? ks ≡ none
        → cluster_chain_is_empty (record { cluster_chain = ks }) ≡ true
    go [] h = refl
    go (k ∷ []) h = ground arith
    go (k ∷ j ∷ ks) h = absurd (
        let f : cluster_chain_is_empty (record { cluster_chain = j ∷ ks }) ≡ true = go (j ∷ ks) h in
        ground arith)

pub chain_is_empty-some :
    (key : SessionId) (l : Ledger) {k : IdCluster}
    → tail_of key l ≡ some k
    → cluster_chain_is_empty (record { cluster_chain = chain_of key l }) ≡ false
unfolding cluster_chain_is_empty
chain_is_empty-some key l {k} e = go (chain_of key l) (get_last?-chain_of key l ∙ e)
  where
    go :
        (ks : List IdCluster)
        → get_last? ks ≡ some k
        → cluster_chain_is_empty (record { cluster_chain = ks }) ≡ false
    go [] h = ground arith
    go (j ∷ ks) h = refl

pub head_cluster-some :
    (key : SessionId) (l : Ledger) {k : IdCluster}
    → tail_of key l ≡ some k
    → (last : IdCluster) × (head_cluster l ≡ some last)
head_cluster-some key [] e = ground arith
head_cluster-some key (d ∷ l) e = (d.cluster, refl)

module _ (d : IdCompressor) (ids : List SessionId) (l : Ledger)
    (v : Lays d.sessions d.final_space ids l) (i : ℕ) (key : SessionId)
    (e : get_elem? ids i ≡ some key) (base len : ℕ) where
  module _ (k last : IdCluster) (t : tail_of key l ≡ some k)
      (head : head_cluster l ≡ some last) where
    -- A range that follows the session's last cluster is finalized as `grow_tail` does it.
    pub at_tail_grows :
        local_eq (local_sub k.base_local_id k.count) (from_generation_count base) ≡ true
        → finalize_at_tail d (record { index = i }) (from_generation_count base) len ≡ (
            grow_tail d
              (record { index = i })
              (from_generation_count base)
              len
              last.base_final_id
              k
              (λ new. with_space d.sessions i (set_last (chain_of key l) new))
            >>= update_limit)
    unfolding finalize_at_tail deref_session_space_mut session_tail_cluster_mut
    at_tail_grows follows =
        rw
          (
            finalize_at_tail,
            final_tail_cluster-head_cluster d.sessions d.final_space ids l v,
            head,
            v.spaces i key e,
            session_tail_cluster_mut,
            get_last?-chain_of key l,
            t,
            follows,
          )
          refl

    pub at_tail_refused :
        local_eq (local_sub k.base_local_id k.count) (from_generation_count base) ≡ false
        → finalize_at_tail d (record { index = i }) (from_generation_count base) len
          ≡ done (err range_finalized_out_of_order, d)
    unfolding finalize_at_tail deref_session_space_mut session_tail_cluster_mut
    at_tail_refused late =
        rw
          (
            finalize_at_tail,
            final_tail_cluster-head_cluster d.sessions d.final_space ids l v,
            head,
            v.spaces i key e,
            session_tail_cluster_mut,
            get_last?-chain_of key l,
            t,
            late,
          )
          refl

-- The code's test whether a range follows a cluster compares the two generations.
pub follows_lem :
    (k : IdCluster) (base : ℕ)
    → IsCluster k
    → 1 ≤ base
    → base ≤ 2 ^ 63
    → local_eq (local_sub k.base_local_id k.count) (from_generation_count base)
      ≡ (base == base_generation k + k.count)
follows_lem k base valid lo hi =
    let g = to_generation_count-from_generation_count base lo hi in
    let n =
      to_generation_count-local_sub k.base_local_id k.count valid.base_IsLocal
        (omega (arith, valid.count_le, valid.local_fits)) in
    local_eq-generation (local_sub k.base_local_id k.count) (from_generation_count base) n.0 g.0
    ∙ ground (arith, g.1, n.1)

pub first_lem :
    (base : ℕ)
    → 1 ≤ base
    → base ≤ 2 ^ 63
    → local_eq_i64 (from_generation_count base) minus_one ≡ (base == 1)
first_lem base lo hi =
    let g = to_generation_count-from_generation_count base lo hi in
    local_eq_i64-minus_one (from_generation_count base) g.0 ∙ ap (λ n. n == 1) g.1
