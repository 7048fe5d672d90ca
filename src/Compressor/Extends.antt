-- ===== src/Compressor/Extends.antt =====
-- `grow_tail` and `add_empty_cluster` extend the ledger.
use distributed_id_allocator.Common.{
  ℕ, ◌-◌, ◌^◌, ◌<◌, ◌≡◌, refl, ap, subst, ◌∙◌, List, [], ◌∷◌, ◌++◌, some, true, done, arith, length,
  length-append, set, set_last, get_elem?, get_elem?-set, get_elem?-append_length,
}
use distributed_id_allocator.Ids.Local.{LocalId}
use distributed_id_allocator.Ids.Stable.{SessionId, session_eq}
use distributed_id_allocator.Tables.SessionSpace.{
  IdCluster, SessionSpaceRef, session_add_cluster, session_add_empty_cluster,
}
use distributed_id_allocator.Tables.Sessions.{deref_session_space_mut, deref_cluster_mut}
use distributed_id_allocator.Tables.FinalSpace.{final_add_cluster}
use distributed_id_allocator.Ledger.{
  Ledger, chain_of, tail_of, update_tail, head_cluster, end_final,
}
use distributed_id_allocator.Ledger.Chains.{chain_of-head}
use distributed_id_allocator.Ledger.Lays.{ref_to, Lays, final_tail_cluster-head_cluster}
use distributed_id_allocator.Ledger.Writes.{with_space, update_tail-Lays, cons-Lays}
use distributed_id_allocator.Compressor.{IdCompressor}
use distributed_id_allocator.Compressor.Finalize.{next_base_final, add_empty_cluster}

next_base_final-end_final :
    (l : Ledger)
    → end_final l < 2 ^ 64
    → next_base_final (head_cluster l) ≡ record { id = end_final l }
next_base_final-end_final [] h = refl
next_base_final-end_final (e ∷ l) h = ap (λ n. record { id = n }) (omega (arith, h))

module _ (d : IdCompressor) (ids : List SessionId) (l : Ledger)
    (v : Lays d.sessions d.final_space ids l) (i : ℕ) (key : SessionId)
    (e : get_elem? ids i ≡ some key) where
  abbrev pub own_ref : SessionSpaceRef
  own_ref = record { index = i }

  abbrev pub empty_cluster : LocalId → ℕ → IdCluster
  empty_cluster base capacity = record {
    base_final_id = record { id = end_final l };
    base_local_id = base;
    capacity = capacity;
    count = 0;
  }

  abbrev pub with_cluster : IdCluster → IdCompressor
  with_cluster k = record d {
    sessions = with_space d.sessions i (chain_of key l ++ (k ∷ []));
    final_space = record {
      clusters = d.final_space.clusters ++ (ref_to i (length (chain_of key l)) ∷ []);
    };
  }

  pub add_empty_cluster_lem :
      (base : LocalId) (capacity : ℕ)
      → end_final l < 2 ^ 64
      → add_empty_cluster d own_ref base capacity
        ≡ done (ref_to i (length (chain_of key l)), with_cluster (empty_cluster base capacity))
  unfolding add_empty_cluster deref_session_space_mut session_add_empty_cluster session_add_cluster
      final_add_cluster
  add_empty_cluster_lem base capacity room =
      let n : length (chain_of key l ++ (empty_cluster base capacity ∷ [])) - 1
          ≡ length (chain_of key l) =
        omega (arith, length-append (chain_of key l) (empty_cluster base capacity ∷ [])) in
      rw
        (
          add_empty_cluster,
          final_tail_cluster-head_cluster d.sessions d.final_space ids l v,
          v.spaces i key e,
          next_base_final-end_final l room,
          n,
        )
        refl

  -- The new cluster, as the reference to it leads to it for a write.
  module _ (k : IdCluster) where
    abbrev longer : List IdCluster
    longer = chain_of key l ++ (k ∷ [])

    abbrev rewritten_cluster : IdCluster → IdCompressor
    rewritten_cluster new = record (with_cluster k) {
      sessions = with_space (with_cluster k).sessions i (set longer (length (chain_of key l)) new);
    }

    pub deref_cluster_mut_lem :
        deref_cluster_mut (with_cluster k).sessions (ref_to i (length (chain_of key l)))
        ≡ done (k, λ new. (rewritten_cluster new).sessions)
    unfolding deref_cluster_mut deref_session_space_mut
    deref_cluster_mut_lem =
        rw
          (
            get_elem?-set d.sessions.session_list i (record { cluster_chain = longer })
                (v.spaces i key e),
            get_elem?-append_length (chain_of key l) k,
          )
          refl

    pub rewritten_cluster-Lays :
        (new : IdCluster)
        → Lays
            (rewritten_cluster new).sessions
            (with_cluster k).final_space
            ids
            (record { session = key; cluster = new } ∷ l)
    rewritten_cluster-Lays new =
        let m : Ledger = record { session = key; cluster = k } ∷ l in
        let self : session_eq key key ≡ true = ground arith in
        let n : length longer - 1 ≡ length (chain_of key l) =
          omega (arith, length-append (chain_of key l) (k ∷ [])) in
        let chain : set_last (chain_of key m) new ≡ set longer (length (chain_of key l)) new =
          ap (λ c. set_last c new) (chain_of-head (record { session = key; cluster = k }) l)
          ∙ ap (λ z. set longer z new) n in
        let latest : tail_of key m ≡ some k = rw (tail_of, self) refl in
        let updated : update_tail key new m ≡ record { session = key; cluster = new } ∷ l =
          rw (update_tail, self) refl in
        subst
          (λ c.
            Lays (with_space (with_cluster k).sessions i c) (with_cluster k).final_space ids
              (record { session = key; cluster = new } ∷ l))
          chain
          (subst
            (Lays (with_space (with_cluster k).sessions i (set_last (chain_of key m) new))
              (with_cluster k).final_space ids)
            updated
            (update_tail-Lays (with_cluster k).sessions (with_cluster k).final_space ids m
              (cons-Lays d.sessions d.final_space ids l v i key e k) i key e k new latest))
