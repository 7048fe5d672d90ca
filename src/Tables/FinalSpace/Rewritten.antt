-- ===== src/Tables/FinalSpace/Rewritten.antt =====
-- References into the tables after a session's chain was rewritten in place.
use distributed_id_allocator.Common.{
  ℕ, ◌≡◌, refl, subst, some, done, unwrap, ◌==◌, get_elem?, get_elem?-set_any, get_elem?-set_test,
  >>=-eq-done, Bool-cases, get_last?, set, arith, Option-cases, inl, inr,
}
use distributed_id_allocator.Tables.SessionSpace.{IdCluster, SessionSpace, ClusterRef}
use distributed_id_allocator.Tables.Sessions.{Sessions, deref_session_space, deref_cluster}
use distributed_id_allocator.Tables.FinalSpace.{FinalSpace, final_tail_cluster}

-- Sessions in which one session's space has another chain of the same length.
abbrev pub rewritten : Sessions → ℕ → SessionSpace → ℕ → IdCluster → Sessions
rewritten s i space j k = record s {
  session_list = set s.session_list i (record { cluster_chain = set space.cluster_chain j k });
}

module _ (s : Sessions) (i : ℕ) (space : SessionSpace) (j : ℕ) (k : IdCluster)
    (at : get_elem? s.session_list i ≡ some space) where
  -- A reference that led to a cluster still does.
  deref_cluster-rewritten :
      (r : ClusterRef) {c : IdCluster}
      → deref_cluster s r ≡ done c
      → (c' : IdCluster) × (deref_cluster (rewritten s i space j k) r ≡ done c')
  unfolding deref_cluster deref_session_space
  deref_cluster-rewritten r {c} e =
      let (old, p, q) =
        >>=-eq-done (unwrap (get_elem? s.session_list r.session_space_ref.index)) _ e in
      let test =
        get_elem?-set_test s.session_list i r.session_space_ref.index
          (record { cluster_chain = set space.cluster_chain j k }) at in
      elim (Bool-cases (r.session_space_ref.index == i)) [
        | inl b ↦
            let here : get_elem? old.cluster_chain r.cluster_chain_index ≡ some c = ground arith in
            let same : old ≡ space = ground (arith, at) in
            let (c', m) =
              get_elem?-set_any space.cluster_chain j r.cluster_chain_index k
                (subst (λ z. get_elem? z.cluster_chain r.cluster_chain_index ≡ some c) same here) in
            (c', rw (test, b, m) refl)
        | inr b ↦ (c, rw (test, b) e)
      ]

  -- So the final space still has a last cluster.
  pub final_tail_cluster-rewritten :
      (f : FinalSpace) {last : IdCluster}
      → final_tail_cluster f s ≡ done (some last)
      → (last' : IdCluster) × (final_tail_cluster f (rewritten s i space j k) ≡ done (some last'))
  unfolding final_tail_cluster
  final_tail_cluster-rewritten f {last} e = elim (Option-cases (get_last? f.clusters)) [
    | inl n ↦ ground arith
    | inr (r, n) ↦
        let (c, p, q) = >>=-eq-done (deref_cluster s r) _ (rw (final_tail_cluster, n) at e) in
        let (c', m) = deref_cluster-rewritten r p in (c', rw (final_tail_cluster, n, m) refl)
  ]
