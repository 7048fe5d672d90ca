-- ===== src/Ledger/Writes.antt =====
-- The writes to the tables, as steps of the ledger.
use distributed_id_allocator.Common.{
  ℕ, ◌≡◌, refl, sym, ap, ◌∙◌, List, [], ◌∷◌, ◌++◌, some, some-injective, true, false, ==-true,
  ==-false, ◌==◌, arith, length, length-set, set, set_last, get_elem?, get_elem?-set_test,
  Bool-cases, inl, inr,
}
use distributed_id_allocator.Ids.Stable.{SessionId, session_eq}
use distributed_id_allocator.Tables.SessionSpace.{IdCluster, ClusterRef}
use distributed_id_allocator.Tables.SessionMap.{map_get}
use distributed_id_allocator.Tables.Sessions.{Sessions}
use distributed_id_allocator.Tables.Sessions.Holds.{Holds}
use distributed_id_allocator.Tables.FinalSpace.{FinalSpace}
use distributed_id_allocator.Ledger.{Ledger, chain_of, tail_of, update_tail}
use distributed_id_allocator.Ledger.Chains.{
  chain_of-head, chain_of-update_tail, chain_of-update_tail_ne, length-chain_of-update_tail,
}
use distributed_id_allocator.Ledger.Lays.{ref_to, Refers, Lays}

pub SessionId-eq : (a b : SessionId) → session_eq a b ≡ true → a ≡ b
SessionId-eq a b h = ground arith

-- A session has one place.
pub Holds-distinct :
    {s : Sessions} {ids : List SessionId} (v : Holds s ids) (i j : ℕ) (key other : SessionId)
    → get_elem? ids i ≡ some key
    → get_elem? ids j ≡ some other
    → session_eq key other ≡ true
    → i ≡ j
Holds-distinct {s} v i j key other e f same =
    let k = v.known key i e in
    let o = v.known other j f in
    let both : some _ ≡ some _ =
      sym k ∙ ap (map_get s.session_map) (SessionId-eq key other same) ∙ o in
    ap (λ r. r.index) (some-injective _ _ both)

abbrev pub with_space : Sessions → ℕ → List IdCluster → Sessions
with_space s i chain = record s {
  session_list = set s.session_list i (record { cluster_chain = chain });
}

module _ (s : Sessions) (f : FinalSpace) (ids : List SessionId) (l : Ledger) (v : Lays s f ids l)
    (i : ℕ) (key : SessionId) (e : get_elem? ids i ≡ some key) where
  with_space-Holds : (chain : List IdCluster) → Holds (with_space s i chain) ids
  with_space-Holds chain =
      let h = v.tables in
      record {
        bytes = h.bytes;
        spaces = length-set s.session_list i _ ∙ h.spaces;
        wide = h.wide;
        ascending = h.ascending;
        refers = h.refers;
        known = h.known;
      }

  -- A write of one session's chain, which the new ledger has, while it leaves the others' chains.
  with_space-spaces :
      (chain : List IdCluster) (m : Ledger)
      → chain_of key m ≡ chain
      → ((other : SessionId) → session_eq key other ≡ false → chain_of other m ≡ chain_of other l)
      → (j : ℕ) (other : SessionId) → get_elem? ids j ≡ some other
      → get_elem? (with_space s i chain).session_list j
        ≡ some (record { cluster_chain = chain_of other m })
  with_space-spaces chain m own others j other f =
      let test =
        get_elem?-set_test s.session_list i j (record { cluster_chain = chain })
          (v.spaces i key e) in
      elim (Bool-cases (j == i)) [
        | inl b ↦
            let same : some key ≡ some other =
              sym e ∙ ap (get_elem? ids) (sym (==-true j i b)) ∙ f in
            rw (test, b)
              (ap (λ c. some (record { cluster_chain = c }))
                (sym own ∙ ap (λ z. chain_of z m) (some-injective _ _ same)))
        | inr b ↦ elim (Bool-cases (session_eq key other)) [
          | inl c ↦ absurd (==-false j i b (sym (Holds-distinct v.tables i j key other e f c)))
          | inr c ↦ rw (test, b, others other c) (v.spaces j other f)
        ]
      ]

  Refers-update_tail :
      (k' : IdCluster) (m : Ledger) (refs : List ClusterRef)
      → Refers ids m refs
      → Refers ids (update_tail key k' m) refs
  Refers-update_tail k' [] refs h = h
  Refers-update_tail k' (d ∷ m) refs h = elim (Bool-cases (session_eq d.session key)) [
    | inl b ↦ rw b h
    | inr b ↦
        let (n, front, at, shape, rest) = h in
        rw b (
          n,
          front,
          at,
          shape
              ∙ ap (λ z. front ++ (ref_to n z ∷ []))
                  (sym (length-chain_of-update_tail key k' d.session m)),
          Refers-update_tail k' m front rest,
        )
  ]

  pub update_tail-Lays :
      (k k' : IdCluster)
      → tail_of key l ≡ some k
      → Lays (with_space s i (set_last (chain_of key l) k')) f ids (update_tail key k' l)
  update_tail-Lays k k' t = record {
    tables = with_space-Holds (set_last (chain_of key l) k');
    spaces =
        with_space-spaces (set_last (chain_of key l) k') (update_tail key k' l)
          (chain_of-update_tail key k' l t) (λ other ne. chain_of-update_tail_ne key k' other l ne);
    clusters = Refers-update_tail k' l f.clusters v.clusters;
  }

  pub cons-Lays :
      (k : IdCluster)
      → Lays
          (with_space s i (chain_of key l ++ (k ∷ [])))
          (record { clusters = f.clusters ++ (ref_to i (length (chain_of key l)) ∷ []) })
          ids
          (record { session = key; cluster = k } ∷ l)
  cons-Lays k = record {
    tables = with_space-Holds (chain_of key l ++ (k ∷ []));
    spaces =
        with_space-spaces (chain_of key l ++ (k ∷ [])) (record { session = key; cluster = k } ∷ l)
          (chain_of-head (record { session = key; cluster = k }) l)
          (λ other ne. rw (chain_of, ne) refl);
    clusters = (i, f.clusters, e, refl, v.clusters);
  }
