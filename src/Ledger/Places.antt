-- ===== src/Ledger/Places.antt =====
-- Where the final space and the session spaces hold the clusters of a ledger.
use mathlib.Core.List.{append_assoc, append-nil}
use distributed_id_allocator.Common.{
  ℕ, ◌+◌, ◌≤◌, ◌<◌, ◌≡◌, sym, ap, subst, ◌∙◌, List, [], ◌∷◌, ◌++◌, some, true, done, arith, length,
  length-append, get_elem?, get_elem?-append_left, get_elem?-append_length, get_elem?_lt, All,
  All-imp, All-append, Sorted, Sorted-append, Bool-cases, inl, inr,
}
use native.Mathlib.Decide.{dec_lt}
use distributed_id_allocator.Ids.Stable.{SessionId, session_eq}
use distributed_id_allocator.Tables.SessionSpace.{IdCluster, ClusterRef}
use distributed_id_allocator.Tables.SessionSpace.Chain.{IsCluster, next_final}
use distributed_id_allocator.Tables.Sessions.{Sessions, deref_cluster}
use distributed_id_allocator.Tables.FinalSpace.{FinalSpace}
use distributed_id_allocator.Tables.FinalSpace.Locate.{IsFinalSpace, first_final, final_capacity}
use distributed_id_allocator.Ledger.{Entry, Ledger, IsLedger, chain_of, end_final}
use distributed_id_allocator.Ledger.Chains.{chain_of-head}
use distributed_id_allocator.Ledger.Lays.{ref_to, Refers, Lays, deref_cluster-Lays}
use distributed_id_allocator.Ledger.Writes.{SessionId-eq, Holds-distinct}

-- Later clusters come last in their session's chain.
chain_of-append :
    (key : SessionId) (pre l : Ledger)
    → chain_of key (pre ++ l) ≡ chain_of key l ++ chain_of key pre
chain_of-append key [] l = sym (append-nil (chain_of key l))
chain_of-append key (d ∷ pre) l = elim (Bool-cases (session_eq d.session key)) [
  | inl b ↦ rw (b) (
      ap (λ c. c ++ (d.cluster ∷ [])) (chain_of-append key pre l)
      ∙ append_assoc (chain_of key l) (chain_of key pre) (d.cluster ∷ []))
  | inr b ↦ rw (b) (chain_of-append key pre l)
]

-- An entry stays where it was put.
pub get_elem?-chain_of :
    (pre : Ledger) (d : Entry) (l : Ledger)
    → get_elem? (chain_of d.session (pre ++ (d ∷ l))) (length (chain_of d.session l))
      ≡ some d.cluster
get_elem?-chain_of pre d l =
    let here =
      chain_of-append d.session pre (d ∷ l)
      ∙ ap (λ c. c ++ chain_of d.session pre) (chain_of-head d l) in
    rw here (
      get_elem?-append_left (chain_of d.session l ++ (d.cluster ∷ [])) (chain_of d.session pre)
        (length (chain_of d.session l))
        (omega (arith, length-append (chain_of d.session l) (d.cluster ∷ [])))
      ∙ get_elem?-append_length (chain_of d.session l) d.cluster)

-- The reference leads to a valid cluster that ends by `bound`.
abbrev IsBelow : Sessions → ℕ → ClusterRef → Type 0
IsBelow s bound r =
    (k : IdCluster) × (deref_cluster s r ≡ done k) × IsCluster k × (next_final k ≤ bound)

abbrev Before : Sessions → ClusterRef → ClusterRef → Type 0
Before s a b = first_final s a + final_capacity s a ≤ first_final s b

module _ (s : Sessions) (f : FinalSpace) (ids : List SessionId) where
  refs-IsBelow :
      (pre l : Ledger) (refs : List ClusterRef)
      → Lays s f ids (pre ++ l)
      → IsLedger l
      → Refers ids l refs
      → All (IsBelow s (end_final l)) refs × Sorted (Before s) refs
  refs-IsBelow pre [] refs v h r =
      subst (λ z. All (IsBelow s 0) z × Sorted (Before s) z) (sym r) (tt, tt)
  refs-IsBelow pre (d ∷ l) refs v h (i, front, e, shape, rest) =
      let r : ClusterRef = ref_to i (length (chain_of d.session l)) in
      let there : deref_cluster s r ≡ done d.cluster =
        deref_cluster-Lays v i (length (chain_of d.session l)) d.session e
          (get_elem?-chain_of pre d l) in
      let (below, sorted) =
        refs-IsBelow (pre ++ (d ∷ [])) l front
          (subst (λ z. Lays s f ids z) (sym (append_assoc pre (d ∷ []) l)) v) h.4 rest in
      let start = h.1 in
      subst (λ z. All (IsBelow s (next_final d.cluster)) z × Sorted (Before s) z) (sym shape)
        (
          All-append (IsBelow s (next_final d.cluster)) front (r ∷ [])
              (All-imp front (λ a (k, q, c, le). (k, q, c, omega (arith, le, start))) below)
              ((d.cluster, there, h.0, omega arith), tt),
          Sorted-append (Before s) front r sorted (
              All-imp front
                (λ a (k, q, c, le).
                  rw (first_final, final_capacity, q, there) (omega (arith, le, start)))
                below),
        )

  pub Lays-IsFinalSpace : (l : Ledger) → Lays s f ids l → IsLedger l → IsFinalSpace s f
  Lays-IsFinalSpace l v h =
      let (below, sorted) = refs-IsBelow [] l f.clusters v h v.clusters in
      record { leads = All-imp f.clusters (λ r (k, q, c, le). (k, q, c)) below; sorted = sorted }

  -- The final space refers to every cluster of a session.
  refers_in :
      (l : Ledger) (refs : List ClusterRef) (key : SessionId) (i : ℕ)
      → ((j : ℕ) (other : SessionId)
          → get_elem? ids j ≡ some other
          → session_eq other key ≡ true
          → j ≡ i)
      → Refers ids l refs
      → (n : ℕ) → n < length (chain_of key l)
      → (j : ℕ) × (get_elem? refs j ≡ some (ref_to i n))
  refers_in [] refs key i only r n lt = absurd (omega (arith, lt))
  refers_in (d ∷ l) refs key i only (j₀, front, e, shape, rest) n lt =
      let earlier : n < length (chain_of key l) → (j : ℕ) × (get_elem? refs j ≡ some (ref_to i n)) =
        λ p.
          let (j, q) = refers_in l front key i only rest n p in
          (
            j,
            ap (λ z. get_elem? z j) shape
                ∙ get_elem?-append_left front _ j (get_elem?_lt front j q)
                ∙ q,
          ) in
      elim (Bool-cases (session_eq d.session key)) [
        | inl b ↦ elim (dec_lt n (length (chain_of key l))) [
          | yes p ↦ earlier p
          | no p ↦
              let lt' : n < length (chain_of key l ++ (d.cluster ∷ [])) = rw (chain_of, b) at lt in
              let last : length (chain_of d.session l) ≡ n =
                ap (λ z. length (chain_of z l)) (SessionId-eq d.session key b)
                ∙ omega (arith, lt', p, length-append (chain_of key l) (d.cluster ∷ [])) in
              (
                length front,
                ap (λ z. get_elem? z (length front)) shape
                    ∙ get_elem?-append_length front (ref_to j₀ (length (chain_of d.session l)))
                    ∙ ap some (
                        ap (λ z. ref_to z (length (chain_of d.session l))) (only j₀ d.session e b)
                        ∙ ap (ref_to i) last),
              )
        ]
        | inr b ↦ earlier (rw (chain_of, b) at lt)
      ]

  pub Lays-refers :
      (l : Ledger)
      → Lays s f ids l
      → (i : ℕ) (key : SessionId) → get_elem? ids i ≡ some key
      → (n : ℕ) (k : IdCluster) → get_elem? (chain_of key l) n ≡ some k
      → (j : ℕ) × (get_elem? f.clusters j ≡ some (ref_to i n))
  Lays-refers l v i key e n k g =
      refers_in l f.clusters key i
        (λ j other h same. Holds-distinct v.tables j i other key h e same) v.clusters n
        (get_elem?_lt (chain_of key l) n g)
