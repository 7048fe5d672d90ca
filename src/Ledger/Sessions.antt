-- ===== src/Ledger/Sessions.antt =====
-- The clusters of one session in a ledger are a chain.
use distributed_id_allocator.Common.{
  ℕ, ◌≤◌, ◌≡◌, refl, sym, ap, subst, ◌∙◌, List, [], ◌∷◌, ◌++◌, none, some, some-injective, arith,
  get_last?, get_last?-cons_some, Bool-cases, inl, inr,
}
use distributed_id_allocator.Ids.Stable.{SessionId, session_eq}
use distributed_id_allocator.Tables.SessionSpace.{IdCluster}
use distributed_id_allocator.Tables.SessionSpace.Chain.{
  IsCluster, IsChain, base_generation, base_final, next_generation, next_final,
}
use distributed_id_allocator.Ledger.{Ledger, chain_of, tail_of, end_generation, IsFull, IsLedger}
use distributed_id_allocator.Ledger.Chains.{get_last?-chain_of}
use distributed_id_allocator.Ledger.Order.{tail_of-IsCluster}
use distributed_id_allocator.Ledger.Writes.{SessionId-eq}

-- A chain's final IDs end after its start.
IsChain-final_le :
    (g f : ℕ) (cs : List IdCluster) {t : IdCluster}
    → IsChain g f cs
    → get_last? cs ≡ some t
    → f ≤ next_final t
IsChain-final_le g f [] h e = ground arith
IsChain-final_le g f (c ∷ []) {t} h e =
    subst (λ u. f ≤ next_final u) (some-injective _ _ e) (omega (arith, h.2))
IsChain-final_le g f (c ∷ d ∷ cs) h e =
    omega (arith, h.2, IsChain-final_le (next_generation c) (next_final c) (d ∷ cs) h.4 e)

-- A full chain goes on with a cluster.
IsChain-snoc :
    (g f : ℕ) (cs : List IdCluster) (k : IdCluster)
    → IsChain g f cs
    → IsCluster k
    → f ≤ base_final k
    → (get_last? cs ≡ none → base_generation k ≡ g)
    → ((t : IdCluster)
        → get_last? cs ≡ some t
        → (t.count ≡ t.capacity)
          × (base_generation k ≡ next_generation t)
          × (next_final t ≤ base_final k))
    → IsChain g f (cs ++ (k ∷ []))
IsChain-snoc g f [] k h v p n m = (v, n refl, p)
IsChain-snoc g f (c ∷ []) k h v p n m =
    let (full, next, final) = m c refl in (h.0, h.1, h.2, full, (v, next, final))
IsChain-snoc g f (c ∷ d ∷ cs) k h v p n m =
    let (t, e) = get_last?-cons_some d cs in
    let (_, _, below) = m t e in
    (
      h.0,
      h.1,
      h.2,
      h.3,
      IsChain-snoc (next_generation c) (next_final c) (d ∷ cs) k h.4 v
          (omega (arith, IsChain-final_le (next_generation c) (next_final c) (d ∷ cs) h.4 e, below))
          (λ clash. absurd (let q : none ≡ some t = sym clash ∙ e in cc)) m,
    )

pub chain_of-IsChain : (key : SessionId) (l : Ledger) → IsLedger l → IsChain 1 0 (chain_of key l)
chain_of-IsChain key [] h = tt
chain_of-IsChain key (d ∷ l) h = elim (Bool-cases (session_eq d.session key)) [
  | inl b ↦
      let same : d.session ≡ key = SessionId-eq d.session key b in
      let last = get_last?-chain_of key l in
      rw (b) (
        IsChain-snoc 1 0 (chain_of key l) d.cluster (chain_of-IsChain key l h.4) h.0 (omega arith)
          (λ e.
            h.2 ∙ ap (λ s. end_generation (tail_of s l)) same ∙ ap end_generation (sym last ∙ e))
          (λ t e.
            let here : tail_of key l ≡ some t = sym last ∙ e in
            let mine : tail_of d.session l ≡ some t = ap (λ s. tail_of s l) same ∙ here in
            (
              subst IsFull mine h.3,
              h.2 ∙ ap end_generation mine,
              omega (arith, h.1, (tail_of-IsCluster key l t h.4 here).1),
            )))
  | inr b ↦ rw (b) (chain_of-IsChain key l h.4)
]
