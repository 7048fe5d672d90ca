-- ===== src/Ledger/Chains.antt =====
-- The chains of the sessions in a ledger.
use distributed_id_allocator.Common.{
  ◌≡◌, refl, sym, ap, [], ◌∷◌, ◌++◌, some, true, false, if◌then◌else◌, arith, length, length-append,
  get_last?, set_last, get_last?-append_one, set_last-append_one, Bool-cases, inl, inr,
}
use distributed_id_allocator.Ids.Stable.{SessionId, session_eq}
use distributed_id_allocator.Tables.SessionSpace.{IdCluster}
use distributed_id_allocator.Ledger.{Entry, Ledger, chain_of, tail_of, update_tail}

pub get_last?-chain_of : (key : SessionId) (l : Ledger) → get_last? (chain_of key l) ≡ tail_of key l
get_last?-chain_of key [] = refl
get_last?-chain_of key (d ∷ l) = elim (Bool-cases (session_eq d.session key)) [
  | inl b ↦ rw (b) (get_last?-append_one (chain_of key l) d.cluster)
  | inr b ↦ rw (b) (get_last?-chain_of key l)
]

pub chain_of-head :
    (d : Entry) (l : Ledger) → chain_of d.session (d ∷ l) ≡ chain_of d.session l ++ (d.cluster ∷ [])
chain_of-head d l =
    let same : session_eq d.session d.session ≡ true = ground arith in rw (chain_of, same) refl

module _ (key : SessionId) (k' : IdCluster) where
  pub chain_of-update_tail :
      (l : Ledger) {k : IdCluster}
      → tail_of key l ≡ some k
      → chain_of key (update_tail key k' l) ≡ set_last (chain_of key l) k'
  chain_of-update_tail [] e = ground arith
  chain_of-update_tail (d ∷ l) e = elim (Bool-cases (session_eq d.session key)) [
    | inl b ↦ rw (b, chain_of, b) (sym (set_last-append_one (chain_of key l) d.cluster k'))
    | inr b ↦ rw (b, chain_of, b) (chain_of-update_tail l (rw b at e))
  ]

  pub chain_of-update_tail_ne :
      (other : SessionId) (l : Ledger)
      → session_eq key other ≡ false
      → chain_of other (update_tail key k' l) ≡ chain_of other l
  chain_of-update_tail_ne other [] ne = refl
  chain_of-update_tail_ne other (d ∷ l) ne = elim (Bool-cases (session_eq d.session key)) [
    | inl b ↦
        let apart : session_eq d.session other ≡ false = ground arith in
        rw (b, chain_of, apart) refl
    | inr b ↦
        rw (b, chain_of)
          (ap (λ c. if session_eq d.session other then c ++ (d.cluster ∷ []) else c)
            (chain_of-update_tail_ne other l ne))
  ]

  pub length-chain_of-update_tail :
      (other : SessionId) (l : Ledger)
      → length (chain_of other (update_tail key k' l)) ≡ length (chain_of other l)
  length-chain_of-update_tail other [] = refl
  length-chain_of-update_tail other (d ∷ l) = elim (Bool-cases (session_eq d.session key)) [
    | inl b ↦ rw b (
        ground (
          arith,
          length-append (chain_of other l) (k' ∷ []),
          length-append (chain_of other l) (d.cluster ∷ []),
        ))
    | inr b ↦ rw b (
        ground (
          arith,
          length-append (chain_of other l) (d.cluster ∷ []),
          length-append (chain_of other (update_tail key k' l)) (d.cluster ∷ []),
          length-chain_of-update_tail other l,
        ))
  ]
