-- ===== src/Ledger/Update.antt =====
-- Another cluster in place of a session's latest: what changes, and what stays.
use distributed_id_allocator.Common.{
  ◌≡◌, refl, sym, ap, subst, ◌∙◌, [], ◌∷◌, some, some-injective, false, arith, Bool-cases, inl, inr,
}
use distributed_id_allocator.Ids.Stable.{SessionId, session_eq}
use distributed_id_allocator.Tables.SessionSpace.{IdCluster}
use distributed_id_allocator.Tables.SessionSpace.Chain.{
  IsCluster, base_generation, base_final, next_final,
}
use distributed_id_allocator.Ledger.{
  Ledger, tail_of, update_tail, end_final, end_generation, IsFull, IsLedger,
}

module _ (key : SessionId) (k k' : IdCluster) where
  pub tail_of-update_tail :
      (l : Ledger) → tail_of key l ≡ some k → tail_of key (update_tail key k' l) ≡ some k'
  tail_of-update_tail [] e = ground arith
  tail_of-update_tail (d ∷ l) e = elim (Bool-cases (session_eq d.session key)) [
    | inl b ↦ rw (b, tail_of, b) refl
    | inr b ↦ rw (b, tail_of, b) (tail_of-update_tail l (rw b at e))
  ]

  -- The other sessions' clusters stay.
  pub tail_of-update_tail_ne :
      (other : SessionId) (l : Ledger)
      → session_eq key other ≡ false
      → tail_of other (update_tail key k' l) ≡ tail_of other l
  tail_of-update_tail_ne other [] ne = refl
  tail_of-update_tail_ne other (d ∷ l) ne = elim (Bool-cases (session_eq d.session key)) [
    | inl b ↦
        let apart : session_eq d.session other ≡ false = ground arith in rw (b, tail_of, apart) refl
    | inr b ↦ rw (b, tail_of) (ground (arith, tail_of-update_tail_ne other l ne))
  ]

  pub end_final-update_tail :
      (l : Ledger)
      → tail_of key l ≡ some k
      → next_final k' ≡ next_final k
      → end_final (update_tail key k' l) ≡ end_final l
  end_final-update_tail [] e f = refl
  end_final-update_tail (d ∷ l) e f = elim (Bool-cases (session_eq d.session key)) [
    | inl b ↦
        let same : d.cluster ≡ k = some-injective _ _ (rw b at e) in
        rw b (f ∙ ap next_final (sym same))
    | inr b ↦ rw b refl
  ]

  -- A cluster at the same place, of the same size.
  pub update_tail-IsLedger :
      (l : Ledger)
      → IsLedger l
      → tail_of key l ≡ some k
      → IsCluster k'
      → base_final k' ≡ base_final k
      → base_generation k' ≡ base_generation k
      → k'.capacity ≡ k.capacity
      → IsLedger (update_tail key k' l)
  update_tail-IsLedger [] h e c p q r = tt
  update_tail-IsLedger (d ∷ l) h e c p q r = elim (Bool-cases (session_eq d.session key)) [
    | inl b ↦
        let same : d.cluster ≡ k = some-injective _ _ (rw b at e) in
        rw b
          (c, p ∙ ap base_final (sym same) ∙ h.1, q ∙ ap base_generation (sym same) ∙ h.2, h.3, h.4)
    | inr b ↦
        let below : tail_of key l ≡ some k = rw b at e in
        let apart : session_eq key d.session ≡ false = ground arith in
        let tails = tail_of-update_tail_ne d.session l apart in
        rw b (
          h.0,
          h.1 ∙ sym (end_final-update_tail l below (omega (arith, p, r))),
          h.2 ∙ ap end_generation (sym tails),
          subst IsFull (sym tails) h.3,
          update_tail-IsLedger l h.4 below c p q r,
        )
  ]
