-- ===== src/Ledger/Order.antt =====
-- What holds of a ledger's clusters: where they lie, and that each session's are a chain.
use distributed_id_allocator.Common.{
  ◌≤◌, ◌≡◌, subst, [], ◌∷◌, some, some-injective, arith, Bool-cases, inl, inr,
}
use distributed_id_allocator.Ids.Final.{final_eq}
use distributed_id_allocator.Ids.Stable.{SessionId, session_eq}
use distributed_id_allocator.Tables.SessionSpace.{IdCluster}
use distributed_id_allocator.Tables.SessionSpace.Chain.{IsCluster, next_final}
use distributed_id_allocator.Ledger.{Ledger, tail_of, head_cluster, is_head, end_final, IsLedger}

-- A session's latest cluster is valid and lies below the first free final ID.
pub tail_of-IsCluster :
    (key : SessionId) (l : Ledger) (k : IdCluster)
    → IsLedger l
    → tail_of key l ≡ some k
    → IsCluster k × (next_final k ≤ end_final l)
tail_of-IsCluster key [] k h e = ground arith
tail_of-IsCluster key (d ∷ l) k h e = elim (Bool-cases (session_eq d.session key)) [
  | inl b ↦
      let same : d.cluster ≡ k = some-injective _ _ (rw b at e) in
      subst (λ x. IsCluster x × (next_final x ≤ next_final d.cluster)) same (h.0, omega arith)
  | inr b ↦ let r = tail_of-IsCluster key l k h.4 (rw b at e) in (r.0, omega (arith, r.1, h.1))
]

-- The code compares the first final IDs to tell whether the latest cluster of all is the session's.
pub final_eq-is_head :
    (key : SessionId) (l : Ledger) (k last : IdCluster)
    → IsLedger l
    → tail_of key l ≡ some k
    → head_cluster l ≡ some last
    → final_eq k.base_final_id last.base_final_id ≡ is_head key l
final_eq-is_head key [] k last h e f = ground arith
final_eq-is_head key (d ∷ l) k last h e f = elim (Bool-cases (session_eq d.session key)) [
  | inl b ↦
      let same : d.cluster ≡ k = some-injective _ _ (rw b at e) in
      let latest : d.cluster ≡ last = some-injective _ _ f in
      rw (b, ← same, ← latest) (ground arith)
  | inr b ↦
      let r = tail_of-IsCluster key l k h.4 (rw b at e) in
      let latest : d.cluster ≡ last = some-injective _ _ f in
      rw (b, ← latest) (ground (arith, r.1, h.1, r.0.count_pos, r.0.count_le))
]
