-- ===== src/Ledger/Growth.antt =====
-- What a range does to the chains of a ledger: its session's grows, the others stay.
use distributed_id_allocator.Common.{
  ℕ, ◌+◌, ◌-◌, ◌^◌, ◌≤◌, ◌≡◌, refl, sym, ap, subst, ◌∙◌, List, [], ◌∷◌, ◌++◌, none, some,
  some-injective, true, false, leb, ◌==◌, ==-true, ==-self, arith, get_last?, get_last?-Snoc,
  get_last?-cons_some, Option-cases, Bool-cases, inl, inr, ◌⊎◌,
}
use distributed_id_allocator.Ids.Stable.{SessionId, session_eq}
use distributed_id_allocator.Tables.SessionSpace.{IdCluster}
use distributed_id_allocator.Tables.SessionSpace.Chain.{base_generation, next_generation}
use distributed_id_allocator.Tables.SessionSpace.Grown.{
  IsGrown, IsWithin, IsGrown-append, IsGrown-snoc,
}
use distributed_id_allocator.Ledger.{
  Ledger, chain_of, tail_of, update_tail, is_head, end_final, end_generation, IsLedger, new_cluster,
  extend, finalize_ledger,
}
use distributed_id_allocator.Ledger.Chains.{
  get_last?-chain_of, chain_of-update_tail, chain_of-update_tail_ne,
}
use distributed_id_allocator.Ledger.Update.{tail_of-update_tail}

-- Another latest cluster, at the same place and not smaller.
update_tail-IsGrown :
    (key : SessionId) (k k' : IdCluster) (l : Ledger)
    → tail_of key l ≡ some k
    → IsWithin k k'
    → IsGrown (chain_of key l) (chain_of key (update_tail key k' l))
update_tail-IsGrown key k k' l e w =
    let s = get_last?-Snoc (chain_of key l) k (get_last?-chain_of key l ∙ e) in
    subst (λ m. IsGrown (chain_of key l) m) (sym (chain_of-update_tail key k' l e ∙ s.write k'))
      (subst (λ m. IsGrown m (s.front ++ (k' ∷ []))) (sym s.shape) (IsGrown-snoc s.front k k' w))

-- What a range of `key` does to that session's chain.
extend-IsGrown :
    (size : ℕ) (l : Ledger) (key : SessionId) (k : IdCluster) (len : ℕ)
    → tail_of key l ≡ some k
    → IsGrown (chain_of key l) (chain_of key (extend size l key k len))
extend-IsGrown size l key k len e = elim (Bool-cases (leb (k.count + len) k.capacity)) [
  | inl a ↦
      rw (extend, a)
        (update_tail-IsGrown key k _ l e
          (record { locals = refl; finals = refl; capacity = omega arith }))
  | inr a ↦ elim (Bool-cases (is_head key l)) [
    | inl b ↦
        rw (extend, a, b)
          (update_tail-IsGrown key k _ l e
            (record { locals = refl; finals = refl; capacity = ground arith }))
    | inr b ↦
        let self : session_eq key key ≡ true = ==-self key.id.id in
        rw (extend, a, b, self)
          (IsGrown-append (chain_of key l)
            (chain_of key (update_tail key (record k { count = k.capacity }) l)) _
            (update_tail-IsGrown key k (record k { count = k.capacity }) l e
              (record { locals = refl; finals = refl; capacity = omega arith })))
  ]
]

-- The other sessions' chains stay.
extend_ne :
    (size : ℕ) (l : Ledger) (key other : SessionId) (k : IdCluster) (len : ℕ)
    → session_eq key other ≡ false
    → chain_of other (extend size l key k len) ≡ chain_of other l
extend_ne size l key other k len ne = elim (Bool-cases (leb (k.count + len) k.capacity)) [
  | inl a ↦ rw (extend, a) (chain_of-update_tail_ne key _ other l ne)
  | inr a ↦ elim (Bool-cases (is_head key l)) [
    | inl b ↦ rw (extend, a, b) (chain_of-update_tail_ne key _ other l ne)
    | inr b ↦ rw (extend, a, b, ne) (chain_of-update_tail_ne key _ other l ne)
  ]
]

chain_of-none : (key : SessionId) (l : Ledger) → tail_of key l ≡ none → chain_of key l ≡ []
chain_of-none key l e = go (chain_of key l) (get_last?-chain_of key l ∙ e)
  where
    go : (ks : List IdCluster) → get_last? ks ≡ none → ks ≡ []
    go [] q = refl
    go (k ∷ ks) q =
        let (t, r) = get_last?-cons_some k ks in
        absurd (let clash : none ≡ some t = sym q ∙ r in cc)

-- Where the session's chain ends with `len` more IDs.
extend_end :
    (size : ℕ) (l : Ledger) (key : SessionId) (k : IdCluster) (len : ℕ)
    → tail_of key l ≡ some k
    → IsLedger (extend size l key k len)
    → (k' : IdCluster) × (tail_of key (extend size l key k len) ≡ some k')
      × (base_generation k' + k'.count ≡ base_generation k + k.count + len)
extend_end size l key k len e h = elim (Bool-cases (leb (k.count + len) k.capacity)) [
  | inl a ↦
      let k' = record k { count = k.count + len } in
      (k', rw (extend, a) (tail_of-update_tail key k k' l e), omega arith)
  | inr a ↦ elim (Bool-cases (is_head key l)) [
    | inl b ↦
        let k' = record k { capacity = k.count + len + size; count = k.count + len } in
        (k', rw (extend, a, b) (tail_of-update_tail key k k' l e), omega arith)
    | inr b ↦
        let self : session_eq key key ≡ true = ==-self key.id.id in
        let full = tail_of-update_tail key k (record k { count = k.capacity }) l e in
        let v = (rw (extend, a, b) at h).2 ∙ ap end_generation full in
        (
          new_cluster (end_final l) (next_generation k) (k.count + len - k.capacity + size)
              (k.count + len - k.capacity),
          rw (extend, a, b, self) refl,
          ground (arith, v, a),
        )
  ]
]

-- The two ways in which a ledger takes a range.
finalize_ledger-cases :
    (size : ℕ) (l m : Ledger) (key : SessionId) (base len : ℕ)
    → finalize_ledger size l key base len ≡ some m
    → ((tail_of key l ≡ none)
        × (base ≡ 1)
        × (m
            ≡ record { session = key; cluster = new_cluster (end_final l) 1 (size + len) len } ∷ l))
      ⊎ ((k : IdCluster) × (tail_of key l ≡ some k)
          × (base ≡ base_generation k + k.count)
          × (m ≡ extend size l key k len))
finalize_ledger-cases size l m key base len f = elim (Option-cases (tail_of key l)) [
  | inl e ↦ elim (Bool-cases (base == 1)) [
    | inl b ↦ inl (e, ==-true base 1 b, sym (some-injective _ _ (rw (finalize_ledger, e, b) at f)))
    | inr b ↦ let g : none ≡ some m = rw (finalize_ledger, e, b) at f in absurd (cc)
  ]
  | inr (k, e) ↦ elim (Bool-cases (base == base_generation k + k.count)) [
    | inl b ↦ inr (
      k,
      e,
      ==-true base (base_generation k + k.count) b,
      sym (some-injective _ _ (rw (finalize_ledger, e, b) at f)),
    )
    | inr b ↦ let g : none ≡ some m = rw (finalize_ledger, e, b) at f in absurd (cc)
  ]
]

module _ (size : ℕ) (l m : Ledger) (key : SessionId) (base len : ℕ)
    (f : finalize_ledger size l key base len ≡ some m) where
  -- A range of another session leaves the chain.
  pub finalize_ledger_ne :
      (other : SessionId) → session_eq key other ≡ false → chain_of other m ≡ chain_of other l
  finalize_ledger_ne other ne = elim (finalize_ledger-cases size l m key base len f) [
    | inl (e, b, is) ↦ rw (is, chain_of, ne) refl
    | inr (k, e, b, is) ↦ rw (is) (extend_ne size l key other k len ne)
  ]

  -- A range of the session lets its chain grow.
  pub finalize_ledger-IsGrown : IsGrown (chain_of key l) (chain_of key m)
  finalize_ledger-IsGrown = elim (finalize_ledger-cases size l m key base len f) [
    | inl (e, b, is) ↦
        let empty : chain_of key l ≡ [] = chain_of-none key l e in
        subst (λ c. IsGrown c (chain_of key m)) (sym empty) tt
    | inr (k, e, b, is) ↦
        subst (λ n. IsGrown (chain_of key l) (chain_of key n)) (sym is)
          (extend-IsGrown size l key k len e)
  ]

  -- The range is what the session's chain ends with.
  pub finalize_ledger_end :
      IsLedger m
      → 1 ≤ base
      → base + len ≤ 2 ^ 63
      → (k : IdCluster) × (tail_of key m ≡ some k) × (base_generation k + k.count ≡ base + len)
  finalize_ledger_end h lo room = elim (finalize_ledger-cases size l m key base len f) [
    | inl (e, b, is) ↦
        let self : session_eq key key ≡ true = ==-self key.id.id in
        let v : base_generation (new_cluster (end_final l) 1 (size + len) len) ≡ 1 =
          (subst IsLedger is h).2 ∙ ap end_generation e in
        (
          new_cluster (end_final l) 1 (size + len) len,
          rw (is, tail_of, self) refl,
          omega (arith, v, b),
        )
    | inr (k, e, b, is) ↦
        let (k', t, g) = extend_end size l key k len e (subst IsLedger is h) in
        (k', ap (tail_of key) is ∙ t, omega (arith, g, b))
  ]
