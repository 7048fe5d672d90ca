-- ===== src/Ledger/Opens.antt =====
-- `get_or_create` opens a session without a change of the ledger.
use distributed_id_allocator.Common.{
  ℕ, ◌^◌, ◌<◌, ◌≡◌, refl, sym, ap, subst, ◌∙◌, List, [], ◌∷◌, ◌++◌, none, some, some-injective,
  arith, length, length-append, get_elem?, get_elem?-append_left, get_elem?-append_length,
  get_elem?_lt, Bool-cases, Option-cases, inl, inr,
}
use native.Mathlib.Decide.{dec_lt}
use distributed_id_allocator.Ids.Stable.{SessionId, session_eq}
use distributed_id_allocator.Tables.SessionSpace.{ClusterRef, new_session_space}
use distributed_id_allocator.Tables.SessionMap.{map_get}
use distributed_id_allocator.Tables.Sessions.{Sessions, get_or_create}
use distributed_id_allocator.Tables.Sessions.Holds.{Holds}
use distributed_id_allocator.Tables.Sessions.Create.{
  ids_after, get_or_create_known, get_or_create_new, get_or_create-Holds,
}
use distributed_id_allocator.Tables.FinalSpace.{FinalSpace}
use distributed_id_allocator.Ledger.{Ledger, chain_of}
use distributed_id_allocator.Ledger.Lays.{Refers, Lays}
use distributed_id_allocator.Ledger.Writes.{SessionId-eq}

-- The references stay when sessions are added behind.
Refers-append :
    (ids more : List SessionId) (m : Ledger) (refs : List ClusterRef)
    → Refers ids m refs
    → Refers (ids ++ more) m refs
Refers-append ids more [] refs h = h
Refers-append ids more (d ∷ m) refs h =
    let (n, front, at, shape, rest) = h in
    (
      n,
      front,
      get_elem?-append_left ids more n (get_elem?_lt ids n at) ∙ at,
      shape,
      Refers-append ids more m front rest,
    )

module _ (s : Sessions) (f : FinalSpace) (ids : List SessionId) (l : Ledger) (v : Lays s f ids l)
    (key : SessionId) where
  -- A session that is not in the tables has no cluster.
  unknown-chain_of :
      map_get s.session_map key ≡ none
      → (m : Ledger) (refs : List ClusterRef) → Refers ids m refs
      → chain_of key m ≡ []
  unknown-chain_of e [] refs h = refl
  unknown-chain_of e (d ∷ m) refs h =
      let (n, front, at, shape, rest) = h in
      elim (Bool-cases (session_eq d.session key)) [
        | inl b ↦
            let found = v.tables.known d.session n at in
            let clash : none ≡ some _ =
              sym e ∙ ap (map_get s.session_map) (sym (SessionId-eq d.session key b)) ∙ found in
            absurd (cc)
        | inr b ↦ rw (chain_of, b) (unknown-chain_of e m front rest)
      ]

  new_spaces :
      map_get s.session_map key ≡ none
      → (j : ℕ) (other : SessionId) → get_elem? (ids ++ (key ∷ [])) j ≡ some other
      → get_elem? (s.session_list ++ (new_session_space ∷ [])) j
        ≡ some (record { cluster_chain = chain_of other l })
  new_spaces e j other f = elim (dec_lt j (length ids)) [
    | yes p ↦
        let old = sym (get_elem?-append_left ids (key ∷ []) j p) ∙ f in
        get_elem?-append_left s.session_list (new_session_space ∷ []) j
          (omega (arith, p, v.tables.spaces))
        ∙ v.spaces j other old
    | no p ↦
        let last : j ≡ length ids =
          omega (arith, get_elem?_lt (ids ++ (key ∷ [])) j f, length-append ids (key ∷ [])) in
        let same : key ≡ other =
          some-injective _ _ (sym (get_elem?-append_length ids key) ∙ (rw last at f)) in
        rw (last, ← v.tables.spaces, get_elem?-append_length s.session_list new_session_space)
          (ap (λ c. some (record { cluster_chain = c }))
            (sym (unknown-chain_of e l _ v.clusters) ∙ ap (λ z. chain_of z l) same))
  ]

  pub get_or_create-Lays :
      key.id.id < 2 ^ 128 → Lays (get_or_create s key).1 f (ids_after s ids key) l
  get_or_create-Lays w = elim (Option-cases (map_get s.session_map key)) [
    | inl e ↦
        rw (ids_after, e)
          (record {
            tables =
                subst (λ i. Holds (get_or_create s key).1 i) (rw (ids_after, e) refl)
                  (get_or_create-Holds s ids v.tables key w);
            spaces = rw (get_or_create_new s ids v.tables key e) (new_spaces e);
            clusters = Refers-append ids (key ∷ []) l _ v.clusters;
          })
    | inr (r, e) ↦ rw (get_or_create_known s ids v.tables key e, ids_after, e) v
  ]
