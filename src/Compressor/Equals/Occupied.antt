-- ===== src/Compressor/Equals/Occupied.antt =====
-- The sessions of a ledger that have clusters, as the comparison of two tables lists them.
use distributed_id_allocator.Common.{
  ℕ, zero, suc, ◌≡◌, refl, sym, ap, ◌∙◌, List, [], ◌∷◌, some, some-injective, false, arith,
  get_elem?, Sorted, if◌then◌else◌, Bool-cases, inl, inr, ◌⊎◌,
}
use distributed_id_allocator.Ids.Stable.{SessionId, session_eq, stable_lt}
use distributed_id_allocator.Tables.SessionSpace.{SessionSpace, ClusterRef, cluster_chain_is_empty}
use distributed_id_allocator.Tables.Equals.{insert_session, sort_sessions}
use distributed_id_allocator.Tables.Equals.Sorted.{In, All-In, In-All, insert_key, sort_keys}
use distributed_id_allocator.Ledger.{Ledger, chain_of}
use distributed_id_allocator.Ledger.Lays.{Refers}
use distributed_id_allocator.Ledger.Writes.{SessionId-eq}

module _ (l : Ledger) where
  abbrev pub space_of : SessionId → SessionSpace
  space_of key = record { cluster_chain = chain_of key l }

  abbrev pub occupied : List SessionId → List SessionId
  occupied [] = []
  occupied (k ∷ ks) =
      let rest = occupied ks in if cluster_chain_is_empty (space_of k) then rest else k ∷ rest

  abbrev pub with_spaces : List SessionId → List (SessionSpace × SessionId)
  with_spaces [] = []
  with_spaces (k ∷ ks) = (space_of k, k) ∷ with_spaces ks

  insert_session-insert_key :
      (k : SessionId) (ks : List SessionId)
      → insert_session (space_of k, k) (with_spaces ks) ≡ with_spaces (insert_key k ks)
  insert_session-insert_key k [] = refl
  insert_session-insert_key k (y ∷ ks) = elim (Bool-cases (stable_lt y.id k.id)) [
    | inl b ↦ rw b (ap (λ z. (space_of y, y) ∷ z) (insert_session-insert_key k ks))
    | inr b ↦ rw b refl
  ]

  pub sort_sessions-sort_keys :
      (ks : List SessionId) → sort_sessions (with_spaces ks) ≡ with_spaces (sort_keys ks)
  sort_sessions-sort_keys [] = refl
  sort_sessions-sort_keys (k ∷ ks) =
      ap (insert_session (space_of k, k)) (sort_sessions-sort_keys ks)
      ∙ insert_session-insert_key k (sort_keys ks)

  pub In-occupied :
      (k : SessionId) (ks : List SessionId)
      → In k (occupied ks)
      → In k ks × (cluster_chain_is_empty (space_of k) ≡ false)
  In-occupied k [] h = elim h [ ]
  In-occupied k (y ∷ ks) h = elim (Bool-cases (cluster_chain_is_empty (space_of y))) [
    | inl b ↦ let (q, n) = In-occupied k ks (rw b at h) in (inr q, n)
    | inr b ↦ elim (let h' : (k ≡ y) ⊎ In k (occupied ks) = rw b at h in h') [
      | inl e ↦ (inl e, ap (λ z. cluster_chain_is_empty (space_of z)) e ∙ b)
      | inr r ↦ let (q, n) = In-occupied k ks r in (inr q, n)
    ]
  ]

  pub occupied-In :
      (k : SessionId) (ks : List SessionId)
      → In k ks
      → cluster_chain_is_empty (space_of k) ≡ false
      → In k (occupied ks)
  occupied-In k [] h n = h
  occupied-In k (y ∷ ks) (inl e) n =
      let b = ap (λ z. cluster_chain_is_empty (space_of z)) (sym e) ∙ n in rw b (inl e)
  occupied-In k (y ∷ ks) (inr q) n = elim (Bool-cases (cluster_chain_is_empty (space_of y))) [
    | inl b ↦ rw b (occupied-In k ks q n)
    | inr b ↦ rw b (inr (occupied-In k ks q n))
  ]

  pub occupied-distinct :
      (ks : List SessionId)
      → Sorted (λ a b. session_eq a b ≡ false) ks
      → Sorted (λ a b. session_eq a b ≡ false) (occupied ks)
  occupied-distinct [] d = tt
  occupied-distinct (y ∷ ks) d = elim (Bool-cases (cluster_chain_is_empty (space_of y))) [
    | inl b ↦ rw b (occupied-distinct ks d.1)
    | inr b ↦ rw b (
      All-In (λ k. session_eq y k ≡ false) (occupied ks)
          (λ k q. In-All (λ z. session_eq y z ≡ false) ks k d.0 (In-occupied k ks q).0),
      occupied-distinct ks d.1,
    )
  ]

pub get_elem?-In : (ks : List SessionId) (i : ℕ) (k : SessionId) → get_elem? ks i ≡ some k → In k ks
get_elem?-In [] i k e = ground arith
get_elem?-In (x ∷ ks) zero k e = inl (sym (some-injective _ _ e))
get_elem?-In (x ∷ ks) (suc i) k e = inr (get_elem?-In ks i k e)

pub In-get_elem? :
    (ks : List SessionId) (k : SessionId) → In k ks → (i : ℕ) × (get_elem? ks i ≡ some k)
In-get_elem? [] k h = elim h [ ]
In-get_elem? (x ∷ ks) k (inl e) = (0, ap some (sym e))
In-get_elem? (x ∷ ks) k (inr q) = let (i, e) = In-get_elem? ks k q in (suc i, e)

-- A session with a cluster is known.
pub cluster-In :
    (ids : List SessionId) (k : SessionId) (l : Ledger) (refs : List ClusterRef)
    → Refers ids l refs
    → cluster_chain_is_empty (space_of l k) ≡ false
    → In k ids
unfolding cluster_chain_is_empty
cluster-In ids k [] refs r n = ground arith
cluster-In ids k (e ∷ l) refs (i, front, at, shape, rest) n =
    elim (Bool-cases (session_eq e.session k)) [
      | inl b ↦ get_elem?-In ids i k (at ∙ ap some (SessionId-eq e.session k b))
      | inr b ↦ cluster-In ids k l front rest (rw (chain_of, b) at n)
    ]
