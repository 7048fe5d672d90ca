-- ===== src/Tables/Sessions/Create.antt =====
-- `get_or_create` keeps the tables of `Sessions` in agreement.
use distributed_id_allocator.Common.{
  ℕ, ◌^◌, ◌<◌, ◌≡◌, refl, sym, ap, ◌∙◌, List, [], ◌∷◌, ◌++◌, none, some, length, length-append,
  get_elem?, get_elem?_lt, get_elem?-append_left, get_elem?-append_length, All-append, arith,
  Option-cases, Bool-cases, inl, inr,
}
use distributed_id_allocator.Bytes.{to_le_bytes}
use distributed_id_allocator.Ids.Stable.{SessionId, session_eq}
use distributed_id_allocator.Tables.SessionSpace.{SessionSpaceRef, new_session_space}
use distributed_id_allocator.Tables.SessionMap.{map_get, map_insert}
use distributed_id_allocator.Tables.SessionMap.Order.{map_get-map_insert, map_insert-IsAscending}
use distributed_id_allocator.Tables.Sessions.{Sessions, get_or_create}
use native.Mathlib.Decide.{dec_lt}
use distributed_id_allocator.Common.{some-injective, true, false}
use distributed_id_allocator.Tables.Sessions.Holds.{id_bytes-append, Holds}

-- The sessions after `get_or_create`: a new one is the last.
abbrev pub ids_after : Sessions → List SessionId → SessionId → List SessionId
ids_after s ids key = elim (map_get s.session_map key) [ some _ ↦ ids | none ↦ ids ++ (key ∷ []) ]

module _ (s : Sessions) (ids : List SessionId) (h : Holds s ids) (key : SessionId) where
  -- A session that is there is only looked up.
  pub get_or_create_known :
      {r : SessionSpaceRef} → map_get s.session_map key ≡ some r → get_or_create s key ≡ (r, s)
  unfolding get_or_create
  get_or_create_known e = rw (e, get_or_create) refl

  abbrev new_ref : SessionSpaceRef
  new_ref = record { index = length s.session_list }

  abbrev created : Sessions
  created = record {
    session_map = map_insert s.session_map key new_ref;
    session_list = s.session_list ++ (new_session_space ∷ []);
    session_ids = s.session_ids ++ to_le_bytes 16 key.id.id;
  }

  pub get_or_create_new :
      map_get s.session_map key ≡ none → get_or_create s key ≡ (new_ref, created)
  unfolding get_or_create
  get_or_create_new e = rw (e, get_or_create) refl

  -- A key that the map holds is not one that it lacks.
  known-ne :
      (j : SessionId) {r : SessionSpaceRef}
      → map_get s.session_map key ≡ none
      → map_get s.session_map j ≡ some r
      → session_eq key j ≡ false
  known-ne j e f = elim (Bool-cases (session_eq key j)) [
    | inr b ↦ b
    | inl b ↦
        let same : key ≡ j = ground arith in
        absurd (let clash : none ≡ some _ = sym e ∙ ap (map_get s.session_map) same ∙ f in cc)
  ]

  created-refers :
      map_get s.session_map key ≡ none
      → (j : SessionId) (r : SessionSpaceRef) → map_get created.session_map j ≡ some r
      → get_elem? (ids ++ (key ∷ [])) r.index ≡ some j
  created-refers e j r p =
      let q = sym (map_get-map_insert s.session_map key new_ref j e) ∙ p in
      elim (Bool-cases (session_eq key j)) [
        | inl b ↦
            let same : new_ref ≡ r = some-injective _ _ (rw b at q) in
            let key≡j : key ≡ j = ground arith in
            rw (← same, h.spaces, get_elem?-append_length ids key) (ap some key≡j)
        | inr b ↦
            let old = h.refers j r (rw b at q) in
            rw (get_elem?-append_left ids (key ∷ []) r.index (get_elem?_lt ids r.index old)) old
      ]

  created-known :
      map_get s.session_map key ≡ none
      → (j : SessionId) (i : ℕ) → get_elem? (ids ++ (key ∷ [])) i ≡ some j
      → map_get created.session_map j ≡ some (record { index = i })
  created-known e j i p = elim (dec_lt i (length ids)) [
    | yes q ↦
        let old = h.known j i (rw (get_elem?-append_left ids (key ∷ []) i q) at p) in
        let j≢key = known-ne j e old in
        rw (map_get-map_insert s.session_map key new_ref j e, j≢key) old
    | no q ↦
        let last : i ≡ length ids =
          omega (arith, get_elem?_lt (ids ++ (key ∷ [])) i p, length-append ids (key ∷ [])) in
        let same : key ≡ j =
          some-injective _ _ (sym (get_elem?-append_length ids key) ∙ (rw last at p)) in
        let refl_test : session_eq key j ≡ true = ground arith in
        rw (map_get-map_insert s.session_map key new_ref j e, refl_test)
          (ap (λ n. some (record { index = n })) (h.spaces ∙ sym last))
  ]

  created-Holds :
      key.id.id < 2 ^ 128 → map_get s.session_map key ≡ none → Holds created (ids ++ (key ∷ []))
  created-Holds w e = record {
    bytes = ap (λ t. t ++ to_le_bytes 16 key.id.id) h.bytes ∙ sym (id_bytes-append ids key);
    spaces = omega (
      arith,
      h.spaces,
      length-append s.session_list (new_session_space ∷ []),
      length-append ids (key ∷ []),
    );
    wide = All-append (λ i. i.id.id < 2 ^ 128) ids (key ∷ []) h.wide (w, tt);
    ascending = map_insert-IsAscending s.session_map key new_ref e h.ascending;
    refers = created-refers e;
    known = created-known e;
  }

  -- If the list of session spaces, the bytes of the identifiers and the map hold the same
  -- sessions, they do so after `get_or_create` of an identifier below 2 ^ 128, with the session
  -- added at the end if it was not there.
  pub get_or_create-Holds :
      key.id.id < 2 ^ 128 → Holds (get_or_create s key).1 (ids_after s ids key)
  get_or_create-Holds w = elim (Option-cases (map_get s.session_map key)) [
    | inl e ↦ rw (get_or_create_new e, e, ids_after) (created-Holds w e)
    | inr (r, e) ↦ rw (get_or_create_known e, e, ids_after) h
  ]

  -- If the tables of the sessions agree, the reference that `get_or_create` returns is the place
  -- of the session asked for among the sessions afterwards.
  pub get_or_create_ref : get_elem? (ids_after s ids key) (get_or_create s key).0.index ≡ some key
  get_or_create_ref = elim (Option-cases (map_get s.session_map key)) [
    | inl e ↦ rw (get_or_create_new e, e, ids_after, h.spaces) (get_elem?-append_length ids key)
    | inr (r, e) ↦ rw (get_or_create_known e, e, ids_after) (h.refers key r e)
  ]
