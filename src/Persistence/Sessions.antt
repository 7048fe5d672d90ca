-- ===== src/Persistence/Sessions.antt =====
-- The loop over the sessions opens the ones whose identifiers were written, in their order.
use mathlib.Core.List.{append_assoc, append-nil}
use distributed_id_allocator.Common.{
  ℕ, zero, suc, ◌+◌, ◌^◌, ◌<◌, ◌≡◌, refl, sym, ap, ap₂, subst, ◌∙◌, List, [], ◌∷◌, ◌++◌, none, some,
  some-injective, Bool, true, false, not, ◌&&◌, done, ok, err, ◌>>=◌, arith, length, length-append,
  get_elem?, All, All-get, Sorted-front, Sorted-last, Option-cases, Bool-cases, inl, inr, ==-self,
}
use distributed_id_allocator.Bytes.{to_le_bytes}
use distributed_id_allocator.Bytes.RoundTrip.{take_one-to_le_bytes}
use distributed_id_allocator.Ids.Stable.{SessionId, session_eq}
use distributed_id_allocator.Tables.SessionSpace.{SessionSpaceRef}
use distributed_id_allocator.Tables.SessionMap.{map_get}
use distributed_id_allocator.Tables.Sessions.{Sessions, get_or_create}
use distributed_id_allocator.Tables.Sessions.Holds.{id_bytes, Holds}
use distributed_id_allocator.Tables.Sessions.Create.{ids_after, get_or_create_new}
use distributed_id_allocator.Ledger.Distinct.{IsDistinct}
use distributed_id_allocator.Ledger.Lays.{Lays}
use distributed_id_allocator.Ledger.Opens.{get_or_create-Lays}
use distributed_id_allocator.Compressor.{IdCompressor}
use distributed_id_allocator.Persistence.Read.{invalid_resumed_session, read_sessions}

-- The references from `n` on, one for each session.
abbrev pub refs_from : ℕ → List SessionId → List SessionSpaceRef
refs_from n [] = []
refs_from n (key ∷ ids) = record { index = n } ∷ refs_from (suc n) ids

pub get_elem?-refs_from :
    (n : ℕ) (ids : List SessionId) (i : ℕ) {key : SessionId}
    → get_elem? ids i ≡ some key
    → get_elem? (refs_from n ids) i ≡ some (record { index = n + i })
get_elem?-refs_from n [] i e = ground arith
get_elem?-refs_from n (x ∷ ids) zero e = ap (λ z. some (record { index = z })) (omega arith)
get_elem?-refs_from n (x ∷ ids) (suc i) e =
    get_elem?-refs_from (suc n) ids i e ∙ ap (λ z. some (record { index = z })) (omega arith)

-- A session that is not among those of the tables is not in the map.
map_get-none :
    (s : Sessions) (front : List SessionId) (key : SessionId)
    → Holds s front
    → IsDistinct (front ++ (key ∷ []))
    → map_get s.session_map key ≡ none
map_get-none s front key h d = elim (Option-cases (map_get s.session_map key)) [
  | inl e ↦ e
  | inr (r, e) ↦
      let apart =
        All-get (λ a. session_eq a key ≡ false) front r.index
          (Sorted-last (λ a b. session_eq a b ≡ false) front key d) (h.refers key r e) in
      absurd (let self : session_eq key key ≡ true = ==-self key.id.id in ground arith)
]

module _ (with_local : Bool) where
  -- One session's bytes.
  pub read_one_session :
      (n : ℕ) (key : SessionId) (acc : List SessionSpaceRef) (c : IdCompressor) (bytes : List ℕ)
      → key.id.id < 2 ^ 128
      → (not with_local && session_eq key c.session_id) ≡ false
      → read_sessions (suc n) with_local acc c (to_le_bytes 16 key.id.id ++ bytes)
        ≡ read_sessions n with_local
            (acc ++ ((get_or_create c.sessions key).0 ∷ []))
            (record c { sessions = (get_or_create c.sessions key).1 })
            bytes
  unfolding read_sessions
  read_one_session n key acc c bytes w o =
      rw (take_one-to_le_bytes 16 key.id.id bytes (omega (arith, w)), ◌>>=◌, o) refl

  pub read_sessions-id_bytes :
      (todo front : List SessionId) (acc : List SessionSpaceRef) (c : IdCompressor) (rest : List ℕ)
      → Lays c.sessions c.final_space front []
      → IsDistinct (front ++ todo)
      → All (λ key. key.id.id < 2 ^ 128) todo
      → All (λ key. (not with_local && session_eq key c.session_id) ≡ false) todo
      → (s : Sessions) × Lays s c.final_space (front ++ todo) []
        × (read_sessions (length todo) with_local acc c (id_bytes todo ++ rest)
            ≡ done (ok (acc ++ refs_from (length front) todo, record c { sessions = s }), rest))
  unfolding read_sessions
  read_sessions-id_bytes [] front acc c rest v d w o = (
    c.sessions,
    subst (λ z. Lays c.sessions c.final_space z []) (sym (append-nil front)) v,
    rw (append-nil acc) refl,
  )
  read_sessions-id_bytes (key ∷ todo) front acc c rest v d w o =
      let shift = append_assoc front (key ∷ []) todo in
      let d' : IsDistinct ((front ++ (key ∷ [])) ++ todo) = subst IsDistinct (sym shift) d in
      let new =
        map_get-none c.sessions front key v.tables
          (Sorted-front (λ a b. session_eq a b ≡ false) (front ++ (key ∷ [])) todo d') in
      let (r, created) = get_or_create c.sessions key in
      let v' : Lays created c.final_space (front ++ (key ∷ [])) [] =
        subst (λ z. Lays created c.final_space z []) (rw (ids_after, new) refl)
          (get_or_create-Lays c.sessions c.final_space front [] v key w.0) in
      let at : r ≡ record { index = length front } =
        ap (λ z. z.0) (get_or_create_new c.sessions front v.tables key new)
        ∙ ap (λ n. record { index = n }) v.tables.spaces in
      let n : length (front ++ (key ∷ [])) ≡ suc (length front) =
        omega (arith, length-append front (key ∷ [])) in
      let (s, u, runs) =
        read_sessions-id_bytes todo (front ++ (key ∷ [])) (acc ++ (r ∷ []))
          (record c { sessions = created }) rest v' d' w.1 o.1 in
      let refs : (acc ++ (r ∷ [])) ++ refs_from (length (front ++ (key ∷ []))) todo
          ≡ acc ++ refs_from (length front) (key ∷ todo) =
        append_assoc acc (r ∷ []) (refs_from (length (front ++ (key ∷ []))) todo)
        ∙ ap₂ (λ x m. acc ++ (x ∷ refs_from m todo)) at n in
      (
        s,
        subst (λ z. Lays s c.final_space z []) shift u,
        ap (λ b. read_sessions (suc (length todo)) with_local acc c b)
              (append_assoc (to_le_bytes 16 key.id.id) (id_bytes todo) rest)
            ∙ read_one_session (length todo) key acc c (id_bytes todo ++ rest) w.0 o.0
            ∙ runs
            ∙ ap (λ z. done (ok (z, record c { sessions = s }), rest)) refs,
      )

-- Without local state the loop stops at the compressor's own session.
pub read_sessions_own :
    (todo : List SessionId) (i : ℕ) (acc : List SessionSpaceRef) (c : IdCompressor) (rest : List ℕ)
    → All (λ key. key.id.id < 2 ^ 128) todo
    → get_elem? todo i ≡ some c.session_id
    → (left : List ℕ) × (read_sessions (length todo) false acc c (id_bytes todo ++ rest)
        ≡ done (err invalid_resumed_session, left))
unfolding read_sessions
read_sessions_own [] i acc c rest w e = ground arith
read_sessions_own (key ∷ todo) i acc c rest w e =
    let split = append_assoc (to_le_bytes 16 key.id.id) (id_bytes todo) rest in
    elim (Bool-cases (session_eq key c.session_id)) [
      | inl own ↦ (
        id_bytes todo ++ rest,
        rw
            (
              split,
              take_one-to_le_bytes 16 key.id.id (id_bytes todo ++ rest) (omega (arith, w.0)),
              ◌>>=◌,
              own,
            )
            refl,
      )
      | inr other ↦
          let (j, later) = past key todo i other e in
          let (left, stops) =
            read_sessions_own todo j (acc ++ ((get_or_create c.sessions key).0 ∷ []))
              (record c { sessions = (get_or_create c.sessions key).1 }) rest w.1 later in
          (
            left,
            ap (λ b. read_sessions (suc (length todo)) false acc c b) split
                ∙ read_one_session false (length todo) key acc c (id_bytes todo ++ rest) w.0 other
                ∙ stops,
          )
    ]
  where
    past :
        {own : SessionId} (key : SessionId) (todo : List SessionId) (i : ℕ)
        → session_eq key own ≡ false
        → get_elem? (key ∷ todo) i ≡ some own
        → (j : ℕ) × (get_elem? todo j ≡ some own)
    past {own} key todo zero apart e =
        let same : key ≡ own = some-injective _ _ e in
        absurd (
          let self : session_eq own own ≡ true = ==-self own.id.id in
          let no : session_eq own own ≡ false = ap (λ k. session_eq k own) (sym same) ∙ apart in
          ground arith)
    past key todo (suc j) apart e = (j, e)
