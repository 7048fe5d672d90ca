-- ===== src/Persistence/Remaps.antt =====
-- How the sessions that were written are found again through the references that were read.
use mathlib.Core.List.{append-nil}
use distributed_id_allocator.Common.{
  ℕ, zero, suc, ◌+◌, ◌^◌, ◌≤◌, ◌<◌, ◌≡◌, refl, sym, ap, ap₂, ◌∙◌, List, [], ◌∷◌, ◌++◌, none, some,
  some-injective, Bool, true, false, done, arith, length, length-append, get_elem?, get_elem?_lt,
  All, All-imp, ◌==◌, ==-true, ==-self, Option-cases, Bool-cases, inl, inr,
}
use distributed_id_allocator.Word.{sub_u64}
use distributed_id_allocator.Bytes.{to_le_bytes}
use distributed_id_allocator.Bytes.RoundTrip.{take_one-to_le_bytes}
use distributed_id_allocator.Ids.Local.Generations.{generation_bounds}
use distributed_id_allocator.Ids.Stable.{SessionId, session_eq}
use distributed_id_allocator.Tables.SessionSpace.{IdCluster, ClusterRef}
use distributed_id_allocator.Tables.Sessions.{Sessions}
use distributed_id_allocator.Tables.FinalSpace.{FinalSpace}
use distributed_id_allocator.Ledger.{Ledger, tail_of, end_final, head_cluster, IsLedger}
use distributed_id_allocator.Ledger.Chains.{get_last?-chain_of}
use distributed_id_allocator.Ledger.Order.{tail_of-IsCluster}
use distributed_id_allocator.Ledger.Lays.{Lays, final_tail_cluster-head_cluster}
use distributed_id_allocator.Compressor.{IdCompressor}
use distributed_id_allocator.Compressor.Finalize.{limit_after}
use distributed_id_allocator.Compressor.OwnSession.{IsOwn}
use distributed_id_allocator.Compressor.Network.{space_in}
use distributed_id_allocator.Compressor.Shares.{Shares, limit_of}
use distributed_id_allocator.Persistence.Write.{session_count_delta_of}
use distributed_id_allocator.Persistence.Read.{read_clusters, read_finalized}
use distributed_id_allocator.Persistence.Listed.{Listed, listed}
use distributed_id_allocator.Persistence.Clusters.{IsNarrow, encode_clusters}
use distributed_id_allocator.Persistence.Rebuilt.{
  IsRemapped, with_tables, read_clusters-encode_clusters,
}
use distributed_id_allocator.Ledger.Distinct.{All-from}
use distributed_id_allocator.Persistence.Sessions.{refs_from, get_elem?-refs_from}
use distributed_id_allocator.Persistence.Encodes.{written, is_narrow, is_narrow-IsNarrow}

-- A session without a latest cluster has none at all.
tail_of-none :
    (key : SessionId) (l : Ledger)
    → tail_of key l ≡ none
    → All (λ e. session_eq e.session key ≡ false) l
tail_of-none key [] n = tt
tail_of-none key (e ∷ l) n = elim (Bool-cases (session_eq e.session key)) [
  | inl b ↦ absurd (let clash : some e.cluster ≡ none = rw (tail_of, b) at n in ground arith)
  | inr b ↦ (b, tail_of-none key l (rw (tail_of, b) at n))
]

-- Each cluster has a final ID.
length-Listed :
    (ids : List SessionId) (l : Ledger) (ps : List (IdCluster × ClusterRef))
    → IsLedger l
    → Listed ids l ps
    → length ps ≤ end_final l
length-Listed ids [] ps h e = omega (arith, ap length e)
length-Listed ids (d ∷ l) ps h (i, front, at, shape, rest) = omega (
  arith,
  ap length shape,
  length-append front (listed d i l ∷ []),
  length-Listed ids l front h.4 rest,
  h.1,
  h.0.count_pos,
  h.0.count_le,
)

end_small : (l : Ledger) → IsLedger l → end_final l < 2 ^ 64
end_small [] h = omega arith
end_small (e ∷ l) h = omega (arith, h.0.final_fits)

limit_after-head_cluster :
    (l : Ledger) → IsLedger l → limit_after (record { id = 0 }) (head_cluster l) ≡ limit_of l
limit_after-head_cluster [] h = refl
limit_after-head_cluster (e ∷ l) h =
    ap (λ n. record { id = n }) (omega (arith, h.0.final_fits, h.0.count_le))

module _ (c : IdCompressor) (others : List SessionId) (l : Ledger)
    (v : Shares c (c.session_id ∷ others) l) (own : IsOwn c (space_in c l)) where
  -- Without a generated ID the own session has no cluster.
  fresh-tail_of : c.generated_id_count ≡ 0 → tail_of c.session_id l ≡ none
  fresh-tail_of g = elim (Option-cases (tail_of c.session_id l)) [
    | inl n ↦ n
    | inr (t, n) ↦
        let (valid, _) = tail_of-IsCluster c.session_id l t v.ledger n in
        let taken = own.finalized_le t (get_last?-chain_of c.session_id l ∙ n) in
        absurd (
          omega (
            arith,
            taken,
            own.next_le,
            g,
            valid.count_pos,
            (generation_bounds t.base_local_id valid.base_IsLocal).0,
          ))
  ]

  -- Whether the session is among those written.
  abbrev pub IsWritten : SessionId → Type 0
  IsWritten key = (c.generated_id_count == 0) ≡ true → session_eq key c.session_id ≡ false

  pub entries-IsWritten : All (λ e. IsWritten e.session) l
  entries-IsWritten = elim (Bool-cases (c.generated_id_count == 0)) [
    | inl b ↦
        All-imp l (λ e apart _. apart)
          (tail_of-none c.session_id l (fresh-tail_of (==-true c.generated_id_count 0 b)))
    | inr b ↦
        All-from (λ e. IsWritten e.session) l
          (λ i e _ same. absurd (let clash : true ≡ false = sym same ∙ b in ground arith))
  ]

  module _ (few : length others < 2 ^ 32) where
    -- A session's place among those written.
    pub place :
        (key : SessionId) (i : ℕ)
        → IsWritten key
        → get_elem? (c.session_id ∷ others) i ≡ some key
        → (get_elem? (written c others l v) (sub_u64 i (session_count_delta_of c)) ≡ some key)
          × (sub_u64 i (session_count_delta_of c) < 2 ^ 32)
    place key i w e = elim (Bool-cases (c.generated_id_count == 0)) [
      | inl b ↦ rw b (first i (w b) e)
      | inr b ↦
          let lt = get_elem?_lt (c.session_id ∷ others) i e in
          let same : sub_u64 i 0 ≡ i = omega (arith, lt, few) in
          rw (b, same) (e, omega (arith, lt, few))
    ]
      where
        first :
            (i : ℕ)
            → session_eq key c.session_id ≡ false
            → get_elem? (c.session_id ∷ others) i ≡ some key
            → (get_elem? others (sub_u64 i 1) ≡ some key) × (sub_u64 i 1 < 2 ^ 32)
        first zero apart e =
            let same : c.session_id ≡ key = some-injective _ _ e in
            absurd (
              let self : session_eq key key ≡ true = ==-self key.id.id in
              let no : session_eq key key ≡ false = ap (session_eq key) (sym same) ∙ apart in
              ground arith)
        first (suc i) apart e =
            let lt = get_elem?_lt others i e in
            let same : sub_u64 (suc i) 1 ≡ i = omega (arith, lt, few) in
            rw same (e, omega (arith, lt, few))

    -- The references that were read, the first of them `n`, lead to the sessions `ids`.
    module _ (narrow : Bool) (n : ℕ) (ids : List SessionId)
        (shift : (j : ℕ) → get_elem? ids (n + j) ≡ get_elem? (written c others l v) j) where
      refs_from-IsRemapped :
          (key : SessionId)
          → IsWritten key
          → IsRemapped narrow
              (session_count_delta_of c)
              (refs_from n (written c others l v))
              (c.session_id ∷ others)
              ids
              key
      refs_from-IsRemapped key w i e =
          let (at, small) = place key i w e in
          let j = sub_u64 i (session_count_delta_of c) in
          (
            narrow_index narrow j small,
            n + j,
            get_elem?-refs_from n (written c others l v) j at,
            shift j ∙ at,
          )
        where
          narrow_index : (narrow : Bool) (j : ℕ) → j < 2 ^ 32 → IsNarrow narrow j
          narrow_index true j h = h
          narrow_index false j h = omega (arith, h)

    -- What follows the sessions is read back into the tables.
    pub read_finalized-encode_clusters :
        (n : ℕ) (ids : List SessionId)
        → ((j : ℕ) → get_elem? ids (n + j) ≡ get_elem? (written c others l v) j)
        → (ps : List (IdCluster × ClusterRef)) → Listed (c.session_id ∷ others) l ps
        → (d : IdCompressor) → Lays d.sessions d.final_space ids []
        → (s : Sessions) × (f : FinalSpace) × Lays s f ids l
          × (read_finalized (is_narrow l) (refs_from n (written c others l v)) d (
                to_le_bytes 8 (length ps)
                ++ encode_clusters (is_narrow l) (session_count_delta_of c) ps)
              ≡ done (record (with_tables d s f) { final_id_limit = limit_of l }))
    unfolding read_finalized read_clusters
    read_finalized-encode_clusters n ids shift ps listed_all d empty =
        let code = encode_clusters (is_narrow l) (session_count_delta_of c) ps in
        let fits = is_narrow-IsNarrow l v.ledger in
        let (s, f, u, runs) =
          read_clusters-encode_clusters (is_narrow l) (session_count_delta_of c)
            (refs_from n (written c others l v)) (c.session_id ∷ others) ids d empty l ps v.ledger
            fits listed_all
            (All-imp l (λ e. refs_from-IsRemapped (is_narrow l) n ids shift e.session)
              entries-IsWritten)
            0 [] in
        let all : read_clusters (length ps) (is_narrow l) (refs_from n (written c others l v))
              (record { id = 0 }) d code
            ≡ done (with_tables d s f, []) =
          ap₂
            (λ m b.
              read_clusters m (is_narrow l) (refs_from n (written c others l v)) (record { id = 0 })
                d b)
            (omega arith) (sym (append-nil code))
          ∙ runs in
        (
          s,
          f,
          u,
          rw
              (
                take_one-to_le_bytes 8 (length ps) code (
                    omega (
                      arith,
                      length-Listed (c.session_id ∷ others) l ps v.ledger listed_all,
                      end_small l v.ledger,
                    )),
                all,
                final_tail_cluster-head_cluster s f ids l u,
              )
              (ap (λ z. done (record (with_tables d s f) { final_id_limit = z }))
                (limit_after-head_cluster l v.ledger)),
        )
