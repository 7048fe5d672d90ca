-- ===== src/Compressor/Equals/Shared.antt =====
-- Two compressors that share a ledger are equal for `equals_test_only`.
use distributed_id_allocator.Common.{
  ℕ, suc, ◌+◌, ◌≡◌, refl, sym, ap, ap₂, ◌∙◌, List, [], ◌∷◌, some, some-injective, Bool, true, false,
  not, ◌&&◌, done, arith, length, length-append, get_elem?, All, ==-self, ◌==◌, Bool-cases, inl,
  inr,
}
use distributed_id_allocator.Ids.Stable.{SessionId, session_eq}
use distributed_id_allocator.Ids.Final.{final_eq}
use distributed_id_allocator.Tables.SessionSpace.{SessionSpace, ClusterRef, cluster_chain_is_empty}
use distributed_id_allocator.Tables.Sessions.{Sessions}
use distributed_id_allocator.Tables.Sessions.Holds.{get_session_id_lem}
use distributed_id_allocator.Tables.FinalSpace.{FinalSpace}
use distributed_id_allocator.Tables.Equals.{
  filtered_from, get_sorted_sessions, contains_key, compare_sorted, sessions_equals_test_only,
  ref_equals_test_only, refs_equal, final_equals_test_only, normalizer_eq,
}
use distributed_id_allocator.Tables.Equals.Sorted.{
  In, All-In, sort_keys, In-sort_keys, sort_keys-same,
}
use distributed_id_allocator.Ledger.{Ledger, chain_of}
use distributed_id_allocator.Ledger.Lays.{ref_to, Refers, Lays}
use distributed_id_allocator.Compressor.{IdCompressor}
use distributed_id_allocator.Compressor.Shares.{Shares, IsSameLocal}
use distributed_id_allocator.Compressor.Equals.{equals_test_only, local_state_equals}
use distributed_id_allocator.Compressor.Equals.Occupied.{
  space_of, occupied, with_spaces, sort_sessions-sort_keys, In-occupied, occupied-In,
  occupied-distinct, In-get_elem?, cluster-In,
}
use distributed_id_allocator.Ledger.Distinct.{Holds-IsDistinct}
use distributed_id_allocator.Compressor.Equals.Parts.{
  chain_eq_self, ranges_eq_self, refs_equal-snoc,
}

module _ (s : Sessions) (f : FinalSpace) (ids : List SessionId) (l : Ledger)
    (v : Lays s f ids l) where
  filtered_from-occupied :
      (i : ℕ) (spaces : List SessionSpace) (keys : List SessionId)
      → length spaces ≡ length keys
      → ((j : ℕ) (key : SessionId)
          → get_elem? keys j ≡ some key
          → get_elem? spaces j ≡ some (space_of l key))
      → ((j : ℕ) (key : SessionId) → get_elem? keys j ≡ some key → get_elem? ids (i + j) ≡ some key)
      → filtered_from s i spaces ≡ done (with_spaces l (occupied l keys))
  unfolding filtered_from
  filtered_from-occupied i [] [] n spaces places = refl
  filtered_from-occupied i [] (_ ∷ _) n spaces places = absurd (ground arith)
  filtered_from-occupied i (_ ∷ _) [] n spaces places = absurd (ground arith)
  filtered_from-occupied i (space ∷ rest) (key ∷ keys) n spaces places =
      let here : space ≡ space_of l key = some-injective _ _ (spaces 0 key refl) in
      let at : get_elem? ids i ≡ some key =
        ap (get_elem? ids) (let z : i ≡ i + 0 = omega arith in z) ∙ places 0 key refl in
      let later =
        filtered_from-occupied (suc i) rest keys (omega (arith, n)) (λ j k e. spaces (suc j) k e)
          (λ j k e.
            ap (get_elem? ids) (let z : suc i + j ≡ i + suc j = omega arith in z)
            ∙ places (suc j) k e) in
      elim (Bool-cases (cluster_chain_is_empty (space_of l key))) [
        | inl b ↦ rw (here, filtered_from, b) later
        | inr b ↦
            rw
              (
                here,
                filtered_from,
                b,
                get_session_id_lem s ids v.tables (record { index = i }) key at,
                later,
              )
              (ap (λ z. done ((z, key) ∷ with_spaces l (occupied l keys))) here)
      ]

  sorted_lem : get_sorted_sessions s ≡ done (with_spaces l (sort_keys (occupied l ids)))
  unfolding get_sorted_sessions
  sorted_lem =
      rw
        (filtered_from-occupied 0 s.session_list ids v.tables.spaces v.spaces
          (λ j key e. ap (get_elem? ids) (omega arith) ∙ e))
        (ap done (sort_sessions-sort_keys l (occupied l ids)))

  known_key : (k : SessionId) → In k ids → contains_key s.session_map k ≡ true
  known_key k q = let (i, e) = In-get_elem? ids k q in rw (contains_key, v.tables.known k i e) refl

compare_sorted_self :
    (a b : Sessions) (l : Ledger) (ks : List SessionId)
    → All (λ k. (contains_key a.session_map k ≡ true) × (contains_key b.session_map k ≡ true)) ks
    → compare_sorted a b (with_spaces l ks) (with_spaces l ks) ≡ true
unfolding compare_sorted
compare_sorted_self a b l [] h = refl
compare_sorted_self a b l (k ∷ ks) h =
    let self : session_eq k k ≡ true = ==-self k.id.id in
    rw (compare_sorted, self, chain_eq_self (chain_of k l), h.0.0, h.0.1)
      (compare_sorted_self a b l ks h.1)

module _ (c d : IdCompressor) (ids js : List SessionId) (l : Ledger) (v : Shares c ids l)
    (w : Shares d js l) where
  same_keys : sort_keys (occupied l ids) ≡ sort_keys (occupied l js)
  same_keys =
      sort_keys-same (occupied l ids) (occupied l js)
        (occupied-distinct l ids (Holds-IsDistinct v.lays.tables))
        (occupied-distinct l js (Holds-IsDistinct w.lays.tables))
        (λ k q.
          let n = (In-occupied l k ids q).1 in
          occupied-In l k js (cluster-In js k l d.final_space.clusters w.lays.clusters n) n)
        (λ k q.
          let n = (In-occupied l k js q).1 in
          occupied-In l k ids (cluster-In ids k l c.final_space.clusters v.lays.clusters n) n)

  both_known :
      All
        (λ k.
          (contains_key c.sessions.session_map k ≡ true)
          × (contains_key d.sessions.session_map k ≡ true))
        (sort_keys (occupied l ids))
  both_known = All-In _ (sort_keys (occupied l ids)) (λ k q.
      let (there, n) = In-occupied l k ids (In-sort_keys k (occupied l ids) q) in
      (
        known_key c.sessions c.final_space ids l v.lays k there,
        known_key d.sessions d.final_space js l w.lays k
            (cluster-In js k l d.final_space.clusters w.lays.clusters n),
      ))

  sessions_equal : sessions_equals_test_only c.sessions d.sessions ≡ done true
  unfolding sessions_equals_test_only
  sessions_equal =
      rw
        (
          sorted_lem c.sessions c.final_space ids l v.lays,
          sorted_lem d.sessions d.final_space js l w.lays,
          ← same_keys,
        )
        (ap done
          (compare_sorted_self c.sessions d.sessions l (sort_keys (occupied l ids)) both_known))

  refs_equal-Refers :
      (m : Ledger) (refs others : List ClusterRef)
      → Refers ids m refs
      → Refers js m others
      → (length refs ≡ length others) × (refs_equal refs others c.sessions d.sessions ≡ done true)
  unfolding refs_equal ref_equals_test_only
  refs_equal-Refers [] refs others r q = (ap length r ∙ ap length (sym q), rw r refl)
  refs_equal-Refers (e ∷ m) refs others (i, front, at, shape, rest)
        (j, front', at', shape', rest') =
      let (n, same) = refs_equal-Refers m front front' rest rest' in
      let x = ref_to i (length (chain_of e.session m)) in
      let y = ref_to j (length (chain_of e.session m)) in
      let self : session_eq e.session e.session ≡ true = ==-self e.session.id.id in
      let place : (length (chain_of e.session m) == length (chain_of e.session m)) ≡ true =
        ==-self (length (chain_of e.session m)) in
      let last : ref_equals_test_only x y c.sessions d.sessions ≡ done true =
        rw
          (
            get_session_id_lem c.sessions ids v.lays.tables (record { index = i }) e.session at,
            get_session_id_lem d.sessions js w.lays.tables (record { index = j }) e.session at',
            self,
            place,
          )
          refl in
      (
        omega (
          arith,
          ap length shape,
          ap length shape',
          length-append front (x ∷ []),
          length-append front' (y ∷ []),
          n,
        ),
        ap₂ (λ p q. refs_equal p q c.sessions d.sessions) shape shape'
            ∙ refs_equal-snoc front front' x y c.sessions d.sessions n same last,
      )

  finals_equal :
      final_equals_test_only c.final_space d.final_space c.sessions d.sessions ≡ done true
  unfolding final_equals_test_only
  finals_equal =
      let (n, same) =
        refs_equal-Refers l c.final_space.clusters d.final_space.clusters v.lays.clusters
          w.lays.clusters in
      let one : (length c.final_space.clusters == length d.final_space.clusters) ≡ true =
        ap (λ z. z == length d.final_space.clusters) n ∙ ==-self (length d.final_space.clusters) in
      rw (one) same

  module _ (size : d.cluster_capacity ≡ c.cluster_capacity) where
    compared :
        (local : Bool)
        → (local && not (local_state_equals c d)) ≡ false
        → equals_test_only c d local ≡ done true
    unfolding equals_test_only
    compared local h =
        let limits : final_eq c.final_id_limit d.final_id_limit ≡ true =
          ground (arith, ap (λ z. z.id) (v.limit ∙ sym w.limit)) in
        let sizes : (c.cluster_capacity == d.cluster_capacity) ≡ true = ground (arith, size) in
        rw (limits, sessions_equal, finals_equal, sizes) (ap (λ z. done (not z)) h)

    -- For any two compressors that share a ledger, whatever their sessions and the other sessions
    -- that they know, and that have the same cluster capacity, `equals_test_only` without the
    -- local state answers true; it does not panic.
    pub equals_test_only-Shares : equals_test_only c d false ≡ done true
    equals_test_only-Shares = compared false refl

  local_equal : IsSameLocal c d → local_state_equals c d ≡ true
  unfolding local_state_equals normalizer_eq
  local_equal same =
      let sessions : session_eq c.session_id d.session_id ≡ true =
        ap (session_eq c.session_id) same.session ∙ ==-self c.session_id.id.id in
      let counts : (c.generated_id_count == d.generated_id_count) ≡ true =
        ap (λ z. c.generated_id_count == z) same.generated ∙ ==-self c.generated_id_count in
      let bases : (c.next_range_base_generation_count == d.next_range_base_generation_count)
          ≡ true =
        ap (λ z. c.next_range_base_generation_count == z) same.next_base
        ∙ ==-self c.next_range_base_generation_count in
      let normalizers : normalizer_eq c.session_space_normalizer d.session_space_normalizer ≡ true =
        ap (normalizer_eq c.session_space_normalizer) same.normalizer
        ∙ ranges_eq_self c.session_space_normalizer.leading_locals in
      rw (sessions, counts, bases, normalizers) refl

  pub equals_test_only-IsSameLocal : IsSameLocal c d → equals_test_only c d true ≡ done true
  equals_test_only-IsSameLocal same = compared same.size true (ap not (local_equal same))
