-- ===== src/Persistence/Resumed.antt =====
-- A compressor that was serialized without its local state, deserialized in another session.
use distributed_id_allocator.Common.{
  ℕ, ◌^◌, ◌<◌, ◌≡◌, refl, sym, ap, ◌∙◌, List, [], ◌∷◌, ◌++◌, none, some, false, done, ok, err,
  arith, length, get_elem?, get_last?, All, All-get,
}
use distributed_id_allocator.Bytes.{to_le_bytes}
use distributed_id_allocator.Ids.Stable.{SessionId, UuidCrate, session_eq}
use distributed_id_allocator.Ids.Local.{to_generation_count}
use distributed_id_allocator.Tables.SessionSpace.{ClusterRef}
use distributed_id_allocator.Tables.SessionMap.{map_get}
use distributed_id_allocator.Tables.Sessions.{get_or_create, deref_session_space}
use distributed_id_allocator.Tables.Sessions.Holds.{id_bytes}
use distributed_id_allocator.Ledger.{Ledger, chain_of}
use distributed_id_allocator.Ledger.Lays.{Refers}
use distributed_id_allocator.Ledger.Sessions.{chain_of-IsChain}
use distributed_id_allocator.Compressor.{IdCompressor, new_with_session_id}
use distributed_id_allocator.Compressor.OwnSession.{IsOwn}
use distributed_id_allocator.Compressor.Network.{space_in}
use distributed_id_allocator.Compressor.Shares.{Shares, limit_of}
use distributed_id_allocator.Compressor.Deliver.{new_with_session_id-Shares}
use distributed_id_allocator.Persistence.Write.{serialize, session_count_delta_of}
use distributed_id_allocator.Persistence.Read.{invalid_resumed_session, read_local, deserialize}
use distributed_id_allocator.Persistence.Listed.{get_clusters-Listed}
use distributed_id_allocator.Persistence.Clusters.{encode_clusters}
use distributed_id_allocator.Persistence.Sessions.{refs_from, read_sessions_own}
use distributed_id_allocator.Persistence.Encodes.{
  written, written_few, is_narrow, serialize-without_local,
}
use distributed_id_allocator.Persistence.Opened.{fresh-IsOpened, written_wide}
use distributed_id_allocator.Persistence.Remaps.{
  IsWritten, entries-IsWritten, place, read_finalized-encode_clusters,
}
use distributed_id_allocator.Persistence.Reads.{deserialize_lem, deserialize_refused}

chain_of-apart :
    (key : SessionId) (l : Ledger)
    → All (λ e. session_eq e.session key ≡ false) l
    → chain_of key l ≡ []
chain_of-apart key [] a = refl
chain_of-apart key (e ∷ l) a = rw (chain_of, a.0) (chain_of-apart key l a.1)

-- The compressor `d` is in the new session, which did not generate an ID, and shares the ledger.
pub record Resumes (session_id : SessionId) (c : IdCompressor) (ids : List SessionId) (l : Ledger)
    (d : IdCompressor) : Type 0 where
  pub session : d.session_id ≡ session_id
  pub generated : d.generated_id_count ≡ 0
  pub capacity : d.cluster_capacity ≡ c.cluster_capacity
  pub shares : Shares d (session_id ∷ ids) l
  pub own : IsOwn d (space_in d l)

module _ (crate : UuidCrate) (make_session_id : SessionId) (c : IdCompressor)
    (others : List SessionId) (l : Ledger) (v : Shares c (c.session_id ∷ others) l)
    (own : IsOwn c (space_in c l)) (few : length others < 2 ^ 32)
    (size : c.cluster_capacity < 2 ^ 64) where
  module _
      (apart : All (λ other. session_eq make_session_id other ≡ false) (written c others l v)) where
    entries_apart :
        (m : Ledger) (refs : List ClusterRef)
        → Refers (c.session_id ∷ others) m refs
        → All (λ e. IsWritten c others l v own e.session) m
        → All (λ e. session_eq e.session make_session_id ≡ false) m
    entries_apart [] refs r w = tt
    entries_apart (e ∷ m) refs (i, front, at, shape, rest) w =
        let (there, _) = place c others l v own few e.session i w.0 at in
        let ne =
          All-get (λ other. session_eq make_session_id other ≡ false) (written c others l v) _ apart
            there in
        (ground (arith, ne), entries_apart m front rest w.1)

    empty_chain : chain_of make_session_id l ≡ []
    empty_chain = chain_of-apart make_session_id l (
        entries_apart l c.final_space.clusters v.lays.clusters (entries-IsWritten c others l v own))

    -- On a compressor that shares a ledger with its own session first, whose own state is valid,
    -- with a cluster capacity below 2 ^ 64 and fewer than 2 ^ 32 other sessions, `serialize`
    -- without the local state returns bytes that `deserialize` takes for a new session, one with
    -- an identifier below 2 ^ 128 that is not among the sessions written: the compressor read is
    -- of the new session, generated nothing, has the same cluster capacity, shares the same ledger
    -- with the new session first and the written ones after it, and its own state is valid. The
    -- sessions written are all that the compressor knows, without its own if it generated nothing.
    pub deserialize-serialize_without_local :
        make_session_id.id.id < 2 ^ 128
        → (bytes : List ℕ) × (d : IdCompressor) × (serialize c false ≡ done bytes)
          × (deserialize crate make_session_id bytes ≡ done (ok d))
          × Resumes make_session_id c (written c others l v) l d
    unfolding new_with_session_id get_or_create map_get read_local deref_session_space
        to_generation_count
    deserialize-serialize_without_local wide =
        let (ps, e, listed, n) =
          get_clusters-Listed c.sessions c.final_space (c.session_id ∷ others) l v.lays in
        let start = new_with_session_id make_session_id in
        let sized = record start { cluster_capacity = c.cluster_capacity } in
        let tail =
          to_le_bytes 8 (length ps)
          ++ encode_clusters (is_narrow l) (session_count_delta_of c) ps in
        let opened =
          fresh-IsOpened c others l v make_session_id sized tail refl
            (new_with_session_id-Shares make_session_id wide).lays apart in
        let (s, f, lays, closed) =
          read_finalized-encode_clusters c others l v own few opened.n
            (make_session_id ∷ written c others l v) opened.shift ps listed
            (record sized { sessions = opened.sessions }) opened.lays in
        let d = record sized { sessions = s; final_space = f; final_id_limit = limit_of l } in
        (
          _,
          d,
          serialize-without_local c others l v few ps e n,
          deserialize_lem crate make_session_id false l _ (id_bytes (written c others l v)) tail
              start (record sized { sessions = opened.sessions }) d c.cluster_capacity
              (length (written c others l v)) (refs_from opened.n (written c others l v)) size
              (written_few c others l v few) refl opened.runs closed,
          record {
            session = refl;
            generated = refl;
            capacity = refl;
            shares = record { lays = lays; ledger = v.ledger; own = refl; limit = refl };
            own = record {
              own_space = rw (lays.spaces 0 make_session_id refl) refl;
              chain = chain_of-IsChain make_session_id l v.ledger;
              normalized = record { ranges = tt; sorted = tt; below = tt };
              generated_fits = omega arith;
              next_pos = omega arith;
              next_le = omega arith;
              finalized_le = λ t q.
                  absurd (let clash : none ≡ some t = ap get_last? (sym empty_chain) ∙ q in cc);
              eager = λ g p q. omega arith;
            };
          },
        )

  -- On a compressor that shares a ledger with its own session first, whose own state is valid,
  -- with a cluster capacity below 2 ^ 64 and fewer than 2 ^ 32 other sessions, `serialize` without
  -- the local state returns bytes that `deserialize` refuses with InvalidResumedSession if the
  -- session made for the new compressor is any of the sessions written.
  pub deserialize_resumed :
      (i : ℕ)
      → get_elem? (written c others l v) i ≡ some make_session_id
      → (bytes : List ℕ) × (serialize c false ≡ done bytes)
        × (deserialize crate make_session_id bytes ≡ done (err invalid_resumed_session))
  unfolding new_with_session_id read_local
  deserialize_resumed i e =
      let (ps, all, listed, n) =
        get_clusters-Listed c.sessions c.final_space (c.session_id ∷ others) l v.lays in
      let start = new_with_session_id make_session_id in
      let tail =
        to_le_bytes 8 (length ps) ++ encode_clusters (is_narrow l) (session_count_delta_of c) ps in
      let (left, stops) =
        read_sessions_own (written c others l v) i []
          (record start { cluster_capacity = c.cluster_capacity }) tail (written_wide c others l v)
          e in
      (
        _,
        serialize-without_local c others l v few ps all n,
        deserialize_refused crate make_session_id false l _
            (id_bytes (written c others l v) ++ tail) left start c.cluster_capacity
            (length (written c others l v)) invalid_resumed_session size
            (written_few c others l v few) refl stops,
      )
