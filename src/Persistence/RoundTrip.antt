-- ===== src/Persistence/RoundTrip.antt =====
-- A compressor that was serialized with its local state is deserialized.
use distributed_id_allocator.Common.{
  ℕ, ◌+◌, ◌^◌, ◌≤◌, ◌<◌, ◌≡◌, refl, sym, ap, ◌∙◌, List, ◌∷◌, ◌++◌, some, true, done, ok, arith,
  length,
}
use distributed_id_allocator.Bytes.{to_le_bytes}
use distributed_id_allocator.Ids.Stable.{SessionId, UuidCrate}
use distributed_id_allocator.Tables.SessionSpace.{IdCluster}
use distributed_id_allocator.Tables.SessionSpace.Grown.{IsGrown-refl}
use distributed_id_allocator.Tables.SessionMap.{map_get}
use distributed_id_allocator.Tables.Sessions.{get_or_create}
use distributed_id_allocator.Tables.Sessions.Holds.{id_bytes}
use distributed_id_allocator.Ledger.{Ledger, chain_of, tail_of}
use distributed_id_allocator.Ledger.Chains.{get_last?-chain_of}
use distributed_id_allocator.Compressor.{IdCompressor, new_with_session_id}
use distributed_id_allocator.Compressor.OwnSession.{IsOwn}
use distributed_id_allocator.Compressor.Handout.{id_of_generation}
use distributed_id_allocator.Compressor.Network.{space_in, finalized-IsOwn, finalized-keeps}
use distributed_id_allocator.Compressor.Shares.{IsSameLocal, Shares, limit_of}
use distributed_id_allocator.Compressor.Equals.{equals_test_only}
use distributed_id_allocator.Compressor.Equals.Shared.{equals_test_only-IsSameLocal}
use distributed_id_allocator.Compressor.Deliver.{new_with_session_id-Shares}
use distributed_id_allocator.Persistence.Ranges.RoundTrip.{
  deserialize_normalizer-serialize_normalizer,
}
use distributed_id_allocator.Persistence.Write.{serialize, session_count_delta_of}
use distributed_id_allocator.Persistence.Read.{deserialize}
use distributed_id_allocator.Persistence.Listed.{get_clusters-Listed}
use distributed_id_allocator.Persistence.Clusters.{encode_clusters}
use distributed_id_allocator.Persistence.Sessions.{refs_from}
use distributed_id_allocator.Persistence.Encodes.{
  written, written_few, is_narrow, encode_finalized, serialize-with_local,
}
use distributed_id_allocator.Persistence.Opened.{local-IsOpened}
use distributed_id_allocator.Persistence.Remaps.{read_finalized-encode_clusters}
use distributed_id_allocator.Persistence.Reads.{deserialize_lem, read_local-written}

-- The numbers of the compressor fit in the width in which they are written.
pub record IsWritable (c : IdCompressor) (others : List SessionId) : Type 0 where
  pub few_sessions : length others < 2 ^ 32
  pub few_ranges : length c.session_space_normalizer.leading_locals < 2 ^ 64
  pub session_fits : c.session_id.id.id < 2 ^ 122
  pub capacity_fits : c.cluster_capacity < 2 ^ 64

-- The compressor `d` is `c` again, but for the telemetry: it has the same local state, knows the
-- same sessions in the same order, shares the same ledger, and has handed out the same IDs.
pub record Restores (c : IdCompressor) (others : List SessionId) (l : Ledger) (d : IdCompressor)
    : Type 0 where
  pub same : IsSameLocal c d
  pub shares : Shares d (c.session_id ∷ others) l
  pub own : IsOwn d (space_in d l)
  pub keeps :
      (g : ℕ)
      → 1 ≤ g
      → g ≤ c.generated_id_count
      → id_of_generation d (space_in d l) g ≡ id_of_generation c (space_in c l) g

module _ (crate : UuidCrate) (make_session_id : SessionId) (c : IdCompressor)
    (others : List SessionId) (l : Ledger) (v : Shares c (c.session_id ∷ others) l)
    (own : IsOwn c (space_in c l)) (first : c.local_session_ref.index ≡ 0)
    (fits : IsWritable c others) where
  restored :
      (d : IdCompressor)
      → IsSameLocal c d
      → Shares d (c.session_id ∷ others) l
      → Restores c others l d
  restored d same shares =
      let grown = IsGrown-refl (chain_of c.session_id l) in
      let within = λ (t : IdCluster) (e : tail_of c.session_id l ≡ some t).
        own.finalized_le t (get_last?-chain_of c.session_id l ∙ e) in
      record {
        same = same;
        shares = shares;
        own = finalized-IsOwn c d (c.session_id ∷ others) l l own shares v.ledger same grown within;
        keeps =
            finalized-keeps c d (c.session_id ∷ others) l l own shares v.ledger same grown within;
      }

  -- On a compressor that shares a ledger with its own session first, whose own state is valid and
  -- whose numbers fit the written form (a session identifier below 2 ^ 122, a cluster capacity
  -- below 2 ^ 64, fewer than 2 ^ 32 other sessions and fewer than 2 ^ 64 ranges in the
  -- normalizer), `serialize` with the local state returns bytes that `deserialize` takes, whatever
  -- the generator of session IDs would make: the compressor read has the same session, generated
  -- count, next range's base, cluster capacity and normalizer, shares the same ledger with the
  -- same sessions in the same order, its own state is valid, and each generation keeps its session
  -- space ID.
  pub deserialize-serialize :
      (bytes : List ℕ) × (d : IdCompressor) × (serialize c true ≡ done bytes)
      × (deserialize crate make_session_id bytes ≡ done (ok d))
      × Restores c others l d
  unfolding new_with_session_id get_or_create map_get
  deserialize-serialize =
      let (ps, e, listed, n) =
        get_clusters-Listed c.sessions c.final_space (c.session_id ∷ others) l v.lays in
      let (code, writes, reads) =
        deserialize_normalizer-serialize_normalizer (c.generated_id_count + 1)
          c.session_space_normalizer own.normalized fits.few_ranges in
      let start = record (new_with_session_id c.session_id) {
        generated_id_count = c.generated_id_count;
        next_range_base_generation_count = c.next_range_base_generation_count;
        session_space_normalizer = c.session_space_normalizer;
      } in
      let sized = record start { cluster_capacity = c.cluster_capacity } in
      let tail =
        to_le_bytes 8 (length ps) ++ encode_clusters (is_narrow l) (session_count_delta_of c) ps in
      let opened =
        local-IsOpened c others l v sized tail
          (new_with_session_id-Shares c.session_id v.lays.tables.wide.0).lays in
      let (s, f, lays, closed) =
        read_finalized-encode_clusters c others l v own fits.few_sessions opened.n
          (c.session_id ∷ others) opened.shift ps listed
          (record sized { sessions = opened.sessions }) opened.lays in
      let d = record sized { sessions = s; final_space = f; final_id_limit = limit_of l } in
      (
        _,
        d,
        serialize-with_local c others l v fits.few_sessions ps e n code writes,
        deserialize_lem crate make_session_id true l _ (id_bytes (written c others l v)) tail start
            (record sized { sessions = opened.sessions }) d c.cluster_capacity
            (length (written c others l v)) (refs_from opened.n (written c others l v))
            fits.capacity_fits (written_few c others l v fits.few_sessions)
            (read_local-written crate make_session_id c.session_id c.generated_id_count
              c.next_range_base_generation_count c.session_space_normalizer code
              (encode_finalized c others l v (is_narrow l) ps) fits.session_fits
              (omega (arith, own.generated_fits)) (omega (arith, own.generated_fits, own.next_le))
              (reads (encode_finalized c others l v (is_narrow l) ps)))
            opened.runs closed,
        restored d
            (record {
              session = refl;
              session_ref = ap (λ n. record { index = n }) (sym first);
              generated = refl;
              next_base = refl;
              size = refl;
              normalizer = refl;
            })
            (record { lays = lays; ledger = v.ledger; own = refl; limit = refl }),
      )

  -- On a compressor that shares a ledger with its own session first, whose own state is valid and
  -- whose numbers fit the written form, `serialize` with the local state returns bytes that
  -- `deserialize` takes, and `equals_test_only` answers true for the compressor and the one read,
  -- with the local state compared.
  pub serialize-equals_test_only :
      (bytes : List ℕ) × (d : IdCompressor) × (serialize c true ≡ done bytes)
      × (deserialize crate make_session_id bytes ≡ done (ok d))
      × (equals_test_only c d true ≡ done true)
  serialize-equals_test_only =
      let (bytes, d, writes, reads, restores) = deserialize-serialize in
      let ids = c.session_id ∷ others in
      (
        bytes,
        d,
        writes,
        reads,
        equals_test_only-IsSameLocal c d ids ids l v restores.shares restores.same,
      )
