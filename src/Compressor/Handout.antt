-- ===== src/Compressor/Handout.antt =====
-- The IDs that a compressor has handed out: each generation has one session space ID, and a new ID
-- leaves the others as they are.
use distributed_id_allocator.Common.{
  ℕ, ◌+◌, ◌^◌, ◌≤◌, ◌<◌, ◌≡◌, refl, Option, none, some, true, false, done, if◌then◌else◌, arith,
  get_last?, Option-cases, inl, inr, ◌==◌,
}
use native.Mathlib.Decide.{dec_lt}
use distributed_id_allocator.Ids.Local.{to_generation_count, from_generation_count}
use distributed_id_allocator.Ids.Space.{SessionSpaceId, session_from_local, session_from_final}
use distributed_id_allocator.Tables.SessionSpace.{IdCluster, SessionSpace}
use distributed_id_allocator.Tables.SessionSpace.Chain.{next_generation}
use distributed_id_allocator.Tables.SessionSpace.End.{
  chain_end, chain_end-none, chain_end_beyond, chain_end-get_last?, find_interval-get_last?,
}
use distributed_id_allocator.Tables.SessionSpace.Lookup.{cluster_of_local}
use distributed_id_allocator.Tables.SessionSpace.Align.{final_of_local, final_beside}
use distributed_id_allocator.Tables.Normalizer.Contains.{covers_below}
use distributed_id_allocator.Compressor.{IdCompressor}
use distributed_id_allocator.Compressor.Allocate.{generate_next_id}
use distributed_id_allocator.Compressor.OwnSession.{IsOwn, IsSameTables, handed_local}
use distributed_id_allocator.Compressor.Generate.{
  new_local, new_local_lem, begun, after_local, after_final, handed_after_local, after_local-IsOwn,
  after_final-IsOwn, generate_local, generate_final,
}

-- The session space ID of a generation, in its most local form.
unfoldable pub id_of_generation : IdCompressor → SessionSpace → ℕ → Option SessionSpaceId
id_of_generation c space g =
    let l = from_generation_count g in
    if handed_local c g
    then some (session_from_local l)
    else elim (final_of_local l (cluster_of_local true l space.cluster_chain)) [
      | none ↦ none
      | some f ↦ some (session_from_final f)
    ]

-- The final ID of a generation that one of the session's clusters holds, or else its local ID.
abbrev pub eager_id : SessionSpace → ℕ → SessionSpaceId
eager_id space g =
    let l = from_generation_count g in
    elim (final_of_local l (cluster_of_local true l space.cluster_chain)) [
      | none ↦ session_from_local l
      | some f ↦ session_from_final f
    ]

-- What `generate_next_id` does to the state: `id` is the ID of the next generation.
pub record Generates (c : IdCompressor) (space : SessionSpace) (id : SessionSpaceId)
    (c' : IdCompressor) : Type 0 where
  pub returns : generate_next_id c ≡ done (id, c')
  pub gives : id ≡ eager_id space (c.generated_id_count + 1)
  pub counts : c'.generated_id_count ≡ c.generated_id_count + 1
  pub keeps_base : c'.next_range_base_generation_count ≡ c.next_range_base_generation_count
  pub keeps : IsOwn c' space
  pub tables : IsSameTables c c'
  pub hands_out :
      (h : ℕ)
      → id_of_generation c' space h
        ≡ (if h == c.generated_id_count + 1 then some id else id_of_generation c space h)

module _ (c : IdCompressor) (space : SessionSpace) (v : IsOwn c space)
    (room : c.generated_id_count + 1 < 2 ^ 63) where
  beyond :
      chain_end 1 space.cluster_chain ≤ c.generated_id_count + 1
      → cluster_of_local true (new_local c space v room) space.cluster_chain ≡ none
  beyond past =
      let l = new_local_lem c space v room in
      chain_end_beyond 1 0 (to_generation_count (new_local c space v room)) space.cluster_chain
        v.chain (omega (arith, l.1, past))

  local_Generates :
      chain_end 1 space.cluster_chain ≤ c.generated_id_count + 1
      → Generates c space
          (session_from_local (new_local c space v room))
          (after_local c space v room)
  unfolding id_of_generation
  local_Generates past = record {
    returns = generate_local c space v room past;
    gives = rw (eager_id, beyond past) refl;
    counts = refl;
    keeps_base = refl;
    keeps = after_local-IsOwn c space v room;
    tables = record {
      session = refl;
      session_ref = refl;
      limit = refl;
      size = refl;
      sessions = refl;
      final_space = refl;
    };
    hands_out = λ h. ground (arith, handed_after_local c space v room h);
  }

  not_local : handed_local c (c.generated_id_count + 1) ≡ false
  not_local =
      covers_below (c.generated_id_count + 1) (c.generated_id_count + 1)
        c.session_space_normalizer.leading_locals (omega arith) v.normalized.below

  in_last :
      (t : IdCluster)
      → get_last? space.cluster_chain ≡ some t
      → c.generated_id_count + 1 < next_generation t
      → cluster_of_local true (new_local c space v room) space.cluster_chain ≡ some t
  in_last t e fits =
      let l = new_local_lem c space v room in
      find_interval-get_last? 1 0 (to_generation_count (new_local c space v room))
        space.cluster_chain v.chain e (omega (arith, l.1, begun c space v room t e))
        (omega (arith, l.1))

  final_id :
      (t : IdCluster)
      → get_last? space.cluster_chain ≡ some t
      → c.generated_id_count + 1 < next_generation t
      → id_of_generation c space (c.generated_id_count + 1)
        ≡ some (session_from_final (final_beside (new_local c space v room) t))
  unfolding id_of_generation
  final_id t e fits = rw (not_local, in_last t e fits) refl

  final_hands_out :
      (t : IdCluster)
      → get_last? space.cluster_chain ≡ some t
      → c.generated_id_count + 1 < next_generation t
      → (h : ℕ)
      → id_of_generation c space h ≡ (
          if h == c.generated_id_count + 1
          then some (session_from_final (final_beside (new_local c space v room) t))
          else id_of_generation c space h)
  final_hands_out t e fits h = ground (arith, final_id t e fits)

  final_Generates :
      (t : IdCluster)
      → get_last? space.cluster_chain ≡ some t
      → c.generated_id_count + 1 < next_generation t
      → Generates c space
          (session_from_final (final_beside (new_local c space v room) t))
          (after_final c space v room)
  unfolding id_of_generation
  final_Generates t e fits = record {
    returns = generate_final c space v room t e fits;
    gives = rw (eager_id, in_last t e fits) refl;
    tables = record {
      session = refl;
      session_ref = refl;
      limit = refl;
      size = refl;
      sessions = refl;
      final_space = refl;
    };
    counts = refl;
    keeps_base = refl;
    keeps =
        after_final-IsOwn c space v room
          (omega (arith, fits, chain_end-get_last? 1 space.cluster_chain e));
    hands_out = λ h. final_hands_out t e fits h;
  }

  -- On a compressor whose own state is valid and that has room for one more generation below 2 ^
  -- 63, `generate_next_id` returns (it does not panic); the count goes up by one, the own state
  -- stays valid, and the ID of each generation is as before, but that the new generation gets the
  -- ID returned. That ID is the final ID beside the new generation if one of the session's
  -- clusters holds it, or else its local ID.
  pub generate_next_id-Generates :
      (id : SessionSpaceId) × (c' : IdCompressor) × Generates c space id c'
  generate_next_id-Generates = elim (Option-cases (get_last? space.cluster_chain)) [
    | inl e ↦ (_, _, local_Generates (omega (arith, chain_end-none 1 space.cluster_chain e)))
    | inr (t, e) ↦ elim (dec_lt (c.generated_id_count + 1) (next_generation t)) [
      | yes fits ↦ (_, _, final_Generates t e fits)
      | no past ↦
          (_, _, local_Generates (omega (arith, chain_end-get_last? 1 space.cluster_chain e)))
    ]
  ]
