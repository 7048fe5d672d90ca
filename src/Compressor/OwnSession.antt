-- ===== src/Compressor/OwnSession.antt =====
-- What a compressor keeps about its own session, between the operations.
use distributed_id_allocator.Common.{ℕ, ◌+◌, ◌^◌, ◌≤◌, ◌<◌, ◌≡◌, some, Bool, false, done, get_last?}
use distributed_id_allocator.Tables.SessionSpace.{IdCluster, SessionSpace}
use distributed_id_allocator.Tables.SessionSpace.Chain.{IsChain, base_generation}
use distributed_id_allocator.Tables.SessionSpace.End.{chain_end}
use distributed_id_allocator.Tables.Sessions.{deref_session_space}
use distributed_id_allocator.Tables.Normalizer.Contains.{IsNormalized, covers}
use distributed_id_allocator.Compressor.{IdCompressor}

-- Whether the generation was handed out as a local ID.
abbrev pub handed_local : IdCompressor → ℕ → Bool
handed_local c g = covers c.session_space_normalizer.leading_locals g

-- `space` is the compressor's own session space.
pub record IsOwn (c : IdCompressor) (space : SessionSpace) : Type 0 where
  pub own_space : deref_session_space c.sessions c.local_session_ref ≡ done space
  pub chain : IsChain 1 0 space.cluster_chain
  pub normalized : IsNormalized (c.generated_id_count + 1) c.session_space_normalizer
  pub generated_fits : c.generated_id_count < 2 ^ 63
  -- The next range begins at a generation that was not taken yet.
  pub next_pos : 1 ≤ c.next_range_base_generation_count
  pub next_le : c.next_range_base_generation_count ≤ c.generated_id_count + 1
  -- Only what was taken is finalized.
  pub finalized_le :
      (t : IdCluster)
      → get_last? space.cluster_chain ≡ some t
      → base_generation t + t.count ≤ c.next_range_base_generation_count
  -- What was not handed out as a local ID was handed out as a final ID of a cluster.
  pub eager :
      (g : ℕ)
      → 1 ≤ g
      → g ≤ c.generated_id_count
      → handed_local c g ≡ false
      → g < chain_end 1 space.cluster_chain

-- The two compressors have the same tables, limit and session.
pub record IsSameTables (c d : IdCompressor) : Type 0 where
  pub session : d.session_id ≡ c.session_id
  pub session_ref : d.local_session_ref ≡ c.local_session_ref
  pub limit : d.final_id_limit ≡ c.final_id_limit
  pub size : d.cluster_capacity ≡ c.cluster_capacity
  pub sessions : d.sessions ≡ c.sessions
  pub final_space : d.final_space ≡ c.final_space
