-- ===== src/Compressor/Shares.antt =====
-- A compressor whose tables lay out a ledger, and what no finalization touches.
use distributed_id_allocator.Common.{
  refl, ◌∙◌, ◌+◌, ◌≡◌, ap, List, [], ◌∷◌, some, done, ok, arith, get_elem?,
}
use distributed_id_allocator.Tables.FinalSpace.{FinalSpace}
use distributed_id_allocator.Tables.Sessions.{Sessions}
use distributed_id_allocator.Ids.Final.{FinalId}
use distributed_id_allocator.Ids.Stable.{SessionId}
use distributed_id_allocator.Tables.SessionSpace.Chain.{IsCluster, base_final}
use distributed_id_allocator.Ledger.{Entry, Ledger, IsLedger}
use distributed_id_allocator.Ledger.Lays.{Lays, final_tail_cluster-head_cluster}
use distributed_id_allocator.Compressor.{IdCompressor, TelemetryStats}
use distributed_id_allocator.Compressor.Finalize.{update_limit}

-- One past the finalized IDs of the latest cluster.
abbrev pub limit_of : Ledger → FinalId
limit_of [] = record { id = 0 }
limit_of (e ∷ l) = record { id = base_final e.cluster + e.cluster.count }

-- The compressor knows the sessions `ids` and shares the ledger `l`.
pub record Shares (c : IdCompressor) (ids : List SessionId) (l : Ledger) : Type 0 where
  pub lays : Lays c.sessions c.final_space ids l
  pub ledger : IsLedger l
  pub own : get_elem? ids c.local_session_ref.index ≡ some c.session_id
  pub limit : c.final_id_limit ≡ limit_of l

-- The two compressors agree on all but the tables, the limit and the telemetry.
pub record IsSameLocal (c d : IdCompressor) : Type 0 where
  pub session : d.session_id ≡ c.session_id
  pub session_ref : d.local_session_ref ≡ c.local_session_ref
  pub generated : d.generated_id_count ≡ c.generated_id_count
  pub next_base : d.next_range_base_generation_count ≡ c.next_range_base_generation_count
  pub size : d.cluster_capacity ≡ c.cluster_capacity
  pub normalizer : d.session_space_normalizer ≡ c.session_space_normalizer

-- A change of the tables, the limit and the telemetry.
pub IsSameLocal-tables :
    (c : IdCompressor) (s : Sessions) (f : FinalSpace) (limit : FinalId) (stats : TelemetryStats)
    → IsSameLocal c (record c {
      sessions = s;
      final_space = f;
      final_id_limit = limit;
      telemetry_stats = stats;
    })
IsSameLocal-tables c s f limit stats = record {
  session = refl;
  session_ref = refl;
  generated = refl;
  next_base = refl;
  size = refl;
  normalizer = refl;
}

pub IsSameLocal-trans : {c d e : IdCompressor} → IsSameLocal c d → IsSameLocal d e → IsSameLocal c e
IsSameLocal-trans p q = record {
  session = q.session ∙ p.session;
  session_ref = q.session_ref ∙ p.session_ref;
  generated = q.generated ∙ p.generated;
  next_base = q.next_base ∙ p.next_base;
  size = q.size ∙ p.size;
  normalizer = q.normalizer ∙ p.normalizer;
}

-- The end of `finalize_range` sets the limit that the ledger has.
pub update_limit-limit_of :
    (d : IdCompressor) (ids : List SessionId) (e : Entry) (l : Ledger)
    → Lays d.sessions d.final_space ids (e ∷ l)
    → IsCluster e.cluster
    → update_limit d ≡ done (ok tt, record d { final_id_limit = limit_of (e ∷ l) })
unfolding update_limit
update_limit-limit_of d ids e l v k =
    rw (update_limit, final_tail_cluster-head_cluster d.sessions d.final_space ids (e ∷ l) v)
      (ap (λ n. done (ok tt, record d { final_id_limit = record { id = n } }))
        (omega (arith, k.final_fits, k.count_le)))
