-- ===== src/Compressor/Delivers.antt =====
-- One call of `finalize_range` on a compressor whose own state is valid: a range of its own session or
-- of another, in order or not.
use distributed_id_allocator.Common.{
  ℕ, ◌+◌, ◌^◌, ◌≤◌, ◌<◌, ◌≡◌, refl, sym, ap, subst, ◌∙◌, List, Option, none, some, Result,
  some-injective, true, false, get_last?, done, arith, Bool-cases, inl, inr,
}
use distributed_id_allocator.Ids.Errors.{AllocatorError}
use distributed_id_allocator.Ids.Stable.{SessionId, session_eq}
use distributed_id_allocator.Tables.SessionSpace.{IdCluster}
use distributed_id_allocator.Tables.SessionSpace.Chain.{base_generation}
use distributed_id_allocator.Tables.SessionSpace.Grown.{IsGrown, IsGrown-refl}
use distributed_id_allocator.Tables.Sessions.{range_collides}
use distributed_id_allocator.Tables.Sessions.Create.{ids_after}
use distributed_id_allocator.Ledger.{
  Ledger, IsLedger, chain_of, tail_of, end_final, finalize_ledger,
}
use distributed_id_allocator.Ledger.Chains.{get_last?-chain_of}
use distributed_id_allocator.Ledger.Growth.{
  finalize_ledger_ne, finalize_ledger-IsGrown, finalize_ledger_end,
}
use distributed_id_allocator.Ledger.Writes.{SessionId-eq}
use distributed_id_allocator.Compressor.{IdCompressor}
use distributed_id_allocator.Compressor.Finalize.{finalize_range}
use distributed_id_allocator.Compressor.OwnSession.{IsOwn}
use distributed_id_allocator.Compressor.Handout.{id_of_generation}
use distributed_id_allocator.Compressor.Shares.{Shares, IsSameLocal}
use distributed_id_allocator.Compressor.Rejects.{base_stable, max_stable}
use distributed_id_allocator.Compressor.Refinement.{finalize_range-Follows}
use distributed_id_allocator.Compressor.Deliver.{Range, range_of, ledger_or, Follows-Shares}
use distributed_id_allocator.Compressor.Network.{space_in, finalized-IsOwn, finalized-keeps}

-- The range is not empty, its IDs fit in an `i64` with the room of a new cluster, it collides with
-- no other session's cluster, and the compressor took it if it is its own.
pub record IsDeliverable (c : IdCompressor) (l : Ledger) (r : Range) : Type 0 where
  pub wide : r.session.id.id < 2 ^ 128
  pub not_empty : 1 ≤ r.len
  pub starts : 1 ≤ r.base
  pub room : r.base + r.len + c.cluster_capacity ≤ 2 ^ 63
  pub final_room : end_final l + r.len + c.cluster_capacity ≤ 2 ^ 63
  pub apart :
      range_collides c.sessions r.session
        (base_stable r.session r.base)
        (max_stable c r.session r.base r.len)
      ≡ done false
  pub taken :
      session_eq r.session c.session_id ≡ true → r.base + r.len ≤ c.next_range_base_generation_count

abbrev pub after_range : IdCompressor → Ledger → Range → Ledger
after_range c l r = ledger_or l (finalize_ledger c.cluster_capacity l r.session r.base r.len)

-- What `finalize_range` does to the state, whatever it returns.
pub record Delivers (c : IdCompressor) (l : Ledger) (r : Range) (d : IdCompressor) : Type 0 where
  pub result : Result (Unit {0}) AllocatorError
  pub returns : finalize_range c (range_of r) ≡ done (result, d)
  pub known : List SessionId
  pub shares : Shares d known (after_range c l r)
  pub own : IsOwn d (space_in d (after_range c l r))
  pub same : IsSameLocal c d
  pub keeps :
      (g : ℕ)
      → 1 ≤ g
      → g ≤ c.generated_id_count
      → id_of_generation d (space_in d (after_range c l r)) g ≡ id_of_generation c (space_in c l) g

module _ (c : IdCompressor) (ids : List SessionId) (l : Ledger) (v : Shares c ids l)
    (own : IsOwn c (space_in c l)) (r : Range) (w : IsDeliverable c l r) where
  -- The own chain after the range, and what of it is finalized.
  OwnGrows : Ledger → Type 0
  OwnGrows m =
      IsGrown (chain_of c.session_id l) (chain_of c.session_id m)
      × ((t : IdCluster)
          → tail_of c.session_id m ≡ some t
          → base_generation t + t.count ≤ c.next_range_base_generation_count)

  stays : (m : Ledger) → chain_of c.session_id m ≡ chain_of c.session_id l → OwnGrows m
  unfolding OwnGrows
  stays m e = (
    subst (λ z. IsGrown (chain_of c.session_id l) z) (sym e)
        (IsGrown-refl (chain_of c.session_id l)),
    λ t f. own.finalized_le t (ap get_last? (sym e) ∙ get_last?-chain_of c.session_id m ∙ f),
  )

  grows_own :
      (m : Ledger)
      → finalize_ledger c.cluster_capacity l r.session r.base r.len ≡ some m
      → IsLedger m
      → session_eq r.session c.session_id ≡ true
      → OwnGrows m
  unfolding OwnGrows
  grows_own m f h b =
      let mine : r.session ≡ c.session_id = SessionId-eq r.session c.session_id b in
      let (k, e, sum) =
        finalize_ledger_end c.cluster_capacity l m r.session r.base r.len f h w.starts
          (omega (arith, w.room)) in
      (
        subst (λ s. IsGrown (chain_of s l) (chain_of s m)) mine
            (finalize_ledger-IsGrown c.cluster_capacity l m r.session r.base r.len f),
        λ t g.
            let last : k ≡ t = some-injective _ _ (sym e ∙ ap (λ s. tail_of s m) mine ∙ g) in
            let bound = w.taken b in
            subst (λ z. base_generation z + z.count ≤ c.next_range_base_generation_count) last
              (omega (arith, sum, bound)),
      )

  own_grows :
      (o : Option Ledger)
      → finalize_ledger c.cluster_capacity l r.session r.base r.len ≡ o
      → IsLedger (ledger_or l o)
      → OwnGrows (ledger_or l o)
  own_grows none f h = stays l refl
  own_grows (some m) f h = elim (Bool-cases (session_eq r.session c.session_id)) [
    | inl b ↦ grows_own m f h b
    | inr b ↦
        stays m (finalize_ledger_ne c.cluster_capacity l m r.session r.base r.len f c.session_id b)
  ]

  pub finalize_range-Delivers : (d : IdCompressor) × Delivers c l r d
  unfolding OwnGrows
  finalize_range-Delivers =
      let o : Option Ledger = finalize_ledger c.cluster_capacity l r.session r.base r.len in
      let (result, d, returns, shares, same) =
        Follows-Shares c (ids_after c.sessions ids r.session) l o _ (
          finalize_range-Follows c ids l v r.session w.wide r.base r.len w.not_empty w.starts w.room
            w.final_room w.apart) in
      let (grown, within) = own_grows o refl shares.ledger in
      (
        d,
        record {
          result = result;
          returns = returns;
          known = ids_after c.sessions ids r.session;
          shares = shares;
          own =
              finalized-IsOwn c d (ids_after c.sessions ids r.session) l (ledger_or l o) own shares
                v.ledger same grown within;
          same = same;
          keeps =
              finalized-keeps c d (ids_after c.sessions ids r.session) l (ledger_or l o) own shares
                v.ledger same grown within;
        },
      )
