-- ===== src/Compressor/Network.antt =====
-- What a finalization, of the own session or of another, leaves of a compressor's own session.
use distributed_id_allocator.Common.{
  ℕ, ◌+◌, ◌≤◌, ◌<◌, ◌≡◌, refl, sym, ap, subst, ◌∙◌, List, some, done, get_elem?, get_last?, arith,
  Bool-cases, inl, inr,
}
use distributed_id_allocator.Ids.Local.{from_generation_count, to_generation_count}
use distributed_id_allocator.Ids.Space.{session_from_final}
use distributed_id_allocator.Ids.Stable.{SessionId}
use distributed_id_allocator.Tables.SessionSpace.{IdCluster, SessionSpace}
use distributed_id_allocator.Tables.SessionSpace.Chain.{base_generation}
use distributed_id_allocator.Tables.SessionSpace.End.{chain_end, chain_end_covers}
use distributed_id_allocator.Tables.SessionSpace.Grown.{
  IsGrown, final_beside-IsWithin, find_interval-IsGrown, chain_end-IsGrown,
}
use distributed_id_allocator.Tables.Sessions.{deref_session_space}
use distributed_id_allocator.Tables.Normalizer.Contains.{IsNormalized, covers}
use distributed_id_allocator.Ledger.{Ledger, IsLedger, chain_of, tail_of}
use distributed_id_allocator.Ledger.Chains.{get_last?-chain_of}
use distributed_id_allocator.Ledger.Lays.{Lays}
use distributed_id_allocator.Ledger.Sessions.{chain_of-IsChain}
use distributed_id_allocator.Compressor.{IdCompressor}
use distributed_id_allocator.Compressor.OwnSession.{IsOwn, IsSameTables, handed_local}
use distributed_id_allocator.Compressor.OwnIds.{l_lem}
use distributed_id_allocator.Compressor.Handout.{id_of_generation}
use distributed_id_allocator.Compressor.Shares.{Shares, IsSameLocal}

-- The own session space of a compressor that shares a ledger.
abbrev pub space_in : IdCompressor → Ledger → SessionSpace
space_in c l = record { cluster_chain = chain_of c.session_id l }

-- An operation that leaves the tables.
pub Shares-tables :
    (c d : IdCompressor) (ids : List SessionId) (l : Ledger)
    → Shares c ids l
    → IsSameTables c d
    → Shares d ids l
Shares-tables c d ids l v t = record {
  lays =
      subst (λ f. Lays d.sessions f ids l) (sym t.final_space)
        (subst (λ s. Lays s c.final_space ids l) (sym t.sessions) v.lays);
  ledger = v.ledger;
  own = ap (λ r. get_elem? ids r.index) t.session_ref ∙ v.own ∙ ap some (sym t.session);
  limit = t.limit ∙ v.limit;
}

-- A compressor `d` after a finalization by `c`, whose own chain grew within what was taken.
module _ (c d : IdCompressor) (ids : List SessionId) (l m : Ledger) (v : IsOwn c (space_in c l))
    (w : Shares d ids m) (h : IsLedger l) (same : IsSameLocal c d)
    (grown : IsGrown (chain_of c.session_id l) (chain_of c.session_id m))
    (within : (t : IdCluster)
      → tail_of c.session_id m ≡ some t
      → base_generation t + t.count ≤ c.next_range_base_generation_count) where
  own_chain : chain_of d.session_id m ≡ chain_of c.session_id m
  own_chain = ap (λ s. chain_of s m) same.session

  own_read : deref_session_space d.sessions d.local_session_ref ≡ done (space_in d m)
  unfolding deref_session_space
  own_read = rw (w.lays.spaces d.local_session_ref.index d.session_id w.own) refl

  was_local : (g : ℕ) → handed_local d g ≡ handed_local c g
  was_local g = ap (λ n. covers n.leading_locals g) same.normalizer

  still_before :
      (g : ℕ)
      → 1 ≤ g
      → g < chain_end 1 (chain_of c.session_id l)
      → g < chain_end 1 (chain_of c.session_id m)
  still_before g p q =
      chain_end-IsGrown 1 0 0 g (chain_of c.session_id l) (chain_of c.session_id m) grown v.chain
        (chain_of-IsChain c.session_id m w.ledger) p q

  pub finalized-IsOwn : IsOwn d (space_in d m)
  finalized-IsOwn = record {
    own_space = own_read;
    chain = chain_of-IsChain d.session_id m w.ledger;
    normalized =
        subst (λ z. IsNormalized z d.session_space_normalizer)
          (ap (λ n. n + 1) (sym same.generated))
          (subst (λ z. IsNormalized (c.generated_id_count + 1) z) (sym same.normalizer)
            v.normalized);
    generated_fits = omega (arith, same.generated, v.generated_fits);
    next_pos = omega (arith, same.next_base, v.next_pos);
    next_le = omega (arith, same.next_base, same.generated, v.next_le);
    finalized_le = λ t e.
        let here : tail_of c.session_id m ≡ some t =
          sym (get_last?-chain_of c.session_id m) ∙ ap get_last? (sym own_chain) ∙ e in
        omega (arith, same.next_base, within t here);
    eager = λ g p q e.
        subst (λ z. g < chain_end 1 z) (sym own_chain)
          (still_before g p
            (v.eager g p (omega (arith, q, same.generated)) (sym (was_local g) ∙ e)));
  }

  -- The generations keep their IDs.
  pub finalized-keeps :
      (g : ℕ)
      → 1 ≤ g
      → g ≤ c.generated_id_count
      → id_of_generation d (space_in d m) g ≡ id_of_generation c (space_in c l) g
  unfolding id_of_generation
  finalized-keeps g p q = elim (Bool-cases (handed_local c g)) [
    | inl b ↦ let b' = was_local g ∙ b in rw (b, b') refl
    | inr b ↦
        let b' = was_local g ∙ b in
        let gen = (l_lem c (space_in c l) v g p q).1 in
        let (k, e) =
          chain_end_covers 1 0 (to_generation_count (from_generation_count g))
            (chain_of c.session_id l) v.chain (omega (arith, gen, p))
            (omega (arith, gen, v.eager g p q b)) in
        let (k', e', w') =
          find_interval-IsGrown 1 0 (to_generation_count (from_generation_count g))
            (chain_of c.session_id l) (chain_of c.session_id m) grown
            (chain_of-IsChain c.session_id m w.ledger) e in
        rw (b, b', own_chain, e, e')
          (ap (λ f. some (session_from_final f))
            (final_beside-IsWithin (from_generation_count g) k k' w'))
  ]
