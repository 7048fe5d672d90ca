-- ===== src/Compressor/Life.antt =====
-- The life of a compressor in a network: it hands out IDs and takes ranges, and finalizes the
-- ranges of all sessions in their total order.
use distributed_id_allocator.Common.{
  ℕ, get_elem?, some, ◌+◌, ◌^◌, ◌≤◌, ◌<◌, ◌≡◌, ◌≢◌, refl, sym, ap, subst, ◌∙◌, List, [], ◌∷◌,
  Result, done, done-injective, length, Sorted, arith,
}
use distributed_id_allocator.Ids.Errors.{AllocatorError}
use distributed_id_allocator.Ids.Space.{SessionSpaceId}
use distributed_id_allocator.Ids.Stable.{SessionId}
use distributed_id_allocator.Ledger.{Ledger}
use distributed_id_allocator.Compressor.{IdCompressor, IdRange}
use distributed_id_allocator.Compressor.Allocate.{generate_next_id, take_next_range}
use distributed_id_allocator.Compressor.Finalize.{finalize_range}
use distributed_id_allocator.Compressor.OwnSession.{IsOwn, IsSameTables}
use distributed_id_allocator.Compressor.Handout.{
  id_of_generation, Generates, generate_next_id-Generates,
}
use distributed_id_allocator.Compressor.Handed.{IsHanded, IsHanded-keeps, generate-IsHanded}
use distributed_id_allocator.Compressor.Taken.{Takes, take_next_range-Takes}
use distributed_id_allocator.Compressor.Shares.{Shares}
use distributed_id_allocator.Compressor.Deliver.{Range, range_of}
use distributed_id_allocator.Compressor.Network.{space_in, Shares-tables}
use distributed_id_allocator.Compressor.Delivers.{
  IsDeliverable, after_range, Delivers, finalize_range-Delivers,
}

-- What a compressor did.
pub data Action : Type 0 where
  handed : SessionSpaceId → Action
  took : IdRange → Action
  delivered : Range → Action

-- The steps from a compressor and the ledger that it shares, the latest action first.
pub data Life (c : IdCompressor) (l : Ledger) : List Action → IdCompressor → Ledger → Type 0 where
  born : Life c l [] c l
  generate :
      {acts : List Action} {d d' : IdCompressor} {m : Ledger} (id : SessionSpaceId)
      → Life c l acts d m
      → generate_next_id d ≡ done (id, d')
      → Life c l (handed id ∷ acts) d' m
  take :
      {acts : List Action} {d d' : IdCompressor} {m : Ledger} (r : IdRange)
      → Life c l acts d m
      → take_next_range d ≡ (r, d')
      → Life c l (took r ∷ acts) d' m
  finalize :
      {acts : List Action} {d d' : IdCompressor} {m : Ledger} (r : Range)
      (result : Result (Unit {0}) AllocatorError)
      → Life c l acts d m
      → IsDeliverable d m r
      → finalize_range d (range_of r) ≡ done (result, d')
      → Life c l (delivered r ∷ acts) d' (after_range d m r)

-- The IDs that were handed out.
abbrev pub ids_of : List Action → List SessionSpaceId
ids_of [] = []
ids_of (handed id ∷ acts) = id ∷ ids_of acts
ids_of (took r ∷ acts) = ids_of acts
ids_of (delivered r ∷ acts) = ids_of acts

-- The compressor shares the ledger, and its own state is valid.
pub record IsMember (d : IdCompressor) (m : Ledger) : Type 0 where
  pub known : List SessionId
  pub shares : Shares d known m
  pub own : IsOwn d (space_in d m)

-- What holds of a life so far.
record IsLived (c : IdCompressor) (acts : List Action) (d : IdCompressor) (m : Ledger)
    : Type 0 where
  member : IsMember d m
  session : d.session_id ≡ c.session_id
  count : d.generated_id_count ≤ c.generated_id_count + length acts
  counted : d.generated_id_count ≡ c.generated_id_count + length (ids_of acts)
  ids : IsHanded (space_in d m) d (ids_of acts)

module _ {c : IdCompressor} {acts : List Action} {d : IdCompressor} {m : Ledger}
    (v : IsLived c acts d m) where
  -- An operation that leaves the tables leaves the own session space.
  same_space : {d' : IdCompressor} → IsSameTables d d' → space_in d m ≡ space_in d' m
  same_space t = ap (λ s. space_in (record d { session_id = s }) m) (sym t.session)

  generate-IsLived :
      {id : SessionSpaceId} {d' : IdCompressor}
      → Generates d (space_in d m) id d'
      → IsLived c (handed id ∷ acts) d' m
  generate-IsLived {id} {d'} s = record {
    member = record {
      known = v.member.known;
      shares = Shares-tables d d' v.member.known m v.member.shares s.tables;
      own = subst (IsOwn d') (same_space s.tables) s.keeps;
    };
    session = s.tables.session ∙ v.session;
    count = omega (arith, v.count, s.counts);
    counted = omega (arith, v.counted, s.counts);
    ids =
        subst (λ z. IsHanded z d' (id ∷ ids_of acts)) (same_space s.tables)
          (generate-IsHanded v.ids s);
  }

  take-IsLived :
      {r : IdRange} {d' : IdCompressor}
      → Takes d r d'
      → IsOwn d' (space_in d m)
      → IsLived c (took r ∷ acts) d' m
  take-IsLived {r} {d'} s own = record {
    member = record {
      known = v.member.known;
      shares = Shares-tables d d' v.member.known m v.member.shares s.tables;
      own = subst (IsOwn d') (same_space s.tables) own;
    };
    session = s.tables.session ∙ v.session;
    count = omega (arith, v.count, s.generated);
    counted = omega (arith, v.counted, s.generated);
    ids =
        subst (λ z. IsHanded z d' (ids_of acts)) (same_space s.tables)
          (IsHanded-keeps v.ids s.generated (λ g p q. s.keeps_ids (space_in d m) g));
  }

  finalize-IsLived :
      {r : Range} {d' : IdCompressor}
      → Delivers d m r d'
      → IsLived c (delivered r ∷ acts) d' (after_range d m r)
  finalize-IsLived {r} {d'} s = record {
    member = record { known = s.known; shares = s.shares; own = s.own };
    session = s.same.session ∙ v.session;
    count = omega (arith, v.count, s.same.generated);
    counted = omega (arith, v.counted, s.same.generated);
    ids = IsHanded-keeps v.ids s.same.generated s.keeps;
  }

module _ (c : IdCompressor) (l : Ledger) (start : IsMember c l) where
  life-IsLived :
      {acts : List Action} {d : IdCompressor} {m : Ledger}
      → c.generated_id_count + length acts < 2 ^ 63
      → Life c l acts d m
      → IsLived c acts d m
  life-IsLived room born = record {
    member = start;
    session = refl;
    count = omega arith;
    counted = omega arith;
    ids = record { generated = tt; distinct = tt; numbered = λ i id at. ground arith };
  }
  life-IsLived room (generate {acts = acts} {d = b} {m = m} id t e) =
      let u = life-IsLived (omega (arith, room)) t in
      let (id₀, c₀, s) =
        generate_next_id-Generates b (space_in b m) u.member.own (omega (arith, u.count, room)) in
      let same : (id₀, c₀) ≡ (id, _) = done-injective (sym s.returns ∙ e) in
      subst (λ p. IsLived c (handed p.0 ∷ acts) p.1 m) same (generate-IsLived u s)
  life-IsLived room (take {acts = acts} {d = b} {m = m} r t e) =
      let u = life-IsLived (omega (arith, room)) t in
      let (r₀, c₀, s, own) = take_next_range-Takes b (space_in b m) u.member.own in
      let same : (r₀, c₀) ≡ (r, _) = sym s.takes ∙ e in
      subst (λ p. IsLived c (took p.0 ∷ acts) p.1 m) same (take-IsLived u s own)
  life-IsLived room (finalize {acts = acts} {d = b} {m = m} r result t w e) =
      let u = life-IsLived (omega (arith, room)) t in
      let (c₀, s) = finalize_range-Delivers b u.member.known m u.member.shares u.member.own r w in
      let same : (s.result, c₀) ≡ (result, _) = done-injective (sym s.returns ∙ e) in
      subst (λ p. IsLived c (delivered r ∷ acts) p.1 (after_range b m r)) same
        (finalize-IsLived u s)

  module _ {acts : List Action} {d : IdCompressor} {m : Ledger}
      (room : c.generated_id_count + length acts < 2 ^ 63) (t : Life c l acts d m) where
    -- Along any sequence of `generate_next_id`, `take_next_range` and `finalize_range` as for the
    -- IDs handed out, a compressor that shares a ledger and whose own state is valid keeps both:
    -- it shares the ledger that the finalized ranges make, and its own state, with the session's
    -- chain in that ledger, is valid.
    pub life-IsMember : IsMember d m
    life-IsMember = (life-IsLived room t).member

    -- Along any sequence of `generate_next_id`, `take_next_range` and calls of `finalize_range` on
    -- ranges of any session that starts at a compressor which shares a ledger and whose own state
    -- is valid, and that is short enough for the count to stay below 2 ^ 63, no two of the session
    -- space IDs handed out are equal. Each range finalized is not empty, does not collide, stays
    -- with the room for a new cluster within an `i64`, and was taken before if it is the
    -- compressor's own; it may be out of order.
    pub ids_of-distinct : Sorted (λ x y. x ≢ y) (ids_of acts)
    ids_of-distinct = (life-IsLived room t).ids.distinct

    -- The IDs handed out are of the generations up to the count, the latest first.
    pub ids_of_numbered :
        (i : ℕ) (id : SessionSpaceId)
        → get_elem? (ids_of acts) i ≡ some id
        → (g : ℕ) × (1 ≤ g)
          × (g + i ≡ d.generated_id_count)
          × (id_of_generation d (space_in d m) g ≡ some id)
    ids_of_numbered = (life-IsLived room t).ids.numbered

    pub ids_of_counted : d.generated_id_count ≡ c.generated_id_count + length (ids_of acts)
    ids_of_counted = (life-IsLived room t).counted

    pub life_session : d.session_id ≡ c.session_id
    life_session = (life-IsLived room t).session
