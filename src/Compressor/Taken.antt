-- ===== src/Compressor/Taken.antt =====
-- What `take_next_range` takes, and what a new compressor keeps about its own session.
use native.Mathlib.Decide.{dec_lt}
use distributed_id_allocator.Common.{
  ℕ, ◌+◌, ◌-◌, ◌≤◌, sym, ap, some-injective, ◌≡◌, refl, Option, none, some, Bool, false, ◌&&◌, leb,
  ltb, arith,
}
use distributed_id_allocator.Ids.Stable.{SessionId}
use distributed_id_allocator.Ids.Local.{to_generation_count}
use distributed_id_allocator.Tables.SessionSpace.{SessionSpace, new_session_space}
use distributed_id_allocator.Tables.SessionMap.{map_get}
use distributed_id_allocator.Tables.Sessions.{get_or_create, deref_session_space}
use distributed_id_allocator.Compressor.{IdCompressor, IdRange, new_with_session_id}
use distributed_id_allocator.Compressor.Allocate.{take_next_range}
use distributed_id_allocator.Compressor.Handout.{id_of_generation}
use distributed_id_allocator.Compressor.OwnSession.{IsOwn, IsSameTables}

-- Whether the range holds the generation.
abbrev pub in_range : Option (ℕ × ℕ) → ℕ → Bool
in_range none g = false
in_range (some (base, count)) g = leb base g && ltb g (base + count)

-- A range takes the generations that were not taken yet, up to the last one generated.
pub record Takes (c : IdCompressor) (r : IdRange) (c' : IdCompressor) : Type 0 where
  pub takes : take_next_range c ≡ (r, c')
  pub session : r.id ≡ c.session_id
  pub holds :
      (g : ℕ)
      → in_range r.range g
        ≡ (leb c.next_range_base_generation_count g && leb g c.generated_id_count)
  pub not_empty :
      (base count : ℕ)
      → r.range ≡ some (base, count)
      → (base ≡ c.next_range_base_generation_count) × (1 ≤ count)
  pub generated : c'.generated_id_count ≡ c.generated_id_count
  pub next : c'.next_range_base_generation_count ≡ c.generated_id_count + 1
  pub tables : IsSameTables c c'
  pub keeps_ids :
      (space : SessionSpace) (h : ℕ) → id_of_generation c' space h ≡ id_of_generation c space h

module _ (c : IdCompressor) (space : SessionSpace) (v : IsOwn c space) where
  taken-IsOwn :
      IsOwn (record c { next_range_base_generation_count = c.generated_id_count + 1 }) space
  taken-IsOwn = record {
    own_space = v.own_space;
    chain = v.chain;
    normalized = v.normalized;
    generated_fits = v.generated_fits;
    next_pos = omega arith;
    next_le = omega arith;
    finalized_le = λ t e. omega (arith, v.finalized_le t e, v.next_le);
    eager = v.eager;
  }

  -- On a compressor whose own state is valid, the range that `take_next_range` returns carries the
  -- session's identifier and holds exactly the generations from the first that no range took to
  -- the last one generated; if there is none, there is no range at all, and otherwise its base is
  -- the first of them and its count is positive; the next range begins behind them, the count
  -- stays, and the own state stays valid.
  pub take_next_range-Takes : (r : IdRange) × (c' : IdCompressor) × Takes c r c' × IsOwn c' space
  unfolding take_next_range id_of_generation
  take_next_range-Takes =
      let fits = v.generated_fits in
      let le = v.next_le in
      let pos = v.next_pos in
      elim (dec_lt c.generated_id_count c.next_range_base_generation_count) [
        | yes p ↦ (
          record { id = c.session_id; range = none },
          c,
          record {
            takes = ground arith;
            session = refl;
            holds = λ g. ground arith;
            not_empty = λ base count e. ground arith;
            generated = refl;
            next = omega arith;
            tables = record {
              session = refl;
              session_ref = refl;
              limit = refl;
              size = refl;
              sessions = refl;
              final_space = refl;
            };
            keeps_ids = λ s h. refl;
          },
          v,
        )
        | no p ↦ (
          record {
            id = c.session_id;
            range = some (
              c.next_range_base_generation_count,
              c.generated_id_count + 1 - c.next_range_base_generation_count,
            );
          },
          record c { next_range_base_generation_count = c.generated_id_count + 1 },
          record {
            takes = ground arith;
            session = refl;
            holds = λ g. ground arith;
            not_empty = λ base count e.
                let same = some-injective _ _ e in
                (sym (ap (λ z. z.0) same), let size = ap (λ z. z.1) same in omega (arith, size, p));
            generated = refl;
            next = refl;
            tables = record {
              session = refl;
              session_ref = refl;
              limit = refl;
              size = refl;
              sessions = refl;
              final_space = refl;
            };
            keeps_ids = λ s h. refl;
          },
          taken-IsOwn,
        )
      ]

-- The own state of a new compressor is valid, with an empty session space.
pub new_with_session_id-IsOwn :
    (session_id : SessionId) → IsOwn (new_with_session_id session_id) new_session_space
unfolding new_with_session_id get_or_create map_get deref_session_space to_generation_count
new_with_session_id-IsOwn session_id = record {
  own_space = refl;
  chain = tt;
  normalized = record { ranges = tt; sorted = tt; below = tt };
  generated_fits = omega arith;
  next_pos = omega arith;
  next_le = omega arith;
  finalized_le = λ t e. ground arith;
  eager = λ g p q. omega arith;
}
