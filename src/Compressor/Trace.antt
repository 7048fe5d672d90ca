-- ===== src/Compressor/Trace.antt =====
-- Sequences of `generate_next_id` and `take_next_range`, as a session runs them between two
-- finalizations.
use distributed_id_allocator.Common.{
  ℕ, ◌+◌, ◌^◌, ◌≤◌, ◌<◌, ◌≡◌, ◌≢◌, sym, subst, ◌∙◌, List, [], ◌∷◌, ◌&&◌, done, done-injective,
  if◌then◌else◌, leb, ltb, length, Sorted, arith,
}
use distributed_id_allocator.Ids.Space.{SessionSpaceId}
use distributed_id_allocator.Tables.SessionSpace.{SessionSpace}
use distributed_id_allocator.Compressor.{IdCompressor, IdRange}
use distributed_id_allocator.Compressor.Allocate.{generate_next_id, take_next_range}
use distributed_id_allocator.Compressor.OwnSession.{IsOwn}
use distributed_id_allocator.Compressor.Handout.{Generates, generate_next_id-Generates}
use distributed_id_allocator.Compressor.Taken.{in_range, Takes, take_next_range-Takes}
use distributed_id_allocator.Compressor.Handed.{IsHanded, IsHanded-keeps, generate-IsHanded}

-- What a step returned.
pub data Event : Type 0 where
  handed : SessionSpaceId → Event
  took : IdRange → Event

-- The steps from the first compressor to the last, the latest event first.
pub data Trace (c : IdCompressor) : List Event → IdCompressor → Type 0 where
  start : Trace c [] c
  generate :
      {es : List Event} {d d' : IdCompressor} (id : SessionSpaceId)
      → Trace c es d
      → generate_next_id d ≡ done (id, d')
      → Trace c (handed id ∷ es) d'
  take :
      {es : List Event} {d d' : IdCompressor} (r : IdRange)
      → Trace c es d
      → take_next_range d ≡ (r, d')
      → Trace c (took r ∷ es) d'

-- The IDs that a trace handed out.
abbrev pub handed_ids : List Event → List SessionSpaceId
handed_ids [] = []
handed_ids (handed id ∷ es) = id ∷ handed_ids es
handed_ids (took r ∷ es) = handed_ids es

-- How many ranges of a trace hold a generation.
abbrev pub times_taken : List Event → ℕ → ℕ
times_taken [] g = 0
times_taken (handed id ∷ es) g = times_taken es g
times_taken (took r ∷ es) g = (if in_range r.range g then 1 else 0) + times_taken es g

-- What holds along a trace.
record IsTraced (c : IdCompressor) (space : SessionSpace) (es : List Event) (d : IdCompressor)
    : Type 0 where
  own : IsOwn d space
  count : d.generated_id_count ≤ c.generated_id_count + length es
  handed : IsHanded space d (handed_ids es)
  base : c.next_range_base_generation_count ≤ d.next_range_base_generation_count
  taken :
      (g : ℕ)
      → times_taken es g ≡ (
          if leb c.next_range_base_generation_count g && ltb g d.next_range_base_generation_count
          then 1
          else 0)

module _ (c : IdCompressor) (space : SessionSpace) where
  module _ {es : List Event} {d : IdCompressor} (t : IsTraced c space es d)
      (room : c.generated_id_count + length es + 1 < 2 ^ 63) where
    fits : d.generated_id_count + 1 < 2 ^ 63
    fits = omega (arith, t.count, room)

    generate-IsTraced :
        {id : SessionSpaceId} {d' : IdCompressor}
        → Generates d space id d'
        → IsTraced c space (handed id ∷ es) d'
    generate-IsTraced {id} s = record {
      own = s.keeps;
      count = omega (arith, t.count, s.counts);
      handed = generate-IsHanded t.handed s;
      base = omega (arith, t.base, s.keeps_base);
      taken = λ g. ground (arith, t.taken g, s.keeps_base);
    }

  take-IsTraced :
      {es : List Event} {d d' : IdCompressor} {r : IdRange}
      → IsTraced c space es d
      → Takes d r d'
      → IsOwn d' space
      → IsTraced c space (took r ∷ es) d'
  take-IsTraced {es} {d} t s own = record {
    own = own;
    count = omega (arith, t.count, s.generated);
    handed = IsHanded-keeps t.handed s.generated (λ g p q. s.keeps_ids space g);
    base = omega (arith, t.base, t.own.next_le, s.next);
    taken = λ g. ground (arith, t.taken g, s.holds g, s.next, t.base, t.own.next_le);
  }

  trace-IsTraced :
      {es : List Event} {d : IdCompressor}
      → IsOwn c space
      → c.generated_id_count + length es < 2 ^ 63
      → Trace c es d
      → IsTraced c space es d
  trace-IsTraced v room start = record {
    own = v;
    count = omega arith;
    handed = record { generated = tt; distinct = tt; numbered = λ i id at. ground arith };
    base = omega arith;
    taken = λ g. ground arith;
  }
  trace-IsTraced v room (generate {es = es} id t e) =
      let u = trace-IsTraced v (omega (arith, room)) t in
      let (id₀, c₀, s) = generate_next_id-Generates _ space u.own (fits u (omega (arith, room))) in
      let same : (id₀, c₀) ≡ (id, _) = done-injective (sym s.returns ∙ e) in
      subst (λ p. IsTraced c space (handed p.0 ∷ es) p.1) same
        (generate-IsTraced u (omega (arith, room)) s)
  trace-IsTraced v room (take {es = es} r t e) =
      let u = trace-IsTraced v (omega (arith, room)) t in
      let (r₀, c₀, s, own) = take_next_range-Takes _ space u.own in
      let same : (r₀, c₀) ≡ (r, _) = sym s.takes ∙ e in
      subst (λ p. IsTraced c space (took p.0 ∷ es) p.1) same (take-IsTraced u s own)

  module _ {es : List Event} {d : IdCompressor} (v : IsOwn c space)
      (room : c.generated_id_count + length es < 2 ^ 63) (t : Trace c es d) where
    -- The own state of a compressor stays valid along any sequence of `generate_next_id` and
    -- `take_next_range` that is short enough for the count to stay below 2 ^ 63.
    pub trace-IsOwn : IsOwn d space
    trace-IsOwn = (trace-IsTraced v room t).own

    -- Along any sequence of `generate_next_id` and `take_next_range` that starts at a compressor
    -- whose own state is valid, and that is short enough for the count to stay below 2 ^ 63, no
    -- two of the session space IDs handed out are equal.
    handed_ids-distinct : Sorted (λ x y. x ≢ y) (handed_ids es)
    handed_ids-distinct = (trace-IsTraced v room t).handed.distinct

    -- Along any sequence of `generate_next_id` and `take_next_range` that starts at a compressor
    -- whose own state is valid, and that is short enough for the count to stay below 2 ^ 63, each
    -- generation from the first compressor's next range base up to, but without, the last one's is
    -- in exactly one of the ranges taken, and every other generation is in none.
    pub times_taken_lem :
        (g : ℕ)
        → times_taken es g ≡ (
            if leb c.next_range_base_generation_count g && ltb g d.next_range_base_generation_count
            then 1
            else 0)
    times_taken_lem = (trace-IsTraced v room t).taken
