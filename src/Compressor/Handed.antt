-- ===== src/Compressor/Handed.antt =====
-- The IDs that a compressor has handed out, and what a new ID adds to them.
use distributed_id_allocator.Common.{
  ℕ, zero, suc, get_elem?, ◌+◌, ◌≤◌, ◌≡◌, ◌≢◌, ◌∙◌, List, ◌∷◌, some, All, All-imp, Sorted, arith,
}
use distributed_id_allocator.Ids.Space.{SessionSpaceId}
use distributed_id_allocator.Tables.SessionSpace.{SessionSpace}
use distributed_id_allocator.Compressor.{IdCompressor}
use distributed_id_allocator.Compressor.Handout.{id_of_generation, Generates}
use distributed_id_allocator.Compressor.Unique.{id_of_generation-injective}

-- The ID is a generation's, among those generated.
abbrev IsGenerated : SessionSpace → IdCompressor → SessionSpaceId → Type 0
IsGenerated space d id =
    (g : ℕ) × (1 ≤ g) × (g ≤ d.generated_id_count) × (id_of_generation d space g ≡ some id)

-- The IDs are of generations, the latest first and without a gap, and no two are equal.
pub record IsHanded (space : SessionSpace) (d : IdCompressor) (ids : List SessionSpaceId)
    : Type 0 where
  pub generated : All (IsGenerated space d) ids
  pub distinct : Sorted (λ x y. x ≢ y) ids
  pub numbered :
      (i : ℕ) (id : SessionSpaceId)
      → get_elem? ids i ≡ some id
      → (g : ℕ) × (1 ≤ g) × (g + i ≡ d.generated_id_count) × (id_of_generation d space g ≡ some id)

module _ {space : SessionSpace} {d : IdCompressor} {ids : List SessionSpaceId}
    (v : IsHanded space d ids) where
  -- An operation that keeps the generations' IDs.
  pub IsHanded-keeps :
      {space' : SessionSpace} {d' : IdCompressor}
      → d'.generated_id_count ≡ d.generated_id_count
      → ((g : ℕ)
          → 1 ≤ g
          → g ≤ d.generated_id_count
          → id_of_generation d' space' g ≡ id_of_generation d space g)
      → IsHanded space' d' ids
  IsHanded-keeps same keeps = record {
    generated =
        All-imp ids (λ x (g, p, q, e). (g, p, omega (arith, q, same), keeps g p q ∙ e)) v.generated;
    distinct = v.distinct;
    numbered = λ i x at.
        let (g, p, q, e) = v.numbered i x at in
        (g, p, omega (arith, q, same), keeps g p (omega (arith, q)) ∙ e);
  }

  module _ {id : SessionSpaceId} {d' : IdCompressor} (s : Generates d space id d') where
    still-IsGenerated : (x : SessionSpaceId) → IsGenerated space d x → IsGenerated space d' x
    still-IsGenerated x (g, p, q, e) =
        (g, p, omega (arith, q, s.counts), ground (arith, s.hands_out g, q, e))

    new-IsGenerated : id_of_generation d' space (d.generated_id_count + 1) ≡ some id
    new-IsGenerated = ground (arith, s.hands_out (d.generated_id_count + 1))

    -- The ID of the new generation is none of the IDs before.
    not_before : (x : SessionSpaceId) → IsGenerated space d x → id ≢ x
    not_before x (g, p, q, e) same =
        let clash : g ≡ d.generated_id_count + 1 =
          id_of_generation-injective d' space s.keeps g (d.generated_id_count + 1) id p
            (omega (arith, q, s.counts)) (omega arith) (omega (arith, s.counts))
            (ground (arith, s.hands_out g, q, e, same)) new-IsGenerated in
        omega (arith, clash, q)

    new_numbered :
        (i : ℕ) (x : SessionSpaceId)
        → get_elem? (id ∷ ids) i ≡ some x
        → (g : ℕ) × (1 ≤ g)
          × (g + i ≡ d'.generated_id_count)
          × (id_of_generation d' space g ≡ some x)
    new_numbered zero x at =
        (d.generated_id_count + 1, omega arith, omega (arith, s.counts), new-IsGenerated ∙ at)
    new_numbered (suc i) x at =
        let (g, p, q, e) = v.numbered i x at in
        let le : g ≤ d.generated_id_count = omega (arith, q) in
        (g, p, omega (arith, q, s.counts), ground (arith, s.hands_out g, le, e))

    pub generate-IsHanded : IsHanded space d' (id ∷ ids)
    generate-IsHanded = record {
      generated = (
        (d.generated_id_count + 1, omega arith, omega (arith, s.counts), new-IsGenerated),
        All-imp ids still-IsGenerated v.generated,
      );
      distinct = (All-imp ids not_before v.generated, v.distinct);
      numbered = new_numbered;
    }
