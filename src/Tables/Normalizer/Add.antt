-- ===== src/Tables/Normalizer/Add.antt =====
-- `add_local_range` on a well-formed normalizer.
use distributed_id_allocator.Common.{
  ℕ, ◌+◌, ◌≤◌, ◌≡◌, refl, ap, inl, inr, List, [], ◌∷◌, ◌++◌, true, ◌&&◌, ◌||◌, ltb, leb, get_last?,
  get_last?-Snoc, All, All-imp, All-append, All-front, All-back, Sorted, Sorted-append,
  Sorted-front, Sorted-last, Option-cases, Bool-cases, arith, subst,
}
use distributed_id_allocator.Word.{add_u64}
use distributed_id_allocator.Ids.Local.{LocalId, to_generation_count, local_sub, local_eq}
use distributed_id_allocator.Ids.Local.Generations.{
  to_generation_count-local_sub, local_eq-generation,
}
use distributed_id_allocator.Search.Intervals.{Before}
use distributed_id_allocator.Tables.Normalizer.{SessionSpaceNormalizer, add_local_range}
use distributed_id_allocator.Tables.Normalizer.Contains.{start, size, IsRange, IsNormalized, covers}

covers-append :
    (rs qs : List (LocalId × ℕ)) (g : ℕ) → covers (rs ++ qs) g ≡ (covers rs g || covers qs g)
covers-append [] qs g = refl
covers-append (r ∷ rs) qs g = ground (arith, covers-append rs qs g)

-- The two outcomes of `add_local_range`: a new range at the end, or a longer last one.
data Added (n : SessionSpaceNormalizer) (base : LocalId) (count : ℕ)
    : SessionSpaceNormalizer → Type 0 where
  pushed : Added n base count (record { leading_locals = n.leading_locals ++ ((base, count) ∷ []) })
  merged :
      (front : List (LocalId × ℕ)) (l : LocalId) (k : ℕ)
      → n.leading_locals ≡ front ++ ((l, k) ∷ [])
      → local_eq (local_sub l k) base ≡ true
      → Added n base count (record { leading_locals = front ++ ((l, add_u64 k count) ∷ []) })

add_local_range-Added :
    (n : SessionSpaceNormalizer) (base : LocalId) (count : ℕ)
    → Added n base count (add_local_range n base count)
unfolding add_local_range
add_local_range-Added n base count = elim (Option-cases (get_last? n.leading_locals)) [
  | inl e ↦ rw (e, add_local_range) pushed
  | inr ((l, k), e) ↦ elim (Bool-cases (local_eq (local_sub l k) base)) [
    | inl b ↦
        let s = get_last?-Snoc n.leading_locals (l, k) e in
        rw (e, add_local_range, b, s.write (l, add_u64 k count)) (merged s.front l k s.shape b)
    | inr b ↦ rw (e, add_local_range, b) pushed
  ]
]

module _ (limit : ℕ) (n : SessionSpaceNormalizer) (base : LocalId) (count : ℕ)
    (v : IsNormalized limit n) (new : IsRange (base, count))
    (later : limit ≤ to_generation_count base) where
  -- The new range stands behind the others.
  pushed-IsNormalized :
      IsNormalized
        (to_generation_count base + count)
        (record { leading_locals = n.leading_locals ++ ((base, count) ∷ []) })
  pushed-IsNormalized = record {
    ranges = All-append IsRange n.leading_locals ((base, count) ∷ []) v.ranges (new, tt);
    sorted =
        Sorted-append (Before start size) n.leading_locals (base, count) v.sorted
          (All-imp n.leading_locals (λ r h. omega arith) v.below);
    below =
        All-append (λ r. start r + size r ≤ to_generation_count base + count) n.leading_locals
          ((base, count) ∷ []) (All-imp n.leading_locals (λ r h. omega arith) v.below)
          (omega arith, tt);
  }

  module _ (front : List (LocalId × ℕ)) (l : LocalId) (k : ℕ)
      (shape : n.leading_locals ≡ front ++ ((l, k) ∷ []))
      (next : local_eq (local_sub l k) base ≡ true) where
    last-IsRange : IsRange (l, k)
    last-IsRange = (All-back IsRange front ((l, k) ∷ []) (subst (All IsRange) shape v.ranges)).0

    -- The new range begins where the last one ends.
    adjacent : to_generation_count l + k ≡ to_generation_count base
    adjacent = ground (
      arith,
      last-IsRange.base_IsLocal,
      last-IsRange.fits,
      new.base_IsLocal,
      next,
      to_generation_count-local_sub l k,
      local_eq-generation (local_sub l k) base,
    )

    longer : IsRange (l, add_u64 k count)
    longer = record {
      base_IsLocal = last-IsRange.base_IsLocal;
      count_pos = omega (arith, adjacent, new.fits, new.count_pos);
      fits = omega (arith, adjacent, new.fits);
    }

    merged-IsNormalized :
        IsNormalized
          (to_generation_count base + count)
          (record { leading_locals = front ++ ((l, add_u64 k count) ∷ []) })
    merged-IsNormalized =
        let sorted = subst (Sorted (Before start size)) shape v.sorted in
        let within = subst (All (λ r. start r + size r ≤ limit)) shape v.below in
        record {
          ranges =
              All-append IsRange front ((l, add_u64 k count) ∷ [])
                (All-front IsRange front ((l, k) ∷ []) (subst (All IsRange) shape v.ranges))
                (longer, tt);
          sorted =
              Sorted-append (Before start size) front (l, add_u64 k count)
                (Sorted-front (Before start size) front ((l, k) ∷ []) sorted)
                (Sorted-last (Before start size) front (l, k) sorted);
          below =
              All-append (λ r. start r + size r ≤ to_generation_count base + count) front
                ((l, add_u64 k count) ∷ [])
                (All-imp front (λ r h. omega arith)
                  (All-front (λ r. start r + size r ≤ limit) front ((l, k) ∷ []) within))
                (omega (arith, adjacent, new.fits), tt);
        }

    merged-covers :
        (g : ℕ)
        → covers (front ++ ((l, add_u64 k count) ∷ [])) g ≡ (
            covers n.leading_locals g
            || (leb (to_generation_count base) g && ltb g (to_generation_count base + count)))
    merged-covers g = ground (
      arith,
      covers-append front ((l, add_u64 k count) ∷ []) g,
      covers-append front ((l, k) ∷ []) g,
      ap (λ rs. covers rs g) shape,
      adjacent,
      new.fits,
      new.count_pos,
      last-IsRange.count_pos,
    )

  -- A valid normalizer whose ranges end before a new range stays valid when `add_local_range` adds
  -- it, whether it makes the last range longer or pushes a new one.
  pub add_local_range-IsNormalized :
      IsNormalized (to_generation_count base + count) (add_local_range n base count)
  add_local_range-IsNormalized =
      go (add_local_range n base count) (add_local_range-Added n base count)
    where
      go :
          (m : SessionSpaceNormalizer)
          → Added n base count m
          → IsNormalized (to_generation_count base + count) m
      go m pushed = pushed-IsNormalized
      go m (merged front l k shape next) = merged-IsNormalized front l k shape next

  -- After `add_local_range` of a range behind those of a valid normalizer, a generation is held
  -- exactly if it was before or is in the new range.
  pub covers-add_local_range :
      (g : ℕ)
      → covers (add_local_range n base count).leading_locals g ≡ (
          covers n.leading_locals g
          || (leb (to_generation_count base) g && ltb g (to_generation_count base + count)))
  covers-add_local_range g = go (add_local_range n base count) (add_local_range-Added n base count)
    where
      go :
          (m : SessionSpaceNormalizer)
          → Added n base count m
          → covers m.leading_locals g ≡ (
              covers n.leading_locals g
              || (leb (to_generation_count base) g && ltb g (to_generation_count base + count)))
      go m pushed = ground (arith, covers-append n.leading_locals ((base, count) ∷ []) g)
      go m (merged front l k shape next) = merged-covers front l k shape next g
