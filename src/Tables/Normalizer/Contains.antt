-- ===== src/Tables/Normalizer/Contains.antt =====
-- The normalizer as a set of generations: `contains` decides membership, `add_local_range` adds.
use distributed_id_allocator.Common.{
  ℕ, ◌+◌, ◌-◌, ◌^◌, ◌≤◌, ◌≡◌, refl, ap, ◌∙◌, List, [], ◌∷◌, Option, none, some, Bool, true, false,
  ◌&&◌, ◌||◌, Run, done, panicked, Result, ok, err, ◌>>=◌, ltb, leb, All, All-imp, All-get, Sorted,
  arith,
}
use distributed_id_allocator.Word.{sub_u64}
use distributed_id_allocator.Ids.Local.{LocalId, to_generation_count, local_sub}
use distributed_id_allocator.Ids.Local.Generations.{
  IsLocal, to_generation_count-local_sub, local_lt-generation,
}
use distributed_id_allocator.Search.Intervals.{
  place, binary_search_by-find_interval, find_interval, Before,
}
use distributed_id_allocator.Search.{found_at}
use distributed_id_allocator.Tables.Normalizer.{
  SessionSpaceNormalizer, compare_range, contains, is_ok,
}

abbrev pub start : LocalId × ℕ → ℕ
start r = to_generation_count r.0

abbrev pub size : LocalId × ℕ → ℕ
size r = r.1

pub record IsRange (r : LocalId × ℕ) : Type 0 where
  pub base_IsLocal : IsLocal r.0
  pub count_pos : 1 ≤ r.1
  pub fits : start r + r.1 ≤ 2 ^ 63

-- The ranges ascend without overlap and end before the generation `limit`.
pub record IsNormalized (limit : ℕ) (n : SessionSpaceNormalizer) : Type 0 where
  pub ranges : All IsRange n.leading_locals
  pub sorted : Sorted (Before start size) n.leading_locals
  pub below : All (λ r. start r + size r ≤ limit) n.leading_locals

-- Whether one of the ranges holds the generation.
abbrev pub covers : List (LocalId × ℕ) → ℕ → Bool
covers [] g = false
covers (r ∷ rs) g = (leb (start r) g && ltb g (start r + size r)) || covers rs g

compare_range-place :
    (l : LocalId) (r : LocalId × ℕ)
    → IsLocal l
    → IsRange r
    → compare_range l r ≡ place (start r) (size r) (to_generation_count l)
unfolding compare_range
compare_range-place l (base, count) h k =
    let n : ℕ = sub_u64 count 1 in
    let e : n ≡ count - 1 = omega (arith, k.count_pos, k.fits) in
    ground (
      arith,
      e,
      k.count_pos,
      k.fits,
      local_lt-generation l (local_sub base n) h,
      local_lt-generation base l k.base_IsLocal h,
      to_generation_count-local_sub base n k.base_IsLocal,
    )

abbrev is_some : Option (LocalId × ℕ) → Bool
is_some none = false
is_some (some _) = true

-- An answer that leads to an element is an `Ok`.
is_ok-found_at :
    (rs : List (LocalId × ℕ)) (m : Run (Result ℕ ℕ)) {o : Option (LocalId × ℕ)}
    → (m >>= found_at rs) ≡ done o
    → (m >>= λ found. done (is_ok found)) ≡ done (is_some o)
is_ok-found_at rs panicked e = ground arith
is_ok-found_at rs (done (err i)) e = ground arith
is_ok-found_at rs (done (ok i)) e = ground arith

covers-find_interval :
    (rs : List (LocalId × ℕ)) (g : ℕ) → is_some (find_interval start size g rs) ≡ covers rs g
covers-find_interval [] g = refl
covers-find_interval (r ∷ rs) g = ground (arith, covers-find_interval rs g)

-- On a valid normalizer the binary search of `contains` never panics, and it answers true for a
-- local ID exactly if one of the ranges holds its generation.
pub contains-covers :
    (limit : ℕ) (n : SessionSpaceNormalizer) (l : LocalId)
    → IsNormalized limit n
    → IsLocal l
    → contains n l ≡ done (covers n.leading_locals (to_generation_count l))
unfolding contains
contains-covers limit n l v h =
    let rs : List (LocalId × ℕ) = n.leading_locals in
    is_ok-found_at rs _ (
      binary_search_by-find_interval start size (to_generation_count l) rs
        (All-imp rs (λ r k. k.count_pos) v.ranges) v.sorted (λ r. done (compare_range l r))
        (λ i r e. ap done (compare_range-place l r h (All-get IsRange rs i v.ranges e))))
    ∙ ap done (covers-find_interval rs (to_generation_count l))

-- No range reaches the limit or a generation past it.
pub covers_below :
    (limit g : ℕ) (rs : List (LocalId × ℕ))
    → limit ≤ g
    → All (λ r. start r + size r ≤ limit) rs
    → covers rs g ≡ false
covers_below limit g [] h a = refl
covers_below limit g (r ∷ rs) h a = ground (arith, a.0, covers_below limit g rs h a.1)

-- A well-formed normalizer stays so under a later limit.
pub IsNormalized-mono :
    {n : SessionSpaceNormalizer} (limit limit' : ℕ)
    → limit ≤ limit'
    → IsNormalized limit n
    → IsNormalized limit' n
IsNormalized-mono {n} limit limit' h v = record {
  ranges = v.ranges;
  sorted = v.sorted;
  below = All-imp n.leading_locals (λ r p. omega arith) v.below;
}
