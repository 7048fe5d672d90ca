-- ===== src/Search/Intervals.antt =====
-- Elements that stand for intervals of numbers, one after the other: clusters by their local or
-- final IDs, and the normalizer's ranges.
use Prim.Native.Nat.{Ordering}
use distributed_id_allocator.Common.{
  ℕ, zero, suc, ◌+◌, ◌-◌, ◌≤◌, ◌<◌, ◌≡◌, refl, ◌∙◌, ap, List, [], ◌∷◌, Option, some, none, ◌&&◌,
  Run, done, ◌>>=◌, ltb, leb, if◌then◌else◌, get_elem?, All, All-get, Sorted, Sorted-get, arith,
  Bool-cases, inl, inr,
}
use distributed_id_allocator.Search.{binary_search_by, found_at}
use distributed_id_allocator.Search.Locates.{IsGraded}
use distributed_id_allocator.Search.First.{find_first, IsUnique, binary_search_by-find_first}
use distributed_id_allocator.Search.Agree.{binary_search_by-agree}

-- Where the interval of `size` numbers from `low` on lies, seen from `target`.
abbrev pub place : ℕ → ℕ → ℕ → Ordering
place low size target =
    if ltb (low + size - 1) target
    then Ordering.lt
    else if ltb target low
    then Ordering.gt
    else Ordering.eq

module _ {A : Type 0} (low size : A → ℕ) where
  -- One interval ends before the other begins.
  abbrev pub Before : A → A → Type 0
  Before x y = low x + size x ≤ low y

  abbrev pub IsPositive : A → Type 0
  IsPositive x = 1 ≤ size x

  -- The interval that holds the target, by a walk from the front.
  abbrev pub find_interval : ℕ → List A → Option A
  find_interval target [] = none
  find_interval target (x ∷ xs) =
      if leb (low x) target && ltb target (low x + size x) then some x else find_interval target xs

  abbrev pub place_of : ℕ → A → Ordering
  place_of target x = place (low x) (size x) target

  find_first-place :
      (target : ℕ) (xs : List A)
      → All IsPositive xs
      → find_first (place_of target) xs ≡ find_interval target xs
  find_first-place target [] p = refl
  find_first-place target (x ∷ xs) p = ground (arith, p.0, find_first-place target xs p.1)

  module _ (target : ℕ) (xs : List A) (positive : All IsPositive xs)
      (sorted : Sorted Before xs) where
    intervals-IsGraded : IsGraded xs (place_of target)
    intervals-IsGraded = record {
      less_before = λ i j x y h p q e.
          ground (arith, Sorted-get Before xs i j sorted h p q, All-get IsPositive xs j positive q);
      greater_after = λ i j x y h p q e.
          ground (arith, Sorted-get Before xs i j sorted h p q, All-get IsPositive xs i positive p);
    }

    intervals-IsUnique : IsUnique (place_of target) xs
    intervals-IsUnique i j x y h p q e f = ground (
      arith,
      Sorted-get Before xs i j sorted h p q,
      All-get IsPositive xs i positive p,
      All-get IsPositive xs j positive q,
    )

    -- On sorted intervals any closure that places them by their bounds finds the one that holds the
    -- target.
    pub binary_search_by-find_interval :
        (compare : A → Run Ordering)
        → ((i : ℕ) (x : A) → get_elem? xs i ≡ some x → compare x ≡ done (place_of target x))
        → (binary_search_by xs compare >>= found_at xs) ≡ done (find_interval target xs)
    binary_search_by-find_interval compare agree =
        ap (λ r. r >>= found_at xs)
          (binary_search_by-agree xs compare (λ x. done (place_of target x)) agree)
        ∙ binary_search_by-find_first (place_of target) xs intervals-IsGraded intervals-IsUnique
        ∙ ap done (find_first-place target xs positive)

  -- What is found holds the target, and stands in the list.
  pub find_interval_sound :
      (target : ℕ) (xs : List A) {x : A}
      → find_interval target xs ≡ some x
      → (i : ℕ) × (get_elem? xs i ≡ some x) × (low x ≤ target) × (target < low x + size x)
  find_interval_sound target [] e = ground arith
  find_interval_sound target (x ∷ xs) e =
      elim (Bool-cases (leb (low x) target && ltb target (low x + size x))) [
        | inl b ↦ (0, ground arith, ground arith, ground arith)
        | inr b ↦ let r = find_interval_sound target xs (rw b at e) in (suc r.0, r.1, r.2, r.3)
      ]

  -- An element that holds the target is what is found.
  pub find_interval_complete :
      (target : ℕ) (xs : List A) (i : ℕ) (x : A)
      → Sorted Before xs
      → get_elem? xs i ≡ some x
      → low x ≤ target
      → target < low x + size x
      → find_interval target xs ≡ some x
  find_interval_complete target [] i x s e h k = ground arith
  find_interval_complete target (y ∷ xs) zero x s e h k = ground arith
  find_interval_complete target (y ∷ xs) (suc i) x s e h k =
      ground (arith, All-get (Before y) xs i s.0 e, find_interval_complete target xs i x s.1 e h k)
