-- ===== src/Search/First.antt =====
-- The binary search against the plain one: where at most one element is equal to the target, both
-- find the same.
use Prim.Native.Nat.{Ordering}
use distributed_id_allocator.Common.{
  ℕ, zero, suc, ◌<◌, ◌≡◌, ◌≢◌, refl, List, [], ◌∷◌, Option, some, none, Run, done, panicked, Result,
  ok, err, ◌>>=◌, get_elem?, arith,
}
use distributed_id_allocator.Search.{binary_search_by, found_at}
use distributed_id_allocator.Search.Locates.{IsGraded, Answers, binary_search_by-Answers}

module _ {A : Type 0} (order : A → Ordering) where
  -- The first element that is equal to the target, by a walk from the front.
  abbrev pub find_first : List A → Option A
  find_first [] = none
  find_first (x ∷ xs) =
      let rest = find_first xs in elim (order x) [ Ordering.eq ↦ some x | _ ↦ rest ]

  -- No two places hold an element that is equal to the target.
  abbrev pub IsUnique : List A → Type 0
  IsUnique xs =
      (i j : ℕ) (x y : A)
      → i < j
      → get_elem? xs i ≡ some x
      → get_elem? xs j ≡ some y
      → order x ≡ Ordering.eq
      → order y ≢ Ordering.eq

  find_first-none :
      (xs : List A)
      → ((j : ℕ) (x : A) → get_elem? xs j ≡ some x → order x ≢ Ordering.eq)
      → find_first xs ≡ none
  find_first-none [] h = refl
  find_first-none (x ∷ xs) h =
      ground (arith, h 0 x refl, find_first-none xs (λ j y e. h (suc j) y e))

  find_first-some :
      (xs : List A) (i : ℕ) (x : A)
      → IsUnique xs
      → get_elem? xs i ≡ some x
      → order x ≡ Ordering.eq
      → find_first xs ≡ some x
  find_first-some [] i x u e o = ground arith
  find_first-some (y ∷ xs) zero x u e o = ground arith
  find_first-some (y ∷ xs) (suc i) x u e o = ground (
    arith,
    u 0 (suc i) y x (omega arith) refl e,
    find_first-some xs i x (λ i j p q h. u (suc i) (suc j) p q (omega arith)) e o,
  )

  module _ (xs : List A) (graded : IsGraded xs order) (unique : IsUnique xs) where
    Answers-found_at :
        (r : Run (Result ℕ ℕ)) → Answers xs order r → (r >>= found_at xs) ≡ done (find_first xs)
    Answers-found_at panicked a = absurd a
    Answers-found_at (done (ok i)) (x, e, o) = rw (e, find_first-some xs i x unique e o)
    Answers-found_at (done (err i)) a = rw (find_first-none xs a)

    pub binary_search_by-find_first :
        (binary_search_by xs (λ x. done (order x)) >>= found_at xs) ≡ done (find_first xs)
    binary_search_by-find_first =
        Answers-found_at (binary_search_by xs (λ x. done (order x)))
          (binary_search_by-Answers xs order graded)
