-- ===== src/Search/Agree.antt =====
-- The search asks its closure about elements of the slice only.
use Prim.Native.Nat.{Ordering}
use distributed_id_allocator.Common.{
  ℕ, zero, suc, ◌+◌, ◌-◌, ◌/◌, ◌≡◌, refl, inl, inr, List, some, Run, get_elem?, length,
  Option-cases, arith,
}
use distributed_id_allocator.Search.{search_loop, binary_search_by}

module _ {A : Type 0} (xs : List A) (f g : A → Run Ordering)
    (agree : (i : ℕ) (x : A) → get_elem? xs i ≡ some x → f x ≡ g x) where
  search_loop-agree :
      (fuel left right size : ℕ)
      → search_loop xs f fuel left right size ≡ search_loop xs g fuel left right size
  unfolding search_loop
  search_loop-agree zero left right size = refl
  search_loop-agree (suc fuel) left right size =
      let mid : ℕ = left + size / 2 in
      elim (Option-cases (get_elem? xs mid)) [
        | inl e ↦ rw e refl
        | inr (x, e) ↦
            rw (e, agree mid x e)
              (ground (
                arith,
                search_loop-agree fuel (mid + 1) right (right - (mid + 1)),
                search_loop-agree fuel left mid (mid - left),
              ))
      ]

  pub binary_search_by-agree : binary_search_by xs f ≡ binary_search_by xs g
  unfolding binary_search_by
  binary_search_by-agree = search_loop-agree (length xs) 0 (length xs) (length xs)
