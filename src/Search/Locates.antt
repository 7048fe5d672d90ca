-- ===== src/Search/Locates.antt =====
-- The search ends, and on a slice that the closure's order sorts its answer is right.
use Prim.Native.Nat.{Ordering}
use distributed_id_allocator.Common.{
  ℕ, zero, suc, ◌+◌, ◌-◌, ◌/◌, ◌≤◌, ◌<◌, ◌≡◌, ◌≢◌, refl, inl, inr, List, some, Run, done, panicked,
  Result, ok, err, ltb, Bool-cases, get_elem?, get_elem?-some, get_elem?_lt, length, arith,
}
use native.Mathlib.Decide.{dec_lt}
use distributed_id_allocator.Search.{search_loop, binary_search_by}

module _ {A : Type 0} (xs : List A) (order : A → Ordering) where
  -- The elements below the target, then those equal to it, then those above it.
  pub record IsGraded : Type 0 where
    pub less_before :
        (i j : ℕ) (x y : A)
        → i < j
        → get_elem? xs i ≡ some x
        → get_elem? xs j ≡ some y
        → order y ≡ Ordering.lt
        → order x ≡ Ordering.lt
    pub greater_after :
        (i j : ℕ) (x y : A)
        → i < j
        → get_elem? xs i ≡ some x
        → get_elem? xs j ≡ some y
        → order x ≡ Ordering.gt
        → order y ≡ Ordering.gt

  -- An index whose element is equal to the target, or no element is.
  abbrev pub Answers : Run (Result ℕ ℕ) → Type 0
  Answers panicked = ⊥
  Answers (done (ok i)) = (x : A) × (get_elem? xs i ≡ some x) × (order x ≡ Ordering.eq)
  Answers (done (err i)) = (j : ℕ) (x : A) → get_elem? xs j ≡ some x → order x ≢ Ordering.eq

  module _ (graded : IsGraded) where
    -- Everything left of the window is below the target, everything right of it above.
    record Window (left right : ℕ) : Type 0 where
      inside : right ≤ length xs
      below : (j : ℕ) (x : A) → j < left → get_elem? xs j ≡ some x → order x ≡ Ordering.lt
      above : (j : ℕ) (x : A) → right ≤ j → get_elem? xs j ≡ some x → order x ≡ Ordering.gt

    empty-Answers : (left right : ℕ) → Window left right → right ≤ left → Answers (done (err left))
    empty-Answers left right w h j x e same = elim (dec_lt j left) [
      | yes p ↦ cc (w.below j x p e)
      | no p ↦ cc (w.above j x (omega arith) e)
    ]

    same_element :
        (i j : ℕ) (x y : A) (o : Ordering)
        → i ≡ j
        → get_elem? xs i ≡ some x
        → get_elem? xs j ≡ some y
        → order x ≡ o
        → order y ≡ o
    same_element i j x y o f p q e = cc

    module _ (left right mid : ℕ) (x : A) (w : Window left right)
        (at_mid : get_elem? xs mid ≡ some x) where
      right_half : order x ≡ Ordering.lt → Window (mid + 1) right
      right_half e = record {
        inside = w.inside;
        below = λ j y h p. elim (dec_lt j mid) [
          | yes q ↦ graded.less_before j mid y x q p at_mid e
          | no q ↦ same_element mid j x y _ (omega arith) at_mid p e
        ];
        above = w.above;
      }

      left_half : order x ≡ Ordering.gt → Window left mid
      left_half e = record {
        inside = omega (arith, get_elem?_lt xs mid at_mid);
        below = w.below;
        above = λ j y k p. elim (dec_lt mid j) [
          | yes q ↦ graded.greater_after mid j x y q at_mid p e
          | no q ↦ same_element mid j x y _ (omega arith) at_mid p e
        ];
      }

    search_loop-Answers :
        (fuel left right size : ℕ)
        → size ≡ right - left
        → size ≤ fuel
        → Window left right
        → Answers (search_loop xs (λ x. done (order x)) fuel left right size)
    unfolding search_loop
    search_loop-Answers zero left right size e h w = elim (Bool-cases (ltb left right)) [
      | inl b ↦ absurd (ground arith)
      | inr b ↦ rw b (empty-Answers left right w (ground arith))
    ]
    search_loop-Answers (suc fuel) left right size e h w = elim (Bool-cases (ltb left right)) [
      | inl b ↦
          let mid : ℕ = left + size / 2 in
          let (x, at_mid) = get_elem?-some xs mid (ground arith) in
          elim (order x)
              as (λ o.
                order x ≡ o
                → Answers (search_loop xs (λ x. done (order x)) (suc fuel) left right size)) [
                  | Ordering.lt ↦ λ o.
                      rw (b, at_mid, o)
                        (search_loop-Answers fuel (mid + 1) right (right - (mid + 1)) refl
                          (ground arith) (right_half left right mid x w at_mid o))
                  | Ordering.gt ↦ λ o.
                      rw (b, at_mid, o)
                        (search_loop-Answers fuel left mid (mid - left) refl (ground arith)
                          (left_half left right mid x w at_mid o))
                  | Ordering.eq ↦ λ o. rw (b, at_mid, o) (x, at_mid, o)
                ]
            refl
      | inr b ↦ rw b (empty-Answers left right w (ground arith))
    ]

    pub binary_search_by-Answers : Answers (binary_search_by xs (λ x. done (order x)))
    unfolding binary_search_by
    binary_search_by-Answers =
        search_loop-Answers (length xs) 0 (length xs) (length xs) (omega arith) (omega arith)
          (record {
            inside = omega arith;
            below = λ j x h e. absurd (omega arith);
            above = λ j x h e. absurd (omega (arith, get_elem?_lt xs j e));
          })
