-- ===== src/Compressor/Equals/Parts.antt =====
-- The comparisons of `equals_test_only` on one chain, on one normalizer, and at the end of a final
-- space.
use distributed_id_allocator.Common.{
  ℕ, ◌≡◌, refl, List, [], ◌∷◌, ◌++◌, Bool, true, false, >>=-eq-done, done, arith, length,
}
use distributed_id_allocator.Ids.Local.{LocalId, local_eq}
use distributed_id_allocator.Tables.SessionSpace.{IdCluster, ClusterRef, cluster_eq}
use distributed_id_allocator.Tables.Sessions.{Sessions}
use distributed_id_allocator.Tables.Equals.{chain_eq, ref_equals_test_only, refs_equal, ranges_eq}

pub chain_eq_self : (ks : List IdCluster) → chain_eq ks ks ≡ true
unfolding chain_eq cluster_eq local_eq
chain_eq_self [] = refl
chain_eq_self (k ∷ ks) = ground (arith, chain_eq_self ks)

pub ranges_eq_self : (rs : List (LocalId × ℕ)) → ranges_eq rs rs ≡ true
unfolding ranges_eq local_eq
ranges_eq_self [] = refl
ranges_eq_self ((b, n) ∷ rs) = ground (arith, ranges_eq_self rs)

pub refs_equal-snoc :
    (xs ys : List ClusterRef) (x y : ClusterRef) (a b : Sessions)
    → length xs ≡ length ys
    → refs_equal xs ys a b ≡ done true
    → ref_equals_test_only x y a b ≡ done true
    → refs_equal (xs ++ (x ∷ [])) (ys ++ (y ∷ [])) a b ≡ done true
unfolding refs_equal
refs_equal-snoc [] [] x y a b n h last = rw last refl
refs_equal-snoc [] (_ ∷ ys) x y a b n h last = absurd (ground arith)
refs_equal-snoc (_ ∷ xs) [] x y a b n h last = absurd (ground arith)
refs_equal-snoc (u ∷ xs) (w ∷ ys) x y a b n h last =
    let (same, p, q) = >>=-eq-done (ref_equals_test_only u w a b) _ h in
    step same p q (λ r. refs_equal-snoc xs ys x y a b (omega (arith, n)) r last)
  where
    step :
        (same : Bool)
        → ref_equals_test_only u w a b ≡ done same
        → elim same [ false ↦ done false | true ↦ refs_equal xs ys a b ] ≡ done true
        → (refs_equal xs ys a b ≡ done true
            → refs_equal (xs ++ (x ∷ [])) (ys ++ (y ∷ [])) a b ≡ done true)
        → refs_equal ((u ∷ xs) ++ (x ∷ [])) ((w ∷ ys) ++ (y ∷ [])) a b ≡ done true
    step true p q later = rw p (later q)
    step false p q later = ground arith
