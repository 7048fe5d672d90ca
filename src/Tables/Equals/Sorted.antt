-- ===== src/Tables/Equals/Sorted.antt =====
-- Two lists of sessions without repetition that hold the same ones are the same when sorted.
use distributed_id_allocator.Common.{
  ◌<◌, ◌≡◌, refl, sym, ap, ap₂, subst, ◌∙◌, List, [], ◌∷◌, false, arith, All, All-imp, Sorted,
  if◌then◌else◌, ◌⊎◌, inl, inr, Bool-cases,
}
use distributed_id_allocator.Ids.Stable.{SessionId, session_eq, stable_lt}

abbrev pub In : SessionId → List SessionId → Type 0
In k [] = ⊥
In k (x ∷ xs) = (k ≡ x) ⊎ In k xs

abbrev pub insert_key : SessionId → List SessionId → List SessionId
insert_key x [] = x ∷ []
insert_key x (y ∷ ys) =
    let rest = insert_key x ys in if stable_lt y.id x.id then y ∷ rest else x ∷ y ∷ ys

abbrev pub sort_keys : List SessionId → List SessionId
sort_keys [] = []
sort_keys (x ∷ xs) = insert_key x (sort_keys xs)

abbrev IsAscending : List SessionId → Type 0
IsAscending = Sorted (λ a b. a.id.id < b.id.id)

In-insert_key : (k x : SessionId) (xs : List SessionId) → In k (insert_key x xs) → (k ≡ x) ⊎ In k xs
In-insert_key k x [] h = h
In-insert_key k x (y ∷ ys) h = elim (Bool-cases (stable_lt y.id x.id)) [
  | inl b ↦ step (rw b at h) (In-insert_key k x ys)
  | inr b ↦ rw b at h
]
  where
    step :
        (k ≡ y) ⊎ In k (insert_key x ys)
        → (In k (insert_key x ys) → (k ≡ x) ⊎ In k ys)
        → (k ≡ x) ⊎ (k ≡ y) ⊎ In k ys
    step (inl e) later = inr (inl e)
    step (inr r) later = elim (later r) [ inl e ↦ inl e | inr q ↦ inr (inr q) ]

insert_key-In : (k x : SessionId) (xs : List SessionId) → (k ≡ x) ⊎ In k xs → In k (insert_key x xs)
insert_key-In k x [] h = h
insert_key-In k x (y ∷ ys) h = elim (Bool-cases (stable_lt y.id x.id)) [
  | inl b ↦ rw b (step h (insert_key-In k x ys))
  | inr b ↦ rw b h
]
  where
    step :
        (k ≡ x) ⊎ (k ≡ y) ⊎ In k ys
        → ((k ≡ x) ⊎ In k ys → In k (insert_key x ys))
        → (k ≡ y) ⊎ In k (insert_key x ys)
    step (inl e) later = inr (later (inl e))
    step (inr (inl e)) later = inl e
    step (inr (inr q)) later = inr (later (inr q))

pub In-sort_keys : (k : SessionId) (xs : List SessionId) → In k (sort_keys xs) → In k xs
In-sort_keys k [] h = h
In-sort_keys k (x ∷ xs) h = elim (In-insert_key k x (sort_keys xs) h) [
  | inl e ↦ inl e
  | inr q ↦ inr (In-sort_keys k xs q)
]

sort_keys-In : (k : SessionId) (xs : List SessionId) → In k xs → In k (sort_keys xs)
sort_keys-In k [] h = h
sort_keys-In k (x ∷ xs) (inl e) = insert_key-In k x (sort_keys xs) (inl e)
sort_keys-In k (x ∷ xs) (inr q) = insert_key-In k x (sort_keys xs) (inr (sort_keys-In k xs q))

module _ (P : SessionId → Type 0) where
  pub All-In : (xs : List SessionId) → ((k : SessionId) → In k xs → P k) → All P xs
  All-In [] h = tt
  All-In (x ∷ xs) h = (h x (inl refl), All-In xs (λ k q. h k (inr q)))

  pub In-All : (xs : List SessionId) (k : SessionId) → All P xs → In k xs → P k
  In-All [] k a h = elim h [ ]
  In-All (x ∷ xs) k a (inl e) = subst P (sym e) a.0
  In-All (x ∷ xs) k a (inr q) = In-All xs k a.1 q

insert_key-IsAscending :
    (x : SessionId) (xs : List SessionId)
    → All (λ y. session_eq x y ≡ false) xs
    → IsAscending xs
    → IsAscending (insert_key x xs)
insert_key-IsAscending x [] a s = (tt, tt)
insert_key-IsAscending x (y ∷ ys) a s = elim (Bool-cases (stable_lt y.id x.id)) [
  | inl b ↦ rw b (
    All-In (λ k. y.id.id < k.id.id) (insert_key x ys)
        (λ k q. elim (In-insert_key k x ys q) [
          | inl e ↦ subst (λ z. y.id.id < z.id.id) (sym e) (ground arith)
          | inr r ↦ In-All (λ z. y.id.id < z.id.id) ys k s.0 r
        ]),
    insert_key-IsAscending x ys a.1 s.1,
  )
  | inr b ↦
      let ne = a.0 in
      let first : x.id.id < y.id.id = ground (arith, b, ne) in
      rw b ((first, All-imp ys (λ z p. omega (arith, first, p)) s.0), s)
]

sort_keys-IsAscending :
    (xs : List SessionId) → Sorted (λ a b. session_eq a b ≡ false) xs → IsAscending (sort_keys xs)
sort_keys-IsAscending [] d = tt
sort_keys-IsAscending (x ∷ xs) d =
    insert_key-IsAscending x (sort_keys xs)
      (All-In (λ y. session_eq x y ≡ false) (sort_keys xs)
        (λ k q. In-All (λ y. session_eq x y ≡ false) xs k d.0 (In-sort_keys k xs q)))
      (sort_keys-IsAscending xs d.1)

ascending_unique :
    (xs ys : List SessionId)
    → IsAscending xs
    → IsAscending ys
    → ((k : SessionId) → In k xs → In k ys)
    → ((k : SessionId) → In k ys → In k xs)
    → xs ≡ ys
ascending_unique [] [] s t p q = refl
ascending_unique [] (y ∷ ys) s t p q = absurd (q y (inl refl))
ascending_unique (x ∷ xs) [] s t p q = absurd (p x (inl refl))
ascending_unique (x ∷ xs) (y ∷ ys) s t p q =
    let heads : x ≡ y = same (p x (inl refl)) (q y (inl refl)) in
    ap₂ (λ k ks. k ∷ ks) heads
      (ascending_unique xs ys s.1 t.1
        (λ k r. below x k y ys (In-All (λ z. x.id.id < z.id.id) xs k s.0 r) heads (p k (inr r)))
        (λ k r.
          below y k x xs (In-All (λ z. y.id.id < z.id.id) ys k t.0 r) (sym heads) (q k (inr r))))
  where
    same : In x (y ∷ ys) → In y (x ∷ xs) → x ≡ y
    same (inl e) r = e
    same (inr a) (inl e) = sym e
    same (inr a) (inr b) =
        let lt = In-All (λ z. y.id.id < z.id.id) ys x t.0 a in
        let gt = In-All (λ z. x.id.id < z.id.id) xs y s.0 b in absurd (omega (arith, lt, gt))

    below :
        (a k b : SessionId) (ks : List SessionId)
        → a.id.id < k.id.id
        → a ≡ b
        → In k (b ∷ ks)
        → In k ks
    below a k b ks lt e (inl f) =
        let n = ap (λ z. z.id.id) (f ∙ sym e) in absurd (omega (arith, lt, n))
    below a k b ks lt e (inr r) = r

-- The order of the two lists does not count.
pub sort_keys-same :
    (xs ys : List SessionId)
    → Sorted (λ a b. session_eq a b ≡ false) xs
    → Sorted (λ a b. session_eq a b ≡ false) ys
    → ((k : SessionId) → In k xs → In k ys)
    → ((k : SessionId) → In k ys → In k xs)
    → sort_keys xs ≡ sort_keys ys
sort_keys-same xs ys d e p q =
    ascending_unique (sort_keys xs) (sort_keys ys) (sort_keys-IsAscending xs d)
      (sort_keys-IsAscending ys e) (λ k r. sort_keys-In k ys (p k (In-sort_keys k xs r)))
      (λ k r. sort_keys-In k xs (q k (In-sort_keys k ys r)))
