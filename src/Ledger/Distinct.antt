-- ===== src/Ledger/Distinct.antt =====
-- No session stands twice among those of the tables.
use distributed_id_allocator.Common.{
  ℕ, zero, suc, ◌≡◌, refl, List, [], ◌∷◌, some, true, false, arith, get_elem?, All, Sorted,
  Bool-cases, inl, inr,
}
use distributed_id_allocator.Ids.Stable.{SessionId, session_eq}
use distributed_id_allocator.Tables.Sessions.{Sessions}
use distributed_id_allocator.Tables.Sessions.Holds.{Holds}
use distributed_id_allocator.Ledger.Writes.{Holds-distinct}

abbrev pub IsDistinct : List SessionId → Type 0
IsDistinct = Sorted (λ a b. session_eq a b ≡ false)

pub All-from {ℓ κ} :
    {A : Type ℓ} (P : A → Type κ) (xs : List A)
    → ((i : ℕ) (x : A) → get_elem? xs i ≡ some x → P x)
    → All P xs
All-from P [] h = tt
All-from P (x ∷ xs) h = (h 0 x refl, All-from P xs (λ i. h (suc i)))

IsDistinct-from :
    (ids : List SessionId)
    → ((i j : ℕ) (a b : SessionId)
        → get_elem? ids i ≡ some a
        → get_elem? ids j ≡ some b
        → session_eq a b ≡ true
        → i ≡ j)
    → IsDistinct ids
IsDistinct-from [] h = tt
IsDistinct-from (x ∷ xs) h = (
  All-from (λ b. session_eq x b ≡ false) xs
      (λ j b e. elim (Bool-cases (session_eq x b)) [
        | inl same ↦ let clash : zero ≡ suc j = h 0 (suc j) x b refl e same in ground arith
        | inr apart ↦ apart
      ]),
  IsDistinct-from xs
      (λ i j a b e f same. let n = h (suc i) (suc j) a b e f same in omega (arith, n)),
)

-- No session is in the tables twice.
pub Holds-IsDistinct : {s : Sessions} {ids : List SessionId} → Holds s ids → IsDistinct ids
Holds-IsDistinct {ids = ids} h = IsDistinct-from ids (Holds-distinct h)
