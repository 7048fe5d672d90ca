-- ===== src/Tables/SessionMap/Order.antt =====
-- Reading the map after an insertion, and the greatest key of a range.
use distributed_id_allocator.Common.{
  ℕ, ◌≤◌, ◌<◌, ◌≡◌, refl, [], ◌∷◌, none, some, ◌&&◌, if◌then◌else◌, subst, some-injective, ◌∙◌, All,
  All-imp, Sorted, arith, Option-cases, Bool-cases, inl, inr,
}
use distributed_id_allocator.Ids.Stable.{SessionId, session_eq, stable_lt, stable_le}
use distributed_id_allocator.Tables.SessionSpace.{SessionSpaceRef}
use distributed_id_allocator.Tables.SessionMap.{SessionMap, map_get, map_insert, last_in_range}

-- The key as a number.
abbrev pub key_of : SessionId × SessionSpaceRef → ℕ
key_of e = e.0.id.id

abbrev pub IsAscending : SessionMap → Type 0
IsAscending = Sorted (λ a b. key_of a < key_of b)

-- A key that was not there reads back what was inserted, and every other key reads as before.
pub map_get-map_insert :
    (m : SessionMap) (key : SessionId) (value : SessionSpaceRef) (j : SessionId)
    → map_get m key ≡ none
    → map_get (map_insert m key value) j ≡ (if session_eq key j then some value else map_get m j)
unfolding map_get map_insert
map_get-map_insert [] key value j h = refl
map_get-map_insert ((k, v) ∷ m) key value j h = ground (arith, map_get-map_insert m key value j)

All-map_insert :
    (low : ℕ) (m : SessionMap) (key : SessionId) (value : SessionSpaceRef)
    → low < key.id.id
    → All (λ e. low < key_of e) m
    → All (λ e. low < key_of e) (map_insert m key value)
unfolding map_insert
All-map_insert low [] key value h a = (h, tt)
All-map_insert low ((k, v) ∷ m) key value h a = elim (Bool-cases (stable_lt key.id k.id)) [
  | inl b ↦ rw b (h, a)
  | inr b ↦ rw b (a.0, All-map_insert low m key value h a.1)
]

pub map_insert-IsAscending :
    (m : SessionMap) (key : SessionId) (value : SessionSpaceRef)
    → map_get m key ≡ none
    → IsAscending m
    → IsAscending (map_insert m key value)
unfolding map_get map_insert
map_insert-IsAscending [] key value h s = (tt, tt)
map_insert-IsAscending ((k, v) ∷ m) key value h s = elim (Bool-cases (stable_lt key.id k.id)) [
  | inl b ↦ rw b ((ground arith, All-imp m (λ e p. ground arith) s.0), s)
  | inr b ↦ rw b (
    All-map_insert k.id.id m key value (ground arith) s.0,
    map_insert-IsAscending m key value (ground arith) s.1,
  )
]

map_get_above :
    (m : SessionMap) (j : SessionId) {r : SessionSpaceRef} (low : ℕ)
    → All (λ e. low < key_of e) m
    → map_get m j ≡ some r
    → low < j.id.id
unfolding map_get
map_get_above [] j low a e = ground arith
map_get_above ((k, v) ∷ m) j {r} low a e = ground (arith, a.0, map_get_above m j {r = r} low a.1)

-- Whether a number lies in the range, its low end left out.
abbrev pub Within : SessionId → SessionId → ℕ → Type 0
Within low high k = (low.id.id < k) × (k ≤ high.id.id)

-- No entry of the range means that no key of the map lies in it.
pub last_in_range-none :
    (m : SessionMap) (low high j : SessionId) {r : SessionSpaceRef}
    → last_in_range m low high ≡ none
    → map_get m j ≡ some r
    → ¬ Within low high j.id.id
unfolding map_get last_in_range
last_in_range-none [] low high j e f w = ground arith
last_in_range-none ((k, v) ∷ m) low high j {r} e f w =
    ground (arith, last_in_range-none m low high j {r = r})

-- The entry returned is one of the map, it lies in the range, and no key in the range is greater.
pub record IsLast (m : SessionMap) (low high k : SessionId) (v : SessionSpaceRef) : Type 0 where
  pub present : map_get m k ≡ some v
  pub within : Within low high k.id.id
  pub greatest :
      (j : SessionId) (r : SessionSpaceRef)
      → map_get m j ≡ some r
      → Within low high j.id.id
      → j.id.id ≤ k.id.id

module _ (i : SessionId) (w : SessionSpaceRef) (m : SessionMap) (low high : SessionId) where
  IsLast-at_head :
      last_in_range m low high ≡ none → Within low high i.id.id → IsLast ((i, w) ∷ m) low high i w
  unfolding map_get
  IsLast-at_head n within = record {
    present = ground arith;
    within = within;
    greatest = λ j r p q. ground (arith, last_in_range-none m low high j {r = r} n);
  }

  IsLast-behind :
      (k : SessionId) (v : SessionSpaceRef)
      → All (λ e. i.id.id < key_of e) m
      → IsLast m low high k v
      → IsLast ((i, w) ∷ m) low high k v
  unfolding map_get
  IsLast-behind k v above last =
      let later = map_get_above m k i.id.id above last.present in
      record {
        present = ground (arith, last.present, later);
        within = last.within;
        greatest = λ j r p q. ground (arith, later, last.greatest j r);
      }

pub last_in_range-some :
    (m : SessionMap) (low high k : SessionId) (v : SessionSpaceRef)
    → IsAscending m
    → last_in_range m low high ≡ some (k, v)
    → IsLast m low high k v
unfolding last_in_range
last_in_range-some [] low high k v s e = ground arith
last_in_range-some ((i, w) ∷ m) low high k v s e = elim (Option-cases (last_in_range m low high)) [
  | inr (p, n) ↦
      IsLast-behind i w m low high k v s.0 (last_in_range-some m low high k v s.1 (n ∙ (rw n at e)))
  | inl n ↦ elim (Bool-cases (stable_lt low.id i.id && stable_le i.id high.id)) [
    | inl b ↦
        subst (λ p. IsLast ((i, w) ∷ m) low high p.0 p.1) (some-injective _ _ (rw (n, b) at e))
          (IsLast-at_head i w m low high n (ground arith))
    | inr b ↦ absurd (let e' : none ≡ some (k, v) = rw (n, b) at e in cc)
  ]
]
