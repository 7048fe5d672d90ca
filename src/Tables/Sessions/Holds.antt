-- ===== src/Tables/Sessions/Holds.antt =====
-- The three tables of `Sessions` agree: the list, the bytes and the map hold the same sessions.
use distributed_id_allocator.Common.{
  ℕ, zero, suc, ◌*◌, ◌^◌, ◌<◌, ◌≡◌, refl, sym, ap, ◌∙◌, List, [], ◌∷◌, ◌++◌, Option, none, some,
  done, length, length-append, get_elem?, All, All-get, arith,
}
use mathlib.Core.List.{append_assoc, append-nil}
use distributed_id_allocator.Bytes.{to_le_bytes}
use distributed_id_allocator.Bytes.RoundTrip.{
  length-to_le_bytes, from_le_bytes-to_le_bytes, slice_at,
}
use distributed_id_allocator.Ids.Stable.{SessionId}
use distributed_id_allocator.Tables.SessionSpace.{SessionSpaceRef}
use distributed_id_allocator.Tables.SessionMap.{map_get}
use distributed_id_allocator.Tables.SessionMap.Order.{IsAscending}
use distributed_id_allocator.Tables.Sessions.{Sessions, new_sessions, get_session_id}

-- The identifiers one after the other, sixteen bytes each.
abbrev pub id_bytes : List SessionId → List ℕ
id_bytes [] = []
id_bytes (i ∷ ids) = to_le_bytes 16 i.id.id ++ id_bytes ids

-- The tables hold the sessions `ids`, in the order of their references.
pub record Holds (s : Sessions) (ids : List SessionId) : Type 0 where
  pub bytes : s.session_ids ≡ id_bytes ids
  pub spaces : length s.session_list ≡ length ids
  pub wide : All (λ i. i.id.id < 2 ^ 128) ids
  pub ascending : IsAscending s.session_map
  pub refers :
      (key : SessionId) (r : SessionSpaceRef)
      → map_get s.session_map key ≡ some r
      → get_elem? ids r.index ≡ some key
  pub known :
      (key : SessionId) (i : ℕ)
      → get_elem? ids i ≡ some key
      → map_get s.session_map key ≡ some (record { index = i })

pub new_sessions-Holds : Holds new_sessions []
unfolding map_get
new_sessions-Holds = record {
  bytes = refl;
  spaces = refl;
  wide = tt;
  ascending = tt;
  refers = λ key r e. ground arith;
  known = λ key i e. ground arith;
}

length-id_bytes : (ids : List SessionId) → length (id_bytes ids) ≡ length ids * 16
length-id_bytes [] = omega arith
length-id_bytes (i ∷ ids) = omega (
  arith,
  length-append (to_le_bytes 16 i.id.id) (id_bytes ids),
  length-to_le_bytes 16 i.id.id,
  length-id_bytes ids,
)

-- The bytes of one identifier among the others.
record Placed (ids : List SessionId) (i : ℕ) (key : SessionId) : Type 0 where
  front : List ℕ
  back : List ℕ
  shape : id_bytes ids ≡ front ++ (to_le_bytes 16 key.id.id ++ back)
  offset : length front ≡ i * 16

get_elem?-Placed :
    (ids : List SessionId) (i : ℕ) (key : SessionId) → get_elem? ids i ≡ some key → Placed ids i key
get_elem?-Placed [] i key e = ground arith
get_elem?-Placed (k ∷ ids) zero key e = record {
  front = [];
  back = id_bytes ids;
  shape = ap (λ o. to_le_bytes 16 (id_of o) ++ id_bytes ids) e;
  offset = omega arith;
}
  where
    id_of : Option SessionId → ℕ
    id_of none = 0
    id_of (some k) = k.id.id
get_elem?-Placed (k ∷ ids) (suc i) key e =
    let p = get_elem?-Placed ids i key e in
    record {
      front = to_le_bytes 16 k.id.id ++ p.front;
      back = p.back;
      shape =
          ap (λ t. to_le_bytes 16 k.id.id ++ t) p.shape
          ∙ sym
              (append_assoc (to_le_bytes 16 k.id.id) p.front (to_le_bytes 16 key.id.id ++ p.back));
      offset = omega (
        arith,
        length-append (to_le_bytes 16 k.id.id) p.front,
        length-to_le_bytes 16 k.id.id,
        p.offset,
      );
    }

module _ (s : Sessions) (ids : List SessionId) (h : Holds s ids) where
  -- If the tables of the sessions agree, `get_session_id` reads the identifier of the session at a
  -- reference back from the bytes, without a panic.
  pub get_session_id_lem :
      (r : SessionSpaceRef) (key : SessionId)
      → get_elem? ids r.index ≡ some key
      → get_session_id s r ≡ done key
  unfolding get_session_id
  get_session_id_lem r key e =
      let p = get_elem?-Placed ids r.index key e in
      rw
        (
          h.bytes ∙ p.shape,
          slice_at p.front (to_le_bytes 16 key.id.id) p.back (r.index * 16) 16 (sym p.offset)
              (sym (length-to_le_bytes 16 key.id.id)),
          from_le_bytes-to_le_bytes 16 key.id.id
              (omega (arith, All-get (λ i. i.id.id < 2 ^ 128) ids r.index h.wide e)),
        )
        refl

pub id_bytes-append :
    (ids : List SessionId) (key : SessionId)
    → id_bytes (ids ++ (key ∷ [])) ≡ id_bytes ids ++ to_le_bytes 16 key.id.id
id_bytes-append [] key = append-nil _
id_bytes-append (i ∷ ids) key =
    ap (λ t. to_le_bytes 16 i.id.id ++ t) (id_bytes-append ids key)
    ∙ sym (append_assoc (to_le_bytes 16 i.id.id) (id_bytes ids) (to_le_bytes 16 key.id.id))
