-- ===== src/Proxy/Durable.antt =====
-- What is kept on the nodes for the rows of the tables.
use nostr_storage_orchestrat.Common.{
  ◌≡◌, Bool, true, false, not, List, [], ◌∷◌, ◌++◌, String, any, keep, count, All, All-mono,
  Bool-cases, Option-cases, inl, inr, ◌==◌, string_eq, eq_iff, nat_eq, arith,
}
use nostr_storage_orchestrat.Db.{Blob, Db, has_hash}
use nostr_storage_orchestrat.Db.Blobs.Lookup.{LacksHash}
use nostr_storage_orchestrat.Db.Rows.{IsConsistent}
use nostr_storage_orchestrat.Proxy.Registry.{Registry, resolve}
use nostr_storage_orchestrat.Proxy.World.{Copy, is_copy, World, delete_copy, delete_copies}

abbrev pub is_cons : List String → Bool
is_cons [] = false
is_cons (r ∷ rs) = true

abbrev pub HasCopy : List Copy → String → String → Type 0
HasCopy copies hash replica = any (is_copy replica hash) copies ≡ true

-- There are replicas, and each holds the bytes of the hash.
abbrev pub AreHeld : List Copy → String → List String → Type 0
AreHeld copies hash replicas = (is_cons replicas ≡ true) × All (HasCopy copies hash) replicas

abbrev pub IsHeld : List Copy → Blob → Type 0
IsHeld copies b = AreHeld copies b.hash b.replicas

-- The tables agree, and the nodes hold the bytes of every row on each of its replicas.
pub record IsSound (db : Db) (copies : List Copy) : Type 0 where
  pub consistent : IsConsistent db
  pub durable : All (IsHeld copies) db.blobs

abbrev pub Sound : World → Type 0
Sound w = IsSound w.db w.copies

-- No row has the hash.
abbrev pub IsFree : String → List Blob → Type 0
IsFree hash bs = All (LacksHash hash) bs

any-append_left :
    {A : Type 0} (p : A → Bool) (xs ys : List A) → any p xs ≡ true → any p (xs ++ ys) ≡ true
any-append_left p [] ys h = cc
any-append_left p (x ∷ xs) ys h = ground (arith, any-append_left p xs ys)

pub any-append_right :
    {A : Type 0} (p : A → Bool) (xs ys : List A) → any p ys ≡ true → any p (xs ++ ys) ≡ true
any-append_right p [] ys h = h
any-append_right p (x ∷ xs) ys h = ground (arith, any-append_right p xs ys)

pub AreHeld-append :
    (copies more : List Copy) (hash : String) (replicas : List String)
    → AreHeld copies hash replicas
    → AreHeld (copies ++ more) hash replicas
AreHeld-append copies more hash replicas (some_left, held) = (
  some_left,
  All-mono (HasCopy copies hash) (HasCopy (copies ++ more) hash) replicas
      (λ r. any-append_left (is_copy r hash) copies more) held,
)

-- Deleting the bytes of one hash leaves those of another.
any-keep_other :
    (node hash replica other : String) (copies : List Copy)
    → (other == hash) ≡ false
    → any (is_copy node other) copies ≡ true
    → any (is_copy node other) (keep (λ c. not (is_copy replica hash c)) copies) ≡ true
any-keep_other node hash replica other [] d h = cc
any-keep_other node hash replica other (c ∷ copies) d h = ground (
  arith,
  any-keep_other node hash replica other copies d,
  eq_iff c.hash hash,
  eq_iff c.hash other,
  eq_iff other hash,
)

delete_copy_other :
    (deletes : String → Bool) (registry : Registry) (hash replica node other : String)
    (copies : List Copy)
    → (other == hash) ≡ false
    → HasCopy copies other node
    → HasCopy (delete_copy deletes registry hash replica copies) other node
delete_copy_other deletes registry hash replica node other copies d h =
    elim (Option-cases (resolve registry replica)) [
      | inl e ↦ rw (delete_copy, e) h
      | inr (server, e) ↦ elim (Bool-cases (deletes replica)) [
        | inl f ↦ rw (delete_copy, e, f) (any-keep_other node hash replica other copies d h)
        | inr f ↦ rw (delete_copy, e, f) h
      ]
    ]

delete_copies_other :
    (deletes : String → Bool) (registry : Registry) (hash : String) (replicas : List String)
    (node other : String) (copies : List Copy)
    → (other == hash) ≡ false
    → HasCopy copies other node
    → HasCopy (delete_copies deletes registry hash replicas copies) other node
unfolding delete_copies
delete_copies_other deletes registry hash [] node other copies d h = h
delete_copies_other deletes registry hash (replica ∷ replicas) node other copies d h =
    delete_copies_other deletes registry hash replicas node other
      (delete_copy deletes registry hash replica copies) d
      (delete_copy_other deletes registry hash replica node other copies d h)

-- Deleting the bytes of a hash that no row has leaves every row held.
pub durable-delete_copies :
    (deletes : String → Bool) (registry : Registry) (hash : String) (replicas : List String)
    (copies : List Copy) (bs : List Blob)
    → IsFree hash bs
    → All (IsHeld copies) bs
    → All (IsHeld (delete_copies deletes registry hash replicas copies)) bs
durable-delete_copies deletes registry hash replicas copies [] free h = tt
durable-delete_copies deletes registry hash replicas copies (b ∷ bs) free h = (
  (
    h.0.0,
    All-mono (HasCopy copies b.hash)
        (HasCopy (delete_copies deletes registry hash replicas copies) b.hash) b.replicas
        (λ r. delete_copies_other deletes registry hash replicas r b.hash copies free.0) h.0.1,
  ),
  durable-delete_copies deletes registry hash replicas copies bs free.1 h.1,
)

pub IsFree-count : (hash : String) (bs : List Blob) → count (has_hash hash) bs ≡ 0 → IsFree hash bs
IsFree-count hash [] h = tt
IsFree-count hash (b ∷ bs) h = elim (Bool-cases (has_hash hash b)) [
  | inl e ↦ ground arith
  | inr e ↦ (e, IsFree-count hash bs (ground arith))
]
