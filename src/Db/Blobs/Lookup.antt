-- ===== src/Db/Blobs/Lookup.antt =====
-- GET /blobs/:hash: which row it answers with, and whom it names as owners.
use nostr_storage_orchestrat.Common.{
  ◌≡◌, refl, ◌∙◌, inl, inr, Bool, true, false, ◌||◌, List, [], ◌∷◌, String, any, keep, map, leb,
  All, All-keep, Bool-cases, ◌==◌, string_eq, arith,
}
use nostr_storage_orchestrat.Db.{Blob, Db, Response, success, error, has_hash, is_row}
use nostr_storage_orchestrat.Db.Blobs.{get_blob, sort_by_time, insert_by_time, owners_of}

abbrev pub LacksHash : String → Blob → Type 0
LacksHash hash b = has_hash hash b ≡ false

abbrev pub HasHash : String → Blob → Type 0
HasHash hash b = has_hash hash b ≡ true

module _ {ℓ} (P : Blob → Type ℓ) where
  All-insert_by_time : (b : Blob) (bs : List Blob) → P b → All P bs → All P (insert_by_time b bs)
  unfolding insert_by_time
  All-insert_by_time b [] p h = (p, tt)
  All-insert_by_time b (c ∷ cs) p h = elim (Bool-cases (leb b.created_at c.created_at)) [
    | inl e ↦ rw e (p, h)
    | inr e ↦ rw e (h.0, All-insert_by_time b cs p h.1)
  ]

  All-sort_by_time : (bs : List Blob) → All P bs → All P (sort_by_time bs)
  unfolding sort_by_time
  All-sort_by_time [] h = tt
  All-sort_by_time (b ∷ bs) h = All-insert_by_time b (sort_by_time bs) h.0 (All-sort_by_time bs h.1)

any-insert_by_time :
    (q : Blob → Bool) (b : Blob) (bs : List Blob) → any q (insert_by_time b bs) ≡ (q b || any q bs)
unfolding insert_by_time
any-insert_by_time q b [] = refl
any-insert_by_time q b (c ∷ cs) = ground (arith, any-insert_by_time q b cs)

any-sort_by_time : (q : Blob → Bool) (bs : List Blob) → any q (sort_by_time bs) ≡ any q bs
unfolding sort_by_time
any-sort_by_time q [] = refl
any-sort_by_time q (b ∷ bs) =
    ground (arith, any-insert_by_time q b (sort_by_time bs), any-sort_by_time q bs)

any-owners :
    (npub : String) (bs : List Blob)
    → any (λ o. o == npub) (map (λ (row : Blob). row.npub) bs) ≡ any (λ row. row.npub == npub) bs
any-owners npub [] = refl
any-owners npub (b ∷ bs) = ground (arith, any-owners npub bs)

any-keep_row :
    (hash npub : String) (bs : List Blob)
    → any (λ row. row.npub == npub) (keep (has_hash hash) bs) ≡ any (is_row hash npub) bs
any-keep_row hash npub [] = refl
any-keep_row hash npub (b ∷ bs) = ground (arith, any-keep_row hash npub bs)

All-keep_self : (hash : String) (bs : List Blob) → All (HasHash hash) (keep (has_hash hash) bs)
All-keep_self hash [] = tt
All-keep_self hash (b ∷ bs) = elim (Bool-cases (has_hash hash b)) [
  | inl e ↦ rw e (e, All-keep_self hash bs)
  | inr e ↦ rw e (All-keep_self hash bs)
]

insert_not_empty : (b : Blob) (bs : List Blob) → insert_by_time b bs ≡ [] → ⊥
unfolding insert_by_time
insert_not_empty b [] h = cc
insert_not_empty b (c ∷ cs) h = ground arith

keep_empty :
    (hash : String) (bs : List Blob)
    → sort_by_time (keep (has_hash hash) bs) ≡ []
    → All (LacksHash hash) bs
unfolding sort_by_time
keep_empty hash [] h = tt
keep_empty hash (b ∷ bs) h = elim (Bool-cases (has_hash hash b)) [
  | inl e ↦ absurd (insert_not_empty b (sort_by_time (keep (has_hash hash) bs)) (rw e at h))
  | inr e ↦ (e, keep_empty hash bs (rw e at h))
]

-- What the answer says of the rows.
pub data Finds (hash : String) (db : Db) (r : Response (Blob × List String)) : Type 1 where
  absent : All (LacksHash hash) db.blobs → r ≡ error 404 "not_found" → Finds hash db r
  found :
      (b : Blob) (owners : List String)
      → r ≡ success 200 (b, owners)
      → has_hash hash b ≡ true
      → ((P : Blob → Type 0) → All P db.blobs → P b)
      → ((npub : String) → any (λ o. o == npub) owners ≡ any (is_row hash npub) db.blobs)
      → Finds hash db r

owners_of-Finds :
    (hash : String) (db : Db) (rows : List Blob)
    → sort_by_time (keep (has_hash hash) db.blobs) ≡ rows
    → Finds hash db (owners_of rows)
unfolding owners_of
owners_of-Finds hash db [] e = absent (keep_empty hash db.blobs e) refl
owners_of-Finds hash db (b ∷ bs) e =
    let kept = keep (has_hash hash) db.blobs in
    let hashes : All (HasHash hash) (sort_by_time kept) =
      All-sort_by_time (HasHash hash) kept (All-keep_self hash db.blobs) in
    found b _ refl (rw e at hashes).0
      (λ P h.
        let good : All P (sort_by_time kept) =
          All-sort_by_time P kept (All-keep P (has_hash hash) db.blobs h) in
        (rw e at good).0)
      (λ npub.
        let sorted : any (λ row. row.npub == npub) (sort_by_time kept)
            ≡ any (λ row. row.npub == npub) kept =
          any-sort_by_time (λ row. row.npub == npub) kept in
        any-owners npub (b ∷ bs) ∙ (rw e at sorted) ∙ any-keep_row hash npub db.blobs)

-- GET /blobs/:hash is 404 exactly where no row has the hash; otherwise it answers with one of the rows
-- of the hash, and the owners that it names are exactly the accounts with a row of the hash.
pub get_blob-Finds : (hash : String) (db : Db) → Finds hash db (get_blob hash db)
unfolding get_blob
get_blob-Finds hash db = owners_of-Finds hash db _ refl
