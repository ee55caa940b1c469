-- ===== src/Db/Blobs/Added.antt =====
-- What POST /blobs leaves of the rows: all of them, and at most one more.
use nostr_storage_orchestrat.Common.{
  ℕ, ◌≡◌, refl, Bool, true, ◌&&◌, List, [], ◌∷◌, ◌++◌, String, any, nat_eq, ◌==◌, string_eq,
}
use nostr_storage_orchestrat.Common.Int.{ℤ}
use nostr_storage_orchestrat.Common.Js.{Value, Runtime}
use nostr_storage_orchestrat.Db.{Blob, Db, Response, success, error, is_row}
use nostr_storage_orchestrat.Db.Blobs.{post_blobs}
use nostr_storage_orchestrat.Db.Blobs.Quota.{
  row_of, Posts, bad_size, no_account, duplicate, over_quota, unstorable, added, post_blobs-Posts,
}

-- `already_exists` as the caller reads it
abbrev pub is_duplicate : ℕ → String → Bool
is_duplicate status e = status == 409 && e == "already_exists"

pub data AddsRow (hash npub : String) (replicas : List String) (db : Db)
    (r : Response (Blob × ℤ) × Db) : Type 0 where
  unchanged :
      (status : ℕ) (e : String)
      → r ≡ (error status e, db)
      → (is_duplicate status e ≡ true → any (is_row hash npub) db.blobs ≡ true)
      → AddsRow hash npub replicas db r
  one_more :
      (n used : ℤ) (now : ℕ) (db' : Db)
      → r ≡ (success 201 (row_of hash npub n replicas now, used), db')
      → db'.blobs ≡ db.blobs ++ row_of hash npub n replicas now ∷ []
      → AddsRow hash npub replicas db r

Posts-AddsRow :
    {js : Runtime} {hash npub : String} {n : ℤ} {replicas : List String} {now : ℕ} {size : Value}
    {db : Db} {r : Response (Blob × ℤ) × Db}
    → Posts js (row_of hash npub n replicas now) size db r
    → AddsRow hash npub replicas db r
Posts-AddsRow (bad_size _ e) = unchanged 500 "internal_error" e (λ h. cc)
Posts-AddsRow (no_account _ _ e) = unchanged 404 "user_not_found" e (λ h. cc)
Posts-AddsRow (duplicate u _ _ dup e) = unchanged 409 "already_exists" e (λ h. dup)
Posts-AddsRow (over_quota u _ _ _ _ e) = unchanged 409 "quota_exceeded" e (λ h. cc)
Posts-AddsRow (unstorable u _ _ _ e) = unchanged 500 "internal_error" e (λ h. cc)
Posts-AddsRow (added u db' _ a _ e) = one_more _ _ _ db' e (rw a.effect refl)

-- POST /blobs adds the one row that it is asked for, with its hash, account and replicas, or answers an
-- error and changes nothing; it says that the row exists already only where it does.
pub post_blobs-AddsRow :
    (js : Runtime) (hash npub : String) (size : Value) (replicas : List String) (now : ℕ) (db : Db)
    → AddsRow hash npub replicas db (post_blobs js hash npub size replicas now db)
post_blobs-AddsRow js hash npub size replicas now db =
    Posts-AddsRow (post_blobs-Posts js hash npub size replicas now db).1
