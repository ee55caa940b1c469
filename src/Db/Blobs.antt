-- ===== src/Db/Blobs.antt =====
-- packages/db/src/index.ts: the routes on /blobs. A body's `hash`, `npub` and `replicas` have the
-- types that the code declares for them; the times are those of the database's clock.
pub mod Accounting
pub mod Quota
pub mod Rounds
pub mod Removal
pub mod Scopes
pub mod Growth
pub mod Lookup
pub mod Added
use nostr_storage_orchestrat.Common.{
  ℕ, Bool, true, false, not, ◌&&◌, ◌||◌, Option, none, some, List, [], ◌∷◌, String, any, keep,
  count, map, leb, ◌==◌, string_eq, if◌then◌else◌, find,
}
use nostr_storage_orchestrat.Common.Int.{ℤ, pos, ltb_ℤ, ◌+ℤ◌, ◌-ℤ◌}
use nostr_storage_orchestrat.Common.Js.{Value, Runtime}
use nostr_storage_orchestrat.Db.{
  User, Blob, Db, TxError, p2025, p2002, quota_exceeded, already_exists, db_error,
  entitlement_error, TxResult, ok, fail, Tx, ◌>>=◌, ◌>>◌, pure, throw, throw_if, Response, success,
  error, has_npub, is_row, has_hash, is_owned, update_user, create_blob, delete_row,
}

-- `SELECT … FROM "user" WHERE npub = … FOR UPDATE`, and the error for no row
lock_user : String → Tx User
lock_user npub db = elim (find (has_npub npub) db.users) [ none ↦ fail p2025 | some u ↦ ok u db ]

abbrev pub exceeds : User → ℤ → Bool
exceeds u size = elim u.storage_bytes [
  | none ↦ false
  | some allowance ↦ ltb_ℤ allowance (u.used_storage +ℤ size)
]

abbrev pub bill : ℤ → User → User
bill size u = record u { used_storage = u.used_storage +ℤ size }

-- The transaction of POST /blobs.
unfoldable pub add_owner : Blob → Tx (Blob × User)
unfolding lock_user
add_owner b = do
  current ← lock_user b.npub
  db_has_row ← (λ db. ok (any (is_row b.hash b.npub) db.blobs) db)
  throw_if db_has_row already_exists
  throw_if (exceeds current b.size) quota_exceeded
  blob ← create_blob b
  user ← update_user b.npub (bill b.size)
  pure (blob, user)

-- The `catch` of POST /blobs.
post_error : TxError → Response (Blob × ℤ)
post_error quota_exceeded = error 409 "quota_exceeded"
post_error already_exists = error 409 "already_exists"
post_error p2025 = error 404 "user_not_found"
post_error p2002 = error 409 "already_exists"
post_error _ = error 500 "internal_error"

-- A failed transaction leaves the database as it was.
settle_post : Db → TxResult (Blob × User) → Response (Blob × ℤ) × Db
unfolding post_error
settle_post db (ok (blob, user) db') = (success 201 (blob, user.used_storage), db')
settle_post db (fail e) = (post_error e, db)

-- POST /blobs. The body of a success is the row with the owner's new `usedStorage`.
unfoldable pub post_blobs :
    Runtime → String → String → Value → List String → ℕ → Db → Response (Blob × ℤ) × Db
unfolding add_owner settle_post
post_blobs js hash npub size replicas now db = elim (js.big_int size) [
  | none ↦ (error 500 "internal_error", db)
  | some n ↦
      let b : Blob = record {
        hash = hash;
        npub = npub;
        size = n;
        replicas = replicas;
        created_at = now;
      } in
      settle_post db (add_owner b db)
]

-- `ORDER BY created_at ASC`; rows of one time stay in the order of their insertion
unfoldable pub insert_by_time : Blob → List Blob → List Blob
insert_by_time b [] = b ∷ []
insert_by_time b (c ∷ cs) =
    let rest = insert_by_time b cs in if leb b.created_at c.created_at then b ∷ c ∷ cs else c ∷ rest

unfoldable pub sort_by_time : List Blob → List Blob
unfolding insert_by_time
sort_by_time [] = []
sort_by_time (b ∷ bs) = insert_by_time b (sort_by_time bs)

unfoldable pub owners_of : List Blob → Response (Blob × List String)
owners_of [] = error 404 "not_found"
owners_of (b ∷ bs) = success 200 (b, map (λ (row : Blob). row.npub) (b ∷ bs))

-- GET /blobs/:hash
unfoldable pub get_blob : String → Db → Response (Blob × List String)
unfolding sort_by_time owners_of
get_blob hash db = owners_of (sort_by_time (keep (has_hash hash) db.blobs))

abbrev pub refund : ℤ → User → User
refund size u = record u { used_storage = u.used_storage -ℤ size }

-- The loop over the rows; the last owner's usage is what it returns.
unfoldable pub remove_rows : ℤ → List Blob → Tx ℤ
remove_rows last_used [] = pure last_used
remove_rows last_used (row ∷ rows) = do
  delete_row row.hash row.npub
  user ← update_user row.npub (refund row.size)
  remove_rows user.used_storage rows

-- The transaction of DELETE /blobs/:hash on the rows that the query selects.
unfoldable pub remove_owners : String → List Blob → Tx (ℤ × ℕ)
unfolding remove_rows
remove_owners hash [] = throw p2025
remove_owners hash (row ∷ rows) = do
  last_used ← remove_rows (pos 0) (row ∷ rows)
  remaining ← (λ db. ok (count (has_hash hash) db.blobs) db)
  pure (last_used, remaining)

delete_error : TxError → Response (ℤ × ℕ)
delete_error p2025 = error 404 "not_found"
delete_error _ = error 500 "internal_error"

settle_delete : Db → TxResult (ℤ × ℕ) → Response (ℤ × ℕ) × Db
unfolding delete_error
settle_delete db (ok body db') = (success 200 body, db')
settle_delete db (fail e) = (delete_error e, db)

-- Whom DELETE /blobs/:hash removes: `?all=true`, or one owner.
pub data Scope : Type 0 where
  everyone : Scope
  owner : String → Scope

abbrev pub in_scope : String → Scope → Blob → Bool
in_scope hash everyone b = has_hash hash b
in_scope hash (owner npub) b = is_row hash npub b

owner_scope : Option String → Option Scope
owner_scope none = none
owner_scope (some npub) = if npub == "" then none else some (owner npub)

-- The query string's `npub` and `all`; an empty `npub` is falsy.
scope_of : Option String → Option String → Option Scope
unfolding owner_scope
scope_of npub none = owner_scope npub
scope_of npub (some all) = if all == "true" then some everyone else owner_scope npub

unfoldable pub delete_in_scope : String → Scope → Db → Response (ℤ × ℕ) × Db
unfolding remove_owners settle_delete
delete_in_scope hash scope db =
    settle_delete db (remove_owners hash (keep (in_scope hash scope) db.blobs) db)

-- DELETE /blobs/:hash. The body of a success is the last owner's usage and the owners that remain.
unfoldable pub delete_blobs : String → Option String → Option String → Db → Response (ℤ × ℕ) × Db
unfolding scope_of delete_in_scope
delete_blobs hash npub all db = elim (scope_of npub all) [
  | none ↦ (error 400 "npub_or_all_required", db)
  | some scope ↦ delete_in_scope hash scope db
]
