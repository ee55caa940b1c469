-- ===== src/Db/Blobs/Scopes.antt =====
-- What DELETE /blobs/:hash answers, with what it leaves of the rows.
use nostr_storage_orchestrat.Common.{
  ℕ, ◌≡◌, refl, inl, inr, Bool, true, false, not, none, some, List, [], ◌∷◌, String, any, keep,
  count, Bool-cases, arith, ◌==◌, string_eq,
}
use nostr_storage_orchestrat.Common.Int.{ℤ}
use nostr_storage_orchestrat.Db.{
  Blob, Db, TxError, p2025, p2002, quota_exceeded, already_exists, db_error, entitlement_error, ok,
  Response, success, error, has_hash, is_row,
}
use nostr_storage_orchestrat.Db.Rows.{TxResult-cases, IsConsistent}
use nostr_storage_orchestrat.Db.Blobs.Removal.{delete_in_scope-Deletes}
use nostr_storage_orchestrat.Db.Blobs.{
  Scope, everyone, owner, in_scope, scope_of, owner_scope, remove_owners, settle_delete,
  delete_error, delete_in_scope, delete_blobs,
}

-- An error that changes nothing, or the rows of the scope gone, of which there was one.
pub data Removes (hash : String) (p : Blob → Bool) (db : Db) (r : Response (ℤ × ℕ) × Db)
    : Type 0 where
  kept : (status : ℕ) (e : String) → r ≡ (error status e, db) → Removes hash p db r
  gone :
      (used : ℤ) (remaining : ℕ) (db' : Db)
      → r ≡ (success 200 (used, remaining), db')
      → IsConsistent db'
      → db'.blobs ≡ keep (λ b. not (p b)) db.blobs
      → remaining ≡ count (has_hash hash) db'.blobs
      → any p db.blobs ≡ true
      → Removes hash p db r

any_of_keep : (p : Blob → Bool) (bs : List Blob) → any p bs ≡ false → keep p bs ≡ []
any_of_keep p [] h = refl
any_of_keep p (b ∷ bs) h = ground (arith, any_of_keep p bs)

delete_error_lem : (x : TxError) → (status : ℕ) × (e : String) × (delete_error x ≡ error status e)
unfolding delete_error
delete_error_lem p2025 = (404, "not_found", refl)
delete_error_lem p2002 = (500, "internal_error", refl)
delete_error_lem quota_exceeded = (500, "internal_error", refl)
delete_error_lem already_exists = (500, "internal_error", refl)
delete_error_lem db_error = (500, "internal_error", refl)
delete_error_lem (entitlement_error status e) = (500, "internal_error", refl)

remove_owners-any :
    (hash : String) (p : Blob → Bool) (db after : Db) (body : ℤ × ℕ)
    → remove_owners hash (keep p db.blobs) db ≡ ok body after
    → any p db.blobs ≡ true
unfolding remove_owners
remove_owners-any hash p db after body h = elim (Bool-cases (any p db.blobs)) [
  | inl e ↦ e
  | inr e ↦ let h' = rw (any_of_keep p db.blobs e) at h in cc
]

delete_in_scope-Removes :
    (hash : String) (scope : Scope) (db : Db)
    → IsConsistent db
    → Removes hash (in_scope hash scope) db (delete_in_scope hash scope db)
unfolding delete_in_scope settle_delete
delete_in_scope-Removes hash scope db c =
    elim (TxResult-cases (remove_owners hash (keep (in_scope hash scope) db.blobs) db)) [
      | inl (x, e) ↦
          let (status, text, f) = delete_error_lem x in
          kept status text (rw (delete_in_scope, e, settle_delete, f) refl)
      | inr ((used, n), after, e) ↦
          let answers : delete_in_scope hash scope db ≡ (success 200 (used, n), after) =
            rw (delete_in_scope, e, settle_delete) refl in
          let (agree, rows, counted) =
            delete_in_scope-Deletes hash scope db used n c (rw answers refl) in
          gone used n after answers (rw answers at agree) (rw answers at rows)
            (rw answers at counted)
            (remove_owners-any hash (in_scope hash scope) db after (used, n) e)
    ]

-- DELETE /blobs/:hash with an account removes that account's row of the hash and answers how many rows of
-- the hash remain, or answers an error and changes nothing.
pub delete_one-Removes :
    (hash npub : String) (db : Db)
    → IsConsistent db
    → Removes hash (is_row hash npub) db (delete_blobs hash (some npub) none db)
unfolding delete_blobs scope_of owner_scope
delete_one-Removes hash npub db c = elim (Bool-cases (npub == "")) [
  | inl e ↦ kept 400 "npub_or_all_required" (ground arith)
  | inr e ↦
      rw (delete_blobs, scope_of, owner_scope, e) (delete_in_scope-Removes hash (owner npub) db c)
]

-- DELETE /blobs/:hash with `all=true` removes every row of the hash, or answers an error and changes
-- nothing.
pub delete_all-Removes :
    (hash : String) (db : Db)
    → IsConsistent db
    → Removes hash (has_hash hash) db (delete_blobs hash none (some "true") db)
unfolding delete_blobs scope_of
delete_all-Removes hash db c = delete_in_scope-Removes hash everyone db c
