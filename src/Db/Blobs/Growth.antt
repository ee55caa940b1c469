-- ===== src/Db/Blobs/Growth.antt =====
-- The /blobs routes lose no payment and no account, and keep the keys of both distinct.
use nostr_storage_orchestrat.Common.{
  ℕ, ◌≡◌, refl, not, Option, List, [], ◌∷◌, ◌++◌, String, keep, inl, inr, Option-cases, arith,
}
use nostr_storage_orchestrat.Common.Int.{ℤ, pos}
use nostr_storage_orchestrat.Common.Js.{Value, Runtime}
use nostr_storage_orchestrat.Db.{Blob, Db, ok, Response, has_npub, is_row}
use nostr_storage_orchestrat.Db.Rows.{TxResult-cases}
use nostr_storage_orchestrat.Db.Grows.{Grows, Grows-refl, Grows-trans, Grows-update}
use nostr_storage_orchestrat.Db.Blobs.Accounting.{without_row}
use nostr_storage_orchestrat.Db.Blobs.Quota.{
  Posts, bad_size, no_account, duplicate, over_quota, unstorable, added, post_blobs-Posts,
}
use nostr_storage_orchestrat.Db.Blobs.Rounds.{remove_one}
use nostr_storage_orchestrat.Db.Blobs.Removal.{remove_owners-ok}
use nostr_storage_orchestrat.Db.Blobs.{
  bill, refund, post_blobs, remove_rows, remove_owners, settle_delete, delete_error, Scope,
  in_scope, scope_of, delete_in_scope, delete_blobs,
}

Posts-Grows :
    {js : Runtime} {b : Blob} {size : Value} {db : Db} {r : Response (Blob × ℤ) × Db}
    → Posts js b size db r
    → Grows db r.1
Posts-Grows {db = db} (bad_size _ e) = rw e (Grows-refl db)
Posts-Grows {db = db} (no_account _ _ e) = rw e (Grows-refl db)
Posts-Grows {db = db} (duplicate _ _ _ _ e) = rw e (Grows-refl db)
Posts-Grows {db = db} (over_quota _ _ _ _ _ e) = rw e (Grows-refl db)
Posts-Grows {db = db} (unstorable _ _ _ _ e) = rw e (Grows-refl db)
Posts-Grows {b = b} {db = db} (added u db' _ a _ e) =
    rw (e, a.effect)
      (Grows-update db (has_npub b.npub) (bill b.size) (db.blobs ++ b ∷ []) (λ u. refl))

pub post_blobs-Grows :
    (js : Runtime) (hash npub : String) (size : Value) (replicas : List String) (now : ℕ) (db : Db)
    → Grows db (post_blobs js hash npub size replicas now db).1
post_blobs-Grows js hash npub size replicas now db =
    let (n, p) = post_blobs-Posts js hash npub size replicas now db in Posts-Grows p

remove_rows-Grows :
    (rows : List Blob) (last : ℤ) (db db' : Db) (used : ℤ)
    → remove_rows last rows db ≡ ok used db'
    → Grows db db'
unfolding remove_rows
remove_rows-Grows [] last db db' used h =
    let same : db ≡ db' = ground arith in rw (← same) (Grows-refl db)
remove_rows-Grows (row ∷ rows) last db db' used h =
    let (next, h') = remove_one last row rows db db' used h in
    Grows-trans db (without_row row db) db'
      (Grows-update db (has_npub row.npub) (refund row.size)
        (keep (λ b. not (is_row row.hash row.npub b)) db.blobs) (λ u. refl))
      (remove_rows-Grows rows next (without_row row db) db' used h')

delete_in_scope-Grows :
    (hash : String) (scope : Scope) (db : Db) → Grows db (delete_in_scope hash scope db).1
unfolding delete_in_scope settle_delete delete_error
delete_in_scope-Grows hash scope db =
    elim (TxResult-cases (remove_owners hash (keep (in_scope hash scope) db.blobs) db)) [
      | inl (x, e) ↦ rw (e, settle_delete) (Grows-refl db)
      | inr ((used, n), after, e) ↦
          rw (e, settle_delete)
            (remove_rows-Grows _ (pos 0) db after used
              (remove_owners-ok hash _ db after used n e).0)
    ]

pub delete_blobs-Grows :
    (hash : String) (npub all : Option String) (db : Db)
    → Grows db (delete_blobs hash npub all db).1
unfolding delete_blobs
delete_blobs-Grows hash npub all db = elim (Option-cases (scope_of npub all)) [
  | inl e ↦ rw (e, delete_blobs) (Grows-refl db)
  | inr (scope, e) ↦ rw (e, delete_blobs) (delete_in_scope-Grows hash scope db)
]
