-- ===== src/Db/Blobs/Accounting.antt =====
-- The routes on /blobs keep the tables consistent.
use nostr_storage_orchestrat.Common.{
  ℕ, ◌≡◌, refl, true, false, not, some, List, [], ◌∷◌, ◌++◌, String, All-append, All-keep, any,
  find, keep, update_where, string_eq, eq_iff, if◌then◌else◌, arith,
}
use nostr_storage_orchestrat.Common.Int.{ℤ}
use nostr_storage_orchestrat.Common.Js.{Value, Runtime}
use nostr_storage_orchestrat.Db.{User, Blob, Db, Response, has_npub, is_row}
use nostr_storage_orchestrat.Db.Rows.{
  UniqueRows, IsConsistent, IsExact, HasAccount, HasAccount-update_where, All-update_where,
  billed-append, UniqueRows-append, billed-keep, UniqueRows-keep,
}
use nostr_storage_orchestrat.Db.Blobs.{bill, refund, post_blobs}
use nostr_storage_orchestrat.Db.Blobs.Quota.{
  Posts, bad_size, no_account, duplicate, over_quota, unstorable, added, any_of_find,
  post_blobs-Posts,
}

abbrev with_row : Blob → Db → Db
with_row b db = record db {
  users = update_where (has_npub b.npub) (bill b.size) db.users;
  blobs = db.blobs ++ b ∷ [];
}

bill-IsExact :
    (b : Blob) (bs : List Blob) (u : User)
    → IsExact bs u
    → IsExact (bs ++ b ∷ []) (if has_npub b.npub u then bill b.size u else u)
bill-IsExact b bs u h =
    ground (arith, billed-append u.npub bs b, eq_iff u.npub b.npub, eq_iff b.npub u.npub)

with_row-IsConsistent :
    (b : Blob) (db : Db)
    → IsConsistent db
    → any (has_npub b.npub) db.users ≡ true
    → any (is_row b.hash b.npub) db.blobs ≡ false
    → IsConsistent (with_row b db)
with_row-IsConsistent b db c account fresh = record {
  exact =
      All-update_where (IsExact (db.blobs ++ b ∷ [])) (IsExact db.blobs) (has_npub b.npub)
        (bill b.size) db.users (bill-IsExact b db.blobs) c.exact;
  unique = UniqueRows-append db.blobs b c.unique fresh;
  owned =
      HasAccount-update_where (has_npub b.npub) (bill b.size) db.users (db.blobs ++ b ∷ [])
        (λ u. refl) (All-append (HasAccount db.users) db.blobs b c.owned account);
}

Posts-IsConsistent :
    {js : Runtime} {b : Blob} {size : Value} {db : Db} {r : Response (Blob × ℤ) × Db}
    → Posts js b size db r
    → IsConsistent db
    → IsConsistent r.1
Posts-IsConsistent {b = b} {db = db} (added u db' s a _ e) c =
    rw (e, a.effect) (with_row-IsConsistent b db c (any_of_find _ db.users u a.account) a.new_row)
Posts-IsConsistent (bad_size _ e) c = rw e c
Posts-IsConsistent (no_account _ _ e) c = rw e c
Posts-IsConsistent (duplicate _ _ _ _ e) c = rw e c
Posts-IsConsistent (over_quota _ _ _ _ _ e) c = rw e c
Posts-IsConsistent (unstorable _ _ _ _ e) c = rw e c

-- POST /blobs keeps the tables consistent, whatever it answers.
pub post_blobs-IsConsistent :
    (js : Runtime) (hash npub : String) (size : Value) (replicas : List String) (now : ℕ) (db : Db)
    → IsConsistent db
    → IsConsistent (post_blobs js hash npub size replicas now db).1
post_blobs-IsConsistent js hash npub size replicas now db c =
    let (n, p) = post_blobs-Posts js hash npub size replicas now db in Posts-IsConsistent p c

abbrev pub without_row : Blob → Db → Db
without_row row db = record db {
  users = update_where (has_npub row.npub) (refund row.size) db.users;
  blobs = keep (λ b. not (is_row row.hash row.npub b)) db.blobs;
}

refund-IsExact :
    (row : Blob) (bs : List Blob) (u : User)
    → UniqueRows bs
    → find (is_row row.hash row.npub) bs ≡ some row
    → IsExact bs u
    → IsExact
        (keep (λ b. not (is_row row.hash row.npub b)) bs)
        (if has_npub row.npub u then refund row.size u else u)
refund-IsExact row bs u unique found h = ground (
  arith,
  billed-keep u.npub row.hash row.npub bs row unique found,
  eq_iff u.npub row.npub,
  eq_iff row.npub u.npub,
)

pub without_row-IsConsistent :
    (row : Blob) (db : Db)
    → find (is_row row.hash row.npub) db.blobs ≡ some row
    → IsConsistent db
    → IsConsistent (without_row row db)
without_row-IsConsistent row db found c = record {
  exact =
      All-update_where (IsExact (keep (λ b. not (is_row row.hash row.npub b)) db.blobs))
        (IsExact db.blobs) (has_npub row.npub) (refund row.size) db.users
        (λ u. refund-IsExact row db.blobs u c.unique found) c.exact;
  unique = UniqueRows-keep _ db.blobs c.unique;
  owned =
      HasAccount-update_where (has_npub row.npub) (refund row.size) db.users _ (λ u. refl)
        (All-keep (HasAccount db.users) _ db.blobs c.owned);
}
