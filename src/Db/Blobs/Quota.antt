-- ===== src/Db/Blobs/Quota.antt =====
-- What POST /blobs does on every branch.
use nostr_storage_orchestrat.Common.{
  ℕ, ◌≡◌, refl, inl, inr, Bool, true, false, none, some, List, [], ◌∷◌, ◌++◌, String, any, find,
  ◌&&◌, update_where, Bool-cases, Option-cases, arith,
}
use nostr_storage_orchestrat.Common.Int.{ℤ, pos, ◌+ℤ◌, ◌≤ℤ◌}
use nostr_storage_orchestrat.Common.Js.{Value, Runtime}
use nostr_storage_orchestrat.Db.{
  User, Blob, Db, ok, Response, success, error, has_npub, is_row, update_user, create_blob,
  is_storable, is_int8, is_int8,
}
use nostr_storage_orchestrat.Db.Blobs.{bill, exceeds, lock_user, add_owner, settle_post, post_blobs}

-- `add_owner` appended the row `b` and billed its bytes to the account `u`.
pub record Adds (b : Blob) (u : User) (db db' : Db) : Type 0 where
  pub account : find (has_npub b.npub) db.users ≡ some u
  pub new_row : any (is_row b.hash b.npub) db.blobs ≡ false
  pub in_quota : exceeds u b.size ≡ false
  pub effect : db' ≡ record db {
    users = update_where (has_npub b.npub) (bill b.size) db.users;
    blobs = db.blobs ++ b ∷ [];
  }

pub add_owner-Adds :
    (b blob : Blob) (user : User) (db db' : Db)
    → add_owner b db ≡ ok (blob, user) db'
    → (u : User) × Adds b u db db' × (blob ≡ b) × (user ≡ bill b.size u)
unfolding add_owner lock_user update_user create_blob
add_owner-Adds b blob user db db' h = elim (Option-cases (find (has_npub b.npub) db.users)) [
  | inl e ↦ ground arith
  | inr (u, e) ↦ (
    u,
    record { account = e; new_row = ground arith; in_quota = ground arith; effect = ground arith },
    ground arith,
    ground arith,
  )
]

-- The answers of POST /blobs, each with when it is given and the database that it leaves.
pub data Posts (js : Runtime) (b : Blob) (size : Value) (db : Db) (r : Response (Blob × ℤ) × Db)
    : Type 0 where
  bad_size : js.big_int size ≡ none → r ≡ (error 500 "internal_error", db) → Posts js b size db r
  no_account :
      js.big_int size ≡ some b.size
      → find (has_npub b.npub) db.users ≡ none
      → r ≡ (error 404 "user_not_found", db)
      → Posts js b size db r
  duplicate :
      (u : User)
      → js.big_int size ≡ some b.size
      → find (has_npub b.npub) db.users ≡ some u
      → any (is_row b.hash b.npub) db.blobs ≡ true
      → r ≡ (error 409 "already_exists", db)
      → Posts js b size db r
  over_quota :
      (u : User)
      → js.big_int size ≡ some b.size
      → find (has_npub b.npub) db.users ≡ some u
      → any (is_row b.hash b.npub) db.blobs ≡ false
      → exceeds u b.size ≡ true
      → r ≡ (error 409 "quota_exceeded", db)
      → Posts js b size db r
  unstorable :
      (u : User)
      → js.big_int size ≡ some b.size
      → Adds b u db (record db {
        users = update_where (has_npub b.npub) (bill b.size) db.users;
        blobs = db.blobs ++ b ∷ [];
      })
      → (is_int8 b.size && is_storable (bill b.size u)) ≡ false
      → r ≡ (error 500 "internal_error", db)
      → Posts js b size db r
  added :
      (u : User) (db' : Db)
      → js.big_int size ≡ some b.size
      → Adds b u db db'
      → (is_int8 b.size && is_storable (bill b.size u)) ≡ true
      → r ≡ (success 201 (b, u.used_storage +ℤ b.size), db')
      → Posts js b size db r

-- The row that a request asks for.
abbrev pub row_of : String → String → ℤ → List String → ℕ → Blob
row_of hash npub n replicas now = record {
  hash = hash;
  npub = npub;
  size = n;
  replicas = replicas;
  created_at = now;
}

pub any_of_find :
    (p : User → Bool) (us : List User) (u : User) → find p us ≡ some u → any p us ≡ true
any_of_find p [] u h = cc
any_of_find p (x ∷ us) u h = ground (arith, any_of_find p us u)

settle-Posts :
    (js : Runtime) (b : Blob) (size : Value) (db : Db)
    → js.big_int size ≡ some b.size
    → Posts js b size db (settle_post db (add_owner b db))
unfolding settle_post add_owner lock_user update_user create_blob
settle-Posts js b size db s = elim (Option-cases (find (has_npub b.npub) db.users)) [
  | inl e ↦ no_account s e (ground arith)
  | inr (u, e) ↦ elim (Bool-cases (any (is_row b.hash b.npub) db.blobs)) [
    | inl dup ↦ duplicate u s e dup (ground arith)
    | inr fresh ↦ elim (Bool-cases (exceeds u b.size)) [
      | inl over ↦ over_quota u s e fresh over (ground arith)
      | inr fits ↦ elim (Bool-cases (is_int8 b.size && is_storable (bill b.size u))) [
        | inl good ↦
            added u _ s (record { account = e; new_row = fresh; in_quota = fits; effect = refl })
              good (ground (arith, any_of_find (has_npub b.npub) db.users u))
        | inr bad ↦
            unstorable u s (record { account = e; new_row = fresh; in_quota = fits; effect = refl })
              bad (ground (arith, any_of_find (has_npub b.npub) db.users u))
      ]
    ]
  ]
]

-- POST /blobs answers 500 for a size that is no bigint or a total that cannot be stored, 404 for an
-- unknown account, 409 for a row that exists already (tested before the quota) or a quota that would be
-- exceeded, each with the database unchanged; and otherwise, where the size and the total can be stored, 201, with the
-- row added and the owner billed.
pub post_blobs-Posts :
    (js : Runtime) (hash npub : String) (size : Value) (replicas : List String) (now : ℕ) (db : Db)
    → (n : ℤ) × Posts js
        (row_of hash npub n replicas now)
        size
        db
        (post_blobs js hash npub size replicas now db)
unfolding post_blobs
post_blobs-Posts js hash npub size replicas now db = elim (Option-cases (js.big_int size)) [
  | inl e ↦ (pos 0, bad_size e (ground arith))
  | inr (n, e) ↦
      (n, rw (e, post_blobs) (settle-Posts js (row_of hash npub n replicas now) size db e))
]

within :
    (u : User) (size a : ℤ)
    → u.storage_bytes ≡ some a
    → exceeds u size ≡ false
    → u.used_storage +ℤ size ≤ℤ a
within u size a h e = ground arith

abbrev pub InQuota : Db → String → Blob → ℤ → Type 0
InQuota db npub blob used =
    (u : User) × (find (has_npub npub) db.users ≡ some u)
    × (used ≡ u.used_storage +ℤ blob.size)
    × ((a : ℤ) → u.storage_bytes ≡ some a → used ≤ℤ a)

Posts-InQuota :
    {js : Runtime} {b : Blob} {size : Value} {db : Db} {r : Response (Blob × ℤ) × Db} (blob : Blob)
    (used : ℤ)
    → Posts js b size db r
    → r.0 ≡ success 201 (blob, used)
    → InQuota db b.npub blob used
Posts-InQuota {b = b} blob used (added u db' s a _ e) h =
    let same : (b ≡ blob) × (u.used_storage +ℤ b.size ≡ used) = ground arith in
    (u, a.account, ground arith, λ limit l. rw (← same.1) (within u b.size limit l a.in_quota))
Posts-InQuota blob used (bad_size _ e) h = ground arith
Posts-InQuota blob used (no_account _ _ e) h = ground arith
Posts-InQuota blob used (duplicate _ _ _ _ e) h = ground arith
Posts-InQuota blob used (over_quota _ _ _ _ _ e) h = ground arith
Posts-InQuota blob used (unstorable _ _ _ _ e) h = ground arith

-- A row is added only to an account that exists and within its allowance: on a 201 the usage that is
-- answered is the account's usage plus the new bytes, and it does not pass the allowance, if there is one.
pub post_blobs_quota :
    (js : Runtime) (hash npub : String) (size : Value) (replicas : List String) (now : ℕ) (db : Db)
    (blob : Blob) (used : ℤ)
    → (post_blobs js hash npub size replicas now db).0 ≡ success 201 (blob, used)
    → InQuota db npub blob used
post_blobs_quota js hash npub size replicas now db blob used h =
    let (n, p) = post_blobs-Posts js hash npub size replicas now db in Posts-InQuota blob used p h
