-- ===== src/Db.antt =====
-- packages/db: the tables of prisma/schema.prisma that the account, blob and notification routes
-- use, the queries on them, and `prisma.$transaction`.
-- A table is a list of rows in the order of their insertion. `User` has the primary key `npub`,
-- `Blob` the key (`hash`, `npub`) and a foreign key into `User`, `EntitlementGrant` the key
-- `payment_hash`, `NotificationLog` a unique key in which, as in every Postgres unique key, a null
-- `ref` equals nothing.
pub mod Gate
pub mod Rows
pub mod Grows
pub mod Blobs
pub mod Entitlement
pub mod Users
pub mod Notifications
pub mod Service
pub mod Payments
pub mod Storages
pub mod Moderation
pub mod Pagination
use nostr_storage_orchestrat.Common.{
  ℕ, ◌^◌, ◌-◌, Bool, true, false, not, ◌&&◌, Option, none, some, List, [], ◌∷◌, ◌++◌, String, find,
  keep, any, update_where, ◌==◌, string_eq, if◌then◌else◌,
}
use nostr_storage_orchestrat.Common.Int.{ℤ, pos, negsuc, leb_ℤ, ◌+ℤ◌, ◌-ℤ◌}
use nostr_storage_orchestrat.Common.Js.{Date, invalid}

pub record User : Type 0 where
  pub npub : String
  pub plan_expires_at : Option Date
  pub storage_bytes : Option ℤ
  pub used_storage : ℤ
  pub created_at : ℕ

pub record Blob : Type 0 where
  pub hash : String
  pub npub : String
  pub size : ℤ
  pub replicas : List String
  pub created_at : ℕ

pub record EntitlementGrant : Type 0 where
  pub payment_hash : String
  pub npub : String
  pub created_at : ℕ

pub record NotificationLog : Type 0 where
  pub npub : String
  pub kind : String
  pub ref : Option String
  pub channel : String
  pub sent_at : ℕ

pub record Db : Type 0 where
  pub users : List User
  pub blobs : List Blob
  pub grants : List EntitlementGrant
  pub notifications : List NotificationLog

abbrev pub empty : Db
empty = record { users = []; blobs = []; grants = []; notifications = [] }

-- What makes a transaction fail: Prisma's codes for a missing row and a unique key, the errors that
-- the routes throw, and every other error of the database (a number that is no bigint).
pub data TxError : Type 0 where
  p2025 p2002 quota_exceeded already_exists db_error : TxError
  entitlement_error : ℕ → String → TxError

pub data TxResult {ℓ} (A : Type ℓ) : Type ℓ where
  ok : A → Db → TxResult A
  fail : TxError → TxResult A

abbrev pub Tx : Type 0 → Type 0
Tx A = Db → TxResult A

infixl 5 ◌>>=◌ ◌>>◌
abbrev pub ◌>>=◌ : {A B : Type 0} → Tx A → (A → Tx B) → Tx B
◌>>=◌ m f db = elim (m db) [ ok a db' ↦ f a db' | fail e ↦ fail e ]

abbrev pub ◌>>◌ : {A B : Type 0} → Tx A → Tx B → Tx B
m >> k = m >>= λ _. k

abbrev pub pure : {A : Type 0} → A → Tx A
pure a db = ok a db

abbrev pub throw : {A : Type 0} → TxError → Tx A
throw e db = fail e

-- `if (test) throw e`
abbrev pub throw_if : Bool → TxError → Tx (Unit {0})
throw_if true e = throw e
throw_if false e = pure tt

-- An HTTP response: a status and a body, or a status and `{ error }`.
pub data Response {ℓ} (A : Type ℓ) : Type ℓ where
  success : ℕ → A → Response A
  error : ℕ → String → Response A

-- The columns of type `BigInt` are 64-bit.
abbrev pub is_int8 : ℤ → Bool
is_int8 (pos n) = leb_ℤ (pos n) (pos (2 ^ 63 - 1))
is_int8 (negsuc n) = leb_ℤ (pos n) (pos (2 ^ 63 - 1))

abbrev pub has_npub : String → User → Bool
has_npub npub u = u.npub == npub

abbrev pub is_row : String → String → Blob → Bool
is_row hash npub b = b.hash == hash && b.npub == npub

abbrev pub has_hash : String → Blob → Bool
has_hash hash b = b.hash == hash

abbrev pub is_owned : String → Blob → Bool
is_owned npub b = b.npub == npub

abbrev fits : Option ℤ → Bool
fits none = true
fits (some n) = is_int8 n

abbrev is_date : Option Date → Bool
is_date (some invalid) = false
is_date _ = true

-- Prisma refuses an Invalid Date, and Postgres a number that is no bigint.
abbrev pub is_storable : User → Bool
is_storable u = is_date u.plan_expires_at && fits u.storage_bytes && is_int8 u.used_storage

-- `tx.user.update({ where: { npub }, data })`, with the row that it returns; a missing row is P2025,
-- and a row that cannot be stored is an error.
unfoldable pub update_user : String → (User → User) → Tx User
update_user npub f db = elim (find (has_npub npub) db.users) [
  | none ↦ fail p2025
  | some u ↦
      if is_storable (f u)
      then ok (f u) (record db { users = update_where (has_npub npub) f db.users })
      else fail db_error
]

-- `tx.blob.create({ data })`
unfoldable pub create_blob : Blob → Tx Blob
create_blob b db =
    if any (is_row b.hash b.npub) db.blobs
    then fail p2002
    else if not (any (has_npub b.npub) db.users)
    then fail db_error
    else if is_int8 b.size
    then ok b (record db { blobs = db.blobs ++ b ∷ [] })
    else fail db_error

-- `tx.blob.delete({ where: { hash_npub } })`
unfoldable pub delete_row : String → String → Tx (Unit {0})
delete_row hash npub db =
    if any (is_row hash npub) db.blobs
    then ok tt (record db { blobs = keep (λ b. not (is_row hash npub b)) db.blobs })
    else fail p2025
