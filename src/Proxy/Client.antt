-- ===== src/Proxy/Client.antt =====
-- packages/db-client/src/client.ts: what a caller of db-api gets for its requests, over a network that may lose a
-- request or its response. A response that is no success carries its status and its `error`.
use nostr_storage_orchestrat.Common.{
  ℕ, Bool, true, false, Option, none, some, List, String, find, nat_eq, ◌==◌, min, max,
  if◌then◌else◌,
}
use nostr_storage_orchestrat.Common.Int.{ℤ, pos}
use nostr_storage_orchestrat.Common.Js.{num, int, Runtime}
use nostr_storage_orchestrat.Db.{User, Blob, Db, Response, success, error, has_npub}
use nostr_storage_orchestrat.Db.Pagination.{paging, user_blobs}
use nostr_storage_orchestrat.Db.Blobs.{get_blob as blob_of, post_blobs, delete_blobs}

-- What a call returns or throws: a `DbApiError` with its status and the `error` of its body, or the
-- error of a request that has no response.
pub data Answer {ℓ} (A : Type ℓ) : Type ℓ where
  answer : A → Answer A
  api_error : ℕ → String → Answer A
  unreachable : Answer A

-- What becomes of a request that writes: it is served and answered, it never arrives, or it is served
-- and its response is lost.
pub data Fate : Type 0 where
  works unsent unanswered : Fate

-- `get`: a 404 is `null`
abbrev pub get {ℓ} : {A : Type ℓ} → Bool → Response A → Answer (Option A)
get false response = unreachable
get true (success status a) = answer (some a)
get true (error status e) = if status == 404 then answer none else api_error status e

abbrev read_response {ℓ} : {A : Type ℓ} → Response A → Answer A
read_response (success status a) = answer a
read_response (error status e) = api_error status e

-- `mutate`
abbrev pub mutate {ℓ} : {S : Type 0} {A : Type ℓ} → Fate → (S → Response A × S) → S → Answer A × S
mutate works request s = (read_response (request s).0, (request s).1)
mutate unsent request s = (unreachable, s)
mutate unanswered request s = (unreachable, (request s).1)

-- GET /users/:npub
abbrev pub user_of : String → Db → Response User
user_of npub db = elim (find (has_npub npub) db.users) [
  | none ↦ error 404 "not_found"
  | some u ↦ success 200 u
]

abbrev pub get_user : Bool → String → Db → Answer (Option User)
get_user answered npub db = get answered (user_of npub db)

-- `listUserBlobs(npub, page, pageSize)`, as the rows of the page; numbers go out in decimal
abbrev pub list_user_blobs : Bool → String → ℕ → ℕ → Db → Answer (List Blob)
list_user_blobs true npub page page_size db =
    answer (user_blobs npub (paging (max 1 page) (min 100 (max 1 page_size))) db)
list_user_blobs false npub page page_size db = unreachable

-- A blob with everyone billed for it.
abbrev pub get_blob : Bool → String → Db → Answer (Option (Blob × List String))
get_blob answered hash db = get answered (blob_of hash db)

abbrev pub create_blob :
    Runtime → Fate → String → String → ℕ → List String → ℕ → Db → Answer (Blob × ℤ) × Db
create_blob js fate hash npub size replicas now db =
    mutate fate (post_blobs js hash npub (num (int (pos size))) replicas now) db

-- `deleteBlob(hash, { npub })`: the usage and the owners that remain
abbrev pub delete_blob : Fate → String → String → Db → Answer (ℤ × ℕ) × Db
delete_blob fate hash npub db = mutate fate (delete_blobs hash (some npub) none) db

-- `deleteBlob(hash, { all: true })`
abbrev pub delete_everyone : Fate → String → Db → Answer (ℤ × ℕ) × Db
delete_everyone fate hash db = mutate fate (delete_blobs hash none (some "true")) db
