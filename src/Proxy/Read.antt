-- ===== src/Proxy/Read.antt =====
-- proxy/blossom/src/index.ts: GET and HEAD of /<sha256>.
pub mod Owners
pub mod Reachable
pub mod Serves
use Prim.Native.String.{◌∷◌ as prepend, [] as empty_text}
use Prim.Native.Char.{Char, code}
use nostr_storage_orchestrat.Common.{
  ℕ, zero, suc, Bool, true, false, not, ◌&&◌, ◌||◌, Option, none, some, List, [], ◌∷◌, String, map,
  any, all, leb, nat_eq, ◌==◌, if◌then◌else◌,
}
use nostr_storage_orchestrat.Common.Int.{ℤ}
use nostr_storage_orchestrat.Lifecycle.{UserStatus, AccessState}
use nostr_storage_orchestrat.Db.{User, Blob, Db}
use nostr_storage_orchestrat.Proxy.Client.{
  Answer, answer, api_error, unreachable, get_blob, get_user,
}
use nostr_storage_orchestrat.Proxy.World.{World, Network, open_blob_stream}
use nostr_storage_orchestrat.Proxy.Handler.{Reply, reply, refused, forbidden}
use nostr_storage_orchestrat.Proxy.Account.{Service, with_access, status_error_code}

abbrev is_hex : ℕ → Bool
is_hex c = leb 48 c && leb c 57 || leb 97 c && leb c 102

abbrev is_alphanumeric : ℕ → Bool
is_alphanumeric c = leb 48 c && leb c 57 || (leb 65 c && leb c 90 || leb 97 c && leb c 122)

abbrev are_alphanumeric : String → Bool
are_alphanumeric empty_text = true
are_alphanumeric (prepend c s) = is_alphanumeric (code c) && are_alphanumeric s

-- Nothing, or a dot with at least one letter or digit.
abbrev is_extension : String → Bool
is_extension empty_text = true
is_extension (prepend c empty_text) = false
is_extension (prepend c (prepend d s)) = code c == 46 && are_alphanumeric (prepend d s)

abbrev before_text : Char → Option String → Option String
before_text c none = none
before_text c (some s) = some (prepend c s)

-- So many hexadecimal digits, and then an extension.
abbrev hex_then_extension : ℕ → String → Option String
hex_then_extension zero s = if is_extension s then some "" else none
hex_then_extension (suc n) empty_text = none
hex_then_extension (suc n) (prepend c s) =
    if is_hex (code c) then before_text c (hex_then_extension n s) else none

-- The first group of `HASH_PATTERN.exec(path)`
unfoldable pub parse_hash : String → Option String
parse_hash path = hex_then_extension 64 path

-- What a read answers with: the size, and the bytes where they are asked for.
pub record Download : Type 0 where
  pub size : ℤ
  pub content : Option (List ℕ)

-- `Promise.all(owners.map((owner) => db.getUser(owner)))`; `none` where one of them throws
unfoldable pub owner_accounts : (String → Bool) → List String → Db → Option (List (Option User))
owner_accounts answered [] db = some []
owner_accounts answered (owner ∷ owners) db =
    let rest = owner_accounts answered owners db in
    elim (get_user (answered owner) owner db) [
      | answer u ↦ elim rest [ none ↦ none | some us ↦ some (u ∷ us) ]
      | _ ↦ none
    ]

-- `access === null || access.canRead`
unfoldable pub may_read : Service → ℕ → Option User → Bool
may_read s now none = true
may_read s now (some u) = (with_access s now u).can_read

abbrev status_of : Service → ℕ → List (Option User) → UserStatus
status_of s now (some u ∷ us) = (with_access s now u).status
status_of s now _ = UserStatus.unpaid

abbrev serve : Blob → Option (List ℕ) → Reply Download
serve blob none = refused 500 "Download failed"
serve blob (some content) = reply 200 (record { size = blob.size; content = some content })

-- The reply once the owners' accounts are read.
unfoldable pub answer_read :
    Service → Network → ℕ → String → Bool → Blob → World → List (Option User) → Reply Download
answer_read s net now hash include_body blob w accounts =
    if any (may_read s now) accounts
    then (if include_body
        then serve blob (open_blob_stream net.gets w.registry hash blob.replicas w.copies)
        else reply 200 (record { size = blob.size; content = none }))
    else refused 403 (status_error_code (status_of s now accounts))

unfoldable pub read_owners :
    Service → Network → ℕ → String → Bool → (Blob × List String) → World → Reply Download
unfolding answer_read
read_owners s net now hash include_body (blob, owners) w =
    elim (owner_accounts net.account_read owners w.db) [
      | none ↦ refused 500 "Download failed"
      | some accounts ↦ answer_read s net now hash include_body blob w accounts
    ]

-- `handleGetBlob`, which changes nothing. Every error of HEAD has the same status and no body.
unfoldable pub handle_get_blob : Service → Network → ℕ → String → Bool → World → Reply Download
unfolding parse_hash read_owners
handle_get_blob s net now path include_body w = elim (parse_hash path) [
  | none ↦ refused 400 "Invalid sha256 hash"
  | some hash ↦ elim (get_blob net.blob_read hash w.db) [
    | answer none ↦ refused 404 "Blob not found"
    | answer (some found) ↦ read_owners s net now hash include_body found w
    | _ ↦ refused 500 "Download failed"
  ]
]
