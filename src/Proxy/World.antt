-- ===== src/Proxy/World.antt =====
-- What the proxy's handlers read and change: db-api's tables, the cache of accounts, the roster of the providers, and the
-- bytes that the providers hold; and proxy/blossom/src/servers.ts, where it reads and deletes those bytes.
-- A provider keeps what an upload gave it until a delete that it answers.
use nostr_storage_orchestrat.Common.{
  ℕ, Bool, not, ◌&&◌, Option, none, some, List, [], ◌∷◌, String, find, keep, ◌==◌, string_eq,
  if◌then◌else◌,
}
use nostr_storage_orchestrat.Db.{Db}
use nostr_storage_orchestrat.Db.Moderation.{ModerationAction}
use nostr_storage_orchestrat.Proxy.Placement.{ServerCandidate}
use nostr_storage_orchestrat.Proxy.Access.{Cache}
use nostr_storage_orchestrat.Proxy.Client.{Fate}
use nostr_storage_orchestrat.Proxy.Registry.{ActiveStorage, Registry, resolve}

-- Bytes at the node that a replica names.
pub record Copy : Type 0 where
  pub node : String
  pub hash : String
  pub content : List ℕ

abbrev pub is_copy : String → String → Copy → Bool
is_copy node hash c = c.node == node && c.hash == hash

pub record World : Type 0 where
  pub db : Db
  pub cache : Cache
  pub registry : Registry
  pub copies : List Copy
  pub audit : List ModerationAction

-- What the network does during one request: which reads of db-api are answered (of accounts, of a
-- blob, and the second time), what becomes of the write, and which nodes answer.
pub record Network : Type 0 where
  pub account_read : String → Bool
  pub account_reread : Bool
  pub blob_read : Bool
  pub blob_reread : Bool
  pub write : Fate
  pub audit_write : String → Fate
  pub active : Option (List ActiveStorage)
  pub puts : ServerCandidate → Bool
  pub gets : String → Bool
  pub deletes : String → Bool

-- One replica of `deleteBlob`'s loop.
abbrev pub delete_copy : (String → Bool) → Registry → String → String → List Copy → List Copy
delete_copy deletes registry hash replica copies = elim (resolve registry replica) [
  | none ↦ copies
  | some server ↦
      if deletes replica then keep (λ c. not (is_copy replica hash c)) copies else copies
]

-- `deleteBlob`
unfoldable pub delete_copies :
    (String → Bool) → Registry → String → List String → List Copy → List Copy
delete_copies deletes registry hash [] copies = copies
delete_copies deletes registry hash (replica ∷ replicas) copies =
    delete_copies deletes registry hash replicas (delete_copy deletes registry hash replica copies)

-- What the node of a replica answers to a GET.
abbrev pub fetch : (String → Bool) → Registry → String → List Copy → String → Option (List ℕ)
fetch gets registry hash copies replica = elim (resolve registry replica) [
  | none ↦ none
  | some server ↦
      if gets replica
      then elim (find (is_copy replica hash) copies) [ none ↦ none | some c ↦ some c.content ]
      else none
]

-- `openBlobStream`, and `downloadBlob` which differs in how the bytes are passed on; `none` throws
unfoldable pub open_blob_stream :
    (String → Bool) → Registry → String → List String → List Copy → Option (List ℕ)
open_blob_stream gets registry hash [] copies = none
open_blob_stream gets registry hash (replica ∷ replicas) copies =
    elim (fetch gets registry hash copies replica) [
      | some content ↦ some content
      | none ↦ open_blob_stream gets registry hash replicas copies
    ]
