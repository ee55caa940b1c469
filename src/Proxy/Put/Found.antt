-- ===== src/Proxy/Put/Found.antt =====
-- What a look-up of a blob says of the tables.
use nostr_storage_orchestrat.Common.{
  ◌≡◌, Bool, true, false, none, some, List, String, any, All, arith, ◌==◌, string_eq,
}
use nostr_storage_orchestrat.Db.{Blob, Db, is_row, has_hash}
use nostr_storage_orchestrat.Db.Blobs.Lookup.{get_blob-Finds, absent, found}
use nostr_storage_orchestrat.Proxy.Client.{answer, get_blob}
use nostr_storage_orchestrat.Proxy.Durable.{IsFree}

pub lookup_none :
    (hash : String) (db : Db) → get_blob true hash db ≡ answer none → IsFree hash db.blobs
lookup_none hash db h = elim (get_blob-Finds hash db) [
  | absent free e ↦ free
  | found b owners e _ _ _ ↦ let h' = rw e at h in cc
]

pub lookup_some :
    (answered : Bool) (hash : String) (db : Db) (b : Blob) (owners : List String)
    → get_blob answered hash db ≡ answer (some (b, owners))
    → (has_hash hash b ≡ true)
      × ((P : Blob → Type 0) → All P db.blobs → P b)
      × ((npub : String) → any (λ o. o == npub) owners ≡ any (is_row hash npub) db.blobs)
lookup_some false hash db b owners h = cc
lookup_some true hash db b owners h = elim (get_blob-Finds hash db) [
  | absent free e ↦ let h' = rw e at h in cc
  | found c others e has from owned ↦
      let h' = rw e at h in
      let same : c ≡ b = ground arith in
      let same_owners : others ≡ owners = ground arith in
      rw (← same, ← same_owners) (has, from, owned)
]
