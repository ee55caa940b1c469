-- ===== src/Proxy/Put.antt =====
-- proxy/blossom/src/index.ts: PUT /upload, once its gate let the body in. The reply's `url` and `type`, which only
-- format the request's headers, are left out.
pub mod Admission
pub mod Found
pub mod Row
pub mod Stored
pub mod Durable
pub mod Lost
pub mod Genuine
use nostr_storage_orchestrat.Common.{
  ℕ, ◌-◌, Bool, true, false, not, ◌&&◌, Option, none, some, List, [], ◌∷◌, ◌++◌, map, String,
  length, any, nat_eq, ◌==◌, string_eq, if◌then◌else◌, is_some,
}
use nostr_storage_orchestrat.Common.Int.{ℤ, pos}
use nostr_storage_orchestrat.Common.Js.{epoch}
use nostr_storage_orchestrat.Lifecycle.{AccessState}
use nostr_storage_orchestrat.Db.{User, Blob}
use nostr_storage_orchestrat.Db.Blobs.{exceeds}
use nostr_storage_orchestrat.Proxy.Upload.{UploadResult, uploaded, upload_blob}
use nostr_storage_orchestrat.Proxy.Client.{
  Answer, answer, api_error, unreachable, get_blob, create_blob,
}
use nostr_storage_orchestrat.Proxy.Registry.{fresh_candidates}
use nostr_storage_orchestrat.Proxy.World.{Copy, World, Network, delete_copies}
use nostr_storage_orchestrat.Proxy.Handler.{
  Reply, reply, refused, forbidden, Outcome, next, done, Handler, ◌>>=◌, ◌>>◌, pure, respond,
  respond_if, or_throw, run_handler,
}
use nostr_storage_orchestrat.Proxy.Account.{
  Service, authorize, load_for_upload, access_error, over_quota, forget, seconds,
}

pub record Upload : Type 0 where
  pub authorization : Option String
  pub client_hash : Option String
  pub body : List ℕ

pub record Uploaded : Type 0 where
  pub sha256 : String
  pub size : ℕ
  pub uploaded_at : ℕ

abbrev pub upload_failed : Reply Uploaded
upload_failed = refused 500 "Upload failed"

-- `clientHash && clientHash.toLowerCase() !== hash`
abbrev pub is_mismatch : Service → String → Option String → Bool
is_mismatch s hash none = false
is_mismatch s hash (some h) = not (h == "") && not (s.lib.lower_case h == hash)

-- `existing?.owners.includes(npub) ?? false`
abbrev pub is_mine : String → Option (Blob × List String) → Bool
is_mine npub none = false
is_mine npub (some (blob, owners)) = any (λ o. o == npub) owners

abbrev created_of : Option (Blob × List String) → Option ℕ
created_of none = none
created_of (some (blob, owners)) = some blob.created_at

-- The look-up's own `catch`
abbrev pub look_up : Network → String → Handler Uploaded (Option (Blob × List String))
look_up net hash w =
    or_throw (refused 502 "Blob lookup failed") (get_blob net.blob_read hash w.db) w

abbrev copies_at : String → List ℕ → List String → List Copy
copies_at hash body ids = map (λ id. record { node = id; hash = hash; content = body }) ids

-- `uploadBlob`, on the nodes
abbrev pub take_upload : String → List ℕ → Option UploadResult → Handler Uploaded (List String)
take_upload hash body (some (uploaded ids)) w =
    (next ids, record w { copies = w.copies ++ copies_at hash body ids })
take_upload hash body _ w = (done upload_failed, w)

unfoldable pub store_bytes :
    Service → Network → ℕ → String → String → List ℕ → Handler Uploaded (List String)
store_bytes s net now npub hash body w =
    let candidates = fresh_candidates net.active w.registry in
    take_upload hash body (upload_blob net.puts npub (now - epoch) s.replica_count candidates)
      (record w { registry = candidates })

-- `existing ? existing.replicas : (await uploadBlob(…)).replicas`
unfoldable pub find_replicas :
    Service
    → Network
    → ℕ
    → String
    → String
    → List ℕ
    → Option (Blob × List String)
    → Handler Uploaded (List String)
unfolding store_bytes
find_replicas s net now npub hash body (some (blob, owners)) w = (next blob.replicas, w)
find_replicas s net now npub hash body none w = store_bytes s net now npub hash body w

-- `await db.getBlob(hash).catch(() => null)`
abbrev is_claimed : Answer (Option (Blob × List String)) → Bool
is_claimed (answer (some b)) = true
is_claimed _ = false

-- Bytes with no row behind them are taken off the nodes, unless someone claimed the hash.
unfoldable pub clean_up : Network → String → List String → Bool → Handler Uploaded (Unit {0})
clean_up net hash replicas stored_now w =
    if stored_now && not (is_claimed (get_blob net.blob_reread hash w.db))
    then (
      next tt,
      record w { copies = delete_copies net.deletes w.registry hash replicas w.copies },
    )
    else (next tt, w)

-- The `catch` around `createBlob`, for its `DbApiError`
abbrev is_conflict : ℕ → String → String → Bool
is_conflict status e reason = status == 409 && e == reason

-- The quota that db-api found exceeded is a 403; every other error is thrown on.
abbrev pub end_create : String → (User × AccessState) → ℕ → String → Handler Uploaded (Option ℕ)
end_create npub (user, access) status e =
    if is_conflict status e "quota_exceeded"
    then (forget npub >> respond (forbidden (access_error user (over_quota access))))
    else respond upload_failed

unfoldable pub after_create :
    Network
    → String
    → String
    → (User × AccessState)
    → List String
    → Bool
    → Answer (Blob × ℤ)
    → Handler Uploaded (Option ℕ)
unfolding clean_up
after_create net npub hash (user, access) replicas stored_now (answer (blob, used)) = do
  forget npub
  pure (some blob.created_at)
after_create net npub hash (user, access) replicas stored_now (api_error status e) =
    if is_conflict status e "already_exists"
    then (λ w.
        (or_throw upload_failed (get_blob net.blob_reread hash w.db) >>= λ refetched.
        pure (created_of refetched))
          w)
    else do clean_up net hash replicas stored_now; end_create npub (user, access) status e
after_create net npub hash (user, access) replicas stored_now unreachable = do
  clean_up net hash replicas stored_now
  respond upload_failed

-- `createBlob`, with what is done when it throws
unfoldable pub create_row :
    Service
    → Network
    → ℕ
    → String
    → String
    → ℕ
    → (User × AccessState)
    → Bool
    → List String
    → Handler Uploaded (Option ℕ)
unfolding after_create
create_row s net now npub hash size account stored_now replicas w =
    let (created, db') = create_blob s.js net.write hash npub size replicas now w.db in
    after_create net npub hash account replicas stored_now created (record w { db = db' })

abbrev uploaded_reply : ℕ → ℕ → String → ℕ → Option ℕ → Reply Uploaded
uploaded_reply status now hash size created = reply status (record {
  sha256 = hash;
  size = size;
  uploaded_at = elim created [ none ↦ seconds now | some t ↦ seconds t ];
})

-- The bytes and the row, unless the account has its row already.
unfoldable pub add_blob :
    Service
    → Network
    → ℕ
    → String
    → String
    → List ℕ
    → (User × AccessState)
    → Option (Blob × List String)
    → Handler Uploaded (Reply Uploaded)
unfolding find_replicas create_row
add_blob s net now npub hash body account existing =
    if is_mine npub existing
    then pure (uploaded_reply 200 now hash (length body) (created_of existing))
    else do
      replicas ← find_replicas s net now npub hash body existing
      created ←
          create_row s net now npub hash (length body) account (not (is_some existing)) replicas
      pure (uploaded_reply 201 now hash (length body) created)

abbrev pub Admitted : Type 0
Admitted = String × (User × AccessState) × Option (Blob × List String)

-- The checks once the token named the account: its plan, its quota, and the blob where there is one.
abbrev pub check_account : Service → Network → ℕ → Upload → String → Handler Uploaded Admitted
check_account s net now req npub = do
  (user, access) ← load_for_upload upload_failed s net npub now
  respond_if (not access.can_upload) (forbidden (access_error user access))
  respond_if (exceeds user (pos (length req.body)))
      (forbidden (access_error user (over_quota access)))
  existing ← look_up net (s.sha256 req.body)
  pure (npub, (user, access), existing)

-- What is checked before anything is stored.
unfoldable pub admit : Service → Network → ℕ → Upload → Handler Uploaded Admitted
admit s net now req = do
  respond_if (length req.body == 0) (refused 400 "Request body must contain binary data")
  respond_if (is_mismatch s (s.sha256 req.body) req.client_hash)
      (refused 409 "X-SHA-256 header does not match the uploaded content")
  npub ←
      authorize upload_failed s now req.authorization "upload"
        (record { hash = some (s.sha256 req.body); require_hash_scope = true })
  check_account s net now req npub

unfoldable pub put_upload : Service → Network → ℕ → Upload → World → Reply Uploaded × World
unfolding admit add_blob
put_upload s net now req = run_handler (do
  (npub, account, existing) ← admit s net now req
  add_blob s net now npub (s.sha256 req.body) req.body account existing)
