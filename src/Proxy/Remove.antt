-- ===== src/Proxy/Remove.antt =====
-- proxy/blossom/src/index.ts: DELETE /<sha256>, and DELETE /admin/blobs/:hash once the caller is an admin.
pub mod Rows
pub mod Owner
pub mod Moderated
use nostr_storage_orchestrat.Common.{
  ℕ, Bool, true, false, not, ◌&&◌, ◌||◌, Option, none, some, List, [], ◌∷◌, ◌++◌, String, any,
  nat_eq, ◌==◌, string_eq, if◌then◌else◌,
}
use nostr_storage_orchestrat.Common.Int.{ℤ}
use nostr_storage_orchestrat.Db.{Blob, Response, success, error}
use nostr_storage_orchestrat.Db.Moderation.{ModerationAction, post_moderation}
use nostr_storage_orchestrat.Proxy.Client.{
  Answer, answer, api_error, unreachable, Fate, works, unsent, unanswered, get_blob, delete_blob,
  delete_everyone, mutate,
}
use nostr_storage_orchestrat.Proxy.World.{World, Network, delete_copies}
use nostr_storage_orchestrat.Proxy.Handler.{
  Reply, reply, refused, forbidden, Outcome, next, done, Handler, ◌>>=◌, ◌>>◌, pure, respond,
  respond_if, or_throw, run_handler,
}
use nostr_storage_orchestrat.Proxy.Account.{Service, authorize, forget}
use nostr_storage_orchestrat.Proxy.Read.{parse_hash}

abbrev pub delete_failed {ℓ} : {R : Type ℓ} → Reply R
delete_failed = refused 500 "Delete failed"

-- A value that must be there.
abbrev pub or_respond : {R A : Type 0} → Reply R → Option A → Handler R A
or_respond r none w = (done r, w)
or_respond r (some a) w = (next a, w)

-- `db.deleteBlob(hash, { npub })` on the tables: how many owners remain
abbrev pub remove_row : {R : Type 0} → Reply R → Fate → String → String → Handler R ℕ
remove_row failed fate hash npub w =
    let (removed, db') = delete_blob fate hash npub w.db in
    (or_throw failed removed >>= λ (used, remaining). pure remaining) (record w { db = db' })

abbrev pub remove_copies :
    {R : Type 0} → (String → Bool) → String → List String → Handler R (Unit {0})
remove_copies deletes hash replicas w =
    (next tt, record w { copies = delete_copies deletes w.registry hash replicas w.copies })

-- `if (removed.remainingOwners === 0) await deleteBlob(hash, replicas)`
abbrev pub remove_copies_if :
    {R : Type 0} → Bool → (String → Bool) → String → List String → Handler R (Unit {0})
remove_copies_if true deletes hash replicas w = remove_copies deletes hash replicas w
remove_copies_if false deletes hash replicas w = (next tt, w)

-- The row first, and the bytes only where no owner remains.
unfoldable pub remove_blob :
    {R : Type 0} → Reply R → Network → Fate → String → String → List String → Handler R (Unit {0})
remove_blob failed net fate hash npub replicas = do
  remaining ← remove_row failed fate hash npub
  forget npub
  remove_copies_if (remaining == 0) net.deletes hash replicas

-- The steps for a blob that is there.
abbrev pub delete_owned :
    Network → String → String → (Blob × List String) → Handler String (Reply String)
delete_owned net hash npub (blob, owners) = do
  respond_if (not (any (λ o. o == npub) owners)) (refused 403 "You do not have access to this blob")
  remove_blob delete_failed net net.write hash npub blob.replicas
  pure (reply 200 "Blob deleted successfully")

-- The steps for a hash and the account that signed.
abbrev pub delete_signed : Network → String → String → Handler String (Reply String)
delete_signed net hash npub = do
  found ← (λ w. or_throw delete_failed (get_blob net.blob_read hash w.db) w)
  found ← or_respond (refused 404 "Blob not found") found
  delete_owned net hash npub found

-- DELETE /<sha256>
unfoldable pub delete_handler :
    Service → Network → ℕ → String → Option String → World → Reply String × World
unfolding remove_blob
delete_handler s net now path authorization = run_handler (do
  hash ← or_respond (refused 400 "Invalid sha256 hash") (parse_hash path)
  npub ←
      authorize delete_failed s now authorization "delete"
        (record { hash = some hash; require_hash_scope = true })
  delete_signed net hash npub)

abbrev pub moderation_failed {ℓ} : {R : Type ℓ} → Reply R
moderation_failed = refused 502 "moderation_failed"

-- `recordModeration`
abbrev pub record_moderation :
    Fate
    → ModerationAction
    → List ModerationAction
    → Answer ModerationAction × List ModerationAction
record_moderation fate action audit = mutate fate (post_moderation action) audit

-- `db.deleteBlob(hash, { all: true })` on the tables
abbrev pub remove_everyone : Fate → String → Handler (Option ModerationAction) ℕ
remove_everyone fate hash w =
    let (removed, db') = delete_everyone fate hash w.db in
    (or_throw moderation_failed removed >>= λ (used, remaining). pure remaining)
      (record w { db = db' })

abbrev pub action_of : ℕ → String → String → String → String → ModerationAction
action_of now hash admin reason owner = record {
  hash = hash;
  npub = owner;
  admin_npub = admin;
  reason = reason;
  created_at = now;
}

-- The loop over the owners; the best-effort notifications are not modelled.
unfoldable pub record_all :
    Network
    → ℕ
    → String
    → String
    → String
    → List String
    → Handler (Option ModerationAction) (List ModerationAction)
record_all net now hash admin reason [] w = (next [], w)
record_all net now hash admin reason (owner ∷ owners) w =
    let (a, audit') =
      record_moderation (net.audit_write owner) (action_of now hash admin reason owner) w.audit in
    (do
      action ← or_throw moderation_failed a
      rest ← record_all net now hash admin reason owners
      pure (action ∷ rest))
      (record w { audit = audit' })

abbrev pub first_of {ℓ} : {A : Type ℓ} → List A → Option A
first_of [] = none
first_of (a ∷ rest) = some a

abbrev pub forget_all : {R : Type 0} → List String → Handler R (Unit {0})
forget_all [] w = (next tt, w)
forget_all (owner ∷ owners) w = (forget owner >> forget_all owners) w

-- The steps for a blob that is there: its rows, its bytes, and the audit.
abbrev pub moderate_found :
    Network
    → ℕ
    → String
    → String
    → String
    → (Blob × List String)
    → Handler (Option ModerationAction) (Reply (Option ModerationAction))
moderate_found net now admin hash reason (blob, owners) = do
  remove_everyone net.write hash
  forget_all owners
  remove_copies net.deletes hash blob.replicas
  actions ← record_all net now hash admin reason owners
  pure (reply 200 (first_of actions))

abbrev pub moderate_hash :
    Network
    → ℕ
    → String
    → String
    → String
    → Handler (Option ModerationAction) (Reply (Option ModerationAction))
moderate_hash net now admin reason hash = do
  respond_if (reason == "") (refused 400 "reason_required")
  found ← (λ w. or_throw moderation_failed (get_blob net.blob_read hash w.db) w)
  found ← or_respond (refused 404 "not_found") found
  moderate_found net now admin hash reason found

-- DELETE /admin/blobs/:hash, for the reason that the body gives, trimmed
unfoldable pub moderate :
    Network → ℕ → String → String → String → World → Reply (Option ModerationAction) × World
unfolding record_all
moderate net now admin path reason = run_handler (do
  hash ← or_respond (refused 400 "Invalid sha256 hash") (parse_hash path)
  moderate_hash net now admin reason hash)
