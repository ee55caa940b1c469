-- ===== src/Proxy/Purge.antt =====
-- proxy/blossom/src/index.ts: POST /internal/purge/:npub, once its gate let the caller in. Each write of a row has its
-- own fate, named by the row's hash: a row that was removed is not met again.
pub mod Ends
use nostr_storage_orchestrat.Common.{
  ℕ, zero, suc, ◌+◌, Bool, true, false, Option, none, some, List, [], ◌∷◌, String, nat_eq, ◌==◌,
  string_eq, if◌then◌else◌,
}
use nostr_storage_orchestrat.Db.{Blob, Db}
use nostr_storage_orchestrat.Proxy.Client.{
  Answer, answer, api_error, unreachable, Fate, list_user_blobs,
}
use nostr_storage_orchestrat.Proxy.World.{World, Network}
use nostr_storage_orchestrat.Proxy.Handler.{
  Reply, reply, refused, forbidden, Outcome, next, done, Handler, ◌>>=◌, ◌>>◌, pure, or_throw,
}
use nostr_storage_orchestrat.Proxy.Account.{forget}
use nostr_storage_orchestrat.Proxy.Remove.{remove_row, remove_copies_if}

-- What the network does during a purge: whether a pass reads its page, and each removal of a row.
pub record PurgeNetwork : Type 0 where
  pub page_read : ℕ → Bool
  pub removal : String → Fate
  pub deletes : String → Bool

abbrev pub purge_failed : Reply ℕ
purge_failed = refused 502 "purge_failed"

-- The body of the inner loop.
unfoldable pub purge_blob : PurgeNetwork → String → Blob → Handler ℕ (Unit {0})
purge_blob net npub blob = do
  remaining ← remove_row purge_failed (net.removal blob.hash) blob.hash npub
  remove_copies_if (remaining == 0) net.deletes blob.hash blob.replicas

-- The inner loop, which counts on from `purged`.
unfoldable pub purge_batch : PurgeNetwork → String → List Blob → ℕ → Handler ℕ ℕ
unfolding purge_blob
purge_batch net npub [] purged w = (next purged, w)
purge_batch net npub (blob ∷ blobs) purged w =
    (purge_blob net npub blob >> purge_batch net npub blobs (suc purged)) w

-- The loop goes on, unless a removal threw.
abbrev pub after_batch :
    (ℕ → World → Option (Outcome ℕ ℕ × World)) → Outcome ℕ ℕ × World → Option (Outcome ℕ ℕ × World)
after_batch loop (next n, w) = loop n w
after_batch loop (done r, w) = some (done r, w)

-- The outer loop, on fuel; `none` is running out of it.
unfoldable pub purge_loop : PurgeNetwork → String → ℕ → ℕ → World → Option (Outcome ℕ ℕ × World)
unfolding purge_batch
purge_loop net npub zero purged w = none
purge_loop net npub (suc fuel) purged w =
    elim (list_user_blobs (net.page_read fuel) npub 1 100 w.db) [
      | answer [] ↦ some (next purged, w)
      | answer (blob ∷ blobs) ↦
          after_batch (λ n w'. purge_loop net npub fuel n w')
            (purge_batch net npub (blob ∷ blobs) purged w)
      | _ ↦ some (done purge_failed, w)
    ]

abbrev pub close_purge : String → Outcome ℕ ℕ × World → Reply ℕ × World
close_purge npub (next purged, w) = (reply 200 purged, (forget {R = ℕ} npub w).1)
close_purge npub (done r, w) = (r, w)

-- POST /internal/purge/:npub; a success tells how many rows it removed.
unfoldable pub purge : PurgeNetwork → ℕ → String → World → Option (Reply ℕ × World)
unfolding purge_loop
purge net fuel npub w = elim (purge_loop net npub fuel 0 w) [
  | none ↦ none
  | some ended ↦ some (close_purge npub ended)
]
