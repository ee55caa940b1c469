-- ===== src/Proxy/Put/Stored.antt =====
-- The bytes that an upload leaves on the nodes.
use text.Mathlib.TextPositions.{eq_refl}
use nostr_storage_orchestrat.Common.{
  ℕ, ◌-◌, ◌≡◌, refl, ◌⊎◌, inl, inr, true, Option, none, some, List, [], ◌∷◌, ◌++◌, String, All,
  All-mono, arith, nat_eq, string_eq,
}
use nostr_storage_orchestrat.Common.Js.{epoch}
use nostr_storage_orchestrat.Db.{Db}
use nostr_storage_orchestrat.Proxy.Upload.{
  UploadResult, no_providers, all_failed, uploaded, upload_blob,
}
use nostr_storage_orchestrat.Proxy.Upload.Replicas.{upload_blob-some}
use nostr_storage_orchestrat.Proxy.Registry.{fresh_candidates}
use nostr_storage_orchestrat.Proxy.World.{Copy, is_copy, World, Network}
use nostr_storage_orchestrat.Proxy.Durable.{
  is_cons, HasCopy, AreHeld, IsHeld, IsFree, AreHeld-append, any-append_right,
}
use nostr_storage_orchestrat.Proxy.Handler.{done, Triple}
use nostr_storage_orchestrat.Proxy.Account.{Service}
use nostr_storage_orchestrat.Proxy.Put.{upload_failed, copies_at, take_upload, store_bytes}
use nostr_storage_orchestrat.Proxy.Durable.{Sound}
use nostr_storage_orchestrat.Proxy.Put.Row.{Ends, IsReady}

HasCopy-cons :
    (c : Copy) (copies : List Copy) (hash replica : String)
    → HasCopy copies hash replica
    → HasCopy (c ∷ copies) hash replica
HasCopy-cons c copies hash replica h = ground arith

stored-AreHeld :
    (hash : String) (body : List ℕ) (ids : List String)
    → All (HasCopy (copies_at hash body ids) hash) ids
stored-AreHeld hash body [] = tt
stored-AreHeld hash body (id ∷ ids) = (
  ground (arith, eq_refl id, eq_refl hash),
  All-mono (HasCopy (copies_at hash body ids) hash) (HasCopy (copies_at hash body (id ∷ ids)) hash)
      ids
      (HasCopy-cons (record { node = id; hash = hash; content = body }) (copies_at hash body ids)
        hash)
      (stored-AreHeld hash body ids),
)

pub Upload-cases :
    (o : Option UploadResult)
    → ((ids : List String) × (o ≡ some (uploaded ids)))
      ⊎ ((hash : String) (body : List ℕ) (w : World)
          → take_upload hash body o w ≡ (done upload_failed, w))
Upload-cases none = inr (λ hash body w. refl)
Upload-cases (some no_providers) = inr (λ hash body w. refl)
Upload-cases (some (all_failed tried)) = inr (λ hash body w. refl)
Upload-cases (some (uploaded ids)) = inl (ids, refl)

AreHeld-prepend :
    (copies more : List Copy) (hash : String) (ids : List String)
    → AreHeld more hash ids
    → AreHeld (copies ++ more) hash ids
AreHeld-prepend copies more hash ids (some_left, held) = (
  some_left,
  All-mono (HasCopy more hash) (HasCopy (copies ++ more) hash) ids
      (λ r. any-append_right (is_copy r hash) copies more) held,
)

module _ (s : Service) (net : Network) (now : ℕ) (npub hash : String) (body : List ℕ) where
  pub store_bytes-Triple :
      (db₀ : Db)
      → IsFree hash db₀.blobs
      → Triple
          (λ w. Sound w × (w.db ≡ db₀))
          (store_bytes s net now npub hash body)
          (IsReady hash true)
          (Ends npub hash)
  unfolding store_bytes
  store_bytes-Triple db₀ free = record {
    holds = λ w (sound, same).
        let candidates = fresh_candidates net.active w.registry in
        elim (Upload-cases (upload_blob net.puts npub (now - epoch) s.replica_count candidates)) [
          | inl (ids, e) ↦
              let (first, rest, names) =
                upload_blob-some net.puts npub (now - epoch) s.replica_count candidates ids e in
              let cons : is_cons ids ≡ true = rw names refl in
              rw e (
                record {
                  consistent = sound.consistent;
                  durable =
                      All-mono (IsHeld w.copies) (IsHeld (w.copies ++ copies_at hash body ids))
                        w.db.blobs
                        (λ b. AreHeld-append w.copies (copies_at hash body ids) b.hash b.replicas)
                        sound.durable;
                },
                AreHeld-prepend w.copies (copies_at hash body ids) hash ids
                    (cons, stored-AreHeld hash body ids),
                λ _. rw same free,
              )
          | inr failed ↦ rw (failed hash body (record w { registry = candidates })) (sound, λ h. cc)
        ];
  }
