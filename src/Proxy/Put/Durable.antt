-- ===== src/Proxy/Put/Durable.antt =====
-- PUT /upload keeps the tables consistent and every row held, and what it says is stored is stored.
use nostr_storage_orchestrat.Common.{
  ℕ, ◌≡◌, refl, sym, ◌∙◌, inl, inr, Bool, true, false, not, Option, none, some, List, String,
  length, any, is_some, Bool-cases, arith, eq_iff, nat_eq, ◌==◌, string_eq,
}
use nostr_storage_orchestrat.Common.Int.{pos}
use nostr_storage_orchestrat.Lifecycle.{AccessState}
use nostr_storage_orchestrat.Db.{User, Blob, Db, is_row}
use nostr_storage_orchestrat.Db.Blobs.{exceeds}
use nostr_storage_orchestrat.Proxy.Token.{accepted, verify_auth_token}
use nostr_storage_orchestrat.Proxy.Client.{answer, get_blob}
use nostr_storage_orchestrat.Proxy.World.{World, Network}
use nostr_storage_orchestrat.Proxy.Durable.{AreHeld, IsHeld, IsSound}
use nostr_storage_orchestrat.Proxy.Handler.{
  Reply, is_reply, refused, forbidden, Handler, ◌>>=◌, ◌>>◌, pure, respond_if, Triple, Triple-bind,
  Triple-mono, run-Triple, respond_if-Triple, or_throw-Triple,
}
use nostr_storage_orchestrat.Proxy.Account.{Service, seconds, access_error, over_quota}
use nostr_storage_orchestrat.Proxy.Put.{
  Upload, Uploaded, upload_failed, is_mismatch, is_mine, find_replicas, add_blob, look_up, Admitted,
  check_account, admit, put_upload,
}
use nostr_storage_orchestrat.Proxy.Put.Stored.{store_bytes-Triple}
use nostr_storage_orchestrat.Proxy.Put.Admission.{Same, authorize-Triple, load_for_upload-Triple}
use nostr_storage_orchestrat.Proxy.Durable.{Sound}
use nostr_storage_orchestrat.Proxy.Put.Found.{lookup_none, lookup_some}
use nostr_storage_orchestrat.Proxy.Put.Row.{Ends, is_recoverable, IsReady, create_row-Triple}

from_second :
    {R A : Type 0} {T : Type 0} {P : World → Type 0} {h : Handler R A} {Q : A → World → Type 0}
    {E : Reply R → World → Type 0}
    → Triple P h Q E
    → Triple (λ w. T × P w) h Q E
from_second t = record { holds = λ w (_, p). t.holds w p }

module _ (s : Service) (net : Network) (now : ℕ) (req : Upload) (w₀ : World) where
  abbrev req_hash : String
  req_hash = s.sha256 req.body

  -- What an admitted upload has behind it.
  abbrev IsAdmitted : Admitted → World → Type 0
  IsAdmitted (npub, account, existing) w =
      (verify_auth_token s.lib req.authorization "upload"
          (record { hash = some req_hash; require_hash_scope = true }) (seconds now)
        ≡ accepted npub)
      × (get_blob net.blob_read req_hash w₀.db ≡ answer existing)
      × Same w₀ w

  abbrev IsRefused : Reply Uploaded → World → Type 0
  IsRefused r w = (is_reply r ≡ false) × Same w₀ w

  refusal : (r : Reply Uploaded) → is_reply r ≡ false → (w : World) → Same w₀ w → IsRefused r w
  refusal r h w same = (h, same)

  -- An early return, and the steps after it.
  refuse :
      (test : Bool) (r : Reply Uploaded)
      → is_reply r ≡ false
      → (h : Handler Uploaded Admitted) → Triple (Same w₀) h IsAdmitted IsRefused
      → Triple (Same w₀) (respond_if test r >> h) IsAdmitted IsRefused
  refuse test r error h t =
      Triple-bind _ _ (respond_if-Triple test r (λ _ w same. (error, same))) (λ _. from_second t)

  looked_up :
      (npub : String) (account : User × AccessState)
      → verify_auth_token s.lib req.authorization "upload"
          (record { hash = some req_hash; require_hash_scope = true })
          (seconds now)
        ≡ accepted npub
      → Triple
          (Same w₀)
          (look_up net req_hash >>= λ existing. pure (npub, account, existing))
          IsAdmitted
          IsRefused
  looked_up npub account token = record {
    holds = λ w same.
        (Triple-bind {P = Same w₀} _ _
            (or_throw-Triple _ (get_blob net.blob_read req_hash w.db) (λ w same. (refl, same)))
            (λ existing. record {
              holds = λ w' (found, same'). (token, rw same.0 at found, same');
            })).holds
          w same;
  }

  authorized :
      (npub : String)
      → Triple
          (λ w.
            (verify_auth_token s.lib req.authorization "upload"
                (record { hash = some req_hash; require_hash_scope = true })
                (seconds now)
              ≡ accepted npub)
            × Same w₀ w)
          (check_account s net now req npub)
          IsAdmitted
          IsRefused
  authorized npub = record {
    holds = λ w (token, same).
        let t : Triple (Same w₀) (check_account s net now req npub) IsAdmitted IsRefused =
          Triple-bind _ _
            (load_for_upload-Triple w₀ IsRefused refusal upload_failed refl s net npub now)
            λ (user, access).
              refuse (not access.can_upload) (forbidden (access_error user access)) refl _ (
                refuse (exceeds user (pos (length req.body)))
                  (forbidden (access_error user (over_quota access))) refl _
                  (looked_up npub (user, access) token)) in
        t.holds w same;
  }

  pub admit-Triple : Triple (Same w₀) (admit s net now req) IsAdmitted IsRefused
  unfolding admit
  admit-Triple =
      refuse (length req.body == 0) (refused 400 "Request body must contain binary data") refl _ (
        refuse (is_mismatch s req_hash req.client_hash)
          (refused 409 "X-SHA-256 header does not match the uploaded content") refl _
          (Triple-bind _ _
            (authorize-Triple w₀ IsRefused refusal upload_failed refl s now req.authorization
              "upload" _)
            authorized))

mine_stored :
    (answered : Bool) (npub hash : String) (db : Db) (existing : Option (Blob × List String))
    → get_blob answered hash db ≡ answer existing
    → is_mine npub existing ≡ true
    → any (is_row hash npub) db.blobs ≡ true
mine_stored answered npub hash db none e mine = cc
mine_stored answered npub hash db (some (blob, owners)) e mine =
    let (_, _, owned) = lookup_some answered hash db blob owners e in sym (owned npub) ∙ mine

module _ (s : Service) (net : Network) (now : ℕ) (npub hash : String) (body : List ℕ) where
  find_replicas-Triple :
      (db₀ : Db) (existing : Option (Blob × List String))
      → get_blob net.blob_read hash db₀ ≡ answer existing
      → Triple
          (λ w. Sound w × (w.db ≡ db₀))
          (find_replicas s net now npub hash body existing)
          (IsReady hash (not (is_some existing)))
          (Ends npub hash)
  unfolding find_replicas
  find_replicas-Triple db₀ (some (blob, owners)) e = record {
    holds = λ w (sound, same).
        let (has, from, owned) = lookup_some net.blob_read hash db₀ blob owners e in
        let held : AreHeld w.copies blob.hash blob.replicas =
          from (IsHeld w.copies) (rw same at sound.durable) in
        let one : blob.hash ≡ hash = ground (arith, eq_iff blob.hash hash) in
        (sound, (rw one at held), λ h. cc);
  }
  find_replicas-Triple db₀ none e = elim (Bool-cases net.blob_read) [
    | inl asked ↦
        store_bytes-Triple s net now npub hash body db₀ (lookup_none hash db₀ (rw asked at e))
    | inr unasked ↦ let e' = rw unasked at e in cc
  ]

  add_blob-Triple :
      (db₀ : Db) (account : User × AccessState) (existing : Option (Blob × List String))
      → is_recoverable net ≡ true
      → get_blob net.blob_read hash db₀ ≡ answer existing
      → Triple
          (λ w. Sound w × (w.db ≡ db₀))
          (add_blob s net now npub hash body account existing)
          (Ends npub hash)
          (Ends npub hash)
  unfolding add_blob
  add_blob-Triple db₀ account existing safe e = elim (Bool-cases (is_mine npub existing)) [
    | inl mine ↦ rw mine (record {
      holds = λ w (sound, same).
          (sound, λ _. rw same (mine_stored net.blob_read npub hash db₀ existing e mine));
    })
    | inr other ↦ rw other (
        Triple-bind _ _ (find_replicas-Triple db₀ existing e) λ replicas.
          Triple-bind _ _
            (create_row-Triple s net now npub hash (length body) account (not (is_some existing))
              replicas safe)
            λ created. record { holds = λ w (sound, stored). (sound, λ _. stored) })
  ]

-- What a PUT leaves: sound tables and nodes, and after a success the row of the account that signed.
abbrev pub Puts : Service → ℕ → Upload → Reply Uploaded → World → Type 0
Puts s now req r w =
    Sound w
    × (is_reply r ≡ true
        → (npub : String) × (verify_auth_token s.lib req.authorization "upload"
              (record { hash = some (s.sha256 req.body); require_hash_scope = true }) (seconds now)
            ≡ accepted npub)
          × (any (is_row (s.sha256 req.body) npub) w.db.blobs ≡ true))

-- Where a write that got no answer can be looked up again, PUT /upload keeps the tables consistent and
-- every row held on each of its replicas, whatever fails on the way; and where it answers with success,
-- the account that signed the token has a row of the body's hash, whose bytes the nodes so hold.
pub put_upload-Puts :
    (s : Service) (net : Network) (now : ℕ) (req : Upload) (w : World)
    → IsSound w.db w.copies
    → is_recoverable net ≡ true
    → (let r = put_upload s net now req w in Puts s now req r.0 r.1)
unfolding put_upload
put_upload-Puts s net now req w₀ sound safe =
    let t : Triple (Same w₀)
        (do
          (npub, account, existing) ← admit s net now req
          add_blob s net now npub (s.sha256 req.body) req.body account existing)
        (Puts s now req) (Puts s now req) =
      Triple-bind _ _
        (Triple-mono _ (λ w same. same) (λ a w admitted. admitted)
          (λ r w (error, same). (rw (same.0, same.1) sound, λ h. let h' = rw error at h in cc))
          (admit-Triple s net now req w₀))
        (λ (npub, account, existing). record {
          holds = λ w (token, found, same).
              (Triple-mono {E' = Puts s now req} _ (λ w p. p)
                  (λ r w (after, stored). (after, λ h. (npub, token, stored h)))
                  (λ r w (after, stored). (after, λ h. (npub, token, stored h)))
                  (add_blob-Triple s net now npub (s.sha256 req.body) req.body w₀.db account
                    existing safe found)).holds
                w (rw (same.0, same.1) sound, same.0);
        }) in
    run-Triple _ t w₀ (refl, refl)
