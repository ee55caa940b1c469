-- ===== src/Proxy/Remove/Owner.antt =====
-- DELETE /<sha256>: whose row goes, and what stays on the nodes.
use nostr_storage_orchestrat.Common.{
  ℕ, ◌≡◌, refl, ◌⊎◌, inl, inr, true, false, not, Option, some, List, String, any, nat_eq, ◌==◌,
  string_eq,
}
use nostr_storage_orchestrat.Db.{Blob, is_row}
use nostr_storage_orchestrat.Proxy.Token.{accepted, verify_auth_token}
use nostr_storage_orchestrat.Proxy.Client.{get_blob}
use nostr_storage_orchestrat.Proxy.World.{World, Network}
use nostr_storage_orchestrat.Proxy.Durable.{IsSound}
use nostr_storage_orchestrat.Proxy.Handler.{
  Reply, is_reply, reply, refused, ◌>>=◌, ◌>>◌, pure, or_throw, Triple, Triple-bind, Triple-mono,
  run-Triple, respond_if-Triple, or_throw-Triple,
}
use nostr_storage_orchestrat.Proxy.Account.{Service, seconds, authorize, forget}
use nostr_storage_orchestrat.Proxy.Read.{parse_hash}
use nostr_storage_orchestrat.Proxy.Put.Admission.{Same, authorize-Triple}
use nostr_storage_orchestrat.Proxy.Remove.{
  delete_failed, or_respond, delete_owned, delete_signed, remove_blob, delete_handler,
}
use nostr_storage_orchestrat.Proxy.Durable.{Sound}
use nostr_storage_orchestrat.Proxy.Remove.Rows.{
  or_respond-Triple, without, IsRemoved, IsUndecided, remove_row-Triple, remove_copies_if-Triple,
}

module _ (s : Service) (net : Network) (now : ℕ) (path : String) (authorization : Option String)
    (w₀ : World) where
  -- The row of the account that signed, of the hash that the path names.
  abbrev IsTarget : String → String → Type 0
  IsTarget hash npub =
      (parse_hash path ≡ some hash)
      × (verify_auth_token s.lib authorization "delete"
            (record { hash = some hash; require_hash_scope = true }) (seconds now)
          ≡ accepted npub)

  abbrev Takes : World → Type 0
  Takes w =
      (hash : String) × (npub : String) × IsTarget hash npub
      × (w.db.blobs ≡ without (is_row hash npub) w₀.db.blobs)

  -- What a DELETE leaves.
  abbrev pub Deletes : Reply String → World → Type 0
  Deletes r w = Sound w × ((w.db.blobs ≡ w₀.db.blobs) ⊎ Takes w) × (is_reply r ≡ true → Takes w)

  module _ (sound : IsSound w₀.db w₀.copies) where
    unchanged : (r : Reply String) → is_reply r ≡ false → (w : World) → Same w₀ w → Deletes r w
    unchanged r error w same =
        (rw (same.0, same.1) sound, inl (rw same.0 refl), λ h. let h' = rw error at h in cc)

    removed-Triple :
        (hash npub : String) (replicas : List String)
        → IsTarget hash npub
        → Triple
            (Same w₀)
            (remove_blob delete_failed net net.write hash npub replicas
              >> pure (reply 200 "Blob deleted successfully"))
            Deletes
            Deletes
    unfolding remove_blob
    removed-Triple hash npub replicas target =
        let ends : (w : World)
            → IsUndecided hash npub w₀.db.blobs Deletes w
            → Deletes delete_failed w =
          λ w (sound', rows).
            (sound', elim rows [ inl e ↦ inl e | inr e ↦ inr (hash, npub, target, e) ], λ h. cc) in
        let t : Triple (Same w₀) (remove_blob delete_failed net net.write hash npub replicas)
            (λ _ w.
              Sound w
              × (w.db.blobs ≡ without (is_row hash npub) w₀.db.blobs)
              × (any (is_row hash npub) w₀.db.blobs ≡ true))
            Deletes =
          Triple-bind _ _
            (Triple-mono _ (λ w same. (rw (same.0, same.1) sound, rw same.0 refl)) (λ a w h. h)
              (λ r w h. h)
              (remove_row-Triple hash npub w₀.db.blobs Deletes delete_failed ends net.write))
            (λ remaining.
              Triple-bind {Q = λ _. IsRemoved hash npub w₀.db.blobs Deletes remaining} (forget npub)
                _ (record { holds = λ w h. h })
                (λ _.
                  remove_copies_if-Triple hash npub w₀.db.blobs Deletes delete_failed ends remaining
                    net.deletes replicas)) in
        Triple-bind _ _ t (λ _. record {
          holds = λ w (sound', rows, there).
              (sound', inr (hash, npub, target, rows), λ h. (hash, npub, target, rows));
        })

    owned-Triple :
        (hash npub : String) (found : Blob × List String)
        → IsTarget hash npub
        → Triple (Same w₀) (delete_owned net hash npub found) Deletes Deletes
    owned-Triple hash npub (blob, owners) target =
        Triple-bind _ _
          (respond_if-Triple (not (any (λ o. o == npub) owners)) _
            (λ _. unchanged (refused 403 "You do not have access to this blob") refl))
          (λ _.
            Triple-mono _ (λ w h. h.1) (λ r w h. h) (λ r w h. h)
              (removed-Triple hash npub blob.replicas target))

    signed-Triple :
        (hash npub : String)
        → IsTarget hash npub
        → Triple (Same w₀) (delete_signed net hash npub) Deletes Deletes
    signed-Triple hash npub target = record {
      holds = λ w same.
          let t : Triple (Same w₀)
              (or_throw delete_failed (get_blob net.blob_read hash w.db) >>= λ found.
                or_respond (refused 404 "Blob not found") found >>= λ found.
                delete_owned net hash npub found)
              Deletes Deletes =
            Triple-bind _ _
              (or_throw-Triple delete_failed (get_blob net.blob_read hash w.db)
                (unchanged delete_failed refl))
              (λ found.
                Triple-bind _ _
                  (or_respond-Triple (refused 404 "Blob not found") found
                    (λ w h. unchanged (refused 404 "Blob not found") refl w h.1))
                  (λ found.
                    Triple-mono _ (λ w h. h.0.1) (λ r w h. h) (λ r w h. h)
                      (owned-Triple hash npub found target))) in
          t.holds w same;
    }

  -- From sound tables and nodes DELETE /<sha256> leaves them sound, whatever fails on the way. It removes
  -- no row but the one of the hash that the path names and of the account that signed the token, and a
  -- success means that this row is gone.
  pub delete_handler-Deletes :
      IsSound w₀.db w₀.copies
      → (let r = delete_handler s net now path authorization w₀ in Deletes r.0 r.1)
  unfolding delete_handler
  delete_handler-Deletes sound =
      let t : Triple (Same w₀)
          (or_respond (refused 400 "Invalid sha256 hash") (parse_hash path) >>= λ hash.
            authorize delete_failed s now authorization "delete"
              (record { hash = some hash; require_hash_scope = true })
            >>= delete_signed net hash)
          Deletes Deletes =
        Triple-bind _ _
          (or_respond-Triple (refused 400 "Invalid sha256 hash") (parse_hash path)
            (unchanged sound (refused 400 "Invalid sha256 hash") refl))
          (λ hash. record {
            holds = λ w (same, named).
                let u : Triple (Same w₀)
                    (authorize delete_failed s now authorization "delete"
                        (record { hash = some hash; require_hash_scope = true })
                      >>= delete_signed net hash)
                    Deletes Deletes =
                  Triple-bind _ _
                    (authorize-Triple w₀ Deletes (unchanged sound) delete_failed refl s now
                      authorization "delete" _)
                    (λ npub. record {
                      holds = λ w (token, same).
                          (signed-Triple sound hash npub (named, token)).holds w same;
                    }) in
                u.holds w same;
          }) in
      run-Triple _ t w₀ (refl, refl)
