-- ===== src/Proxy/Put/Genuine.antt =====
-- PUT /upload puts on the nodes only bytes of the hash that it names them by.
use nostr_storage_orchestrat.Common.{
  ℕ, ◌-◌, ◌≡◌, refl, inl, inr, Bool, not, ◌&&◌, Option, none, some, List, [], ◌∷◌, ◌++◌, String,
  length, is_some, All, All-keep, Bool-cases, Option-cases,
}
use nostr_storage_orchestrat.Common.Int.{ℤ}
use nostr_storage_orchestrat.Common.Js.{epoch}
use nostr_storage_orchestrat.Lifecycle.{AccessState}
use nostr_storage_orchestrat.Db.{User, Blob}
use nostr_storage_orchestrat.Proxy.Upload.{upload_blob}
use nostr_storage_orchestrat.Proxy.Client.{
  Answer, answer, api_error, unreachable, get_blob, create_blob,
}
use nostr_storage_orchestrat.Proxy.Registry.{Registry, resolve, fresh_candidates}
use nostr_storage_orchestrat.Proxy.World.{Copy, is_copy, World, Network, delete_copy, delete_copies}
use nostr_storage_orchestrat.Proxy.Handler.{
  Reply, Handler, ◌>>=◌, respond, Triple, Triple-bind, Triple-mono, run-Triple, or_throw-Triple,
}
use nostr_storage_orchestrat.Proxy.Account.{Service}
use nostr_storage_orchestrat.Proxy.Put.{
  Upload, Uploaded, upload_failed, is_mine, is_claimed, is_conflict, copies_at, store_bytes,
  find_replicas, clean_up, end_create, after_create, create_row, add_blob, admit, put_upload,
}
use nostr_storage_orchestrat.Proxy.Put.Admission.{Same}
use nostr_storage_orchestrat.Proxy.Put.Stored.{Upload-cases}
use nostr_storage_orchestrat.Proxy.Put.Durable.{admit-Triple}

-- The bytes at a node are those of their hash.
abbrev pub IsGenuine : Service → Copy → Type 0
IsGenuine s c = s.sha256 c.content ≡ c.hash

All-append_both :
    (s : Service) (xs ys : List Copy)
    → All (IsGenuine s) xs
    → All (IsGenuine s) ys
    → All (IsGenuine s) (xs ++ ys)
All-append_both s [] ys h g = g
All-append_both s (x ∷ xs) ys h g = (h.0, All-append_both s xs ys h.1 g)

All-copies_at :
    (s : Service) (hash : String) (body : List ℕ) (ids : List String)
    → s.sha256 body ≡ hash
    → All (IsGenuine s) (copies_at hash body ids)
All-copies_at s hash body [] e = tt
All-copies_at s hash body (id ∷ ids) e = (e, All-copies_at s hash body ids e)

All-delete_copy :
    (s : Service) (deletes : String → Bool) (registry : Registry) (hash r : String)
    (copies : List Copy)
    → All (IsGenuine s) copies
    → All (IsGenuine s) (delete_copy deletes registry hash r copies)
All-delete_copy s deletes registry hash r copies h = elim (Option-cases (resolve registry r)) [
  | inl e ↦ rw (delete_copy, e) h
  | inr (server, e) ↦ elim (Bool-cases (deletes r)) [
    | inl f ↦ rw (delete_copy, e, f) (All-keep (IsGenuine s) (λ c. not (is_copy r hash c)) copies h)
    | inr f ↦ rw (delete_copy, e, f) h
  ]
]

All-delete_copies :
    (s : Service) (deletes : String → Bool) (registry : Registry) (hash : String) (rs : List String)
    (copies : List Copy)
    → All (IsGenuine s) copies
    → All (IsGenuine s) (delete_copies deletes registry hash rs copies)
unfolding delete_copies
All-delete_copies s deletes registry hash [] copies h = h
All-delete_copies s deletes registry hash (r ∷ rs) copies h =
    All-delete_copies s deletes registry hash rs (delete_copy deletes registry hash r copies)
      (All-delete_copy s deletes registry hash r copies h)

module _ (s : Service) (net : Network) (now : ℕ) (npub hash : String) where
  abbrev Genuine : World → Type 0
  Genuine w = All (IsGenuine s) w.copies

  abbrev Ends : Reply Uploaded → World → Type 0
  Ends r w = Genuine w

  -- A step that keeps the nodes' bytes genuine.
  abbrev Keeps : {A : Type 0} → Handler Uploaded A → Type 0
  Keeps h = Triple Genuine h (λ _. Genuine) Ends

  store_bytes-Keeps :
      (body : List ℕ) → s.sha256 body ≡ hash → Keeps (store_bytes s net now npub hash body)
  unfolding store_bytes
  store_bytes-Keeps body named = record {
    holds = λ w h.
        let candidates = fresh_candidates net.active w.registry in
        elim (Upload-cases (upload_blob net.puts npub (now - epoch) s.replica_count candidates)) [
          | inl (ids, e) ↦ rw e (
              All-append_both s w.copies (copies_at hash body ids) h
                (All-copies_at s hash body ids named))
          | inr failed ↦ rw (failed hash body (record w { registry = candidates })) h
        ];
  }

  find_replicas-Keeps :
      (body : List ℕ) (existing : Option (Blob × List String))
      → s.sha256 body ≡ hash
      → Keeps (find_replicas s net now npub hash body existing)
  unfolding find_replicas
  find_replicas-Keeps body (some (blob, owners)) named = record { holds = λ w h. h }
  find_replicas-Keeps body none named = store_bytes-Keeps body named

  clean_up-Keeps :
      (replicas : List String) (stored_now : Bool) → Keeps (clean_up net hash replicas stored_now)
  unfolding clean_up
  clean_up-Keeps replicas stored_now = record {
    holds = λ w h.
        elim (Bool-cases (stored_now && not (is_claimed (get_blob net.blob_reread hash w.db)))) [
          | inl e ↦ rw e (All-delete_copies s net.deletes w.registry hash replicas w.copies h)
          | inr e ↦ rw e h
        ];
  }

  end_create-Keeps :
      (account : User × AccessState) (status : ℕ) (e : String)
      → Keeps (end_create npub account status e)
  end_create-Keeps (user, access) status e =
      elim (Bool-cases (is_conflict status e "quota_exceeded")) [
        | inl f ↦ rw f (record { holds = λ w h. h })
        | inr f ↦ rw f (record { holds = λ w h. h })
      ]

  after_create-Keeps :
      (account : User × AccessState) (replicas : List String) (stored_now : Bool)
      (a : Answer (Blob × ℤ))
      → Keeps (after_create net npub hash account replicas stored_now a)
  unfolding after_create
  after_create-Keeps account replicas stored_now (answer (b, used)) = record { holds = λ w h. h }
  after_create-Keeps account replicas stored_now (api_error status e) =
      elim (Bool-cases (is_conflict status e "already_exists")) [
        | inl f ↦ rw f (record {
          holds = λ w h.
              (Triple-bind {P = Genuine} _ _
                  (or_throw-Triple upload_failed (get_blob net.blob_reread hash w.db) (λ w h. h))
                  (λ refetched. record { holds = λ w h. h.1 })).holds
                w h;
        })
        | inr f ↦ rw f (
            Triple-bind _ _ (clean_up-Keeps replicas stored_now)
              (λ _. end_create-Keeps account status e))
      ]
  after_create-Keeps account replicas stored_now unreachable =
      Triple-bind _ (λ _. respond upload_failed) (clean_up-Keeps replicas stored_now)
        (λ _. record { holds = λ w h. h })

  create_row-Keeps :
      (size : ℕ) (account : User × AccessState) (stored_now : Bool) (replicas : List String)
      → Keeps (create_row s net now npub hash size account stored_now replicas)
  unfolding create_row
  create_row-Keeps size account stored_now replicas = record {
    holds = λ w h.
        let r = create_blob s.js net.write hash npub size replicas now w.db in
        (after_create-Keeps account replicas stored_now r.0).holds (record w { db = r.1 }) h;
  }

  add_blob-Keeps :
      (body : List ℕ) (account : User × AccessState) (existing : Option (Blob × List String))
      → s.sha256 body ≡ hash
      → Keeps (add_blob s net now npub hash body account existing)
  unfolding add_blob
  add_blob-Keeps body account existing named = elim (Bool-cases (is_mine npub existing)) [
    | inl mine ↦ rw mine (record { holds = λ w h. h })
    | inr other ↦ rw other (
        Triple-bind _ _ (find_replicas-Keeps body existing named) λ replicas.
          Triple-bind _ _ (create_row-Keeps (length body) account (not (is_some existing)) replicas)
            λ created. record { holds = λ w h. h })
  ]

-- After an upload, however it ended, the nodes hold under a hash only bytes of that hash, where they did
-- so before.
pub put_upload-All :
    (s : Service) (net : Network) (now : ℕ) (req : Upload) (w : World)
    → All (IsGenuine s) w.copies
    → All (IsGenuine s) ((put_upload s net now req w).1).copies
unfolding put_upload
put_upload-All s net now req w₀ genuine =
    let t : Triple (Same w₀)
        (do
          (npub, account, existing) ← admit s net now req
          add_blob s net now npub (s.sha256 req.body) req.body account existing)
        (λ r w. All (IsGenuine s) w.copies) (λ r w. All (IsGenuine s) w.copies) =
      Triple-bind _ _
        (Triple-mono _ (λ w same. same) (λ a w admitted. admitted)
          (λ r w (error, same). rw same.1 genuine) (admit-Triple s net now req w₀))
        (λ (npub, account, existing). record {
          holds = λ w (token, found, same).
              (add_blob-Keeps s net now npub (s.sha256 req.body) req.body account existing
                  refl).holds
                w (rw same.1 genuine);
        }) in
    run-Triple _ t w₀ (refl, refl)
