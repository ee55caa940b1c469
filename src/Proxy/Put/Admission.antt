-- ===== src/Proxy/Put/Admission.antt =====
-- What is checked before an upload is stored changes neither the tables nor the bytes on the nodes.
use nostr_storage_orchestrat.Common.{
  ℕ, ◌≡◌, refl, ◌⊎◌, inl, inr, false, Option, String, Bool-cases, arith,
}
use nostr_storage_orchestrat.Db.{User}
use nostr_storage_orchestrat.Proxy.Client.{Answer, get_user}
use nostr_storage_orchestrat.Proxy.World.{World, Network}
use nostr_storage_orchestrat.Proxy.Token.{
  AuthError, Verified, accepted, refused, thrown, TokenOptions, verify_auth_token,
}
use nostr_storage_orchestrat.Proxy.Handler.{
  Reply, is_reply, ◌>>=◌, or_throw, Triple, Triple-bind, or_throw-Triple,
}
use nostr_storage_orchestrat.Proxy.Account.{
  Service, authorize, seconds, load_access, load_fresh, load_for_upload, read_cached, derived,
}

Verified-cases :
    (v : Verified)
    → ((npub : String) × (v ≡ accepted npub)) ⊎ (((e : AuthError) × (v ≡ refused e)) ⊎ (v ≡ thrown))
Verified-cases (accepted npub) = inl (npub, refl)
Verified-cases (refused e) = inr (inl (e, refl))
Verified-cases thrown = inr (inr refl)

-- The tables and the bytes are those of `w₀`.
abbrev pub Same : World → World → Type 0
Same w₀ w = (w.db ≡ w₀.db) × (w.copies ≡ w₀.copies)

module _ {R : Type 0} (w₀ : World) (E : Reply R → World → Type 0)
    (ends : (r : Reply R) → is_reply r ≡ false → (w : World) → Same w₀ w → E r w) where
  -- An accepted token names its account.
  pub authorize-Triple :
      (failed : Reply R) (fails : is_reply failed ≡ false) (s : Service) (now : ℕ)
      (header : Option String) (action : String) (options : TokenOptions)
      → Triple
          (Same w₀)
          (authorize failed s now header action options)
          (λ npub w.
            (verify_auth_token s.lib header action options (seconds now) ≡ accepted npub)
            × Same w₀ w)
          E
  unfolding authorize
  authorize-Triple failed fails s now header action options =
      elim (Verified-cases (verify_auth_token s.lib header action options (seconds now))) [
        | inl (npub, e) ↦ record { holds = λ w same. rw e (refl, same) }
        | inr (inr e) ↦ record { holds = λ w same. rw e (ends failed fails w same) }
        | inr (inl (x, e)) ↦ record { holds = λ w same. rw e (ends _ refl w same) }
      ]

  -- A step that changes the cache alone.
  read_cached-Same :
      (s : Service) (net : Network) (npub : String) (now : ℕ) (w : World)
      → Same w₀ w
      → Same w₀ (read_cached s net npub now w).1
  unfolding read_cached
  read_cached-Same s net npub now w same = ground arith

  access-Triple :
      (failed : Reply R) (fails : is_reply failed ≡ false) (s : Service) (npub : String) (now : ℕ)
      (u : Answer (Option User))
      → Triple (Same w₀) (or_throw failed u >>= derived s now npub) (λ _. Same w₀) E
  access-Triple failed fails s npub now u =
      Triple-bind _ _ (or_throw-Triple failed u (ends failed fails))
        (λ x. record { holds = λ w h. h.1 })

  load_access-Triple :
      (failed : Reply R) (fails : is_reply failed ≡ false) (s : Service) (net : Network)
      (npub : String) (now : ℕ)
      → Triple (Same w₀) (load_access failed s net npub now) (λ _. Same w₀) E
  unfolding load_access
  load_access-Triple failed fails s net npub now = record {
    holds = λ w same.
        (access-Triple failed fails s npub now (read_cached s net npub now w).0).holds _
          (read_cached-Same s net npub now w same);
  }

  load_fresh-Triple :
      (failed : Reply R) (fails : is_reply failed ≡ false) (s : Service) (net : Network)
      (npub : String) (now : ℕ)
      → Triple (Same w₀) (load_fresh failed s net npub now) (λ _. Same w₀) E
  unfolding load_fresh
  load_fresh-Triple failed fails s net npub now = record {
    holds = λ w same.
        (access-Triple failed fails s npub now (get_user net.account_reread npub w.db)).holds _
          same;
  }

  pub load_for_upload-Triple :
      (failed : Reply R) (fails : is_reply failed ≡ false) (s : Service) (net : Network)
      (npub : String) (now : ℕ)
      → Triple (Same w₀) (load_for_upload failed s net npub now) (λ _. Same w₀) E
  unfolding load_for_upload
  load_for_upload-Triple failed fails s net npub now =
      Triple-bind _ _ (load_access-Triple failed fails s net npub now) λ (user, access).
        elim (Bool-cases access.can_upload) [
          | inl e ↦ rw e (record { holds = λ w same. same })
          | inr e ↦ rw e (load_fresh-Triple failed fails s net npub now)
        ]
