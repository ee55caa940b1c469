-- ===== src/Proxy/Remove/Moderated.antt =====
-- DELETE /admin/blobs/:hash: the content is gone for every owner.
use nostr_storage_orchestrat.Common.{
  ℕ, ◌≡◌, refl, ◌⊎◌, inl, inr, true, false, not, Option, none, some, List, [], ◌∷◌, String,
  All-keep, Bool-cases, ◌==◌, string_eq,
}
use nostr_storage_orchestrat.Common.Int.{ℤ}
use nostr_storage_orchestrat.Db.{Blob, Db, Response, has_hash}
use nostr_storage_orchestrat.Db.Rows.{IsConsistent}
use nostr_storage_orchestrat.Db.Blobs.{delete_blobs}
use nostr_storage_orchestrat.Db.Blobs.Scopes.{Removes, kept, gone, delete_all-Removes}
use nostr_storage_orchestrat.Db.Moderation.{ModerationAction}
use nostr_storage_orchestrat.Proxy.Client.{
  Answer, answer, api_error, unreachable, Fate, works, unsent, unanswered, mutate, get_blob,
  delete_everyone,
}
use nostr_storage_orchestrat.Proxy.World.{World, Network}
use nostr_storage_orchestrat.Proxy.Durable.{IsHeld, IsSound, IsFree, durable-delete_copies}
use nostr_storage_orchestrat.Proxy.Handler.{
  Reply, is_reply, reply, refused, ◌>>=◌, ◌>>◌, pure, or_throw, Triple, Triple-bind, Triple-mono,
  run-Triple, respond_if-Triple, or_throw-Triple,
}
use nostr_storage_orchestrat.Proxy.Account.{forget}
use nostr_storage_orchestrat.Proxy.Read.{parse_hash}
use nostr_storage_orchestrat.Proxy.Remove.{
  or_respond, moderation_failed, remove_everyone, remove_copies, forget_all, record_moderation,
  action_of, record_all, first_of, moderate_found, moderate_hash, moderate,
}
use nostr_storage_orchestrat.Proxy.Durable.{Sound}
use nostr_storage_orchestrat.Proxy.Remove.Rows.{without, or_respond-Triple}

without-IsFree : (hash : String) (bs : List Blob) → IsFree hash (without (has_hash hash) bs)
without-IsFree hash [] = tt
without-IsFree hash (b ∷ bs) = elim (Bool-cases (has_hash hash b)) [
  | inl e ↦ rw e (without-IsFree hash bs)
  | inr e ↦ rw e (e, without-IsFree hash bs)
]

module _ (net : Network) (now : ℕ) (admin path reason : String) (w₀ : World) where
  -- Every row of the hash is gone, and no other.
  abbrev Cleared : String → World → Type 0
  Cleared hash w = Sound w × (w.db.blobs ≡ without (has_hash hash) w₀.db.blobs)

  abbrev IsCleared : World → Type 0
  IsCleared w =
      (hash : String) × (parse_hash path ≡ some hash)
      × (w.db.blobs ≡ without (has_hash hash) w₀.db.blobs)

  -- What a moderation deletion leaves.
  abbrev pub Moderates : Reply (Option ModerationAction) → World → Type 0
  Moderates r w =
      Sound w × ((w.db.blobs ≡ w₀.db.blobs) ⊎ IsCleared w) × (is_reply r ≡ true → IsCleared w)

  abbrev Untouched : World → Type 0
  Untouched w = Sound w × (w.db.blobs ≡ w₀.db.blobs)

  untouched :
      (r : Reply (Option ModerationAction))
      → is_reply r ≡ false
      → (w : World) → Untouched w
      → Moderates r w
  untouched r error w (sound, rows) = (sound, inl rows, λ h. let h' = rw error at h in cc)

  module _ (hash : String) (named : parse_hash path ≡ some hash) where
    cleared : (r : Reply (Option ModerationAction)) (w : World) → Cleared hash w → Moderates r w
    cleared r w (sound, rows) = (sound, inr (hash, named, rows), λ _. (hash, named, rows))

    abbrev IsAnswered : Answer (ℤ × ℕ) → World → Type 0
    IsAnswered (answer a) w = Cleared hash w
    IsAnswered _ w = Moderates moderation_failed w

    gone-Cleared :
        (w : World) (db' : Db)
        → Untouched w
        → IsConsistent db'
        → db'.blobs ≡ without (has_hash hash) w.db.blobs
        → Cleared hash (record w { db = db' })
    gone-Cleared w db' (sound, rows) agree left = (
      record {
        consistent = agree;
        durable =
            rw left
              (All-keep (IsHeld w.copies) (λ b. not (has_hash hash b)) w.db.blobs sound.durable);
      },
      (rw rows at left),
    )

    removed-IsAnswered :
        (fate : Fate) (w : World)
        → Untouched w
        → (request : Db → Response (ℤ × ℕ) × Db) → Removes hash (has_hash hash) w.db (request w.db)
        → (let a = mutate fate request w.db in IsAnswered a.0 (record w { db = a.1 }))
    removed-IsAnswered works w u request (kept status e h) =
        rw h (untouched moderation_failed refl w u)
    removed-IsAnswered unsent w u request _ = untouched moderation_failed refl w u
    removed-IsAnswered unanswered w u request (kept status e h) =
        rw h (untouched moderation_failed refl w u)
    removed-IsAnswered works w u request (gone used n db' h agree left counted there) =
        rw h (gone-Cleared w db' u agree left)
    removed-IsAnswered unanswered w u request (gone used n db' h agree left counted there) =
        rw h (cleared moderation_failed (record w { db = db' }) (gone-Cleared w db' u agree left))

    passed_on-Triple :
        (a : Answer (ℤ × ℕ))
        → Triple
            (IsAnswered a)
            (or_throw moderation_failed a >>= λ (used, remaining). pure remaining)
            (λ _. Cleared hash)
            Moderates
    passed_on-Triple (answer (used, remaining)) = record { holds = λ w h. h }
    passed_on-Triple (api_error status e) = record { holds = λ w h. h }
    passed_on-Triple unreachable = record { holds = λ w h. h }

    remove_everyone-Triple :
        Triple Untouched (remove_everyone net.write hash) (λ _. Cleared hash) Moderates
    remove_everyone-Triple = record {
      holds = λ w u.
          let a = delete_everyone net.write hash w.db in
          (passed_on-Triple a.0).holds (record w { db = a.1 })
            (removed-IsAnswered net.write w u (delete_blobs hash none (some "true"))
              (delete_all-Removes hash w.db u.0.consistent));
    }

    forget_all-Triple :
        (owners : List String)
        → Triple
            (Cleared hash)
            (forget_all {R = Option ModerationAction} owners)
            (λ _. Cleared hash)
            Moderates
    forget_all-Triple [] = record { holds = λ w h. h }
    forget_all-Triple (owner ∷ owners) =
        let t : Triple (Cleared hash) (forget owner >> forget_all owners) (λ _. Cleared hash)
            Moderates =
          Triple-bind {Q = λ _. Cleared hash} (forget owner) _ (record { holds = λ w h. h })
            (λ _. forget_all-Triple owners) in
        record { holds = t.holds }

    remove_copies-Triple :
        (replicas : List String)
        → Triple
            (Cleared hash)
            (remove_copies net.deletes hash replicas)
            (λ _. Cleared hash)
            Moderates
    remove_copies-Triple replicas = record {
      holds = λ w (sound, rows). (
        record {
          consistent = sound.consistent;
          durable =
              durable-delete_copies net.deletes w.registry hash replicas w.copies w.db.blobs
                (rw rows (without-IsFree hash w₀.db.blobs)) sound.durable;
        },
        rows,
      );
    }

    record_all-Triple :
        (owners : List String)
        → Triple
            (Cleared hash)
            (record_all net now hash admin reason owners)
            (λ _. Cleared hash)
            Moderates
    unfolding record_all
    record_all-Triple [] = record { holds = λ w h. h }
    record_all-Triple (owner ∷ owners) = record {
      holds = λ w h.
          let recorded =
            record_moderation (net.audit_write owner) (action_of now hash admin reason owner)
              w.audit in
          let t : Triple (Cleared hash)
              (or_throw moderation_failed recorded.0 >>= λ action.
                record_all net now hash admin reason owners >>= λ rest. pure (action ∷ rest))
              (λ _. Cleared hash) Moderates =
            Triple-bind _ _
              (or_throw-Triple moderation_failed recorded.0 (λ w h. cleared moderation_failed w h))
              (λ action.
                Triple-bind {Q = λ _. Cleared hash} _ _
                  (Triple-mono _ (λ w h. h.1) (λ a w h. h) (λ r w h. h) (record_all-Triple owners))
                  (λ rest. record { holds = λ w h. h })) in
          t.holds (record w { audit = recorded.1 }) h;
    }

    found-Triple :
        (found : Blob × List String)
        → Triple Untouched (moderate_found net now admin hash reason found) Moderates Moderates
    found-Triple (blob, owners) = Triple-bind _ _ remove_everyone-Triple λ _.
        Triple-bind _ _ (forget_all-Triple owners) λ _.
          Triple-bind _ _ (remove_copies-Triple blob.replicas) λ _.
            Triple-bind _ (λ actions. pure (reply 200 (first_of actions)))
              (record_all-Triple owners)
              λ actions. record { holds = λ w h. cleared (reply 200 (first_of actions)) w h }

    looked_up :
        Triple Untouched
          ((λ w. or_throw moderation_failed (get_blob net.blob_read hash w.db) w) >>= λ found.
            or_respond (refused 404 "not_found") found >>= λ found.
            moderate_found net now admin hash reason found)
          Moderates
          Moderates
    looked_up = record {
      holds = λ w u.
          let t : Triple Untouched
              (or_throw moderation_failed (get_blob net.blob_read hash w.db) >>= λ found.
                or_respond (refused 404 "not_found") found >>= λ found.
                moderate_found net now admin hash reason found)
              Moderates Moderates =
            Triple-bind _ _
              (or_throw-Triple moderation_failed (get_blob net.blob_read hash w.db)
                (untouched moderation_failed refl))
              (λ found.
                Triple-bind _ _
                  (or_respond-Triple (refused 404 "not_found") found
                    (λ w h. untouched (refused 404 "not_found") refl w h.1))
                  (λ found.
                    Triple-mono _ (λ w h. h.0.1) (λ r w h. h) (λ r w h. h) (found-Triple found))) in
          t.holds w u;
    }

    hash-Triple : Triple Untouched (moderate_hash net now admin reason hash) Moderates Moderates
    hash-Triple =
        Triple-bind _ _
          (respond_if-Triple (reason == "") (refused 400 "reason_required")
            (λ _. untouched (refused 400 "reason_required") refl))
          (λ _. Triple-mono _ (λ w h. h.1) (λ r w h. h) (λ r w h. h) looked_up)

  -- From sound tables and nodes a moderation deletion leaves them sound, whatever fails on the way, the
  -- audit included. It removes every row of the hash that the path names and no other row, or none at
  -- all; after a success they are gone.
  pub moderate-Moderates :
      IsSound w₀.db w₀.copies → (let r = moderate net now admin path reason w₀ in Moderates r.0 r.1)
  unfolding moderate
  moderate-Moderates sound =
      let t : Triple Untouched
          (or_respond (refused 400 "Invalid sha256 hash") (parse_hash path) >>= λ hash.
            moderate_hash net now admin reason hash)
          Moderates Moderates =
        Triple-bind _ _
          (or_respond-Triple (refused 400 "Invalid sha256 hash") (parse_hash path)
            (untouched (refused 400 "Invalid sha256 hash") refl))
          (λ hash. record { holds = λ w (u, named). (hash-Triple hash named).holds w u }) in
      run-Triple _ t w₀ (sound, refl)
