-- ===== src/Proxy/Put/Row.antt =====
-- The row of an upload: what is known once `createBlob` was answered, or was not.
use text.Mathlib.TextPositions.{eq_refl}
use nostr_storage_orchestrat.Common.{
  ℕ, ◌≡◌, refl, ◌⊎◌, inl, inr, Bool, true, false, not, ◌&&◌, Option, List, [], ◌∷◌, ◌++◌, String,
  any, All, All-append, Bool-cases, arith, string_eq,
}
use nostr_storage_orchestrat.Common.Int.{ℤ, pos}
use nostr_storage_orchestrat.Common.Js.{num, int}
use nostr_storage_orchestrat.Lifecycle.{AccessState}
use nostr_storage_orchestrat.Db.{User, Blob, Db, is_row, Response, success, error}
use nostr_storage_orchestrat.Db.Rows.{IsConsistent}
use nostr_storage_orchestrat.Db.Blobs.Lookup.{get_blob-Finds, absent, found}
use nostr_storage_orchestrat.Db.Blobs.Accounting.{post_blobs-IsConsistent}
use nostr_storage_orchestrat.Db.Blobs.Quota.{row_of}
use nostr_storage_orchestrat.Db.Blobs.Added.{unchanged, one_more, is_duplicate, post_blobs-AddsRow}
use nostr_storage_orchestrat.Proxy.Client.{
  Answer, answer, api_error, unreachable, Fate, works, unsent, unanswered, get_blob, create_blob,
  mutate,
}
use nostr_storage_orchestrat.Proxy.World.{Copy, World, Network}
use nostr_storage_orchestrat.Proxy.Durable.{
  Sound, AreHeld, IsHeld, IsFree, durable-delete_copies, any-append_right,
}
use nostr_storage_orchestrat.Proxy.Handler.{
  Reply, is_reply, Handler, ◌>>◌, respond, Triple, Triple-bind, or_throw-Triple,
}
use nostr_storage_orchestrat.Proxy.Account.{Service}
use nostr_storage_orchestrat.Proxy.Put.{
  create_row, Uploaded, upload_failed, is_claimed, is_conflict, clean_up, end_create, after_create,
}

-- The network lets the proxy find out whether a write took place that got no answer.
abbrev pub is_recoverable : Network → Bool
is_recoverable net = elim net.write [ unanswered ↦ net.blob_reread | _ ↦ true ]

-- Whether the answer to `createBlob` shows that the row is there.
abbrev is_settled : Answer (Blob × ℤ) → Bool
is_settled (answer b) = true
is_settled (api_error status e) = is_duplicate status e
is_settled unreachable = false

-- The row that an upload asks for is there.
abbrev pub IsStored : String → String → World → Type 0
IsStored npub hash w = any (is_row hash npub) w.db.blobs ≡ true

-- The end of the handler: a success only where the row is there.
abbrev pub Ends : String → String → Reply Uploaded → World → Type 0
Ends npub hash r w = Sound w × (is_reply r ≡ true → IsStored npub hash w)

-- What is known of the tables and the nodes before the row is created.
abbrev pub IsReady : String → Bool → List String → World → Type 0
IsReady hash stored_now replicas w =
    Sound w × AreHeld w.copies hash replicas × (stored_now ≡ true → IsFree hash w.db.blobs)

module _ (net : Network) (npub hash : String) (stored_now : Bool) where
  -- Bytes that were stored now are nobody's, unless a second look-up would show whose they are.
  abbrev IsIdle : World → Type 0
  IsIdle w = stored_now ≡ true → net.blob_reread ≡ false → IsFree hash w.db.blobs

  -- Bytes that are taken off the nodes have no row.
  unclaimed-IsFree :
      (w : World)
      → IsIdle w
      → (stored_now && not (is_claimed (get_blob net.blob_reread hash w.db))) ≡ true
      → IsFree hash w.db.blobs
  unclaimed-IsFree w idle h = elim (Bool-cases net.blob_reread) [
    | inl asked ↦ elim (get_blob-Finds hash w.db) [
      | absent free e ↦ free
      | found b owners e _ _ _ ↦ ground arith
    ]
    | inr lost ↦ idle (ground arith) lost
  ]

  clean_up-Triple :
      (replicas : List String)
      → Triple
          (λ w. Sound w × IsIdle w)
          (clean_up net hash replicas stored_now)
          (λ _. Sound)
          (Ends npub hash)
  unfolding clean_up
  clean_up-Triple replicas = record {
    holds = λ w (sound, idle).
        elim (Bool-cases (stored_now && not (is_claimed (get_blob net.blob_reread hash w.db)))) [
          | inl e ↦ rw e (record {
            consistent = sound.consistent;
            durable =
                durable-delete_copies net.deletes w.registry hash replicas w.copies w.db.blobs
                  (unclaimed-IsFree w idle e) sound.durable;
          })
          | inr e ↦ rw e sound
        ];
  }

  -- After the clean-up an error is answered.
  clean_up_then :
      (replicas : List String) (tail : Handler Uploaded (Option ℕ))
      → Triple Sound tail (λ _ w. Sound w × IsStored npub hash w) (Ends npub hash)
      → Triple
          (λ w. Sound w × IsIdle w)
          (clean_up net hash replicas stored_now >> tail)
          (λ _ w. Sound w × IsStored npub hash w)
          (Ends npub hash)
  clean_up_then replicas tail t = Triple-bind _ _ (clean_up-Triple replicas) (λ _. t)

  respond_failed :
      Triple {A = Option ℕ} Sound
        (respond upload_failed)
        (λ _ w. Sound w × IsStored npub hash w)
        (Ends npub hash)
  respond_failed = record { holds = λ w sound. (sound, λ h. cc) }

  end_create-Triple :
      (account : User × AccessState) (status : ℕ) (e : String)
      → Triple Sound
          (end_create npub account status e)
          (λ _ w. Sound w × IsStored npub hash w)
          (Ends npub hash)
  end_create-Triple (user, access) status e =
      elim (Bool-cases (is_conflict status e "quota_exceeded")) [
        | inl h ↦ rw h (record { holds = λ w sound. (sound, λ h. cc) })
        | inr h ↦ rw h respond_failed
      ]

  after_create-Triple :
      (account : User × AccessState) (replicas : List String) (a : Answer (Blob × ℤ))
      → Triple
          (λ w.
            Sound w
            × (is_settled a ≡ true → IsStored npub hash w)
            × (is_settled a ≡ false → IsIdle w))
          (after_create net npub hash account replicas stored_now a)
          (λ _ w. Sound w × IsStored npub hash w)
          (Ends npub hash)
  unfolding after_create
  after_create-Triple account replicas (answer (b, used)) = record {
    holds = λ w (sound, stored, idle). (sound, stored refl);
  }
  after_create-Triple account replicas (api_error status e) =
      elim (Bool-cases (is_duplicate status e)) [
        | inl dup ↦ rw dup (record {
          holds = λ w (sound, stored, idle).
              (Triple-bind {P = λ w. Sound w × IsStored npub hash w} _ _
                  (or_throw-Triple upload_failed (get_blob net.blob_reread hash w.db)
                    (λ w (sound, stored). (sound, λ h. cc)))
                  (λ refetched. record { holds = λ w h. h.1 })).holds
                w (sound, stored refl);
        })
        | inr new ↦ rw new (record {
          holds = λ w (sound, stored, idle).
              (clean_up_then replicas _ (end_create-Triple account status e)).holds w
                (sound, idle refl);
        })
      ]
  after_create-Triple account replicas unreachable = record {
    holds = λ w (sound, stored, idle).
        (clean_up_then replicas _ respond_failed).holds w (sound, idle refl);
  }

Fate-cases : (f : Fate) → (f ≡ works) ⊎ (f ≡ unsent) ⊎ (f ≡ unanswered)
Fate-cases works = inl refl
Fate-cases unsent = inr (inl refl)
Fate-cases unanswered = inr (inr refl)

mutate_same :
    (f : Fate) (p q : Db → Response (Blob × ℤ) × Db) (db : Db)
    → p db ≡ q db
    → mutate f p db ≡ mutate f q db
mutate_same works p q db e = rw e refl
mutate_same unsent p q db e = refl
mutate_same unanswered p q db e = rw e refl

-- The rows once one more of them is held.
durable-add :
    (copies : List Copy) (bs : List Blob) (b : Blob)
    → All (IsHeld copies) bs
    → AreHeld copies b.hash b.replicas
    → All (IsHeld copies) (bs ++ b ∷ [])
durable-add copies bs b h held = All-append (IsHeld copies) bs b h held

pub any_last : (bs : List Blob) (b : Blob) → any (is_row b.hash b.npub) (bs ++ b ∷ []) ≡ true
any_last bs b =
    any-append_right (is_row b.hash b.npub) bs (b ∷ [])
      (ground (arith, eq_refl b.hash, eq_refl b.npub))

module _ (s : Service) (net : Network) (now : ℕ) (npub hash : String) (size : ℕ)
    (account : User × AccessState) (stored_now : Bool) (replicas : List String) where
  -- What is known after `createBlob`, by its answer.
  abbrev IsAnswered : Answer (Blob × ℤ) → World → Type 0
  IsAnswered a w =
      Sound w
      × (is_settled a ≡ true → IsStored npub hash w)
      × (is_settled a ≡ false → IsIdle net npub hash stored_now w)

  created_added :
      (w : World) (n used : ℤ) (at : ℕ) (db' : Db)
      → IsReady hash stored_now replicas w
      → is_recoverable net ≡ true
      → IsConsistent db'
      → db'.blobs ≡ w.db.blobs ++ row_of hash npub n replicas at ∷ []
      → (r : Answer (Blob × ℤ) × Db)
      → r ≡ mutate net.write (λ db. (success 201 (row_of hash npub n replicas at, used), db')) w.db
      → IsAnswered r.0 (record w { db = r.1 })
  created_added w n used at db' (sound, held, free) safe agree rows r e =
      let row = row_of hash npub n replicas at in
      let grown : Sound (record w { db = db' }) = record {
        consistent = agree;
        durable = rw rows (durable-add w.copies w.db.blobs row sound.durable held);
      } in
      let stored : any (is_row hash npub) db'.blobs ≡ true = rw rows (any_last w.db.blobs row) in
      elim (Fate-cases net.write) [
        | inl f ↦ rw (e, f) (grown, (λ _. stored), λ h. cc)
        | inr (inl f) ↦ rw (e, f) (sound, (λ h. cc), λ _ now_stored _. free now_stored)
        | inr (inr f) ↦ rw (e, f) (grown, (λ h. cc), λ _ _ lost. ground arith)
      ]

  created_unchanged :
      (w : World) (status : ℕ) (e : String)
      → IsReady hash stored_now replicas w
      → (is_duplicate status e ≡ true → any (is_row hash npub) w.db.blobs ≡ true)
      → (r : Answer (Blob × ℤ) × Db) → r ≡ mutate net.write (λ db. (error status e, w.db)) w.db
      → IsAnswered r.0 (record w { db = r.1 })
  created_unchanged w status e (sound, held, free) dup r h = elim (Fate-cases net.write) [
    | inl f ↦ rw (h, f) (sound, dup, λ _ now_stored _. free now_stored)
    | inr (inl f) ↦ rw (h, f) (sound, (λ h. cc), λ _ now_stored _. free now_stored)
    | inr (inr f) ↦ rw (h, f) (sound, (λ h. cc), λ _ now_stored _. free now_stored)
  ]

  created-IsAnswered :
      is_recoverable net ≡ true
      → (w : World) → IsReady hash stored_now replicas w
      → (let r = create_blob s.js net.write hash npub size replicas now w.db in
          IsAnswered r.0 (record w { db = r.1 }))
  created-IsAnswered safe w ready =
      let agree =
        post_blobs-IsConsistent s.js hash npub (num (int (pos size))) replicas now w.db
          ready.0.consistent in
      elim (post_blobs-AddsRow s.js hash npub (num (int (pos size))) replicas now w.db) [
        | unchanged status e same dup ↦
            created_unchanged w status e ready dup _ (mutate_same net.write _ _ w.db same)
        | one_more n used at db' same rows ↦
            created_added w n used at db' ready safe (rw same at agree) rows _
              (mutate_same net.write _ _ w.db same)
      ]

  pub create_row-Triple :
      is_recoverable net ≡ true
      → Triple
          (IsReady hash stored_now replicas)
          (create_row s net now npub hash size account stored_now replicas)
          (λ _ w. Sound w × IsStored npub hash w)
          (Ends npub hash)
  unfolding create_row
  create_row-Triple safe = record {
    holds = λ w ready.
        let r = create_blob s.js net.write hash npub size replicas now w.db in
        (after_create-Triple net npub hash stored_now account replicas r.0).holds
          (record w { db = r.1 }) (created-IsAnswered safe w ready);
  }
