-- ===== src/Proxy/Remove/Rows.antt =====
-- A row is removed, then its bytes: the rows that are left stay held.
use nostr_storage_orchestrat.Common.{
  ℕ, ◌≡◌, refl, ◌⊎◌, inl, inr, Bool, true, not, Option, none, some, List, String, any, keep, count,
  All-keep, Bool-cases, nat_eq, ◌==◌, arith,
}
use nostr_storage_orchestrat.Common.Int.{ℤ}
use nostr_storage_orchestrat.Db.{Blob, Db, Response, has_hash, is_row}
use nostr_storage_orchestrat.Db.Rows.{IsConsistent}
use nostr_storage_orchestrat.Db.Blobs.{delete_blobs}
use nostr_storage_orchestrat.Db.Blobs.Scopes.{Removes, kept, gone, delete_one-Removes}
use nostr_storage_orchestrat.Proxy.Client.{
  Answer, answer, api_error, unreachable, Fate, works, unsent, unanswered, mutate, delete_blob,
}
use nostr_storage_orchestrat.Proxy.World.{World}
use nostr_storage_orchestrat.Proxy.Durable.{
  Sound, IsHeld, IsFree, IsFree-count, durable-delete_copies,
}
use nostr_storage_orchestrat.Proxy.Handler.{Reply, ◌>>=◌, pure, or_throw, Triple}
use nostr_storage_orchestrat.Proxy.Remove.{or_respond, remove_row, remove_copies_if}

pub or_respond-Triple :
    {R A : Type 0} {P : World → Type 0} {E : Reply R → World → Type 0} (r : Reply R) (o : Option A)
    → ((w : World) → P w → E r w)
    → Triple P (or_respond r o) (λ a w. P w × (o ≡ some a)) E
or_respond-Triple r none f = record { holds = λ w p. f w p }
or_respond-Triple r (some a) f = record { holds = λ w p. (p, refl) }

-- The rows without those that pass.
abbrev pub without : (Blob → Bool) → List Blob → List Blob
without p bs = keep (λ b. not (p b)) bs

module _ {R : Type 0} (hash npub : String) (bs : List Blob) (E : Reply R → World → Type 0) where
  -- After the row was removed.
  abbrev pub IsRemoved : ℕ → World → Type 0
  IsRemoved remaining w =
      Sound w
      × (w.db.blobs ≡ without (is_row hash npub) bs)
      × ((remaining == 0) ≡ true → IsFree hash w.db.blobs)
      × (any (is_row hash npub) bs ≡ true)

  abbrev pub IsUndecided : World → Type 0
  IsUndecided w = Sound w × ((w.db.blobs ≡ bs) ⊎ (w.db.blobs ≡ without (is_row hash npub) bs))

  -- What is known after the call, by its answer.
  abbrev IsAnswered : Answer (ℤ × ℕ) → World → Type 0
  IsAnswered (answer (used, remaining)) w = IsRemoved remaining w
  IsAnswered _ w = IsUndecided w

  gone-IsRemoved :
      (w : World) (remaining : ℕ) (db' : Db)
      → Sound w
      → w.db.blobs ≡ bs
      → IsConsistent db'
      → db'.blobs ≡ without (is_row hash npub) w.db.blobs
      → remaining ≡ count (has_hash hash) db'.blobs
      → any (is_row hash npub) w.db.blobs ≡ true
      → IsRemoved remaining (record w { db = db' })
  gone-IsRemoved w remaining db' sound rows agree left counted there = (
    record {
      consistent = agree;
      durable =
          rw left
            (All-keep (IsHeld w.copies) (λ b. not (is_row hash npub b)) w.db.blobs sound.durable);
    },
    (rw rows at left),
    (λ zero. IsFree-count hash db'.blobs (ground arith)),
    (rw rows at there),
  )

  removed-IsAnswered :
      (fate : Fate) (w : World)
      → Sound w
      → w.db.blobs ≡ bs
      → (request : Db → Response (ℤ × ℕ) × Db) → Removes hash (is_row hash npub) w.db (request w.db)
      → (let a = mutate fate request w.db in IsAnswered a.0 (record w { db = a.1 }))
  removed-IsAnswered works w sound rows request (kept status e h) = rw h (sound, inl rows)
  removed-IsAnswered unsent w sound rows request _ = (sound, inl rows)
  removed-IsAnswered unanswered w sound rows request (kept status e h) = rw h (sound, inl rows)
  removed-IsAnswered works w sound rows request (gone used n db' h agree left counted there) =
      rw h (gone-IsRemoved w n db' sound rows agree left counted there)
  removed-IsAnswered unanswered w sound rows request (gone used n db' h agree left counted there) =
      let (sound', left', _, _) = gone-IsRemoved w n db' sound rows agree left counted there in
      rw h (sound', inr left')

  -- From here on an exception ends in `E`.
  module _ (failed : Reply R) (ends : (w : World) → IsUndecided w → E failed w) where
    settled-Triple :
        (a : Answer (ℤ × ℕ))
        → Triple
            (IsAnswered a)
            (or_throw failed a >>= λ (used, remaining). pure remaining)
            IsRemoved
            E
    settled-Triple (answer (used, remaining)) = record { holds = λ w h. h }
    settled-Triple (api_error status e) = record { holds = λ w h. ends w h }
    settled-Triple unreachable = record { holds = λ w h. ends w h }

    pub remove_row-Triple :
        (fate : Fate)
        → Triple (λ w. Sound w × (w.db.blobs ≡ bs)) (remove_row failed fate hash npub) IsRemoved E
    remove_row-Triple fate = record {
      holds = λ w (sound, rows).
          let a = delete_blob fate hash npub w.db in
          (settled-Triple a.0).holds (record w { db = a.1 })
            (removed-IsAnswered fate w sound rows (delete_blobs hash (some npub) none)
              (delete_one-Removes hash npub w.db sound.consistent));
    }

    -- The bytes go with the last row of their hash.
    pub remove_copies_if-Triple :
        (remaining : ℕ) (deletes : String → Bool) (replicas : List String)
        → Triple
            (IsRemoved remaining)
            (remove_copies_if (remaining == 0) deletes hash replicas)
            (λ _ w.
              Sound w
              × (w.db.blobs ≡ without (is_row hash npub) bs)
              × (any (is_row hash npub) bs ≡ true))
            E
    remove_copies_if-Triple remaining deletes replicas = elim (Bool-cases (remaining == 0)) [
      | inl z ↦ rw z (record {
        holds = λ w (sound, left, free, there). (
          record {
            consistent = sound.consistent;
            durable =
                durable-delete_copies deletes w.registry hash replicas w.copies w.db.blobs (free z)
                  sound.durable;
          },
          left,
          there,
        );
      })
      | inr z ↦ rw z (record { holds = λ w (sound, left, free, there). (sound, left, there) })
    ]
