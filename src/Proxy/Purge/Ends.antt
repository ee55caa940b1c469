-- ===== src/Proxy/Purge/Ends.antt =====
-- The purge of an account ends, and removes its rows alone.
use nostr_storage_orchestrat.Common.{
  ℕ, zero, suc, ◌<◌, ◌≤◌, ◌≡◌, refl, ◌⊎◌, inl, inr, true, false, Option, some, List, [], ◌∷◌,
  String, any, count, Bool-cases, nat_eq, string_eq, arith,
}
use nostr_storage_orchestrat.Db.{Blob, is_row, is_owned}
use nostr_storage_orchestrat.Db.Pagination.{paging, user_blobs, user_blobs_empty}
use nostr_storage_orchestrat.Proxy.World.{World}
use nostr_storage_orchestrat.Proxy.Durable.{IsSound}
use nostr_storage_orchestrat.Proxy.Handler.{
  Reply, is_reply, reply, Outcome, next, done, ◌>>◌, After, Triple, Triple-bind, Triple-mono,
  Outcome-cases,
}
use nostr_storage_orchestrat.Proxy.Account.{forget}
use nostr_storage_orchestrat.Proxy.Durable.{Sound}
use nostr_storage_orchestrat.Proxy.Remove.Rows.{
  without, IsUndecided, remove_row-Triple, remove_copies_if-Triple,
}
use nostr_storage_orchestrat.Proxy.Purge.{
  PurgeNetwork, purge_failed, purge_blob, purge_batch, purge_loop, purge,
}

List-cases : (bs : List Blob) → (bs ≡ []) ⊎ ((b : Blob) × (rest : List Blob) × (bs ≡ b ∷ rest))
List-cases [] = inl refl
List-cases (b ∷ rest) = inr (b, rest, refl)

module _ (net : PurgeNetwork) (npub : String) (others : List Blob) where
  -- The tables and nodes are sound, and the rows of other accounts are what they were.
  abbrev Keeps : World → Type 0
  Keeps w = Sound w × (without (is_owned npub) w.db.blobs ≡ others)

  abbrev owned : World → ℕ
  owned w = count (is_owned npub) w.db.blobs

  abbrev Fails : Reply ℕ → World → Type 0
  Fails r w = Keeps w × (is_reply r ≡ false)

  -- Removing a row of the account leaves the rows of others.
  others_kept :
      (hash : String) (bs : List Blob)
      → without (is_owned npub) (without (is_row hash npub) bs) ≡ without (is_owned npub) bs
  others_kept hash [] = refl
  others_kept hash (b ∷ bs) = ground (arith, others_kept hash bs)

  count_without :
      (hash : String) (bs : List Blob)
      → (count (is_owned npub) (without (is_row hash npub) bs) ≤ count (is_owned npub) bs)
        × (any (is_row hash npub) bs ≡ true
            → count (is_owned npub) (without (is_row hash npub) bs) < count (is_owned npub) bs)
  count_without hash [] = (omega arith, λ h. cc)
  count_without hash (b ∷ bs) =
      let (le, lt) = count_without hash bs in (ground (arith, le), λ h. ground (arith, le, lt))

  -- One row of the account fewer.
  purge_blob-Triple :
      (blob : Blob) (n : ℕ)
      → Triple
          (λ w. Keeps w × (owned w ≤ n))
          (purge_blob net npub blob)
          (λ _ w. Keeps w × (owned w < n))
          Fails
  unfolding purge_blob
  purge_blob-Triple blob n = record {
    holds = λ w₀ ((sound, kept), le).
        let bs = w₀.db.blobs in
        let ends : (w : World) → IsUndecided blob.hash npub bs Fails w → Fails purge_failed w =
          λ w (sound', rows). (
            (
              sound',
              elim rows [ inl e ↦ rw e kept | inr e ↦ rw (e, others_kept blob.hash bs) kept ],
            ),
            refl,
          ) in
        let t : Triple (λ w. Sound w × (w.db.blobs ≡ bs)) (purge_blob net npub blob)
            (λ _ w. Keeps w × (owned w < n)) Fails =
          Triple-bind _ _
            (remove_row-Triple blob.hash npub bs Fails purge_failed ends (net.removal blob.hash))
            (λ remaining.
              Triple-mono _ (λ w h. h)
                (λ _ w (sound', rows, there). (
                  (sound', rw (rows, others_kept blob.hash bs) kept),
                  (let (_, lt) = count_without blob.hash bs in
                      rw rows (omega (arith, lt there, le))),
                ))
                (λ r w h. h)
                (remove_copies_if-Triple blob.hash npub bs Fails purge_failed ends remaining
                  net.deletes blob.replicas)) in
        t.holds w₀ (sound, refl);
  }

  purge_rest-Triple :
      (blobs : List Blob) (n purged : ℕ)
      → Triple
          (λ w. Keeps w × (owned w < n))
          (purge_batch net npub blobs purged)
          (λ _ w. Keeps w × (owned w < n))
          Fails
  unfolding purge_batch
  purge_rest-Triple [] n purged = record { holds = λ w h. h }
  purge_rest-Triple (blob ∷ blobs) n purged =
      let t : Triple (λ w. Keeps w × (owned w < n))
          (purge_blob net npub blob >> purge_batch net npub blobs (suc purged))
          (λ _ w. Keeps w × (owned w < n)) Fails =
        Triple-bind _ _
          (Triple-mono _ (λ w (kept, lt). (kept, omega (arith, lt))) (λ a w h. h) (λ r w h. h)
            (purge_blob-Triple blob n))
          (λ _. purge_rest-Triple blobs n (suc purged)) in
      record { holds = t.holds }

  -- A batch that is not empty leaves fewer rows.
  purge_batch-Triple :
      (blob : Blob) (blobs : List Blob) (n purged : ℕ)
      → Triple
          (λ w. Keeps w × (owned w ≤ n))
          (purge_batch net npub (blob ∷ blobs) purged)
          (λ _ w. Keeps w × (owned w < n))
          Fails
  unfolding purge_batch
  purge_batch-Triple blob blobs n purged =
      let t : Triple (λ w. Keeps w × (owned w ≤ n))
          (purge_blob net npub blob >> purge_batch net npub blobs (suc purged))
          (λ _ w. Keeps w × (owned w < n)) Fails =
        Triple-bind _ _ (purge_blob-Triple blob n) (λ _. purge_rest-Triple blobs n (suc purged)) in
      record { holds = t.holds }

  -- What the loop ends with: no row of the account, or an error.
  abbrev IsEnded : Option (Outcome ℕ ℕ × World) → Type 0
  IsEnded o =
      (ended : Outcome ℕ ℕ × World) × (o ≡ some ended)
      × After (λ _ w. Keeps w × (owned w ≡ 0)) Fails ended

  purge_loop-IsEnded :
      (fuel purged : ℕ) (w : World)
      → Keeps w
      → owned w < fuel
      → IsEnded (purge_loop net npub fuel purged w)
  unfolding purge_loop
  purge_loop-IsEnded zero purged w kept lt = absurd (omega (arith, lt))
  purge_loop-IsEnded (suc fuel) purged w kept lt = elim (Bool-cases (net.page_read fuel)) [
    | inr e ↦ ((done purge_failed, w), rw (purge_loop, e) refl, (kept, refl))
    | inl e ↦ elim (List-cases (user_blobs npub (paging 1 100) w.db)) [
      | inl none_left ↦ (
        (next purged, w),
        rw (purge_loop, e, none_left) refl,
        (kept, user_blobs_empty npub w.db none_left),
      )
      | inr (blob, blobs, some_left) ↦
          let ran = (purge_batch-Triple blob blobs fuel purged).holds w (kept, omega (arith, lt)) in
          elim (Outcome-cases (purge_batch net npub (blob ∷ blobs) purged w)) [
            | inl (n, w', f) ↦
                let (kept', lt') = rw f at ran in
                let (ended, g, h) = purge_loop-IsEnded fuel n w' kept' lt' in
                (ended, rw (purge_loop, e, some_left, f) g, h)
            | inr (r, w', f) ↦ ((done r, w'), rw (purge_loop, e, some_left, f) refl, rw f at ran)
          ]
    ]
  ]

-- What a purge leaves: tables and nodes that are sound, the rows of the other accounts as they were, and
-- after a success no row of the account.
abbrev pub Purges : String → World → Reply ℕ → World → Type 0
Purges npub w₀ r w =
    Sound w
    × (without (is_owned npub) w.db.blobs ≡ without (is_owned npub) w₀.db.blobs)
    × (is_reply r ≡ true → count (is_owned npub) w.db.blobs ≡ 0)

-- From sound tables and nodes the purge of an account ends, with more rounds at hand than it has rows. It
-- leaves tables and nodes sound and the rows of the other accounts as they were, whatever fails on the
-- way, and after a success the account has no row.
pub purge-Purges :
    (net : PurgeNetwork) (npub : String) (fuel : ℕ) (w : World)
    → IsSound w.db w.copies
    → count (is_owned npub) w.db.blobs < fuel
    → (r : Reply ℕ) × (w' : World) × (purge net fuel npub w ≡ some (r, w')) × Purges npub w r w'
unfolding purge
purge-Purges net npub fuel w sound lt =
    let (ended, e, h) =
      purge_loop-IsEnded net npub (without (is_owned npub) w.db.blobs) fuel 0 w (sound, refl) lt in
    elim (Outcome-cases ended) [
      | inl (n, w', f) ↦
          let (kept, gone) = rw f at h in
          (
            reply 200 n,
            (forget {R = ℕ} npub w').1,
            rw (purge, e, f) refl,
            (kept.0, kept.1, λ _. gone),
          )
      | inr (r, w', f) ↦
          let (kept, error) = rw f at h in
          (r, w', rw (purge, e, f) refl, (kept.0, kept.1, λ g. let g' = rw error at g in cc))
    ]
