-- ===== src/Proxy/Put/Lost.antt =====
-- The clean-up after a write whose response was lost.
use nostr_storage_orchestrat.Common.{
  ℕ, ◌≡◌, ◌≢◌, refl, inl, inr, Bool, true, false, not, ◌&&◌, none, some, List, [], ◌∷◌, ◌++◌,
  String, length, any, keep, All, is_some, Bool-cases, Option-cases, arith, string_eq,
}
use nostr_storage_orchestrat.Common.Int.{ℤ, pos}
use nostr_storage_orchestrat.Common.Js.{num, int}
use nostr_storage_orchestrat.Lifecycle.{AccessState}
use nostr_storage_orchestrat.Db.{User, Blob, Db, success}
use nostr_storage_orchestrat.Db.Blobs.{post_blobs, delete_blobs}
use nostr_storage_orchestrat.Db.Blobs.Quota.{row_of}
use nostr_storage_orchestrat.Db.Blobs.Added.{unchanged, one_more, post_blobs-AddsRow}
use nostr_storage_orchestrat.Proxy.Client.{
  answer, works, unanswered, get_blob, create_blob, delete_blob, mutate,
}
use nostr_storage_orchestrat.Proxy.Registry.{Registry, resolve}
use nostr_storage_orchestrat.Proxy.World.{Copy, is_copy, World, Network, delete_copy, delete_copies}
use nostr_storage_orchestrat.Proxy.Account.{Service}
use nostr_storage_orchestrat.Proxy.Put.{
  is_mine, add_blob, find_replicas, create_row, after_create, clean_up,
}
use nostr_storage_orchestrat.Proxy.Remove.{remove_blob, delete_failed}

abbrev pub LacksCopy : List Copy → String → String → Type 0
LacksCopy copies hash replica = any (is_copy replica hash) copies ≡ false

any-keep-false : (p q : Copy → Bool) (cs : List Copy) → any p cs ≡ false → any p (keep q cs) ≡ false
any-keep-false p q [] h = refl
any-keep-false p q (c ∷ cs) h = ground (arith, any-keep-false p q cs)

any-keep-not : (p : Copy → Bool) (cs : List Copy) → any p (keep (λ c. not (p c)) cs) ≡ false
any-keep-not p [] = refl
any-keep-not p (c ∷ cs) = ground (arith, any-keep-not p cs)

module _ (deletes : String → Bool) (registry : Registry) (hash : String) where
  -- A node that answers the delete.
  abbrev pub IsDeleting : String → Type 0
  IsDeleting r = (is_some (resolve registry r) && deletes r) ≡ true

  delete_copy-LacksCopy :
      (r other : String) (copies : List Copy)
      → LacksCopy copies hash other
      → LacksCopy (delete_copy deletes registry hash r copies) hash other
  delete_copy-LacksCopy r other copies h = elim (Option-cases (resolve registry r)) [
    | inl e ↦ rw (delete_copy, e) h
    | inr (server, e) ↦ elim (Bool-cases (deletes r)) [
      | inl f ↦ rw (delete_copy, e, f) (any-keep-false (is_copy other hash) _ copies h)
      | inr f ↦ rw (delete_copy, e, f) h
    ]
  ]

  delete_copies-LacksCopy :
      (rs : List String) (other : String) (copies : List Copy)
      → LacksCopy copies hash other
      → LacksCopy (delete_copies deletes registry hash rs copies) hash other
  unfolding delete_copies
  delete_copies-LacksCopy [] other copies h = h
  delete_copies-LacksCopy (r ∷ rs) other copies h =
      delete_copies-LacksCopy rs other (delete_copy deletes registry hash r copies)
        (delete_copy-LacksCopy r other copies h)

  deleted_lacks :
      (r : String) (copies : List Copy)
      → IsDeleting r
      → LacksCopy (delete_copy deletes registry hash r copies) hash r
  deleted_lacks r copies h = elim (Option-cases (resolve registry r)) [
    | inl e ↦ let h' = rw (IsDeleting, e) at h in cc
    | inr (server, e) ↦
        let f : deletes r ≡ true = ground arith in
        rw (delete_copy, e, f) (any-keep-not (is_copy r hash) copies)
  ]

  all_deleted :
      (rs : List String) (copies : List Copy)
      → All IsDeleting rs
      → All (LacksCopy (delete_copies deletes registry hash rs copies) hash) rs
  unfolding delete_copies
  all_deleted [] copies h = tt
  all_deleted (r ∷ rs) copies h = (
    delete_copies-LacksCopy rs r (delete_copy deletes registry hash r copies)
        (deleted_lacks r copies h.0),
    all_deleted rs (delete_copy deletes registry hash r copies) h.1,
  )

-- The newest row is the account's for the hash and names replicas of which none holds the bytes.
abbrev pub IsLost : String → String → List String → World → Type 0
IsLost hash npub replicas w =
    ((b : Blob) × (before : List Blob) × (w.db.blobs ≡ before ++ b ∷ [])
      × (b.hash ≡ hash)
      × (b.npub ≡ npub)
      × (b.replicas ≡ replicas))
    × All (LacksCopy w.copies hash) replicas

-- The clean-up loses data: where bytes were stored just now, db-api commits their row but its response is
-- lost, and the look-up of who claimed the hash fails as well, the handler deletes the bytes on every
-- replica whose node answers, and the row stays.
pub create_row-IsLost :
    (s : Service) (net : Network) (now : ℕ) (npub hash : String) (size : ℕ)
    (account : User × AccessState) (replicas : List String) (w : World)
    → net.write ≡ unanswered
    → net.blob_reread ≡ false
    → (post_blobs s.js hash npub (num (int (pos size))) replicas now w.db).1 ≢ w.db
    → All (IsDeleting net.deletes w.registry hash) replicas
    → IsLost hash npub replicas (create_row s net now npub hash size account true replicas w).1
unfolding create_row after_create clean_up
create_row-IsLost s net now npub hash size account replicas w lost failed committed deleting =
    elim (post_blobs-AddsRow s.js hash npub (num (int (pos size))) replicas now w.db) [
      | unchanged status e same _ ↦ absurd (committed (rw same refl))
      | one_more n used at db' same rows ↦
          rw (create_row, create_blob, lost, mutate, same, after_create, clean_up, failed)
            (
              (row_of hash npub n replicas at, w.db.blobs, rows, refl, refl, refl),
              all_deleted net.deletes w.registry hash replicas w.copies deleting,
            )
    ]

-- What the last deletion of a blob leaves: no row of it, and no bytes on its replicas.
module _ (net : Network) (hash owner : String) (replicas : List String) (w : World) where
  abbrev pub after_deletion : World
  after_deletion = (remove_blob {R = Unit} (delete_failed) net net.write hash owner replicas w).1

  deletion_lem :
      (used : ℤ) (db' : Db)
      → net.write ≡ works
      → delete_blobs hash (some owner) none w.db ≡ (success 200 (used, 0), db')
      → (after_deletion.db ≡ db')
        × (after_deletion.copies ≡ delete_copies net.deletes w.registry hash replicas w.copies)
  unfolding remove_blob
  deletion_lem used db' served removed = (
    rw (after_deletion, remove_blob, served, delete_blob, mutate, removed) refl,
    rw (after_deletion, remove_blob, served, delete_blob, mutate, removed) refl,
  )

created-IsLost :
    (s : Service) (net : Network) (now : ℕ) (npub hash : String) (body : List ℕ)
    (account : User × AccessState) (blob : Blob) (owners : List String) (w : World)
    → net.write ≡ works
    → is_mine npub (some (blob, owners)) ≡ false
    → All (LacksCopy w.copies hash) blob.replicas
    → (post_blobs s.js hash npub (num (int (pos (length body)))) blob.replicas now w.db).1 ≢ w.db
    → IsLost hash npub blob.replicas
        (add_blob s net now npub hash body account (some (blob, owners)) w).1
unfolding add_blob find_replicas create_row after_create
created-IsLost s net now npub hash body account blob owners w served other gone committed =
    elim (post_blobs-AddsRow s.js hash npub (num (int (pos (length body)))) blob.replicas now
      w.db) [
        | unchanged status e same _ ↦ absurd (committed (rw same refl))
        | one_more n used at db' same rows ↦
            rw
              (
                add_blob, other, find_replicas, create_row, create_blob, served, mutate, same,
                after_create,
              )
              ((row_of hash npub n blob.replicas at, w.db.blobs, rows, refl, refl, refl), gone)
      ]

-- The last deletion can overtake an upload. A PUT of an account that does not own the hash yet finds the blob; before it
-- goes on, the blob's last owner deletes it, the deletion answers that no owner remains, and every node of its replicas
-- answers the deletion of the bytes; the PUT then goes on with the replicas that it found, and where db-api adds a row,
-- that row names replicas that hold nothing.
pub add_blob-IsLost :
    (s : Service) (net deleting : Network) (now : ℕ) (npub owner hash : String) (body : List ℕ)
    (account : User × AccessState) (blob : Blob) (owners : List String) (used : ℤ) (w : World)
    (db' : Db)
    → get_blob net.blob_read hash w.db ≡ answer (some (blob, owners))
    → is_mine npub (some (blob, owners)) ≡ false
    → deleting.write ≡ works
    → delete_blobs hash (some owner) none w.db ≡ (success 200 (used, 0), db')
    → All (IsDeleting deleting.deletes w.registry hash) blob.replicas
    → net.write ≡ works
    → (post_blobs s.js hash npub (num (int (pos (length body)))) blob.replicas now db').1 ≢ db'
    → IsLost hash npub blob.replicas
        (add_blob s net now npub hash body account
          (some (blob, owners))
          (after_deletion deleting hash owner blob.replicas w)).1
add_blob-IsLost s net deleting now npub owner hash body account blob owners used w db' found other
      sent removed each served committed =
    let w' = after_deletion deleting hash owner blob.replicas w in
    let (tables, bytes) = deletion_lem deleting hash owner blob.replicas w used db' sent removed in
    let gone : All (LacksCopy w'.copies hash) blob.replicas =
      rw bytes (all_deleted deleting.deletes w.registry hash blob.replicas w.copies each) in
    created-IsLost s net now npub hash body account blob owners w' served other gone
      (rw tables committed)
