-- ===== src/Tests/Receiving.antt =====
-- Examples of the theorems on bytes in flight and on a lost response.
use nostr_storage_orchestrat.Common.{none, some, ◌≡◌, refl, ap, false, true, [], ◌∷◌, length, arith}
use nostr_storage_orchestrat.Common.Int.{◌+ℤ◌, ◌-ℤ◌, pos}
use nostr_storage_orchestrat.Common.Js.{num, int}
use nostr_storage_orchestrat.Db.{Db, success, update_user, create_blob, delete_row}
use nostr_storage_orchestrat.Db.Blobs.{
  post_blobs, delete_blobs, delete_in_scope, get_blob as blob_of, sort_by_time, insert_by_time,
  owners_of,
}
use nostr_storage_orchestrat.Proxy.Client.{unanswered, answer, get_blob}
use nostr_storage_orchestrat.Proxy.World.{World, Network}
use nostr_storage_orchestrat.Proxy.Gate.{Traffic, reserve, release}
use nostr_storage_orchestrat.Proxy.Gate.Inflight.{
  Steps, enters, ends, start, after, quiet, IsCounted, Steps-IsCounted,
}
use nostr_storage_orchestrat.Proxy.Put.{create_row, add_blob}
use nostr_storage_orchestrat.Proxy.Put.Lost.{
  IsLost, after_deletion, create_row-IsLost, add_blob-IsLost,
}
use nostr_storage_orchestrat.Proxy.Account.{with_access}
use nostr_storage_orchestrat.Proxy.Registry.{resolve, is_raw_url}
use nostr_storage_orchestrat.Tests.Data.{alice}
use nostr_storage_orchestrat.Tests.Worlds.{photo_hash, noon, service, stored_photo, world, network}

abbrev busy : Traffic
busy = record { inflight = 60; requests = record { request = 7; size = 60; released = false } ∷ [] }

-- an upload of 60 bytes enters, and closes and finishes
received : Steps 100 quiet (release 7 (release 7 busy))
unfolding reserve
received = after (after (after start (enters 7 60 busy refl)) (ends 7)) (ends 7)

Steps-IsCounted_example : IsCounted 100 (release 7 (release 7 busy))
Steps-IsCounted_example = Steps-IsCounted 100 (release 7 (release 7 busy)) received

-- db-api commits, and then does not answer any more
abbrev cut_off : Network
cut_off = record network { write = unanswered; blob_reread = false }

abbrev committed : Db
committed = (post_blobs service.js "new" "alice" (num (int (pos 3))) ("one" ∷ []) noon world.db).1

is_committed : length committed.blobs ≡ 2
unfolding post_blobs ◌+ℤ◌ create_blob update_user
is_committed = refl

two_rows : length committed.blobs ≡ length world.db.blobs → ⊥
two_rows h = let h' = rw is_committed at h in omega (arith, h')

create_row-IsLost_example :
    IsLost "new" "alice"
      ("one" ∷ [])
      (create_row service cut_off noon "alice" "new" 3
        (alice, with_access service noon alice)
        true
        ("one" ∷ [])
        world).1
unfolding resolve is_raw_url
create_row-IsLost_example =
    create_row-IsLost service cut_off noon "alice" "new" 3 (alice, with_access service noon alice)
      ("one" ∷ []) world refl refl (λ e. two_rows (ap (λ (db : Db). length db.blobs) e)) (refl, tt)

-- another account has room for the photo
abbrev shared : World
shared = record world {
  db = record (world.db) {
    users = alice ∷ record alice { npub = "bob"; used_storage = pos 0 } ∷ [];
  };
}

abbrev emptied : Db
emptied = (delete_blobs photo_hash (some "alice") none shared.db).1

is_emptied :
    delete_blobs photo_hash (some "alice") none shared.db ≡ (success 200 (pos 0, 0), emptied)
unfolding delete_blobs delete_in_scope delete_row update_user ◌-ℤ◌ ◌+ℤ◌
is_emptied = refl

abbrev overtaken : Db
overtaken = (post_blobs service.js photo_hash "bob" (num (int (pos 3))) ("one" ∷ []) noon emptied).1

is_overtaken : (length emptied.blobs ≡ 0) × (length overtaken.blobs ≡ 1)
unfolding post_blobs ◌+ℤ◌ ◌-ℤ◌ create_blob update_user delete_blobs delete_in_scope delete_row
is_overtaken = (refl, refl)

one_row : length overtaken.blobs ≡ length emptied.blobs → ⊥
one_row h = omega (arith, h, is_overtaken.0, is_overtaken.1)

add_blob-IsLost_example :
    IsLost photo_hash "bob"
      ("one" ∷ [])
      (add_blob service network noon "bob" photo_hash
        (1 ∷ 2 ∷ 3 ∷ [])
        (alice, with_access service noon alice)
        (some (stored_photo, "alice" ∷ []))
        (after_deletion network photo_hash "alice" ("one" ∷ []) shared)).1
unfolding resolve is_raw_url blob_of sort_by_time insert_by_time owners_of
add_blob-IsLost_example =
    add_blob-IsLost service network network noon "bob" "alice" photo_hash (1 ∷ 2 ∷ 3 ∷ [])
      (alice, with_access service noon alice) stored_photo ("alice" ∷ []) (pos 0) shared emptied
      is_found refl refl is_emptied (refl, tt) refl
      (λ e. one_row (ap (λ (db : Db). length db.blobs) e))
  where
    is_found :
        get_blob network.blob_read photo_hash shared.db ≡ answer (some (stored_photo, "alice" ∷ []))
    is_found = refl
