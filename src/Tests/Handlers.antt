-- ===== src/Tests/Handlers.antt =====
-- Examples of the theorems on the proxy's handlers.
use nostr_storage_orchestrat.Common.{
  ℕ, ◌≡◌, refl, true, none, some, List, [], ◌∷◌, String, map, All, arith,
}
use nostr_storage_orchestrat.Lifecycle.{derive_access, to_date, paid_access}
use nostr_storage_orchestrat.Proxy.Token.{accepted, verify_auth_token, check_token, check_scope}
use nostr_storage_orchestrat.Proxy.Client.{works}
use nostr_storage_orchestrat.Proxy.World.{World}
use nostr_storage_orchestrat.Proxy.Account.{
  seconds, with_access, load_for_upload, load_access, read_cached, authorize,
}
use nostr_storage_orchestrat.Proxy.Registry.{
  ActiveStorage, host_for_url, show, resolve, is_raw_url, polled, asked, poll,
}
use nostr_storage_orchestrat.Proxy.Registry.Kept.{address, candidate, poll-Keeps}
use nostr_storage_orchestrat.Proxy.Put.{admit, add_blob, put_upload}
use nostr_storage_orchestrat.Proxy.Put.Durable.{Puts, put_upload-Puts}
use nostr_storage_orchestrat.Proxy.Read.{handle_get_blob, may_read, parse_hash}
use nostr_storage_orchestrat.Proxy.Read.Owners.{IsReadable, reads, handle_get_blob-IsReadable}
use nostr_storage_orchestrat.Proxy.Read.Serves.{
  IsServed, IsUp, handle_get_blob-IsServed, put_then_get,
}
use nostr_storage_orchestrat.Proxy.Remove.{delete_handler, moderate}
use nostr_storage_orchestrat.Proxy.Remove.Owner.{Deletes, delete_handler-Deletes}
use nostr_storage_orchestrat.Proxy.Remove.Moderated.{Moderates, moderate-Moderates}
use nostr_storage_orchestrat.Proxy.Access.{get_user as cached_user}
use nostr_storage_orchestrat.Db.Blobs.{get_blob, sort_by_time, insert_by_time, owners_of}
use nostr_storage_orchestrat.Proxy.Handler.{Reply, is_reply}
use nostr_storage_orchestrat.Common.Int.{◌+ℤ◌}
use nostr_storage_orchestrat.Proxy.Purge.{PurgeNetwork, purge}
use nostr_storage_orchestrat.Proxy.Purge.Ends.{Purges, purge-Purges}
use nostr_storage_orchestrat.Proxy.Read.Reachable.{IsAtHand}
use nostr_storage_orchestrat.Tests.Worlds.{
  photo_hash, noon, service, world, network, upload, world-IsSound,
}

abbrev listing : List ActiveStorage
listing =
    record { npub = "one"; tunnel_ip = "10.0.0.1"; blossom_port = 80 }
    ∷ record { npub = "two"; tunnel_ip = "fd00::2"; blossom_port = 8080 }
    ∷ []

addresses : map address listing ≡ "http://10.0.0.1:80" ∷ "http://[fd00::2]:8080" ∷ []
unfolding host_for_url show
addresses = refl

put_upload-Puts_example :
    Puts service noon upload
      (put_upload service network noon upload world).0
      (put_upload service network noon upload world).1
put_upload-Puts_example = put_upload-Puts service network noon upload world world-IsSound refl

delete_handler-Deletes_example :
    Deletes service network noon photo_hash
      (some "delete")
      world
      (delete_handler service network noon photo_hash (some "delete") world).0
      (delete_handler service network noon photo_hash (some "delete") world).1
delete_handler-Deletes_example =
    delete_handler-Deletes service network noon photo_hash (some "delete") world world-IsSound

moderate-Moderates_example :
    Moderates network noon "admin" photo_hash "reported" world
      (moderate network noon "admin" photo_hash "reported" world).0
      (moderate network noon "admin" photo_hash "reported" world).1
moderate-Moderates_example =
    moderate-Moderates network noon "admin" photo_hash "reported" world world-IsSound

world-IsUp : IsUp network photo_hash world
unfolding resolve is_raw_url
world-IsUp = record { blob_read = refl; accounts_read = λ n. refl; at_hand = ((λ h. refl), tt) }

alice_reads : reads service noon world.db "alice" ≡ true
unfolding may_read with_access derive_access to_date paid_access
alice_reads = refl

named : parse_hash photo_hash ≡ some photo_hash
unfolding parse_hash
named = refl

handle_get_blob-IsServed_example :
    IsServed service photo_hash (handle_get_blob service network noon photo_hash true world)
handle_get_blob-IsServed_example =
    handle_get_blob-IsServed service network noon photo_hash photo_hash "alice" world world-IsUp
      world-IsSound (refl, tt) named refl alice_reads

handle_get_blob-IsReadable_example : IsReadable service noon photo_hash world
handle_get_blob-IsReadable_example =
    let (size, bytes, e, _) = handle_get_blob-IsServed_example in
    handle_get_blob-IsReadable service network noon photo_hash true world 200 _ e

abbrev uploaded_world : World
uploaded_world = (put_upload service network noon upload world).1

-- What the example of the round trip needs of the world after the upload.
uploaded_facts :
    (is_reply (put_upload service network noon upload world).0 ≡ true)
    × All (IsAtHand network.gets uploaded_world.registry photo_hash) uploaded_world.db.blobs
    × (reads service noon uploaded_world.db "alice" ≡ true)
unfolding put_upload admit authorize verify_auth_token check_token check_scope load_for_upload
    load_access read_cached cached_user with_access derive_access to_date paid_access add_blob
    get_blob sort_by_time insert_by_time owners_of ◌+ℤ◌ may_read resolve is_raw_url
uploaded_facts = (refl, ((λ h. refl), tt), refl)

signed_by_alice :
    (npub : String)
    → verify_auth_token service.lib upload.authorization "upload"
        (record { hash = some photo_hash; require_hash_scope = true })
        (seconds noon)
      ≡ accepted npub
    → npub ≡ "alice"
unfolding verify_auth_token check_token check_scope
signed_by_alice npub h = ground arith

put_then_get_example :
    IsServed service photo_hash
      (handle_get_blob service network noon photo_hash true uploaded_world)
put_then_get_example =
    let (ok, at_hand, may) = uploaded_facts in
    put_then_get service network network noon noon upload photo_hash world world-IsSound (refl, tt)
      refl named ok (record { blob_read = refl; accounts_read = λ n. refl; at_hand = at_hand })
      (λ npub token. rw (signed_by_alice npub token) may)

abbrev purge_network : PurgeNetwork
purge_network = record { page_read = λ n. true; removal = λ hash. works; deletes = λ r. true }

purge-Purges_example :
    (r : Reply ℕ) × (w' : World) × (purge purge_network 2 "alice" world ≡ some (r, w'))
    × Purges "alice" world r w'
purge-Purges_example = purge-Purges purge_network "alice" 2 world world-IsSound (omega arith)

poll-Keeps_example :
    (poll (polled none ∷ polled (some listing) ∷ asked none ∷ []) [] ≡ map candidate listing)
    × All
        (λ s.
          resolve (poll (polled none ∷ polled (some listing) ∷ asked none ∷ []) []) s.npub
          ≡ some (address s))
        listing
unfolding is_raw_url
poll-Keeps_example =
    poll-Keeps (polled none ∷ []) (asked none ∷ []) listing (refl, tt) ((refl, tt), (tt, tt))
      (refl, (refl, tt))
