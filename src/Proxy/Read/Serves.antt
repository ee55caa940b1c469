-- ===== src/Proxy/Read/Serves.antt =====
-- A blob that may be read is served, and what was uploaded is read back.
use nostr_storage_orchestrat.Common.{
  ℕ, ◌≡◌, refl, ◌∙◌, Bool, true, Option, some, List, [], ◌∷◌, String, any, find, All, ◌==◌,
  string_eq, eq_iff, arith,
}
use nostr_storage_orchestrat.Common.Int.{ℤ}
use nostr_storage_orchestrat.Db.{User, Blob, Db, has_npub, has_hash, is_row}
use nostr_storage_orchestrat.Db.Blobs.Lookup.{get_blob-Finds, absent, found, LacksHash}
use nostr_storage_orchestrat.Proxy.Client.{get_blob}
use nostr_storage_orchestrat.Proxy.World.{World, Network}
use nostr_storage_orchestrat.Proxy.Durable.{HasCopy, IsHeld, IsSound}
use nostr_storage_orchestrat.Proxy.Handler.{Reply, reply, is_reply}
use nostr_storage_orchestrat.Proxy.Token.{accepted, verify_auth_token}
use nostr_storage_orchestrat.Proxy.Account.{Service, seconds}
use nostr_storage_orchestrat.Proxy.Put.{Upload, put_upload}
use nostr_storage_orchestrat.Proxy.Put.Row.{is_recoverable}
use nostr_storage_orchestrat.Proxy.Put.Durable.{put_upload-Puts}
use nostr_storage_orchestrat.Proxy.Put.Genuine.{IsGenuine, put_upload-All}
use nostr_storage_orchestrat.Proxy.Read.Reachable.{IsAtHand, open_reachable}
use nostr_storage_orchestrat.Proxy.Read.{
  parse_hash, Download, owner_accounts, may_read, answer_read, read_owners, handle_get_blob,
}
use nostr_storage_orchestrat.Proxy.Read.Owners.{reads, get_user-true, owner_accounts-any}

-- Every owner's account is read where db-api answers.
owner_accounts-some :
    (answered : String → Bool) (owners : List String) (db : Db)
    → ((n : String) → answered n ≡ true)
    → (accounts : List (Option User)) × (owner_accounts answered owners db ≡ some accounts)
unfolding owner_accounts
owner_accounts-some answered [] db h = ([], refl)
owner_accounts-some answered (owner ∷ owners) db h =
    let (accounts, e) = owner_accounts-some answered owners db h in
    let e' = get_user-true owner db in
    (find (has_npub owner) db.users ∷ accounts, rw (owner_accounts, h owner, e', e) refl)

any_of_owner :
    (p : String → Bool) (owners : List String) (o : String)
    → p o ≡ true
    → any (λ x. x == o) owners ≡ true
    → any p owners ≡ true
any_of_owner p [] o h e = cc
any_of_owner p (x ∷ xs) o h e = ground (arith, any_of_owner p xs o h, eq_iff x o)

-- A network on which reads succeed, for a world and a hash.
pub record IsUp (net : Network) (hash : String) (w : World) : Type 0 where
  pub blob_read : net.blob_read ≡ true
  pub accounts_read : (n : String) → net.account_read n ≡ true
  pub at_hand : All (IsAtHand net.gets w.registry hash) w.db.blobs

-- A GET that serves bytes of the hash.
abbrev pub IsServed : Service → String → Reply Download → Type 0
IsServed s hash r =
    (size : ℤ) × (bytes : List ℕ) × (r ≡ reply 200 (record { size = size; content = some bytes }))
    × (s.sha256 bytes ≡ hash)

free_no_row :
    (hash npub : String) (bs : List Blob)
    → All (LacksHash hash) bs
    → any (is_row hash npub) bs ≡ true
    → ⊥
free_no_row hash npub [] free h = cc
free_no_row hash npub (b ∷ bs) free h = free_no_row hash npub bs free.1 (ground (arith, free.0))

serves_found :
    (s : Service) (net : Network) (now : ℕ) (hash npub : String) (w : World) (blob : Blob)
    (owners : List String)
    → IsUp net hash w
    → IsSound w.db w.copies
    → All (IsGenuine s) w.copies
    → reads s now w.db npub ≡ true
    → has_hash hash blob ≡ true
    → ((P : Blob → Type 0) → All P w.db.blobs → P blob)
    → any (λ o. o == npub) owners ≡ true
    → IsServed s hash (read_owners s net now hash true (blob, owners) w)
unfolding read_owners answer_read
serves_found s net now hash npub w blob owners up sound genuine may has from owner =
    let (accounts, e) = owner_accounts-some net.account_read owners w.db up.accounts_read in
    let readable : any (may_read s now) accounts ≡ true =
      owner_accounts-any s now net.account_read owners w.db accounts e
      ∙ any_of_owner (reads s now w.db) owners npub may owner in
    let one : blob.hash ≡ hash = ground (arith, eq_iff blob.hash hash) in
    let held : All (HasCopy w.copies hash) blob.replicas =
      rw one at (from (IsHeld w.copies) sound.durable).1 in
    let (bytes, f, g) =
      open_reachable s net.gets w.registry hash blob.replicas w.copies genuine held
        (from (IsAtHand net.gets w.registry hash) up.at_hand has) in
    (blob.size, bytes, rw (read_owners, e, answer_read, readable, f) refl, g)

-- Where db-api answers, a row of the hash has a node that answers for one of its replicas, and an account
-- with a row of the hash may read, a GET of the hash is served: 200, with bytes whose SHA-256 is the hash.
pub handle_get_blob-IsServed :
    (s : Service) (net : Network) (now : ℕ) (path hash npub : String) (w : World)
    → IsUp net hash w
    → IsSound w.db w.copies
    → All (IsGenuine s) w.copies
    → parse_hash path ≡ some hash
    → any (is_row hash npub) w.db.blobs ≡ true
    → reads s now w.db npub ≡ true
    → IsServed s hash (handle_get_blob s net now path true w)
unfolding handle_get_blob
handle_get_blob-IsServed s net now path hash npub w up sound genuine named row may =
    elim (get_blob-Finds hash w.db) [
      | absent free e ↦ absurd (free_no_row hash npub w.db.blobs free row)
      | found blob owners e has from owned ↦
          rw (handle_get_blob, named, get_blob, up.blob_read, e)
            (serves_found s net now hash npub w blob owners up sound genuine may has from
              (owned npub ∙ row))
    ]

-- What was uploaded is read back: after a PUT that answered with success, whatever its clean-up and its
-- look-ups met, a GET of the body's hash is served with bytes of the same SHA-256, where reads succeed then
-- and the account that signed may read. Before the PUT the nodes hold under a hash only bytes of it.
pub put_then_get :
    (s : Service) (net later : Network) (now then_now : ℕ) (req : Upload) (path : String)
    (w : World)
    → IsSound w.db w.copies
    → All (IsGenuine s) w.copies
    → is_recoverable net ≡ true
    → parse_hash path ≡ some (s.sha256 req.body)
    → (let r = put_upload s net now req w in
        is_reply r.0 ≡ true
        → IsUp later (s.sha256 req.body) r.1
        → ((npub : String)
            → verify_auth_token s.lib req.authorization "upload"
                (record { hash = some (s.sha256 req.body); require_hash_scope = true })
                (seconds now)
              ≡ accepted npub
            → reads s then_now (r.1).db npub ≡ true)
        → IsServed s (s.sha256 req.body) (handle_get_blob s later then_now path true r.1))
put_then_get s net later now then_now req path w sound genuine safe named ok up may =
    let w' = (put_upload s net now req w).1 in
    let (sound', stored) = put_upload-Puts s net now req w sound safe in
    let (npub, token, row) = stored ok in
    handle_get_blob-IsServed s later then_now path (s.sha256 req.body) npub w' up sound'
      (put_upload-All s net now req w genuine) named row (may npub token)
