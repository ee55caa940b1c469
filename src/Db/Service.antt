-- ===== src/Db/Service.antt =====
-- The routes of packages/db on users, blobs and notifications as one service, which answers one request at a time: each
-- route that writes is one transaction.
use nostr_storage_orchestrat.Common.{ℕ, Option, List, [], ◌∷◌, String}
use nostr_storage_orchestrat.Common.Js.{Value, Runtime}
use nostr_storage_orchestrat.Db.{Db, empty}
use nostr_storage_orchestrat.Db.Grows.{Grows, Grows-refl, Grows-trans, HasKeys}
use nostr_storage_orchestrat.Db.Blobs.Growth.{post_blobs-Grows, delete_blobs-Grows}
use nostr_storage_orchestrat.Db.Users.Growth.{post_entitlement-Grows, delete_user_blobs-Grows}
use nostr_storage_orchestrat.Db.Rows.{IsConsistent}
use nostr_storage_orchestrat.Db.Blobs.{post_blobs, delete_blobs}
use nostr_storage_orchestrat.Db.Blobs.Accounting.{post_blobs-IsConsistent}
use nostr_storage_orchestrat.Db.Blobs.Removal.{delete_blobs-IsConsistent}
use nostr_storage_orchestrat.Db.Users.{post_entitlement, delete_user_blobs}
use nostr_storage_orchestrat.Db.Users.Keeps.{
  post_entitlement-IsConsistent, delete_user_blobs-Clears,
}

-- The requests that write users or blobs.
pub data Request : Type 0 where
  add_blob : String → String → Value → List String → Request
  remove_blob : String → Option String → Option String → Request
  entitle : String → Value → Request
  clear : String → Request

unfoldable pub handle : Runtime → ℕ → Request → Db → Db
handle js now (add_blob hash npub size replicas) db =
    (post_blobs js hash npub size replicas now db).1
handle js now (remove_blob hash npub all) db = (delete_blobs hash npub all db).1
handle js now (entitle npub body) db = (post_entitlement js npub body now db).1
handle js now (clear npub) db = (delete_user_blobs npub db).1

-- The requests with the times at which they came.
unfoldable pub serve : Runtime → List (ℕ × Request) → Db → Db
serve js [] db = db
serve js ((now, r) ∷ rs) db = serve js rs (handle js now r db)

handle-IsConsistent :
    (js : Runtime) (now : ℕ) (r : Request) (db : Db)
    → IsConsistent db
    → IsConsistent (handle js now r db)
unfolding handle
handle-IsConsistent js now (add_blob hash npub size replicas) db c =
    post_blobs-IsConsistent js hash npub size replicas now db c
handle-IsConsistent js now (remove_blob hash npub all) db c =
    delete_blobs-IsConsistent hash npub all db c
handle-IsConsistent js now (entitle npub body) db c =
    post_entitlement-IsConsistent js npub body now db c
handle-IsConsistent js now (clear npub) db c = (delete_user_blobs-Clears npub db c).consistent

serve_keeps :
    (js : Runtime) (rs : List (ℕ × Request)) (db : Db)
    → IsConsistent db
    → IsConsistent (serve js rs db)
unfolding serve
serve_keeps js [] db c = c
serve_keeps js ((now, r) ∷ rs) db c =
    serve_keeps js rs (handle js now r db) (handle-IsConsistent js now r db c)

handle-Grows : (js : Runtime) (now : ℕ) (r : Request) (db : Db) → Grows db (handle js now r db)
unfolding handle
handle-Grows js now (add_blob hash npub size replicas) db =
    post_blobs-Grows js hash npub size replicas now db
handle-Grows js now (remove_blob hash npub all) db = delete_blobs-Grows hash npub all db
handle-Grows js now (entitle npub body) db = post_entitlement-Grows js npub body now db
handle-Grows js now (clear npub) db = delete_user_blobs-Grows npub db

pub serve-Grows : (js : Runtime) (rs : List (ℕ × Request)) (db : Db) → Grows db (serve js rs db)
unfolding serve
serve-Grows js [] db = Grows-refl db
serve-Grows js ((now, r) ∷ rs) db =
    Grows-trans db (handle js now r db) (serve js rs (handle js now r db))
      (handle-Grows js now r db) (serve-Grows js rs (handle js now r db))

-- Whatever requests the service has answered since its tables were empty, each account's `usedStorage` is the sum of
-- its rows' sizes, no two rows have one key, each row belongs to an account, no two accounts have one npub, and no two
-- grants one payment hash.
pub serve-IsConsistent :
    (js : Runtime) (rs : List (ℕ × Request))
    → IsConsistent (serve js rs empty) × HasKeys (serve js rs empty)
serve-IsConsistent js rs = (
  serve_keeps js rs empty record { exact = tt; unique = tt; owned = tt },
  (serve-Grows js rs empty).keys (tt, tt),
)
