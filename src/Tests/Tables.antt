-- ===== src/Tests/Tables.antt =====
-- Examples of the theorems on the tables of packages/db.
use nostr_storage_orchestrat.Common.{
  ℕ, ◌+◌, ◌*◌, ◌≤◌, ◌≡◌, refl, false, none, some, List, [], ◌∷◌, find, map,
}
use nostr_storage_orchestrat.Common.Int.{ℤ, pos, ◌+ℤ◌, ◌-ℤ◌}
use nostr_storage_orchestrat.Common.Js.{Value, obj, field, end, num, str, int, at, day_ms}
use nostr_storage_orchestrat.Db.{
  User, Blob, Db, empty, success, has_npub, update_user, create_blob, delete_row,
}
use nostr_storage_orchestrat.Db.Payments.{grant_entitlement_once}
use nostr_storage_orchestrat.Db.Rows.{IsConsistent}
use nostr_storage_orchestrat.Db.Grows.{HasKeys}
use nostr_storage_orchestrat.Db.Service.{
  Request, add_blob, remove_blob, entitle, clear, handle, serve, serve-IsConsistent,
}
use nostr_storage_orchestrat.Db.Blobs.{everyone, post_blobs, delete_blobs, delete_in_scope}
use nostr_storage_orchestrat.Db.Blobs.Quota.{
  Posts, InQuota, row_of, post_blobs-Posts, post_blobs_quota,
}
use nostr_storage_orchestrat.Db.Blobs.Removal.{Deletes, delete_in_scope-Deletes}
use nostr_storage_orchestrat.Db.Entitlement.{
  ParsedEntitlementRequest, payment, admin, upgrade, parse_entitlement_request, compute_entitlement,
}
use nostr_storage_orchestrat.Db.Entitlement.Admission.{
  IsAdmitted, parse_entitlement_request-IsAdmitted,
}
use nostr_storage_orchestrat.Db.Entitlement.Effect.{
  Effects, compute_entitlement-Effects, compute_entitlement_adds,
}
use nostr_storage_orchestrat.Db.Users.{
  grant_entitlement, apply_request, post_entitlement, delete_user_blobs,
}
use nostr_storage_orchestrat.Db.Users.Idempotency.{apply_request_again, grant_entitlement-IsApplied}
use nostr_storage_orchestrat.Db.Users.Keeps.{Clears, delete_user_blobs-Clears}
use nostr_storage_orchestrat.Tests.Data.{small_js, today, alice, small_db, small_db-IsConsistent}
use nostr_storage_orchestrat.Common.{true}
use nostr_storage_orchestrat.Db.Storages.{StorageProvider, linked, CapacityConfig}

abbrev body_of : ℕ → Value
body_of bytes = obj (
    field "durationDays" (num (int (pos 30)))
      (field "storageBytes" (num (int (pos bytes))) (field "source" (str "admin") end)))

abbrev served_requests : List (ℕ × Request)
served_requests =
    (today, entitle "alice" (body_of 100))
    ∷ (today, entitle "bob" (body_of 100))
    ∷ (today, add_blob "photo" "alice" (num (int (pos 10))) ("one" ∷ []))
    ∷ (today, add_blob "photo" "bob" (num (int (pos 10))) ("one" ∷ []))
    ∷ (today, add_blob "film" "alice" (num (int (pos 60))) ("one" ∷ []))
    ∷ (today, add_blob "film" "alice" (num (int (pos 60))) ("one" ∷ []))
    ∷ (today, add_blob "book" "bob" (num (int (pos 95))) ("one" ∷ []))
    ∷ (today, remove_blob "photo" (some "alice") none)
    ∷ []

-- Of the requests, the second upload of the film and the book are refused.
are_served :
    map (λ u. u.used_storage) (serve small_js served_requests empty).users ≡ pos 60 ∷ pos 10 ∷ []
unfolding serve handle post_blobs create_blob update_user ◌+ℤ◌ ◌-ℤ◌ delete_blobs delete_row
    post_entitlement parse_entitlement_request apply_request grant_entitlement compute_entitlement
    delete_in_scope
are_served = refl

abbrev requests : List (ℕ × Request)
requests =
    (
      today,
      entitle "alice" (
          obj (
            field "durationDays" (num (int (pos 30)))
              (field "storageBytes" (num (int (pos 100))) end))),
    )
    ∷ (today, add_blob "photo" "alice" (num (int (pos 10))) [])
    ∷ (today, remove_blob "photo" (some "alice") none)
    ∷ (today, clear "alice")
    ∷ []

serve-IsConsistent_example :
    IsConsistent (serve small_js served_requests empty)
    × HasKeys (serve small_js served_requests empty)
serve-IsConsistent_example = serve-IsConsistent small_js served_requests

abbrev month : ParsedEntitlementRequest
month = record {
  duration_days = 30;
  storage_bytes = pos 500;
  source = payment;
  mode = some upgrade;
  force = false;
  payment_hash = some "receipt";
  plan_expires_at = none;
}

abbrev renewed : User
renewed = record alice {
  plan_expires_at = some (at (today + 30 * day_ms));
  storage_bytes = some (pos 500);
}

abbrev renewed_db : Db
renewed_db = record small_db {
  users = renewed ∷ [];
  grants = record { payment_hash = "receipt"; npub = "alice"; created_at = today } ∷ [];
}

apply_request_again_example :
    (u : User) × (find (has_npub "alice") renewed_db.users ≡ some u)
    × (apply_request "alice" month (today + 5) renewed_db ≡ (success 200 u, renewed_db))
unfolding grant_entitlement compute_entitlement update_user
apply_request_again_example =
    apply_request_again "alice" "receipt" month (today + 5) renewed_db refl (
      grant_entitlement-IsApplied "alice" "receipt" month today small_db renewed_db renewed refl
        refl)

grant_entitlement_once_example :
    (u : User) × (find (has_npub "alice") (serve small_js requests renewed_db).users ≡ some u)
    × (apply_request "alice" month (today + 5) (serve small_js requests renewed_db)
        ≡ (success 200 u, serve small_js requests renewed_db))
unfolding grant_entitlement compute_entitlement update_user
grant_entitlement_once_example =
    grant_entitlement_once small_js "alice" "receipt" month month today (today + 5) requests
      small_db renewed_db renewed refl refl refl

post_blobs-Posts_example :
    (n : ℤ) × Posts small_js
      (row_of "film" "alice" n [] today)
      (num (int (pos 95)))
      small_db
      (post_blobs small_js "film" "alice" (num (int (pos 95))) [] today small_db)
post_blobs-Posts_example =
    post_blobs-Posts small_js "film" "alice" (num (int (pos 95))) [] today small_db

abbrev film : Blob
film = row_of "film" "alice" (pos 90) [] today

post_blobs_quota_example : InQuota small_db "alice" film (pos 100)
unfolding post_blobs create_blob update_user ◌+ℤ◌
post_blobs_quota_example =
    post_blobs_quota small_js "film" "alice" (num (int (pos 90))) [] today small_db film (pos 100)
      refl

delete_in_scope-Deletes_example :
    Deletes "photo" everyone small_db (delete_in_scope "photo" everyone small_db).1 0
unfolding delete_in_scope delete_row update_user ◌-ℤ◌
delete_in_scope-Deletes_example =
    delete_in_scope-Deletes "photo" everyone small_db (pos 0) 0 small_db-IsConsistent refl

delete_user_blobs-Clears_example :
    Clears "alice" small_db
      ((delete_user_blobs "alice" small_db).1)
      ((delete_user_blobs "alice" small_db).0)
delete_user_blobs-Clears_example = delete_user_blobs-Clears "alice" small_db small_db-IsConsistent

abbrev month_body : Value
month_body = obj (
    field "durationDays" (num (int (pos 30)))
      (field "storageBytes" (num (int (pos 500))) (field "source" (str "admin") end)))

abbrev month_admin : ParsedEntitlementRequest
month_admin = record month { source = admin; mode = none; payment_hash = none }

parse_entitlement_request-IsAdmitted_example : IsAdmitted small_js month_body month_admin
unfolding parse_entitlement_request
parse_entitlement_request-IsAdmitted_example =
    parse_entitlement_request-IsAdmitted small_js month_body month_admin refl

compute_entitlement-Effects_example :
    Effects alice month today (compute_entitlement alice month today)
compute_entitlement-Effects_example = compute_entitlement-Effects alice month today

abbrev in_a_month : ℕ
in_a_month = today + 30 * day_ms

compute_entitlement_adds_example :
    (today + 30 * day_ms ≤ in_a_month)
    × ((e : ℕ) → alice.plan_expires_at ≡ some (at e) → e + 30 * day_ms ≤ in_a_month)
unfolding compute_entitlement
compute_entitlement_adds_example =
    compute_entitlement_adds alice month today in_a_month
      record { plan_expires_at = at in_a_month; storage_bytes = some (pos 500) } refl refl refl

abbrev provider : StorageProvider
provider = record {
  npub = "one";
  tunnel_ip = some "10.0.0.1";
  blossom_port = some 80;
  pg_agent_port = none;
  reported_total_bytes = some 2000;
  reported_free_bytes = some 1000;
  lifecycle = linked;
  last_ping_at = some today;
}

abbrev config : CapacityConfig
config = record {
  active_window_ms = 960000;
  replicas = 2;
  count_commitments = true;
  min_free_bytes = 5;
}

abbrev two_providers : List StorageProvider
two_providers = provider ∷ record provider { npub = "two"; pg_agent_port = some 5432 } ∷ []
