-- ===== src/Db/Users.antt =====
-- packages/db/src/routes/users.ts: the entitlement transaction, and the bulk delete of an account's
-- blobs.
pub mod Grant
pub mod Idempotency
pub mod Keeps
pub mod Growth
use nostr_storage_orchestrat.Common.{
  ℕ, Bool, true, false, not, Option, none, some, List, [], ◌∷◌, ◌++◌, String, find, keep, any, ◌==◌,
  string_eq, length, if◌then◌else◌,
}
use nostr_storage_orchestrat.Common.Int.{ℤ, pos}
use nostr_storage_orchestrat.Common.Js.{Value, Runtime}
use nostr_storage_orchestrat.Db.{
  User, Blob, EntitlementGrant, Db, TxError, p2025, p2002, entitlement_error, TxResult, ok, fail,
  Tx, ◌>>=◌, ◌>>◌, pure, throw, Response, success, error, has_npub, is_owned, update_user,
}
use nostr_storage_orchestrat.Db.Entitlement.{
  ParsedEntitlementRequest, Parsed, EntitlementEffect, parse_entitlement_request,
  compute_entitlement,
}

abbrev pub new_user : String → ℕ → User
new_user npub now = record {
  npub = npub;
  plan_expires_at = none;
  storage_bytes = none;
  used_storage = pos 0;
  created_at = now;
}

-- `tx.user.upsert({ where: { npub }, update: {}, create: { npub } })`
upsert_user : String → ℕ → Tx User
upsert_user npub now db = elim (find (has_npub npub) db.users) [
  | some u ↦ ok u db
  | none ↦ ok (new_user npub now) (record db { users = db.users ++ new_user npub now ∷ [] })
]

abbrev pub has_payment : String → EntitlementGrant → Bool
has_payment hash g = g.payment_hash == hash

-- `tx.entitlementGrant.create`, where the request carries a payment hash
claim_payment : Option String → String → ℕ → Tx (Unit {0})
claim_payment none npub now db = ok tt db
claim_payment (some hash) npub now db =
    if any (has_payment hash) db.grants
    then fail p2002
    else ok tt (record db {
      grants = db.grants ++ record { payment_hash = hash; npub = npub; created_at = now } ∷ [];
    })

abbrev lift : {A : Type 0} → Parsed A → Tx A
lift (Parsed.ok a) = pure a
lift (Parsed.throw status code) = throw (entitlement_error status code)

abbrev pub assign : EntitlementEffect → User → User
assign effect u = record u {
  plan_expires_at = some effect.plan_expires_at;
  storage_bytes = effect.storage_bytes;
}

-- The transaction of POST /users/:npub/entitlement.
unfoldable pub grant_entitlement : String → ParsedEntitlementRequest → ℕ → Tx User
unfolding upsert_user claim_payment
grant_entitlement npub request now = do
  current ← upsert_user npub now
  claim_payment request.payment_hash npub now
  effect ← lift (compute_entitlement current request now)
  update_user npub (assign effect)

-- The answer to a payment hash that was claimed before.
already_applied : String → String → Db → Response User
already_applied hash npub db = elim (find (has_payment hash) db.grants) [
  | some g ↦
      if g.npub == npub
      then elim (find (has_npub npub) db.users) [
        | some u ↦ success 200 u
        | none ↦ error 500 "internal_error"
      ]
      else error 409 "payment_hash_used_by_other_user"
  | none ↦ elim (find (has_npub npub) db.users) [
    | some u ↦ success 200 u
    | none ↦ error 500 "internal_error"
  ]
]

entitlement_failed : String → Option String → Db → TxError → Response User
unfolding already_applied
entitlement_failed npub payment db (entitlement_error status code) = error status code
entitlement_failed npub (some hash) db p2002 = already_applied hash npub db
entitlement_failed npub payment db _ = error 500 "internal_error"

settle_entitlement : String → ParsedEntitlementRequest → Db → TxResult User → Response User × Db
unfolding entitlement_failed
settle_entitlement npub request db (ok user db') = (success 200 user, db')
settle_entitlement npub request db (fail e) =
    (entitlement_failed npub request.payment_hash db e, db)

-- What follows the parse in POST /users/:npub/entitlement.
unfoldable pub apply_request : String → ParsedEntitlementRequest → ℕ → Db → Response User × Db
unfolding settle_entitlement
apply_request npub request now db =
    settle_entitlement npub request db (grant_entitlement npub request now db)

-- POST /users/:npub/entitlement
unfoldable pub post_entitlement : Runtime → String → Value → ℕ → Db → Response User × Db
unfolding apply_request
post_entitlement js npub body now db = elim (parse_entitlement_request js body) [
  | Parsed.throw status code ↦ (error status code, db)
  | Parsed.ok request ↦ apply_request npub request now db
]

abbrev pub zero_usage : User → User
zero_usage u = record u { used_storage = pos 0 }

-- The transaction of DELETE /users/:npub/blobs; with no rows the account is not touched.
pub clear_rows : String → List Blob → Tx (List Blob)
clear_rows npub [] db = ok [] db
clear_rows npub (row ∷ rows) db =
    elim (update_user npub zero_usage
      (record db { blobs = keep (λ b. not (is_owned npub b)) db.blobs })) [
        | ok u db' ↦ ok (row ∷ rows) db'
        | fail e ↦ fail e
      ]

settle_clear : Db → TxResult (List Blob) → Response (List Blob) × Db
settle_clear db (ok rows db') = (success 200 rows, db')
settle_clear db (fail e) = (error 500 "internal_error", db)

-- DELETE /users/:npub/blobs, with the deleted rows as the body.
unfoldable pub delete_user_blobs : String → Db → Response (List Blob) × Db
unfolding clear_rows settle_clear
delete_user_blobs npub db = settle_clear db (clear_rows npub (keep (is_owned npub) db.blobs) db)
