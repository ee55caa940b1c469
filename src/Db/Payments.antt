-- ===== src/Db/Payments.antt =====
-- A payment is applied once, whatever the service does after it.
use nostr_storage_orchestrat.Common.{
  ℕ, ◌≡◌, refl, inl, inr, Bool-cases, true, some, List, [], ◌∷◌, String, any, find, arith,
}
use nostr_storage_orchestrat.Common.Js.{Runtime}
use nostr_storage_orchestrat.Db.{User, Db, success, ok, has_npub}
use nostr_storage_orchestrat.Db.Entitlement.{ParsedEntitlementRequest}
use nostr_storage_orchestrat.Db.Grows.{Grows}
use nostr_storage_orchestrat.Db.Users.{has_payment, grant_entitlement, apply_request}
use nostr_storage_orchestrat.Db.Users.Idempotency.{
  IsApplied, apply_request_again, grant_entitlement-IsApplied, any_of_find,
}
use nostr_storage_orchestrat.Db.Service.{Request, serve, serve-Grows}

find_of_any :
    (n : String) (us : List User)
    → any (has_npub n) us ≡ true
    → (u : User) × (find (has_npub n) us ≡ some u)
find_of_any n [] h = absurd (ground arith)
find_of_any n (v ∷ us) h = elim (Bool-cases (has_npub n v)) [
  | inl e ↦ (v, rw e refl)
  | inr e ↦ let (u, f) = find_of_any n us (ground arith) in (u, rw e f)
]

IsApplied-Grows :
    (hash npub : String) (db db' : Db)
    → Grows db db'
    → IsApplied hash npub db
    → IsApplied hash npub db'
IsApplied-Grows hash npub db db' grows a =
    let (g, found, owner) = a.claimed in
    let (u, account) = a.account in
    record {
      claimed = (g, grows.grants (has_payment hash) g found, owner);
      account =
          find_of_any npub db'.users
            (grows.accounts npub (any_of_find (has_npub npub) db.users u account));
    }

-- Once a request with a payment hash was granted to an account, and whatever requests the service answers after it, a
-- repeat of the payment for the account is answered with the account as it then is, and changes nothing.
pub grant_entitlement_once :
    (js : Runtime) (npub hash : String) (request repeat : ParsedEntitlementRequest) (now later : ℕ)
    (rs : List (ℕ × Request)) (db db' : Db) (user : User)
    → request.payment_hash ≡ some hash
    → repeat.payment_hash ≡ some hash
    → grant_entitlement npub request now db ≡ ok user db'
    → (u : User) × (find (has_npub npub) (serve js rs db').users ≡ some u)
      × (apply_request npub repeat later (serve js rs db') ≡ (success 200 u, serve js rs db'))
grant_entitlement_once js npub hash request repeat now later rs db db' user paid again h =
    apply_request_again npub hash repeat later (serve js rs db') again (
      IsApplied-Grows hash npub db' (serve js rs db') (serve-Grows js rs db')
        (grant_entitlement-IsApplied npub hash request now db db' user paid h))
