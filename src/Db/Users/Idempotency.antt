-- ===== src/Db/Users/Idempotency.antt =====
-- A payment is applied once: what a repeated payment hash does.
use text.Mathlib.TextPositions.{eq_refl}
use nostr_storage_orchestrat.Common.{
  ℕ, ◌≡◌, refl, Bool, true, false, Option, none, some, List, [], ◌∷◌, String, any, find,
  update_where, eq_iff, arith,
}
use nostr_storage_orchestrat.Db.{
  User, EntitlementGrant, Db, p2002, ok, fail, ◌>>=◌, success, has_npub,
}
use nostr_storage_orchestrat.Db.Entitlement.{ParsedEntitlementRequest}
use nostr_storage_orchestrat.Db.Users.Grant.{
  grant_entitlement-Grants, with_user, with_claim, find-append, IsUnclaimed,
}
use nostr_storage_orchestrat.Db.Users.{
  upsert_user, has_payment, claim_payment, assign, grant_entitlement, settle_entitlement,
  apply_request,
}

-- The payment was claimed for the account, and the account exists.
pub record IsApplied (hash npub : String) (db : Db) : Type 0 where
  pub claimed :
      (g : EntitlementGrant) × (find (has_payment hash) db.grants ≡ some g) × (g.npub ≡ npub)
  pub account : (u : User) × (find (has_npub npub) db.users ≡ some u)

pub any_of_find {ℓ} :
    {A : Type ℓ} (p : A → Bool) (xs : List A) (x : A) → find p xs ≡ some x → any p xs ≡ true
any_of_find p [] x h = cc
any_of_find p (y ∷ xs) x h = ground (arith, any_of_find p xs x)

upsert_found :
    (npub : String) (now : ℕ) (db : Db) (u : User)
    → find (has_npub npub) db.users ≡ some u
    → upsert_user npub now db ≡ ok u db
unfolding upsert_user
upsert_found npub now db u e = ground arith

claim_refused :
    (payment : Option String) (hash npub : String) (now : ℕ) (db : Db)
    → payment ≡ some hash
    → any (has_payment hash) db.grants ≡ true
    → claim_payment payment npub now db ≡ fail p2002
unfolding claim_payment
claim_refused none hash npub now db p e = cc
claim_refused (some h) hash npub now db p e = let same : h ≡ hash = ground arith in rw same (rw e)

repeated :
    (npub hash : String) (request : ParsedEntitlementRequest) (now : ℕ) (db : Db) (u : User)
    → request.payment_hash ≡ some hash
    → find (has_npub npub) db.users ≡ some u
    → any (has_payment hash) db.grants ≡ true
    → grant_entitlement npub request now db ≡ fail p2002
unfolding grant_entitlement
repeated npub hash request now db u paid account claimed = rw (
  upsert_found npub now db u account,
  ◌>>=◌,
  claim_refused request.payment_hash hash npub now db paid claimed,
)

-- A request with a payment hash that is claimed for the account, which exists, is answered with
-- the account as it is, and changes nothing.
pub apply_request_again :
    (npub hash : String) (request : ParsedEntitlementRequest) (now : ℕ) (db : Db)
    → request.payment_hash ≡ some hash
    → IsApplied hash npub db
    → (u : User) × (find (has_npub npub) db.users ≡ some u)
      × (apply_request npub request now db ≡ (success 200 u, db))
unfolding apply_request
apply_request_again npub hash request now db paid a =
    let (g, found, owner) = a.claimed in
    let (u, account) = a.account in
    let failed =
      repeated npub hash request now db u paid account (any_of_find _ db.grants g found) in
    (u, account, rw (failed, settle_entitlement) (ground (arith, eq_iff g.npub npub)))

find_of_none : {A : Type 0} (p : A → Bool) (xs : List A) → any p xs ≡ false → find p xs ≡ none
find_of_none p [] h = refl
find_of_none p (x ∷ xs) h = ground (arith, find_of_none p xs)

find-update_where :
    (npub : String) (f : User → User) (us : List User) (u : User)
    → ((v : User) → (f v).npub ≡ v.npub)
    → find (has_npub npub) us ≡ some u
    → find (has_npub npub) (update_where (has_npub npub) f us) ≡ some (f u)
find-update_where npub f [] u same h = cc
find-update_where npub f (v ∷ us) u same h =
    ground (arith, same v, find-update_where npub f us u same)

claimed_now :
    (payment : Option String) (hash npub : String) (now : ℕ) (gs : List EntitlementGrant)
    → payment ≡ some hash
    → IsUnclaimed payment gs
    → (g : EntitlementGrant) × (find (has_payment hash) (with_claim payment npub now gs) ≡ some g)
      × (g.npub ≡ npub)
claimed_now none hash npub now gs paid fresh = cc
claimed_now (some h) hash npub now gs paid fresh =
    let same : h ≡ hash = ground arith in
    let g : EntitlementGrant = record { payment_hash = h; npub = npub; created_at = now } in
    (
      g,
      rw (← same)
          (find-append (has_payment h) gs g (find_of_none (has_payment h) gs fresh) (eq_refl h)),
      refl,
    )

-- A request with a payment hash that is granted leaves the payment claimed for the account, and
-- the account in the tables.
pub grant_entitlement-IsApplied :
    (npub hash : String) (request : ParsedEntitlementRequest) (now : ℕ) (db db' : Db) (user : User)
    → request.payment_hash ≡ some hash
    → grant_entitlement npub request now db ≡ ok user db'
    → IsApplied hash npub db'
grant_entitlement-IsApplied npub hash request now db db' user paid h =
    let g = grant_entitlement-Grants npub request now db db' user h in
    rw g.state record {
      claimed = claimed_now request.payment_hash hash npub now db.grants paid g.unclaimed;
      account = (
        assign g.effect g.before,
        find-update_where npub (assign g.effect) (with_user npub now db.users) g.before (λ v. refl)
            g.found,
      );
    }
