-- ===== src/Db/Users/Grant.antt =====
-- The entitlement transaction as one change of the tables.
use text.Mathlib.TextPositions.{eq_refl}
use nostr_storage_orchestrat.Common.{
  ℕ, ◌≡◌, refl, ◌≢◌, ◌⊎◌, Bool, true, false, Option, none, some, List, [], ◌∷◌, ◌++◌, String, any,
  find, update_where, Option-cases, inl, inr, arith,
}
use nostr_storage_orchestrat.Db.{User, EntitlementGrant, Db, p2002, ok, fail, ◌>>=◌, has_npub}
use nostr_storage_orchestrat.Db.Entitlement.{
  ParsedEntitlementRequest, Parsed, EntitlementEffect, compute_entitlement,
}
use nostr_storage_orchestrat.Db.Rows.{update_user_cases}
use nostr_storage_orchestrat.Db.Users.{
  new_user, upsert_user, has_payment, claim_payment, assign, grant_entitlement,
}

abbrev pub with_user : String → ℕ → List User → List User
with_user npub now us = elim (find (has_npub npub) us) [
  | some u ↦ us
  | none ↦ us ++ new_user npub now ∷ []
]

abbrev pub with_claim : Option String → String → ℕ → List EntitlementGrant → List EntitlementGrant
with_claim none npub now gs = gs
with_claim (some hash) npub now gs =
    gs ++ record { payment_hash = hash; npub = npub; created_at = now } ∷ []

abbrev pub IsUnclaimed : Option String → List EntitlementGrant → Type 0
IsUnclaimed none gs = Unit
IsUnclaimed (some hash) gs = any (has_payment hash) gs ≡ false

pub find-append :
    {A : Type 0} (p : A → Bool) (xs : List A) (x : A)
    → find p xs ≡ none
    → p x ≡ true
    → find p (xs ++ x ∷ []) ≡ some x
find-append p [] x h e = ground arith
find-append p (y ∷ xs) x h e = ground (arith, find-append p xs x)

upsert_effect :
    (npub : String) (now : ℕ) (db : Db)
    → (u : User) × (upsert_user npub now db
        ≡ ok u (record db { users = with_user npub now db.users }))
      × (find (has_npub npub) (with_user npub now db.users) ≡ some u)
unfolding upsert_user
upsert_effect npub now db = elim (Option-cases (find (has_npub npub) db.users)) [
  | inl e ↦ (
    new_user npub now,
    ground arith,
    ground (arith, find-append (has_npub npub) db.users (new_user npub now) e, eq_refl npub),
  )
  | inr (u, e) ↦ (u, ground arith, ground arith)
]

claim_effect :
    (payment : Option String) (npub : String) (now : ℕ) (db : Db)
    → ((claim_payment payment npub now db ≡ fail p2002) × (payment ≢ none))
      ⊎ ((claim_payment payment npub now db
            ≡ ok tt (record db { grants = with_claim payment npub now db.grants }))
          × IsUnclaimed payment db.grants)
unfolding claim_payment
claim_effect none npub now db = inr (refl, tt)
claim_effect (some hash) npub now db = ground arith

Parsed-cases :
    {A : Type 0} (m : Parsed A)
    → ((status : ℕ) × (code : String) × (m ≡ Parsed.throw status code))
      ⊎ ((a : A) × (m ≡ Parsed.ok a))
Parsed-cases (Parsed.ok a) = inr (a, refl)
Parsed-cases (Parsed.throw status code) = inl (status, code, refl)

-- What a granted request did.
pub record Grants (npub : String) (request : ParsedEntitlementRequest) (now : ℕ) (db db' : Db)
    (user : User) : Type 0 where
  pub before : User
  pub effect : EntitlementEffect
  pub found : find (has_npub npub) (with_user npub now db.users) ≡ some before
  pub computed : compute_entitlement before request now ≡ Parsed.ok effect
  pub unclaimed : IsUnclaimed request.payment_hash db.grants
  pub answer : user ≡ assign effect before
  pub state : db' ≡ record db {
    users = update_where (has_npub npub) (assign effect) (with_user npub now db.users);
    grants = with_claim request.payment_hash npub now db.grants;
  }

pub grant_entitlement-Grants :
    (npub : String) (request : ParsedEntitlementRequest) (now : ℕ) (db db' : Db) (user : User)
    → grant_entitlement npub request now db ≡ ok user db'
    → Grants npub request now db db' user
unfolding grant_entitlement
grant_entitlement-Grants npub request now db db' user h =
    let (u, upserted, found) = upsert_effect npub now db in
    let db1 = record db { users = with_user npub now db.users } in
    elim (claim_effect request.payment_hash npub now db1) [
      | inl (refused, _) ↦ let h' = rw (upserted, ◌>>=◌, refused) at h in cc
      | inr (claimed, fresh) ↦ elim (Parsed-cases (compute_entitlement u request now)) [
        | inl (status, code, thrown) ↦ let h' = rw (upserted, ◌>>=◌, claimed, thrown) at h in cc
        | inr (effect, computed) ↦
            elim (update_user_cases npub (assign effect)
              (record db1 { grants = with_claim request.payment_hash npub now db.grants })) [
                | inl (x, e) ↦ let h' = rw (upserted, ◌>>=◌, claimed, computed, e) at h in cc
                | inr (v, at_key, e) ↦
                    let same : v ≡ u = ground arith in
                    let h' = rw (upserted, ◌>>=◌, claimed, computed, e) at h in
                    record {
                      before = u;
                      effect = effect;
                      found = found;
                      computed = computed;
                      unclaimed = fresh;
                      answer = ground arith;
                      state = ground arith;
                    }
              ]
      ]
    ]
