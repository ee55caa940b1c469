-- ===== src/Db/Users/Growth.antt =====
-- The entitlement route and the bulk delete lose no payment and no account, and keep the keys of both distinct.
use nostr_storage_orchestrat.Common.{
  ℕ, ◌≡◌, refl, ◌∙◌, Bool, true, false, not, eq_iff, string_eq, Option, none, some, List, [], ◌∷◌,
  ◌++◌, String, keep, find, any, inl, inr, Option-cases, arith,
}
use nostr_storage_orchestrat.Common.Js.{Value, Runtime}
use nostr_storage_orchestrat.Db.{User, EntitlementGrant, Db, has_npub, is_owned}
use nostr_storage_orchestrat.Db.Entitlement.{ParsedEntitlementRequest, parse_entitlement_request}
use nostr_storage_orchestrat.Db.Rows.{TxResult-cases, any-update_where}
use nostr_storage_orchestrat.Db.Grows.{
  Grows, Grows-refl, Grows-update, UniqueUsers, UniqueGrants, has_hash, UniqueUsers-update_where,
}
use nostr_storage_orchestrat.Db.Users.Grant.{
  grant_entitlement-Grants, with_user, with_claim, IsUnclaimed,
}
use nostr_storage_orchestrat.Db.Users.Keeps.{
  any-append, absent_of_none, Parsed-cases, cleared, clear_rows_cases,
}
use nostr_storage_orchestrat.Db.Users.{
  new_user, assign, grant_entitlement, settle_entitlement, apply_request, post_entitlement,
  zero_usage, settle_clear, delete_user_blobs,
}

find-append :
    (p : EntitlementGrant → Bool) (gs : List EntitlementGrant) (x g : EntitlementGrant)
    → find p gs ≡ some g
    → find p (gs ++ x ∷ []) ≡ some g
find-append p [] x g h = cc
find-append p (y ∷ gs) x g h = ground (arith, find-append p gs x g)

find-with_claim :
    (payment : Option String) (npub : String) (now : ℕ) (gs : List EntitlementGrant)
    (p : EntitlementGrant → Bool) (g : EntitlementGrant)
    → find p gs ≡ some g
    → find p (with_claim payment npub now gs) ≡ some g
find-with_claim none npub now gs p g h = h
find-with_claim (some hash) npub now gs p g h = find-append p gs _ g h

any-with_user :
    (n npub : String) (now : ℕ) (us : List User)
    → any (has_npub n) us ≡ true
    → any (has_npub n) (with_user npub now us) ≡ true
any-with_user n npub now us h = elim (Option-cases (find (has_npub npub) us)) [
  | inl e ↦ rw (with_user, e) (any-append n us (new_user npub now) h)
  | inr (u, e) ↦ rw (with_user, e) h
]

UniqueUsers-append :
    (us : List User) (u : User)
    → UniqueUsers us
    → any (has_npub u.npub) us ≡ false
    → UniqueUsers (us ++ u ∷ [])
UniqueUsers-append [] u h fresh = (refl, tt)
UniqueUsers-append (v ∷ us) u h fresh = (
  any_last_user v.npub us u h.0 (ground (arith, eq_iff v.npub u.npub, eq_iff u.npub v.npub)),
  UniqueUsers-append us u h.1 (ground arith),
)
  where
    any_last_user :
        (n : String) (xs : List User) (x : User)
        → any (has_npub n) xs ≡ false
        → has_npub n x ≡ false
        → any (has_npub n) (xs ++ x ∷ []) ≡ false
    any_last_user n [] x e f = ground arith
    any_last_user n (y ∷ xs) x e f = ground (arith, any_last_user n xs x)

UniqueGrants-append :
    (gs : List EntitlementGrant) (g : EntitlementGrant)
    → UniqueGrants gs
    → any (has_hash g.payment_hash) gs ≡ false
    → UniqueGrants (gs ++ g ∷ [])
UniqueGrants-append [] g h fresh = (refl, tt)
UniqueGrants-append (x ∷ gs) g h fresh = (
  any_last_grant x.payment_hash gs g h.0
      (ground (arith, eq_iff x.payment_hash g.payment_hash, eq_iff g.payment_hash x.payment_hash)),
  UniqueGrants-append gs g h.1 (ground arith),
)
  where
    any_last_grant :
        (n : String) (xs : List EntitlementGrant) (x : EntitlementGrant)
        → any (has_hash n) xs ≡ false
        → has_hash n x ≡ false
        → any (has_hash n) (xs ++ x ∷ []) ≡ false
    any_last_grant n [] x e f = ground arith
    any_last_grant n (y ∷ xs) x e f = ground (arith, any_last_grant n xs x)

UniqueUsers-with_user :
    (npub : String) (now : ℕ) (us : List User)
    → UniqueUsers us
    → UniqueUsers (with_user npub now us)
UniqueUsers-with_user npub now us h = elim (Option-cases (find (has_npub npub) us)) [
  | inl e ↦
      rw (with_user, e) (UniqueUsers-append us (new_user npub now) h (absent_of_none npub us e))
  | inr (u, e) ↦ rw (with_user, e) h
]

UniqueGrants-with_claim :
    (payment : Option String) (npub : String) (now : ℕ) (gs : List EntitlementGrant)
    → IsUnclaimed payment gs
    → UniqueGrants gs
    → UniqueGrants (with_claim payment npub now gs)
UniqueGrants-with_claim none npub now gs fresh h = h
UniqueGrants-with_claim (some hash) npub now gs fresh h = UniqueGrants-append gs _ h fresh

apply_request-Grows :
    (npub : String) (request : ParsedEntitlementRequest) (now : ℕ) (db : Db)
    → Grows db ((apply_request npub request now db).1)
unfolding apply_request
apply_request-Grows npub request now db =
    elim (TxResult-cases (grant_entitlement npub request now db)) [
      | inl (x, e) ↦ rw (e, settle_entitlement) (Grows-refl db)
      | inr (user, db', e) ↦
          let g = grant_entitlement-Grants npub request now db db' user e in
          rw (e, settle_entitlement, g.state)
            record {
              grants = find-with_claim request.payment_hash npub now db.grants;
              keys = λ (users, grants). (
                UniqueUsers-update_where (has_npub npub) (assign g.effect)
                    (with_user npub now db.users) (λ u. refl)
                    (UniqueUsers-with_user npub now db.users users),
                UniqueGrants-with_claim request.payment_hash npub now db.grants g.unclaimed grants,
              );
              accounts = λ n h.
                  any-update_where n (has_npub npub) (assign g.effect) (with_user npub now db.users)
                    (λ u. refl)
                  ∙ any-with_user n npub now db.users h;
            }
    ]

pub post_entitlement-Grows :
    (js : Runtime) (npub : String) (body : Value) (now : ℕ) (db : Db)
    → Grows db ((post_entitlement js npub body now db).1)
unfolding post_entitlement
post_entitlement-Grows js npub body now db =
    elim (Parsed-cases (parse_entitlement_request js body)) [
      | inl (s, x, e) ↦ rw (post_entitlement, e) (Grows-refl db)
      | inr (request, e) ↦ rw (post_entitlement, e) (apply_request-Grows npub request now db)
    ]

pub delete_user_blobs-Grows : (npub : String) (db : Db) → Grows db ((delete_user_blobs npub db).1)
unfolding delete_user_blobs cleared
delete_user_blobs-Grows npub db = elim (clear_rows_cases npub (keep (is_owned npub) db.blobs) db) [
  | inl (x, e) ↦ rw (e, settle_clear) (Grows-refl db)
  | inr (inl (empty, e)) ↦ rw (e, settle_clear) (Grows-refl db)
  | inr (inr e) ↦
      rw (e, settle_clear)
        (Grows-update db (has_npub npub) zero_usage (keep (λ b. not (is_owned npub b)) db.blobs)
          (λ u. refl))
]
