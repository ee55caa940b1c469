-- ===== src/Db/Users/Keeps.antt =====
-- The entitlement route and the bulk delete keep the tables consistent.
use nostr_storage_orchestrat.Common.{
  ℕ, ◌≡◌, ap, ◌⊎◌, refl, sym, true, false, not, none, List, [], ◌∷◌, ◌++◌, String, any, find, keep,
  update_where, All, All-mono, All-append, All-keep, eq_iff, Option-cases, inl, inr, arith, ◌==◌,
  string_eq, if◌then◌else◌,
}
use nostr_storage_orchestrat.Common.Int.{pos}
use nostr_storage_orchestrat.Common.Js.{Value, Runtime}
use nostr_storage_orchestrat.Db.{
  User, Blob, Db, TxError, ok, fail, Response, success, error, has_npub, is_owned,
}
use nostr_storage_orchestrat.Db.Entitlement.{
  ParsedEntitlementRequest, Parsed, parse_entitlement_request,
}
use nostr_storage_orchestrat.Db.Rows.{
  billed, IsExact, HasAccount, IsConsistent, All-update_where, UniqueRows-keep,
  HasAccount-update_where, update_user_cases, TxResult-cases,
}
use nostr_storage_orchestrat.Db.Users.Grant.{grant_entitlement-Grants, with_user}
use nostr_storage_orchestrat.Db.Users.{
  new_user, assign, grant_entitlement, settle_entitlement, apply_request, post_entitlement,
  zero_usage, clear_rows, settle_clear, delete_user_blobs,
}

pub any-append :
    (n : String) (us : List User) (u : User)
    → any (has_npub n) us ≡ true
    → any (has_npub n) (us ++ u ∷ []) ≡ true
any-append n [] u h = cc
any-append n (v ∷ us) u h = ground (arith, any-append n us u)

pub absent_of_none :
    (n : String) (us : List User) → find (has_npub n) us ≡ none → any (has_npub n) us ≡ false
absent_of_none n [] h = refl
absent_of_none n (v ∷ us) h = ground (arith, absent_of_none n us)

-- Who has no account is billed for nothing.
billed_of_stranger :
    (n : String) (us : List User) (bs : List Blob)
    → any (has_npub n) us ≡ false
    → All (HasAccount us) bs
    → billed n bs ≡ pos 0
billed_of_stranger n us [] h owned = refl
billed_of_stranger n us (b ∷ bs) h owned =
    ground (arith, owned.0, billed_of_stranger n us bs h owned.1, eq_iff b.npub n)

with_user-IsConsistent :
    (npub : String) (now : ℕ) (db : Db)
    → IsConsistent db
    → IsConsistent (record db { users = with_user npub now db.users })
with_user-IsConsistent npub now db c = elim (Option-cases (find (has_npub npub) db.users)) [
  | inr (u, e) ↦ rw (with_user, e) record { exact = c.exact; unique = c.unique; owned = c.owned }
  | inl e ↦
      rw (with_user, e)
        record {
          exact = All-append (IsExact db.blobs) db.users (new_user npub now) c.exact (
              sym (
                billed_of_stranger npub db.users db.blobs (absent_of_none npub db.users e)
                  c.owned));
          unique = c.unique;
          owned =
              All-mono (HasAccount db.users) (HasAccount (db.users ++ new_user npub now ∷ []))
                db.blobs (λ b h. any-append b.npub db.users (new_user npub now) h) c.owned;
        }
]

grant_entitlement-IsConsistent :
    (npub : String) (request : ParsedEntitlementRequest) (now : ℕ) (db db' : Db) (user : User)
    → grant_entitlement npub request now db ≡ ok user db'
    → IsConsistent db
    → IsConsistent db'
grant_entitlement-IsConsistent npub request now db db' user h c =
    let g = grant_entitlement-Grants npub request now db db' user h in
    let c1 = with_user-IsConsistent npub now db c in
    let us = with_user npub now db.users in
    rw g.state record {
      exact =
          All-update_where (IsExact db.blobs) (IsExact db.blobs) (has_npub npub) (assign g.effect)
            us (λ u e. ground arith) c1.exact;
      unique = c1.unique;
      owned =
          HasAccount-update_where (has_npub npub) (assign g.effect) us db.blobs (λ u. refl)
            c1.owned;
    }

-- Granting an entitlement keeps the tables consistent, whatever the request and its answer.
pub apply_request-IsConsistent :
    (npub : String) (request : ParsedEntitlementRequest) (now : ℕ) (db : Db)
    → IsConsistent db
    → IsConsistent ((apply_request npub request now db).1)
unfolding apply_request
apply_request-IsConsistent npub request now db c =
    elim (TxResult-cases (grant_entitlement npub request now db)) [
      | inl (x, e) ↦ rw (e, settle_entitlement) c
      | inr (user, db', e) ↦
          rw (e, settle_entitlement)
            (grant_entitlement-IsConsistent npub request now db db' user e c)
    ]

pub Parsed-cases :
    {A : Type 0} (m : Parsed A)
    → ((s : ℕ) × (x : String) × (m ≡ Parsed.throw s x)) ⊎ ((a : A) × (m ≡ Parsed.ok a))
Parsed-cases (Parsed.ok a) = inr (a, refl)
Parsed-cases (Parsed.throw s x) = inl (s, x, refl)

pub post_entitlement-IsConsistent :
    (js : Runtime) (npub : String) (body : Value) (now : ℕ) (db : Db)
    → IsConsistent db
    → IsConsistent ((post_entitlement js npub body now db).1)
unfolding post_entitlement
post_entitlement-IsConsistent js npub body now db c =
    elim (Parsed-cases (parse_entitlement_request js body)) [
      | inl (s, x, e) ↦ rw (post_entitlement, e) c
      | inr (request, e) ↦
          rw (post_entitlement, e) (apply_request-IsConsistent npub request now db c)
    ]

billed_of_cleared :
    (n npub : String) (bs : List Blob)
    → billed n (keep (λ b. not (is_owned npub b)) bs) ≡ (if n == npub then pos 0 else billed n bs)
billed_of_cleared n npub [] = ground arith
billed_of_cleared n npub (b ∷ bs) =
    ground (arith, billed_of_cleared n npub bs, eq_iff b.npub n, eq_iff b.npub npub, eq_iff n npub)

unfoldable pub cleared : String → Db → Db
cleared npub db = record db {
  blobs = keep (λ b. not (is_owned npub b)) db.blobs;
  users = update_where (has_npub npub) zero_usage db.users;
}

cleared-IsConsistent : (npub : String) (db : Db) → IsConsistent db → IsConsistent (cleared npub db)
unfolding cleared
cleared-IsConsistent npub db c =
    let kept = keep (λ b. not (is_owned npub b)) db.blobs in
    record {
      exact =
          All-update_where (IsExact kept) (IsExact db.blobs) (has_npub npub) zero_usage db.users
            (λ u e. ground (arith, billed_of_cleared u.npub npub db.blobs)) c.exact;
      unique = UniqueRows-keep _ db.blobs c.unique;
      owned =
          HasAccount-update_where (has_npub npub) zero_usage db.users kept (λ u. refl)
            (All-keep (HasAccount db.users) _ db.blobs c.owned);
    }

pub clear_rows_cases :
    (npub : String) (rows : List Blob) (db : Db)
    → ((x : TxError) × (clear_rows npub rows db ≡ fail x))
      ⊎ ((rows ≡ []) × (clear_rows npub rows db ≡ ok [] db))
      ⊎ (clear_rows npub rows db ≡ ok rows (cleared npub db))
unfolding clear_rows cleared
clear_rows_cases npub [] db = inr (inl (refl, refl))
clear_rows_cases npub (row ∷ rows) db =
    elim (update_user_cases npub zero_usage
      (record db { blobs = keep (λ b. not (is_owned npub b)) db.blobs })) [
        | inl (x, e) ↦ inl (x, rw (clear_rows, e) refl)
        | inr (u, _, e) ↦ inr (inr (rw (clear_rows, e) refl))
      ]

-- What a bulk delete did: it answered with the account's rows and removed them, or failed and changed nothing.
pub record Clears (npub : String) (db db' : Db) (answer : Response (List Blob)) : Type 0 where
  pub consistent : IsConsistent db'
  pub outcome :
      ((answer ≡ error 500 "internal_error") × (db' ≡ db))
      ⊎ ((answer ≡ success 200 (keep (is_owned npub) db.blobs))
          × (db'.blobs ≡ keep (λ b. not (is_owned npub b)) db.blobs))

keep_of_none :
    (npub : String) (bs : List Blob)
    → keep (is_owned npub) bs ≡ []
    → keep (λ b. not (is_owned npub b)) bs ≡ bs
keep_of_none npub [] h = refl
keep_of_none npub (b ∷ bs) h = ground (arith, keep_of_none npub bs)

-- A bulk delete in consistent tables leaves them consistent: it either answers with all rows of the account and removes
-- just those, or fails and changes nothing.
pub delete_user_blobs-Clears :
    (npub : String) (db : Db)
    → IsConsistent db
    → Clears npub db ((delete_user_blobs npub db).1) ((delete_user_blobs npub db).0)
unfolding delete_user_blobs cleared
delete_user_blobs-Clears npub db c =
    let rows = keep (is_owned npub) db.blobs in
    elim (clear_rows_cases npub rows db) [
      | inl (x, e) ↦ rw (e, settle_clear) record { consistent = c; outcome = inl (refl, refl) }
      | inr (inl (empty, e)) ↦
          rw (e, settle_clear)
            record {
              consistent = c;
              outcome = inr (ap (success 200) (sym empty), sym (keep_of_none npub db.blobs empty));
            }
      | inr (inr e) ↦
          rw (e, settle_clear)
            record { consistent = cleared-IsConsistent npub db c; outcome = inr (refl, refl) }
    ]
