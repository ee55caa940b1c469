-- ===== src/Db/Rows.antt =====
-- The rows of the tables: what an owner is billed, and what the queries do to that.
use nostr_storage_orchestrat.Common.{
  ◌⊎◌, Option-cases, ◌≡◌, refl, ◌∙◌, Bool, true, false, not, ◌||◌, List, [], ◌∷◌, ◌++◌, String,
  some, All, All-mono, any, keep, find, update_where, ◌==◌, string_eq, eq_iff, Bool-cases, inl, inr,
  if◌then◌else◌, arith,
}
use nostr_storage_orchestrat.Common.Int.{
  ℤ, pos, ◌+ℤ◌, ◌-ℤ◌, +ℤ_assoc, +ℤ_comm, +ℤ-sub_assoc, +ℤ-sub_cancel,
}
use nostr_storage_orchestrat.Db.{
  User, Blob, Db, TxError, TxResult, ok, fail, p2025, db_error, update_user, is_storable, has_npub,
  is_row,
}

-- The bytes of an owner's rows.
abbrev pub billed : String → List Blob → ℤ
billed npub [] = pos 0
billed npub (b ∷ bs) = let rest = billed npub bs in if b.npub == npub then b.size +ℤ rest else rest

-- No two rows have one key.
abbrev pub UniqueRows : List Blob → Type 0
UniqueRows [] = Unit
UniqueRows (b ∷ bs) = (any (is_row b.hash b.npub) bs ≡ false) × UniqueRows bs

-- An account's `usedStorage` is what its rows add up to.
abbrev pub IsExact : List Blob → User → Type 0
IsExact bs u = u.used_storage ≡ billed u.npub bs

abbrev pub HasAccount : List User → Blob → Type 0
HasAccount us b = any (has_npub b.npub) us ≡ true

-- The tables agree: every account's `usedStorage` is the sum of its rows, rows have distinct keys,
-- and each row belongs to an account.
pub record IsConsistent (db : Db) : Type 0 where
  pub exact : All (IsExact db.blobs) db.users
  pub unique : UniqueRows db.blobs
  pub owned : All (HasAccount db.users) db.blobs

pub All-update_where :
    (P Q : User → Type 0) (p : User → Bool) (f : User → User) (us : List User)
    → ((u : User) → Q u → P (if p u then f u else u))
    → All Q us
    → All P (update_where p f us)
All-update_where P Q p f [] step h = tt
All-update_where P Q p f (u ∷ us) step h = (step u h.0, All-update_where P Q p f us step h.1)

-- Users keep their keys when only other fields change.
pub any-update_where :
    (n : String) (p : User → Bool) (f : User → User) (us : List User)
    → ((u : User) → (f u).npub ≡ u.npub)
    → any (has_npub n) (update_where p f us) ≡ any (has_npub n) us
any-update_where n p f [] h = refl
any-update_where n p f (u ∷ us) h = ground (arith, h u, any-update_where n p f us h)

pub billed-append :
    (n : String) (bs : List Blob) (b : Blob)
    → billed n (bs ++ b ∷ []) ≡ (if b.npub == n then billed n bs +ℤ b.size else billed n bs)
billed-append n [] b = ground (arith, +ℤ_comm b.size (pos 0))
billed-append n (c ∷ bs) b =
    ground (arith, billed-append n bs b, +ℤ_assoc c.size (billed n bs) b.size)

any-append :
    (p : Blob → Bool) (bs : List Blob) (b : Blob) → any p (bs ++ b ∷ []) ≡ (any p bs || p b)
any-append p [] b = ground arith
any-append p (c ∷ bs) b = ground (arith, any-append p bs b)

pub UniqueRows-append :
    (bs : List Blob) (b : Blob)
    → UniqueRows bs
    → any (is_row b.hash b.npub) bs ≡ false
    → UniqueRows (bs ++ b ∷ [])
UniqueRows-append [] b h fresh = (refl, tt)
UniqueRows-append (c ∷ bs) b h fresh = ground (
  arith,
  any-append (is_row c.hash c.npub) bs b,
  UniqueRows-append bs b h.1,
  eq_iff c.hash b.hash,
  eq_iff b.hash c.hash,
  eq_iff c.npub b.npub,
  eq_iff b.npub c.npub,
)

keep_of_absent :
    (p : Blob → Bool) (bs : List Blob) → any p bs ≡ false → keep (λ b. not (p b)) bs ≡ bs
keep_of_absent p [] h = refl
keep_of_absent p (b ∷ bs) h = ground (arith, keep_of_absent p bs)

-- Taking out the one row of a key takes its bytes off the owner's bill, and off no other.
pub billed-keep :
    (n hash npub : String) (bs : List Blob) (row : Blob)
    → UniqueRows bs
    → find (is_row hash npub) bs ≡ some row
    → billed n (keep (λ b. not (is_row hash npub b)) bs)
      ≡ (if npub == n then billed n bs -ℤ row.size else billed n bs)
billed-keep n hash npub [] row h e = cc
billed-keep n hash npub (b ∷ bs) row h e = elim (Bool-cases (is_row hash npub b)) [
  | inl hit ↦
      let same_hash : b.hash ≡ hash = ground (arith, eq_iff b.hash hash) in
      let same_npub : b.npub ≡ npub = ground (arith, eq_iff b.npub npub) in
      let absent : any (is_row hash npub) bs ≡ false = rw (← same_hash, ← same_npub) h.0 in
      ground
        (arith, keep_of_absent (is_row hash npub) bs absent, +ℤ-sub_cancel row.size (billed n bs))
  | inr miss ↦
      ground (arith, billed-keep n hash npub bs row h.1, +ℤ-sub_assoc b.size (billed n bs) row.size)
]

any-keep : (q p : Blob → Bool) (bs : List Blob) → any q bs ≡ false → any q (keep p bs) ≡ false
any-keep q p [] h = refl
any-keep q p (b ∷ bs) h = ground (arith, any-keep q p bs)

pub UniqueRows-keep : (p : Blob → Bool) (bs : List Blob) → UniqueRows bs → UniqueRows (keep p bs)
UniqueRows-keep p [] h = tt
UniqueRows-keep p (b ∷ bs) h =
    ground (arith, UniqueRows-keep p bs h.1, any-keep (is_row b.hash b.npub) p bs)

pub HasAccount-update_where :
    (p : User → Bool) (f : User → User) (us : List User) (bs : List Blob)
    → ((u : User) → (f u).npub ≡ u.npub)
    → All (HasAccount us) bs
    → All (HasAccount (update_where p f us)) bs
HasAccount-update_where p f us bs h =
    All-mono (HasAccount us) (HasAccount (update_where p f us)) bs
      (λ b e. any-update_where b.npub p f us h ∙ e)

-- `update_user` fails, or changes the row that it returns.
pub update_user_cases :
    (npub : String) (f : User → User) (db : Db)
    → ((x : TxError) × (update_user npub f db ≡ fail x))
      ⊎ ((u : User) × (find (has_npub npub) db.users ≡ some u)
          × (update_user npub f db
              ≡ ok (f u) (record db { users = update_where (has_npub npub) f db.users })))
unfolding update_user
update_user_cases npub f db = elim (Option-cases (find (has_npub npub) db.users)) [
  | inl e ↦ inl (p2025, ground arith)
  | inr (u, e) ↦ elim (Bool-cases (is_storable (f u))) [
    | inl good ↦ inr (u, e, ground arith)
    | inr bad ↦ inl (db_error, ground arith)
  ]
]

pub TxResult-cases :
    {A : Type 0} (r : TxResult A)
    → ((x : TxError) × (r ≡ fail x)) ⊎ ((a : A) × (db : Db) × (r ≡ ok a db))
TxResult-cases (fail x) = inl (x, refl)
TxResult-cases (ok a db) = inr (a, db, refl)
