-- ===== src/Db/Blobs/Removal.antt =====
-- DELETE /blobs/:hash: which rows go, who gets bytes back, and that the tables stay consistent.
use text.Mathlib.TextPositions.{eq_refl}
use nostr_storage_orchestrat.Common.{
  ℕ, ◌≡◌, ap, ◌∙◌, true, false, not, Option, List, [], ◌∷◌, String, All, All-mono, All-keep, any,
  keep, count, keep_congr, any-keep_self, Option-cases, inl, inr, string_eq, eq_iff, arith,
}
use nostr_storage_orchestrat.Common.Int.{ℤ, pos}
use nostr_storage_orchestrat.Db.{Blob, Db, ok, success, ◌>>=◌, is_row, has_hash}
use nostr_storage_orchestrat.Db.Rows.{TxResult-cases, UniqueRows, UniqueRows-keep, IsConsistent}
use nostr_storage_orchestrat.Db.Blobs.Rounds.{IsFound, same_row, remove_rows-Removes}
use nostr_storage_orchestrat.Db.Blobs.{
  remove_rows, remove_owners, settle_delete, delete_error, Scope, everyone, owner, in_scope,
  delete_in_scope, scope_of, delete_blobs,
}

IsFound-tail :
    (b : Blob) (bs rs : List Blob)
    → any (is_row b.hash b.npub) rs ≡ false
    → All (IsFound bs) rs
    → All (IsFound (b ∷ bs)) rs
IsFound-tail b bs [] h f = tt
IsFound-tail b bs (r ∷ rs) h f = (
  ground (
    arith,
    f.0,
    eq_iff b.hash r.hash,
    eq_iff r.hash b.hash,
    eq_iff b.npub r.npub,
    eq_iff r.npub b.npub,
  ),
  IsFound-tail b bs rs (ground arith) f.1,
)

-- Each row of a table is what its key finds.
rows-IsFound : (bs : List Blob) → UniqueRows bs → All (IsFound bs) bs
rows-IsFound [] h = tt
rows-IsFound (b ∷ bs) h =
    (ground (arith, eq_refl b.hash, eq_refl b.npub), IsFound-tail b bs bs h.0 (rows-IsFound bs h.1))

-- A scope respects keys.
scope_respects :
    (hash : String) (scope : Scope) (r b : Blob)
    → same_row r b ≡ true
    → in_scope hash scope r ≡ in_scope hash scope b
scope_respects hash everyone r b h =
    let e : b.hash ≡ r.hash = ground (arith, eq_iff b.hash r.hash) in rw e
scope_respects hash (owner npub) r b h =
    let e : b.hash ≡ r.hash = ground (arith, eq_iff b.hash r.hash) in
    let e' : b.npub ≡ r.npub = ground (arith, eq_iff b.npub r.npub) in rw (e, e')

-- What a successful removal leaves.
abbrev pub Deletes : String → Scope → Db → Db → ℕ → Type 0
Deletes hash scope db db' remaining =
    IsConsistent db'
    × (db'.blobs ≡ keep (λ b. not (in_scope hash scope b)) db.blobs)
    × (remaining ≡ count (has_hash hash) db'.blobs)

pub remove_owners-ok :
    (hash : String) (rows : List Blob) (db db' : Db) (used : ℤ) (remaining : ℕ)
    → remove_owners hash rows db ≡ ok (used, remaining) db'
    → (remove_rows (pos 0) rows db ≡ ok used db') × (remaining ≡ count (has_hash hash) db'.blobs)
unfolding remove_owners
remove_owners-ok hash [] db db' used remaining h = cc
remove_owners-ok hash (row ∷ rows) db db' used remaining h =
    elim (TxResult-cases (remove_rows (pos 0) (row ∷ rows) db)) [
      | inl (x, e) ↦ let h' = rw (e, ◌>>=◌) at h in cc
      | inr (last, after, e) ↦
          let h' = rw (e, ◌>>=◌) at h in
          let same : after ≡ db' = ground arith in
          let same_last : last ≡ used = ground arith in (rw (e, same, same_last), ground arith)
    ]

remove_owners-Deletes :
    (hash : String) (scope : Scope) (db db' : Db) (used : ℤ) (remaining : ℕ)
    → IsConsistent db
    → remove_owners hash (keep (in_scope hash scope) db.blobs) db ≡ ok (used, remaining) db'
    → Deletes hash scope db db' remaining
remove_owners-Deletes hash scope db db' used remaining c h =
    let (removed, counted) = remove_owners-ok hash _ db db' used remaining h in
    let rows = keep (in_scope hash scope) db.blobs in
    let (c', e) =
      remove_rows-Removes (pos 0) rows db db' used c (UniqueRows-keep _ db.blobs c.unique)
        (All-keep (IsFound db.blobs) (in_scope hash scope) db.blobs
          (rows-IsFound db.blobs c.unique))
        removed in
    (
      c',
      e
          ∙ keep_congr _ _ db.blobs (
              All-mono (λ b. any (λ r. same_row r b) rows ≡ in_scope hash scope b)
                (λ b. not (any (λ r. same_row r b) rows) ≡ not (in_scope hash scope b)) db.blobs
                (λ b. ap not)
                (any-keep_self (in_scope hash scope) same_row db.blobs
                  (λ b. ground (arith, eq_refl b.hash, eq_refl b.npub))
                  (scope_respects hash scope))),
      counted,
    )

-- In consistent tables a successful DELETE removes exactly the rows in its scope, answers how many
-- owners of the hash remain, and leaves the tables consistent: each owner has the bytes of the
-- removed row back.
pub delete_in_scope-Deletes :
    (hash : String) (scope : Scope) (db : Db) (used : ℤ) (remaining : ℕ)
    → IsConsistent db
    → (delete_in_scope hash scope db).0 ≡ success 200 (used, remaining)
    → Deletes hash scope db (delete_in_scope hash scope db).1 remaining
unfolding delete_in_scope settle_delete delete_error
delete_in_scope-Deletes hash scope db used remaining c h =
    elim (TxResult-cases (remove_owners hash (keep (in_scope hash scope) db.blobs) db)) [
      | inl (x, e) ↦ ground arith
      | inr ((last, n), after, e) ↦
          let same : (last ≡ used) × (n ≡ remaining) = ground arith in
          let removed : remove_owners hash (keep (in_scope hash scope) db.blobs) db
              ≡ ok (used, remaining) after =
            rw (e, same.0, same.1) in
          rw (e, settle_delete) (remove_owners-Deletes hash scope db after used remaining c removed)
    ]

delete_in_scope-IsConsistent :
    (hash : String) (scope : Scope) (db : Db)
    → IsConsistent db
    → IsConsistent (delete_in_scope hash scope db).1
unfolding delete_in_scope settle_delete
delete_in_scope-IsConsistent hash scope db c =
    elim (TxResult-cases (remove_owners hash (keep (in_scope hash scope) db.blobs) db)) [
      | inl (x, e) ↦ rw (e, settle_delete) c
      | inr ((used, n), after, e) ↦
          rw (e, settle_delete) (remove_owners-Deletes hash scope db after used n c e).0
    ]

-- DELETE /blobs/:hash keeps the tables consistent, whatever it answers.
pub delete_blobs-IsConsistent :
    (hash : String) (npub all : Option String) (db : Db)
    → IsConsistent db
    → IsConsistent (delete_blobs hash npub all db).1
unfolding delete_blobs
delete_blobs-IsConsistent hash npub all db c = elim (Option-cases (scope_of npub all)) [
  | inl e ↦ rw (e, delete_blobs) c
  | inr (scope, e) ↦ rw (e, delete_blobs) (delete_in_scope-IsConsistent hash scope db c)
]
