-- ===== src/Db/Blobs/Rounds.antt =====
-- The loop of DELETE /blobs/:hash: one row after the other is deleted and its owner refunded.
use nostr_storage_orchestrat.Common.{
  ◌≡◌, ◌⊎◌, refl, sym, ◌∙◌, Bool, true, false, not, ◌&&◌, ◌||◌, some, List, [], ◌∷◌, String, All,
  All-of, any, find, keep, keep-keep, keep_congr, inl, inr, string_eq, eq_iff, arith,
}
use nostr_storage_orchestrat.Common.Int.{ℤ, ◌-ℤ◌}
use nostr_storage_orchestrat.Db.{Blob, Db, p2025, ok, fail, ◌>>=◌, is_row, delete_row}
use nostr_storage_orchestrat.Db.Rows.{update_user_cases, UniqueRows, IsConsistent}
use nostr_storage_orchestrat.Db.Blobs.Accounting.{without_row, without_row-IsConsistent}
use nostr_storage_orchestrat.Db.Blobs.{refund, remove_rows}

-- A row is what its key finds.
abbrev pub IsFound : List Blob → Blob → Type 0
IsFound bs row = find (is_row row.hash row.npub) bs ≡ some row

abbrev pub same_row : Blob → Blob → Bool
same_row r b = is_row r.hash r.npub b

abbrev without_bytes : Blob → Db → Db
without_bytes row db = record db { blobs = keep (λ b. not (is_row row.hash row.npub b)) db.blobs }

delete_row_cases :
    (hash npub : String) (db : Db)
    → (delete_row hash npub db ≡ fail p2025)
      ⊎ (delete_row hash npub db
          ≡ ok tt (record db { blobs = keep (λ b. not (is_row hash npub b)) db.blobs }))
unfolding delete_row
delete_row_cases hash npub db = ground arith

-- One round of the loop.
pub remove_one :
    (last : ℤ) (row : Blob) (rows : List Blob) (db db' : Db) (used : ℤ)
    → remove_rows last (row ∷ rows) db ≡ ok used db'
    → (next : ℤ) × (remove_rows next rows (without_row row db) ≡ ok used db')
unfolding remove_rows
remove_one last row rows db db' used h = elim (delete_row_cases row.hash row.npub db) [
  | inl e ↦ let h' = rw (e, ◌>>=◌) at h in cc
  | inr e ↦ elim (update_user_cases row.npub (refund row.size) (without_bytes row db)) [
    | inl (x, e') ↦ let h' = rw (e, ◌>>=◌, e') at h in cc
    | inr (u, _, e') ↦ (u.used_storage -ℤ row.size, rw (e, ◌>>=◌, e') at h)
  ]
]

find-keep :
    (p q : Blob → Bool) (bs : List Blob)
    → ((b : Blob) → q b ≡ true → p b ≡ true)
    → find q (keep p bs) ≡ find q bs
find-keep p q [] h = refl
find-keep p q (b ∷ bs) h = ground (arith, h b, find-keep p q bs h)

-- Two keys that differ find their rows apart from each other.
apart :
    (row r b : Blob)
    → is_row row.hash row.npub r ≡ false
    → is_row r.hash r.npub b ≡ true
    → not (is_row row.hash row.npub b) ≡ true
apart row r b h e = ground (
  arith,
  eq_iff b.hash r.hash,
  eq_iff b.npub r.npub,
  eq_iff b.hash row.hash,
  eq_iff b.npub row.npub,
  eq_iff r.hash row.hash,
  eq_iff r.npub row.npub,
)

still-IsFound :
    (row : Blob) (bs rows : List Blob)
    → any (is_row row.hash row.npub) rows ≡ false
    → All (IsFound bs) rows
    → All (IsFound (keep (λ b. not (is_row row.hash row.npub b)) bs)) rows
still-IsFound row bs [] h f = tt
still-IsFound row bs (r ∷ rows) h f = (
  find-keep _ (is_row r.hash r.npub) bs (λ b. apart row r b (ground arith)) ∙ f.0,
  still-IsFound row bs rows (ground arith) f.1,
)

keep_all : (bs : List Blob) → keep (λ b. true) bs ≡ bs
keep_all [] = refl
keep_all (b ∷ bs) = ground (arith, keep_all bs)

not-or : (a b : Bool) → (not a && not b) ≡ not (a || b)
not-or a b = ground arith

abbrev pub Removes : Db → List Blob → Db → Type 0
Removes db rows db' =
    IsConsistent db' × (db'.blobs ≡ keep (λ b. not (any (λ r. same_row r b) rows)) db.blobs)

pub remove_rows-Removes :
    (last : ℤ) (rows : List Blob) (db db' : Db) (used : ℤ)
    → IsConsistent db
    → UniqueRows rows
    → All (IsFound db.blobs) rows
    → remove_rows last rows db ≡ ok used db'
    → Removes db rows db'
unfolding remove_rows
remove_rows-Removes last [] db db' used c unique found h =
    let same : db ≡ db' = ground arith in rw (← same) (c, sym (keep_all db.blobs))
remove_rows-Removes last (row ∷ rows) db db' used c unique found h =
    let (next, h') = remove_one last row rows db db' used h in
    let (c', e) =
      remove_rows-Removes next rows (without_row row db) db' used
        (without_row-IsConsistent row db found.0 c) unique.1
        (still-IsFound row db.blobs rows unique.0 found.1) h' in
    (
      c',
      e
          ∙ keep-keep _ _ db.blobs
          ∙ keep_congr _ _ db.blobs (
              All-of _ db.blobs
                (λ b. not-or (is_row row.hash row.npub b) (any (λ r. same_row r b) rows))),
    )
