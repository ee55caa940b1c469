-- ===== src/Db/Pagination.antt =====
-- packages/db/src/pagination.ts, and the page of an account's blobs in packages/db/src/routes/users.ts.
use Prim.Native.String.{◌∷◌ as prepend, [] as empty_text}
use Prim.Native.Char.{code}
use nostr_storage_orchestrat.Common.{
  ℕ, zero, suc, ◌+◌, ◌-◌, ◌*◌, ◌≤◌, ◌≡◌, refl, ap, min, max, Bool, ◌&&◌, Option, none, some, List,
  [], ◌∷◌, ◌++◌, String, keep, count, Bool-cases, leb, length, if◌then◌else◌, arith, Option-cases,
  inl, inr,
}
use nostr_storage_orchestrat.Common.Js.{Value, str}
use nostr_storage_orchestrat.Db.{Blob, Db, is_owned}

pub record Pagination : Type 0 where
  pub page : ℕ
  pub page_size : ℕ
  pub skip : ℕ
  pub taken : ℕ

abbrev is_digit : ℕ → Bool
is_digit c = leb 48 c && leb c 57

-- The digits that follow a number's first ones.
parse_from : ℕ → String → Option ℕ
parse_from n empty_text = some n
parse_from n (prepend c s) =
    let rest = parse_from (n * 10 + (code c - 48)) s in if is_digit (code c) then rest else none

-- `/^\d+$/.test(text)` and `parseInt(text, 10)`, which is exact below 2 ^ 53
unfoldable pub parse_digits : String → Option ℕ
unfolding parse_from
parse_digits empty_text = none
parse_digits (prepend c s) = parse_from 0 (prepend c s)

abbrev digits_of : Value → Option ℕ
digits_of (str s) = parse_digits s
digits_of _ = none

abbrev pub paging : ℕ → ℕ → Pagination
paging page page_size = record {
  page = page;
  page_size = page_size;
  skip = (page - 1) * page_size;
  taken = page_size;
}

-- `parsePagination` of the query's `page` and `pageSize`
unfoldable pub parse_pagination : Value → Value → Pagination
unfolding parse_digits
parse_pagination raw_page raw_page_size =
    paging (elim (digits_of raw_page) [ none ↦ 1 | some n ↦ max 1 n ])
      (elim (digits_of raw_page_size) [ none ↦ 25 | some n ↦ min 100 (max 1 n) ])

abbrev pub drop {ℓ} : {A : Type ℓ} → ℕ → List A → List A
drop zero xs = xs
drop (suc n) [] = []
drop (suc n) (x ∷ xs) = drop n xs

abbrev pub take {ℓ} : {A : Type ℓ} → ℕ → List A → List A
take zero xs = []
take (suc n) [] = []
take (suc n) (x ∷ xs) = x ∷ take n xs

-- `skip` and `take` of a query
abbrev pub page_of {ℓ} : {A : Type ℓ} → Pagination → List A → List A
page_of p rows = take p.taken (drop p.skip rows)

-- `ORDER BY created_at DESC`; of rows of one time the later inserted comes first
insert_newest : Blob → List Blob → List Blob
insert_newest b [] = b ∷ []
insert_newest b (c ∷ cs) =
    let rest = insert_newest b cs in if leb b.created_at c.created_at then c ∷ rest else b ∷ c ∷ cs

unfoldable pub sort_newest : List Blob → List Blob
unfolding insert_newest
sort_newest [] = []
sort_newest (b ∷ bs) = insert_newest b (sort_newest bs)

-- GET /users/:npub/blobs, as its items
unfoldable pub user_blobs : String → Pagination → Db → List Blob
unfolding sort_newest
user_blobs npub p db = page_of p (sort_newest (keep (is_owned npub) db.blobs))

-- The first pages of a size, one after the other.
abbrev pub pages {ℓ} : {A : Type ℓ} → ℕ → ℕ → List A → List A
pages zero page_size rows = []
pages (suc n) page_size rows = pages n page_size rows ++ page_of (paging (suc n) page_size) rows

take_nil {ℓ} : {A : Type ℓ} (n : ℕ) → take {A = A} n [] ≡ []
take_nil zero = refl
take_nil (suc n) = refl

take-drop {ℓ} :
    {A : Type ℓ} (m n : ℕ) (xs : List A) → take m xs ++ take n (drop m xs) ≡ take (m + n) xs
take-drop zero n xs = ground arith
take-drop (suc m) n [] = rw (take_nil n, take_nil (suc m + n)) refl
take-drop (suc m) n (x ∷ xs) =
    let step : suc m + n ≡ suc (m + n) = omega arith in
    rw step (ap (λ ys. x ∷ ys) (take-drop m n xs))

take_all {ℓ} : {A : Type ℓ} (n : ℕ) (xs : List A) → length xs ≤ n → take n xs ≡ xs
take_all zero [] h = refl
take_all zero (x ∷ xs) h = absurd (omega (arith, h))
take_all (suc n) [] h = refl
take_all (suc n) (x ∷ xs) h = ground (arith, take_all n xs (omega (arith, h)))

pages-take {ℓ} :
    {A : Type ℓ} (n page_size : ℕ) (xs : List A) → pages n page_size xs ≡ take (n * page_size) xs
pages-take zero page_size xs = ground arith
pages-take (suc n) page_size xs =
    let skipped : (suc n - 1) * page_size ≡ n * page_size = ground arith in
    let total : suc n * page_size ≡ n * page_size + page_size = ground arith in
    rw (pages-take n page_size xs, skipped, total) (take-drop (n * page_size) page_size xs)

-- Paging shows every row once and in order: the first pages of a size that is not 0, one after the
-- other, are all rows, as soon as they have room for them.
pub pages_cover {ℓ} :
    {A : Type ℓ} (n page_size : ℕ) (rows : List A)
    → length rows ≤ n * page_size
    → pages n page_size rows ≡ rows
pages_cover n page_size rows h = rw (pages-take n page_size rows) (take_all _ rows h)

-- A page's bounds: its number is at least 1, it takes 1 to 100 rows, and it skips the pages before it.
abbrev pub IsBounded : Pagination → Type 0
IsBounded p = (1 ≤ p.page) × (1 ≤ p.taken) × (p.taken ≤ 100) × (p.skip + p.taken ≡ p.page * p.taken)

skip_lem : (page size : ℕ) → 1 ≤ page → (page - 1) * size + size ≡ page * size
skip_lem zero size h = absurd (omega (arith, h))
skip_lem (suc page) size h = ground arith

-- Whatever the query says, a page has a number of at least 1, between 1 and 100 rows, and skips
-- exactly the rows of the pages before it.
pub parse_pagination-IsBounded :
    (raw_page raw_page_size : Value) → IsBounded (parse_pagination raw_page raw_page_size)
unfolding parse_pagination
parse_pagination-IsBounded raw_page raw_page_size = elim (Option-cases (digits_of raw_page)) [
  | inl e ↦ elim (Option-cases (digits_of raw_page_size)) [
    | inl f ↦ rw (e, f) (omega arith, omega arith, omega arith, omega arith)
    | inr (n, f) ↦ rw (e, f) (omega arith, omega arith, omega arith, omega arith)
  ]
  | inr (m, e) ↦ elim (Option-cases (digits_of raw_page_size)) [
    | inl f ↦ rw (e, f) (omega arith, omega arith, omega arith, skip_lem (max 1 m) 25 (omega arith))
    | inr (n, f) ↦
        rw (e, f)
          (
            omega arith,
            omega arith,
            omega arith,
            skip_lem (max 1 m) (min 100 (max 1 n)) (omega arith),
          )
  ]
]

insert_not_empty : (b : Blob) (bs : List Blob) → insert_newest b bs ≡ [] → ⊥
unfolding insert_newest
insert_not_empty b [] h = cc
insert_not_empty b (c ∷ cs) h = ground arith

take_one_empty : (n : ℕ) (bs : List Blob) → take (suc n) bs ≡ [] → bs ≡ []
take_one_empty n [] h = refl
take_one_empty n (b ∷ bs) h = cc

sort_keep_empty :
    (npub : String) (bs : List Blob)
    → sort_newest (keep (is_owned npub) bs) ≡ []
    → count (is_owned npub) bs ≡ 0
unfolding sort_newest
sort_keep_empty npub [] h = refl
sort_keep_empty npub (b ∷ bs) h = elim (Bool-cases (is_owned npub b)) [
  | inl e ↦ absurd (insert_not_empty b (sort_newest (keep (is_owned npub) bs)) (rw e at h))
  | inr e ↦ rw e (sort_keep_empty npub bs (rw e at h))
]

-- An empty first page means that the account has no row.
pub user_blobs_empty :
    (npub : String) (db : Db)
    → user_blobs npub (paging 1 100) db ≡ []
    → count (is_owned npub) db.blobs ≡ 0
unfolding user_blobs
user_blobs_empty npub db h =
    sort_keep_empty npub db.blobs
      (take_one_empty 99 (sort_newest (keep (is_owned npub) db.blobs)) h)
