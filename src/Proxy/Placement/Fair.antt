-- ===== src/Proxy/Placement/Fair.antt =====
-- What an upload's placement does not depend on, and that it always chooses one of the candidates.
use nostr_storage_orchestrat.Common.{
  ℕ, zero, suc, ◌%◌, ◌^◌, ◌<◌, ◌≡◌, refl, ◌∙◌, ◌≢◌, ◌⊎◌, inl, inr, some, List, [], ◌∷◌, String,
  length, arith, Bool-cases, ap, sym,
}
use nostr_storage_orchestrat.Common.Order.{less, less_trans, less_asym, less_total}
use nostr_storage_orchestrat.Proxy.Placement.{
  ServerCandidate, insert_by_id, sort_by_id, get_elem?, placement, select_owner, fnv1a_from,
}

-- The fold stays below 2 ^ 64.
pub fnv1a_from-lt : (bytes : List ℕ) (hash : ℕ) → hash < 2 ^ 64 → fnv1a_from hash bytes < 2 ^ 64
unfolding fnv1a_from
fnv1a_from-lt [] hash h = h
fnv1a_from-lt (byte ∷ bytes) hash h = fnv1a_from-lt bytes _ (omega arith)

-- One roster polled in another order.
pub data Reorder : List ServerCandidate → List ServerCandidate → Type 0 where
  same : {cs : List ServerCandidate} → Reorder cs cs
  cons :
      (c : ServerCandidate) {cs ds : List ServerCandidate}
      → Reorder cs ds
      → Reorder (c ∷ cs) (c ∷ ds)
  swap :
      {c d : ServerCandidate} {cs : List ServerCandidate}
      → c.id ≢ d.id
      → Reorder (c ∷ d ∷ cs) (d ∷ c ∷ cs)
  trans : {cs ds es : List ServerCandidate} → Reorder cs ds → Reorder ds es → Reorder cs es

insert_comm :
    (c d : ServerCandidate) (es : List ServerCandidate)
    → c.id ≢ d.id
    → insert_by_id c (insert_by_id d es) ≡ insert_by_id d (insert_by_id c es)
insert_comm c d [] h = ground (arith, less_asym c.id d.id, less_total c.id d.id)
insert_comm c d (e ∷ es) h = ground (
  arith,
  less_asym c.id d.id,
  less_total c.id d.id,
  less_trans e.id c.id d.id,
  less_trans e.id d.id c.id,
  less_trans c.id e.id d.id,
  less_trans d.id e.id c.id,
  less_total e.id c.id,
  less_total e.id d.id,
  less_asym e.id c.id,
  less_asym e.id d.id,
  less_asym c.id e.id,
  less_asym d.id e.id,
  insert_comm c d es h,
)

sort-Reorder : {cs ds : List ServerCandidate} → Reorder cs ds → sort_by_id cs ≡ sort_by_id ds
sort-Reorder same = refl
sort-Reorder (cons c r) = ap (insert_by_id c) (sort-Reorder r)
sort-Reorder (swap {c} {d} {cs} h) = insert_comm c d (sort_by_id cs) h
sort-Reorder (trans r s) = sort-Reorder r ∙ sort-Reorder s

select_sorted :
    (npub : String) (cs : List ServerCandidate) (now : ℕ)
    → select_owner npub cs now
      ≡ get_elem? (sort_by_id cs) (placement npub now % length (sort_by_id cs))
unfolding select_owner
select_sorted npub [] now = refl
select_sorted npub (c ∷ cs) now = refl

-- The choice does not depend on the order in which candidates of different ids were polled.
pub select_owner-Reorder :
    (npub : String) (now : ℕ) (cs ds : List ServerCandidate)
    → Reorder cs ds
    → select_owner npub cs now ≡ select_owner npub ds now
select_owner-Reorder npub now cs ds r =
    select_sorted npub cs now
    ∙ ap (λ es. get_elem? es (placement npub now % length es)) (sort-Reorder r)
    ∙ sym (select_sorted npub ds now)

abbrev pub In : ServerCandidate → List ServerCandidate → Type 0
In c [] = ⊥
In c (d ∷ ds) = (c ≡ d) ⊎ In c ds

In-get :
    (cs : List ServerCandidate) (i : ℕ)
    → i < length cs
    → (c : ServerCandidate) × (get_elem? cs i ≡ some c) × In c cs
In-get [] i h = absurd (omega arith)
In-get (c ∷ cs) zero h = (c, refl, inl refl)
In-get (c ∷ cs) (suc i) h = let (d, e, m) = In-get cs i (omega arith) in (d, e, inr m)

In-insert :
    (c d : ServerCandidate) (cs : List ServerCandidate)
    → In c (insert_by_id d cs)
    → (c ≡ d) ⊎ In c cs
In-insert c d [] m = m
In-insert c d (e ∷ cs) m = elim (Bool-cases (less e.id d.id)) [
  | inl b ↦ elim (rw b at m) [
    | inl p ↦ inr (inl p)
    | inr m' ↦ elim (In-insert c d cs m') [ inl p ↦ inl p | inr n ↦ inr (inr n) ]
  ]
  | inr b ↦ rw b at m
]

In-sort : (c : ServerCandidate) (cs : List ServerCandidate) → In c (sort_by_id cs) → In c cs
In-sort c [] m = m
In-sort c (d ∷ cs) m = elim (In-insert c d (sort_by_id cs) m) [
  | inl p ↦ inl p
  | inr n ↦ inr (In-sort c cs n)
]

length-insert :
    (c : ServerCandidate) (cs : List ServerCandidate) → length (insert_by_id c cs) ≡ suc (length cs)
length-insert c [] = refl
length-insert c (d ∷ cs) = ground (arith, length-insert c cs)

-- Some candidate is chosen wherever there is one.
pub select_owner-In :
    (npub : String) (now : ℕ) (cs : List ServerCandidate)
    → 0 < length cs
    → (c : ServerCandidate) × (select_owner npub cs now ≡ some c) × In c cs
select_owner-In npub now [] h = absurd (omega arith)
select_owner-In npub now (c ∷ cs) h =
    let full : 0 < length (sort_by_id (c ∷ cs)) = omega (arith, length-insert c (sort_by_id cs)) in
    let (d, e, m) = In-get (sort_by_id (c ∷ cs)) _ (omega arith) in
    (d, select_sorted npub (c ∷ cs) now ∙ e, In-sort d (c ∷ cs) m)
