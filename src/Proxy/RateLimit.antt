-- ===== src/Proxy/RateLimit.antt =====
-- proxy/blossom/src/rate-limit.ts: the fixed-window rate limiter. Its map is an association list in the order of
-- insertion; `set` on a key that is there keeps the key's place.
use nostr_storage_orchestrat.Common.{
  ℕ, suc, ◌+◌, ◌≤◌, ◌<◌, ◌-◌, min, max, ◌≢◌, Option-cases, Bool-cases, inl, inr, ◌≡◌, refl, Bool,
  true, not, ◌&&◌, Option, none, some, List, [], ◌∷◌, String, length, keep, if◌then◌else◌, leb, ltb,
  ◌==◌, string_eq, arith, eq_iff,
}
use text.Mathlib.TextPositions.{eq_refl}

pub record Bucket : Type 0 where
  pub count : ℕ
  pub reset_at : ℕ

pub record Options : Type 0 where
  pub window_ms : ℕ
  pub max : ℕ

abbrev pub Buckets : Type 0
Buckets = List (String × Bucket)

abbrev pub lookup : String → Buckets → Option Bucket
lookup key [] = none
lookup key ((k, b) ∷ rest) = if k == key then some b else lookup key rest

abbrev pub set : String → Bucket → Buckets → Buckets
set key b [] = (key, b) ∷ []
set key b ((k, c) ∷ rest) = if k == key then (k, b) ∷ rest else (k, c) ∷ set key b rest

-- The sweep over more than 10,000 buckets.
abbrev sweep : ℕ → Buckets → Buckets
sweep now bs = if ltb 10000 (length bs) then keep (λ e. not (leb (e.1).reset_at now)) bs else bs

abbrev fresh : Options → ℕ → Bucket
fresh options now = record { count = 1; reset_at = now + options.window_ms }

-- `hit(key)` at the time `now`
unfoldable pub hit : Options → String → ℕ → Buckets → Bool × Buckets
hit options key now buckets = elim (lookup key buckets) [
  | none ↦ (true, sweep now (set key (fresh options now) buckets))
  | some b ↦
      if leb b.reset_at now then (true, sweep now (set key (fresh options now) buckets)) else (
        leb (suc b.count) options.max,
        set key record { count = suc b.count; reset_at = b.reset_at } buckets,
      )
]

-- How many of the requests, each a key and a time, are let through for one key.
unfoldable pub admitted : Options → String → List (String × ℕ) → Buckets → ℕ
admitted options key [] buckets = 0
admitted options key ((k, now) ∷ rest) buckets =
    let (accepted, buckets') = hit options k now buckets in
    let n = admitted options key rest buckets' in if accepted && k == key then suc n else n

lookup-set :
    (key k : String) (b : Bucket) (bs : Buckets)
    → lookup k (set key b bs) ≡ (if key == k then some b else lookup k bs)
lookup-set key k b [] = refl
lookup-set key k b ((j, c) ∷ bs) =
    ground (arith, lookup-set key k b bs, eq_iff j key, eq_iff j k, eq_iff key k)

lookup-keep :
    (key : String) (now : ℕ) (b : Bucket) (bs : Buckets)
    → lookup key bs ≡ some b
    → now < b.reset_at
    → lookup key (keep (λ e. not (leb (e.1).reset_at now)) bs) ≡ some b
lookup-keep key now b [] h live = cc
lookup-keep key now b ((k, c) ∷ bs) h live = ground (arith, lookup-keep key now b bs)

lookup-sweep :
    (key : String) (now : ℕ) (b : Bucket) (bs : Buckets)
    → lookup key bs ≡ some b
    → now < b.reset_at
    → lookup key (sweep now bs) ≡ some b
lookup-sweep key now b bs h live = ground (arith, lookup-keep key now b bs h live)

hit_same :
    (options : Options) (key : String) (now : ℕ) (b : Bucket) (bs : Buckets)
    → lookup key bs ≡ some b
    → now < b.reset_at
    → hit options key now bs ≡ (
      leb (suc b.count) options.max,
      set key record { count = suc b.count; reset_at = b.reset_at } bs,
    )
unfolding hit
hit_same options key now b bs h live = ground arith

hit_other :
    (options : Options) (key k : String) (now : ℕ) (b : Bucket) (bs : Buckets)
    → lookup key bs ≡ some b
    → now < b.reset_at
    → k ≢ key
    → lookup key ((hit options k now bs).1) ≡ some b
unfolding hit
hit_other options key k now b bs h live other = elim (Option-cases (lookup k bs)) [
  | inl e ↦ rw (hit, e) (swept (fresh options now))
  | inr (c, e) ↦ elim (Bool-cases (leb c.reset_at now)) [
    | inl over ↦ rw (hit, e, over) (swept (fresh options now))
    | inr still ↦ rw (hit, e, still) (kept record { count = suc c.count; reset_at = c.reset_at })
  ]
]
  where
    kept : (c : Bucket) → lookup key (set k c bs) ≡ some b
    kept c = ground (arith, lookup-set k key c bs, eq_iff k key)

    swept : (c : Bucket) → lookup key (sweep now (set k c bs)) ≡ some b
    swept c = lookup-sweep key now b (set k c bs) (kept c) live

-- All requests came before a time.
abbrev pub AllBefore : ℕ → List (String × ℕ) → Type 0
AllBefore t [] = Unit
AllBefore t ((key, now) ∷ rest) = (now < t) × AllBefore t rest

-- How many of the requests are of a key.
abbrev pub requests : String → List (String × ℕ) → ℕ
requests key [] = 0
requests key ((k, now) ∷ rest) = let n = requests key rest in if k == key then suc n else n

admitted_live :
    (options : Options) (key : String) (reqs : List (String × ℕ)) (b : Bucket) (bs : Buckets)
    → lookup key bs ≡ some b
    → AllBefore b.reset_at reqs
    → admitted options key reqs bs ≡ min (requests key reqs) (options.max - b.count)
unfolding admitted
admitted_live options key [] b bs h a = omega arith
admitted_live options key ((k, now) ∷ rest) b bs h a = elim (Bool-cases (k == key)) [
  | inl e ↦
      let same : k ≡ key = ground (arith, eq_iff k key) in
      let b' : Bucket = record { count = suc b.count; reset_at = b.reset_at } in
      let step = hit_same options key now b bs h a.0 in
      let next =
        admitted_live options key rest b' (set key b' bs)
          (ground (arith, lookup-set key key b' bs, eq_refl key)) a.1 in
      ground (arith, step)
  | inr e ↦
      let other : k ≢ key = ground (arith, eq_iff k key) in
      let next =
        admitted_live options key rest b ((hit options k now bs).1)
          (hit_other options key k now b bs h a.0 other) a.1 in
      ground arith
]

-- No bucket of the key is open at the time.
abbrev pub NoBucket : String → ℕ → Buckets → Type 0
NoBucket key now bs = (b : Bucket) → lookup key bs ≡ some b → b.reset_at ≤ now

hit_first :
    (options : Options) (key : String) (now : ℕ) (bs : Buckets)
    → NoBucket key now bs
    → hit options key now bs ≡ (true, sweep now (set key (fresh options now) bs))
unfolding hit
hit_first options key now bs none_open = elim (Option-cases (lookup key bs)) [
  | inl e ↦ rw (hit, e) refl
  | inr (b, e) ↦
      let expired : leb b.reset_at now ≡ true = ground (arith, none_open b e) in
      rw (hit, e, expired) refl
]

-- With a window of at least a millisecond, a request of a key that has no open bucket opens one.
-- Of the key's requests before the window ends, the first `max` are let through and no more (but
-- the opening one always is), whatever requests of other keys come between them.
pub hit_limit :
    (options : Options) (key : String) (now : ℕ) (rest : List (String × ℕ)) (bs : Buckets)
    → 1 ≤ options.window_ms
    → NoBucket key now bs
    → AllBefore (now + options.window_ms) rest
    → admitted options key ((key, now) ∷ rest) bs
      ≡ min (requests key ((key, now) ∷ rest)) (max 1 options.max)
unfolding admitted
hit_limit options key now rest bs window none_open a =
    let opened = hit_first options key now bs none_open in
    let b = fresh options now in
    let next =
      admitted_live options key rest b (sweep now (set key b bs))
        (lookup-sweep key now b (set key b bs)
          (ground (arith, lookup-set key key b bs, eq_refl key)) (omega arith))
        a in
    ground (arith, opened, next, eq_refl key)
