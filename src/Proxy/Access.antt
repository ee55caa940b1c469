-- ===== src/Proxy/Access.antt =====
-- proxy/blossom/src/access.ts: the cache of account lookups. What db-api answers to a lookup is a function of the time
-- and the account; a lookup that throws leaves the cache as it is.
use nostr_storage_orchestrat.Common.{
  ℕ, ◌+◌, ◌<◌, ◌≡◌, refl, ◌⊎◌, inl, inr, not, Option, none, some, List, [], ◌∷◌, String, keep, ltb,
  ◌==◌, string_eq, if◌then◌else◌, arith, eq_iff, Option-cases, Bool-cases, All, All-keep,
}
use nostr_storage_orchestrat.Db.{User}

pub record Cached : Type 0 where
  pub npub : String
  pub user : Option User
  pub at : ℕ

abbrev pub Cache : Type 0
Cache = List Cached

abbrev pub lookup : String → Cache → Option Cached
lookup npub [] = none
lookup npub (c ∷ cs) = if c.npub == npub then some c else lookup npub cs

-- `cache.set`
abbrev pub set : Cached → Cache → Cache
set c [] = c ∷ []
set c (d ∷ ds) = if d.npub == c.npub then c ∷ ds else d ∷ set c ds

-- `db.getUser`, which also says what is answered at which time
abbrev pub Lookup : Type 0
Lookup = ℕ → String → Option User

-- `get(npub)` at a time
unfoldable pub get_user : ℕ → Lookup → String → ℕ → Cache → Option User × Cache
get_user ttl db npub now cache = elim (lookup npub cache) [
  | none ↦ (db now npub, set record { npub = npub; user = db now npub; at = now } cache)
  | some hit ↦
      if ltb now (hit.at + ttl)
      then (hit.user, cache)
      else (db now npub, set record { npub = npub; user = db now npub; at = now } cache)
]

-- `invalidate(npub)`
unfoldable pub invalidate : String → Cache → Cache
invalidate npub cache = keep (λ c. not (c.npub == npub)) cache

pub data Call : Type 0 where
  get : String → Call
  drop : String → Call

-- The calls with their times, in their order.
unfoldable pub run_calls : ℕ → Lookup → List (ℕ × Call) → Cache → Cache
run_calls ttl db [] cache = cache
run_calls ttl db ((now, get npub) ∷ calls) cache =
    run_calls ttl db calls ((get_user ttl db npub now cache).1)
run_calls ttl db ((now, drop npub) ∷ calls) cache = run_calls ttl db calls (invalidate npub cache)

-- An entry holds what db-api answered at its time.
abbrev IsTrue : Lookup → Cached → Type 0
IsTrue db c = c.user ≡ db c.at c.npub

All-set :
    (db : Lookup) (c : Cached) (cs : Cache)
    → IsTrue db c
    → All (IsTrue db) cs
    → All (IsTrue db) (set c cs)
All-set db c [] h a = (h, tt)
All-set db c (d ∷ ds) h a = elim (Bool-cases (d.npub == c.npub)) [
  | inl e ↦ rw e (h, a.1)
  | inr e ↦ rw e (a.0, All-set db c ds h a.1)
]

lookup-IsTrue :
    (db : Lookup) (npub : String) (cs : Cache) (c : Cached)
    → All (IsTrue db) cs
    → lookup npub cs ≡ some c
    → (c.npub ≡ npub) × IsTrue db c
lookup-IsTrue db npub [] c a h = cc
lookup-IsTrue db npub (d ∷ ds) c a h = elim (Bool-cases (d.npub == npub)) [
  | inl e ↦ let same : d ≡ c = ground arith in rw (← same) (ground (arith, eq_iff d.npub npub), a.0)
  | inr e ↦ lookup-IsTrue db npub ds c a.1 (ground arith)
]

-- What a lookup at a time answers: what db-api answered at a time within the last ttl, or just then.
abbrev pub IsRecent : ℕ → Lookup → String → ℕ → Option User → Type 0
IsRecent ttl db npub now user = (t : ℕ) × (user ≡ db t npub) × ((t ≡ now) ⊎ (now < t + ttl))

get_cases :
    (ttl : ℕ) (db : Lookup) (npub : String) (now : ℕ) (cache : Cache)
    → ((hit : Cached) × (lookup npub cache ≡ some hit)
        × (now < hit.at + ttl)
        × (get_user ttl db npub now cache ≡ (hit.user, cache)))
      ⊎ (get_user ttl db npub now cache
          ≡ (db now npub, set record { npub = npub; user = db now npub; at = now } cache))
unfolding get_user
get_cases ttl db npub now cache = elim (Option-cases (lookup npub cache)) [
  | inl e ↦ inr (rw (get_user, e) refl)
  | inr (hit, e) ↦ elim (Bool-cases (ltb now (hit.at + ttl))) [
    | inl f ↦ inl (hit, e, ground arith, rw (get_user, e, f) refl)
    | inr f ↦ inr (rw (get_user, e, f) refl)
  ]
]

get_keeps :
    (ttl : ℕ) (db : Lookup) (npub : String) (now : ℕ) (cache : Cache)
    → All (IsTrue db) cache
    → All (IsTrue db) ((get_user ttl db npub now cache).1)
get_keeps ttl db npub now cache a = elim (get_cases ttl db npub now cache) [
  | inl (hit, _, _, e) ↦ rw e a
  | inr e ↦ rw e (All-set db record { npub = npub; user = db now npub; at = now } cache refl a)
]

run_keeps :
    (ttl : ℕ) (db : Lookup) (calls : List (ℕ × Call)) (cache : Cache)
    → All (IsTrue db) cache
    → All (IsTrue db) (run_calls ttl db calls cache)
unfolding run_calls invalidate
run_keeps ttl db [] cache a = a
run_keeps ttl db ((now, get npub) ∷ calls) cache a =
    run_keeps ttl db calls ((get_user ttl db npub now cache).1) (get_keeps ttl db npub now cache a)
run_keeps ttl db ((now, drop npub) ∷ calls) cache a =
    run_keeps ttl db calls (invalidate npub cache)
      (All-keep (IsTrue db) (λ c. not (c.npub == npub)) cache a)

-- After any lookups and invalidations from an empty cache, a lookup answers what db-api answers just then, or what it
-- answered for the account at a time less than the ttl ago.
pub get_user-IsRecent :
    (ttl : ℕ) (db : Lookup) (calls : List (ℕ × Call)) (npub : String) (now : ℕ)
    → IsRecent ttl db npub now ((get_user ttl db npub now (run_calls ttl db calls [])).0)
get_user-IsRecent ttl db calls npub now =
    let cache = run_calls ttl db calls [] in
    elim (get_cases ttl db npub now cache) [
      | inl (hit, found, young, e) ↦
          let (same, known) =
            lookup-IsTrue db npub cache hit (run_keeps ttl db calls [] tt) found in
          rw e (hit.at, rw (← same) known, inr young)
      | inr e ↦ rw e (now, refl, inl refl)
    ]
