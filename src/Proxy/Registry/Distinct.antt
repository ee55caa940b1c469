-- ===== src/Proxy/Registry/Distinct.antt =====
-- The roster names each provider once.
use text.Mathlib.TextPositions.{eq_refl}
use nostr_storage_orchestrat.Common.{
  ◌≡◌, false, some, List, [], ◌∷◌, String, ◌==◌, string_eq, eq_iff, Bool-cases, inl, inr, All,
  arith,
}
use nostr_storage_orchestrat.Proxy.Placement.{ServerCandidate}
use nostr_storage_orchestrat.Proxy.Registry.{ActiveStorage, Registry, set, enter, find_url}

abbrev pub LacksId : String → ServerCandidate → Type 0
LacksId id c = (c.id == id) ≡ false

-- No two entries have one id.
abbrev pub HasDistinctIds : Registry → Type 0
HasDistinctIds [] = Unit
HasDistinctIds (c ∷ cs) = All (LacksId c.id) cs × HasDistinctIds cs

LacksId-set :
    (id : String) (c : ServerCandidate) (cs : Registry)
    → (c.id == id) ≡ false
    → All (LacksId id) cs
    → All (LacksId id) (set c cs)
LacksId-set id c [] d h = (d, tt)
LacksId-set id c (e ∷ cs) d h = elim (Bool-cases (e.id == c.id)) [
  | inl f ↦ rw f (d, h.1)
  | inr f ↦ rw f (h.0, LacksId-set id c cs d h.1)
]

LacksId-same : (i j : String) (cs : Registry) → i ≡ j → All (LacksId i) cs → All (LacksId j) cs
LacksId-same i j cs e h = rw e at h

set-HasDistinctIds :
    (c : ServerCandidate) (cs : Registry) → HasDistinctIds cs → HasDistinctIds (set c cs)
set-HasDistinctIds c [] h = (tt, tt)
set-HasDistinctIds c (d ∷ cs) h = elim (Bool-cases (d.id == c.id)) [
  | inl e ↦
      let same : d.id ≡ c.id = ground (arith, eq_iff d.id c.id) in
      rw e (LacksId-same d.id c.id cs same h.0, h.1)
  | inr e ↦
      let other : (c.id == d.id) ≡ false = ground (arith, eq_iff d.id c.id, eq_iff c.id d.id) in
      rw e (LacksId-set d.id c cs other h.0, set-HasDistinctIds c cs h.1)
]

pub enter-HasDistinctIds :
    (active : List ActiveStorage) (registry : Registry)
    → HasDistinctIds registry
    → HasDistinctIds (enter active registry)
unfolding enter
enter-HasDistinctIds [] registry h = h
enter-HasDistinctIds (s ∷ rest) registry h =
    enter-HasDistinctIds rest _ (set-HasDistinctIds _ registry h)

abbrev pub IsFound : Registry → ServerCandidate → Type 0
IsFound registry c = find_url c.id registry ≡ some c.url

IsFound-tail :
    (d : ServerCandidate) (registry cs : Registry)
    → All (LacksId d.id) cs
    → All (IsFound registry) cs
    → All (IsFound (d ∷ registry)) cs
IsFound-tail d registry [] lacks h = tt
IsFound-tail d registry (c ∷ cs) lacks h = (
  ground (arith, lacks.0, h.0, eq_iff d.id c.id, eq_iff c.id d.id),
  IsFound-tail d registry cs lacks.1 h.1,
)

pub all-IsFound : (registry : Registry) → HasDistinctIds registry → All (IsFound registry) registry
all-IsFound [] h = tt
all-IsFound (c ∷ cs) h =
    (ground (arith, eq_refl c.id), IsFound-tail c cs cs h.0 (all-IsFound cs h.1))
