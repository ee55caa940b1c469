-- ===== src/Proxy/Gate/Inflight.antt =====
-- The bytes in flight, over the life of the uploads.
use nostr_storage_orchestrat.Common.{
  ℕ, ◌+◌, ◌-◌, ◌≤◌, ◌≡◌, refl, some, List, [], ◌∷◌, nat_eq, if◌then◌else◌, arith,
}
use nostr_storage_orchestrat.Proxy.Gate.{Receiving, Traffic, reserve, held, release_each, release}

-- What the requests that were not released hold.
abbrev pub open_bytes : List Receiving → ℕ
open_bytes [] = 0
open_bytes (r ∷ rs) = let rest = open_bytes rs in if r.released then rest else r.size + rest

-- One event: the gate lets a request in, or a response of one closes or finishes, as often as it does.
pub data Step (max_inflight : ℕ) (t : Traffic) : Traffic → Type 0 where
  enters :
      (request size : ℕ) (t' : Traffic)
      → reserve max_inflight request size t ≡ some t'
      → Step max_inflight t t'
  ends : (request : ℕ) → Step max_inflight t (release request t)

pub data Steps (max_inflight : ℕ) (t : Traffic) : Traffic → Type 0 where
  start : Steps max_inflight t t
  after : {u v : Traffic} → Steps max_inflight t u → Step max_inflight u v → Steps max_inflight t v

abbrev pub quiet : Traffic
quiet = record { inflight = 0; requests = [] }

-- The count is what the open requests hold, and within the cap.
abbrev pub IsCounted : ℕ → Traffic → Type 0
IsCounted max_inflight t = (t.inflight ≡ open_bytes t.requests) × (t.inflight ≤ max_inflight)

open-release_each :
    (request : ℕ) (rs : List Receiving)
    → (held request rs ≤ open_bytes rs)
      × (open_bytes (release_each request rs) ≡ open_bytes rs - held request rs)
open-release_each request [] = (omega arith, omega arith)
open-release_each request (r ∷ rs) =
    let (le, e) = open-release_each request rs in (ground (arith, le), ground (arith, le, e))

Step-IsCounted :
    {max_inflight : ℕ} {t t' : Traffic}
    → Step max_inflight t t'
    → IsCounted max_inflight t
    → IsCounted max_inflight t'
unfolding reserve release
Step-IsCounted {max_inflight} {t} (enters request size t' h) c = ground arith
Step-IsCounted {max_inflight} {t} (ends request) c =
    let (le, e) = open-release_each request t.requests in (ground arith, omega arith)

-- However uploads enter and end, a request once or several times, the count is at every moment the sum of
-- what the requests that were not yet released announced, and it stays within the cap.
pub Steps-IsCounted :
    (max_inflight : ℕ) (t : Traffic) → Steps max_inflight quiet t → IsCounted max_inflight t
Steps-IsCounted max_inflight t start = (refl, omega arith)
Steps-IsCounted max_inflight t (after steps step) =
    Step-IsCounted step (Steps-IsCounted max_inflight _ steps)
