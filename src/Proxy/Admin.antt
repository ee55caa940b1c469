-- ===== src/Proxy/Admin.antt =====
-- proxy/blossom/src/admin-auth.ts: who is an admin, as formstr-backend says and as the proxy remembers for a while, and
-- the gate of /admin/*. What the backend answers to the signed question is a function of the time and the account.

pub mod Recent
pub mod Roles
use nostr_storage_orchestrat.Common.{
  ℕ, ◌+◌, ◌/◌, Bool, true, false, ◌||◌, not, Option, none, some, List, [], ◌∷◌, ◌&&◌, String, find,
  ltb, is_some, ◌==◌, string_eq, if◌then◌else◌,
}
use nostr_storage_orchestrat.Nip98.{
  Nip98Request, Nip98Error, status, VerifyOptions, Library, Seen, Verified, signer, refused, thrown,
  verify_now,
}
use nostr_storage_orchestrat.Proxy.Gate.{present}

-- What `cache` holds of an account.
pub record Verdict : Type 0 where
  pub npub : String
  pub admin : Bool
  pub at : ℕ

pub record AdminOptions : Type 0 where
  pub backend_url : Option String
  pub service_nsec : Option String
  pub ttl_ms : Option ℕ

-- `axios.get(…/api/internal/admin-check/<npub>)` at a time: it throws, or answers whether `res.data.admin === true`, and
-- how many milliseconds it took.
abbrev pub Backend : Type 0
Backend = ℕ → String → Option (Bool × ℕ)

abbrev pub ttl_of : AdminOptions → ℕ
ttl_of options = elim options.ttl_ms [ none ↦ 60000 | some ttl ↦ ttl ]

-- `options.backendUrl && signer`
abbrev pub is_configured : AdminOptions → Bool
is_configured options =
    is_some (present options.backend_url) && is_some (present options.service_nsec)

abbrev pub is_of : String → Verdict → Bool
is_of npub v = v.npub == npub

-- `cache.set`
abbrev pub set_verdict : Verdict → List Verdict → List Verdict
set_verdict v [] = v ∷ []
set_verdict v (w ∷ ws) = if w.npub == v.npub then v ∷ ws else w ∷ set_verdict v ws

-- `isAdmin` where the cache does not decide
unfoldable pub ask_backend :
    AdminOptions → Backend → String → ℕ → List Verdict → Bool × List Verdict
ask_backend options backend npub now cache =
    if not (is_configured options) then (false, cache) else elim (backend now npub) [
      | none ↦ (false, cache)
      | some (admin, took) ↦
          (admin, set_verdict record { npub = npub; admin = admin; at = now + took } cache)
    ]

-- `isAdmin(npub)` at a time in milliseconds
unfoldable pub is_admin : AdminOptions → Backend → String → ℕ → List Verdict → Bool × List Verdict
unfolding ask_backend
is_admin options backend npub now cache = elim (find (is_of npub) cache) [
  | none ↦ ask_backend options backend npub now cache
  | some v ↦
      if ltb now (v.at + ttl_of options)
      then (v.admin, cache)
      else ask_backend options backend npub now cache
]

-- What the gate keeps between requests: the replay cache and the cache of admins.
pub record Keeper : Type 0 where
  pub seen : Seen
  pub verdicts : List Verdict

pub data Admission : Type 0 where
  admitted : String → Admission
  -- the status, with the error that `verifyNip98` threw, or `admin_required`
  unverified : ℕ → Nip98Error → Admission
  admin_required : Admission
  -- an error that the gate throws
  failed : Admission

-- `requireAdmin` at a time in milliseconds
unfoldable pub require_admin :
    Library → AdminOptions → Backend → Nip98Request → ℕ → Keeper → Admission × Keeper
unfolding is_admin
require_admin lib options backend req now k =
    let (verified, seen) = verify_now lib req now k.seen in
    elim verified [
      | thrown ↦ (failed, record k { seen = seen })
      | refused e ↦ (unverified (status e) e, record k { seen = seen })
      | signer s ↦
          let (admin, verdicts) = is_admin options backend s.npub now k.verdicts in
          (
            if admin then admitted s.npub else admin_required,
            record { seen = seen; verdicts = verdicts },
          )
    ]

abbrev pub new_keeper : Keeper
new_keeper = record { seen = []; verdicts = [] }

-- The requests to /admin/* with their times, in their order.
unfoldable pub keep_gate :
    Library → AdminOptions → Backend → List (Nip98Request × ℕ) → Keeper → Keeper
keep_gate lib options backend [] k = k
keep_gate lib options backend ((req, now) ∷ rest) k =
    keep_gate lib options backend rest ((require_admin lib options backend req now k).1)
