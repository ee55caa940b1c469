-- ===== src/Db/Gate.antt =====
-- packages/db/src/internal-auth.ts: the gate of the internal endpoints, over the table of service accounts, and their
-- look-up of src/routes/service-accounts.ts.
use nostr_storage_orchestrat.Common.{
  ℕ, Bool, not, Option, none, some, List, String, find, ◌==◌, string_eq, if◌then◌else◌,
}
use nostr_storage_orchestrat.Nip98.{
  Nip98Request, Nip98Error, status, Library, Seen, signer, refused, thrown, verify_now,
}
use nostr_storage_orchestrat.Db.{Response, success, error}

pub record ServiceAccount : Type 0 where
  pub npub : String
  pub label : Option String
  pub enabled : Bool
  pub created_at : ℕ

-- What a gate does with a request: the handler goes on, with `req.serviceNpub` where the gate sets it; the
-- status of a refused signature, with its `X-Reason`; 403; or `next(error)`.
pub data Gated : Type 0 where
  opened : Option String → Gated
  unauthorized : ℕ → Nip98Error → Gated
  forbidden_service_account : Gated
  failed : Gated

abbrev pub is_account : String → ServiceAccount → Bool
is_account npub a = a.npub == npub

abbrev pub admit_account : Option ServiceAccount → Option String → Gated
admit_account none npub = forbidden_service_account
admit_account (some a) npub = if not a.enabled then forbidden_service_account else opened npub

-- The gate that `createServiceAccountGate` makes
unfoldable pub service_gate : Library → Nip98Request → ℕ → List ServiceAccount → Seen → Gated × Seen
service_gate lib req now accounts seen =
    let (verified, seen') = verify_now lib req now seen in
    elim verified [
      | thrown ↦ (failed, seen')
      | refused e ↦ (unauthorized (status e) e, seen')
      | signer s ↦ (admit_account (find (is_account s.npub) accounts) (some s.npub), seen')
    ]

-- GET /service-accounts/:npub
abbrev pub account_of : String → List ServiceAccount → Response ServiceAccount
account_of npub accounts = elim (find (is_account npub) accounts) [
  | none ↦ error 404 "not_found"
  | some a ↦ success 200 a
]
