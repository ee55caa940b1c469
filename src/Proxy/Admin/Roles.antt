-- ===== src/Proxy/Admin/Roles.antt =====
-- `createInternalRoleGate` of proxy/blossom/src/admin-auth.ts, the proxy's gate for service accounts, which asks db-api.
use nostr_storage_orchestrat.Common.{
  ℕ, ◌≡◌, refl, ◌⊎◌, inl, inr, Bool, true, false, Option, none, some, List, String, find,
  Option-cases, Bool-cases,
}
use nostr_storage_orchestrat.Nip98.{
  Nip98Request, Nip98Error, status, Library, Seen, Signer, signer, refused, thrown, verify_now,
}
use nostr_storage_orchestrat.Db.Gate.{
  ServiceAccount, Gated, opened, unauthorized, forbidden_service_account, failed, is_account,
  admit_account, service_gate, account_of,
}
use nostr_storage_orchestrat.Proxy.Client.{Answer, answer, api_error, unreachable, get}
use nostr_storage_orchestrat.Proxy.Admin.Recent.{Verified-cases}

abbrev pub get_service_account :
    Bool → String → List ServiceAccount → Answer (Option ServiceAccount)
get_service_account answered npub accounts = get answered (account_of npub accounts)

abbrev after_lookup : Answer (Option ServiceAccount) → Gated
after_lookup (answer account) = admit_account account none
after_lookup (api_error status error) = failed
after_lookup unreachable = failed

-- The gate, where the look-up is answered or not
unfoldable pub role_gate :
    Library → Bool → Nip98Request → ℕ → List ServiceAccount → Seen → Gated × Seen
role_gate lib answered req now accounts seen =
    let (verified, seen') = verify_now lib req now seen in
    elim verified [
      | thrown ↦ (failed, seen')
      | refused e ↦ (unauthorized (status e) e, seen')
      | signer s ↦ (after_lookup (get_service_account answered s.npub accounts), seen')
    ]

-- The proxy's gate leaves no account on the request.
abbrev pub anonymous : Gated → Gated
anonymous (opened npub) = opened none
anonymous (unauthorized status e) = unauthorized status e
anonymous forbidden_service_account = forbidden_service_account
anonymous failed = failed

anonymous-admit_account :
    (account : Option ServiceAccount) (npub : String)
    → admit_account account none ≡ anonymous (admit_account account (some npub))
anonymous-admit_account none npub = refl
anonymous-admit_account (some a) npub = elim (Bool-cases a.enabled) [
  | inl e ↦ rw e refl
  | inr e ↦ rw e refl
]

after_lookup-account :
    (npub : String) (accounts : List ServiceAccount)
    → after_lookup (get_service_account true npub accounts)
      ≡ admit_account (find (is_account npub) accounts) none
after_lookup-account npub accounts = elim (Option-cases (find (is_account npub) accounts)) [
  | inl e ↦ rw (account_of, e) refl
  | inr (a, e) ↦ rw (account_of, e) refl
]

module _ (lib : Library) (req : Nip98Request) (now : ℕ) (accounts : List ServiceAccount) where
  -- What the gate of db-api answers to a signer: the handler goes on where the account has an enabled row.
  abbrev pub IsChecked : String → Gated → Type 0
  IsChecked npub out =
      ((a : ServiceAccount) × (find (is_account npub) accounts ≡ some a)
        × (a.enabled ≡ true)
        × (out ≡ opened (some npub)))
      ⊎ ((out ≡ forbidden_service_account)
          × ((find (is_account npub) accounts ≡ none)
              ⊎ ((a : ServiceAccount) × (find (is_account npub) accounts ≡ some a)
                  × (a.enabled ≡ false))))

  -- An error of another kind goes to `next`, a refused signature is answered with its status, and a signer as the
  -- predicate says.
  abbrev pub IsAnswered : Seen → (String → Type 0) → Gated → Type 0
  IsAnswered seen P out =
      (((verify_now lib req now seen).0 ≡ thrown) × (out ≡ failed))
      ⊎ ((e : Nip98Error) × ((verify_now lib req now seen).0 ≡ refused e)
          × (out ≡ unauthorized (status e) e))
      ⊎ ((s : Signer) × ((verify_now lib req now seen).0 ≡ signer s) × P s.npub)

  admit_account-IsChecked :
      (npub : String) → IsChecked npub (admit_account (find (is_account npub) accounts) (some npub))
  admit_account-IsChecked npub = elim (Option-cases (find (is_account npub) accounts)) [
    | inl e ↦
        let out : admit_account (find (is_account npub) accounts) (some npub)
            ≡ forbidden_service_account =
          rw e refl in
        inr (out, inl e)
    | inr (a, e) ↦ elim (Bool-cases a.enabled) [
      | inl f ↦
          let out : admit_account (find (is_account npub) accounts) (some npub)
              ≡ opened (some npub) =
            rw (e, f) refl in
          inl (a, e, f, out)
      | inr f ↦
          let out : admit_account (find (is_account npub) accounts) (some npub)
              ≡ forbidden_service_account =
            rw (e, f) refl in
          inr (out, inr (a, e, f))
    ]
  ]

  -- Both gates answer a refused signature with its status, and pass on an error of another kind. The gate of db-api lets a signer through, under its name, who
  -- has an enabled row, and answers 403 to one who has none or a disabled one. The proxy's gate, which looks the account
  -- up over db-api, answers as that gate does on the same table and uses up the same signature, but for the name, which
  -- it leaves out; where the look-up of a signer's account is not answered, it fails.
  pub role_gate-Guards :
      (seen : Seen)
      → IsAnswered seen
          (λ npub. IsChecked npub ((service_gate lib req now accounts seen).0))
          ((service_gate lib req now accounts seen).0)
        × (role_gate lib true req now accounts seen ≡ (
          anonymous ((service_gate lib req now accounts seen).0),
          (service_gate lib req now accounts seen).1,
        ))
        × IsAnswered seen
            (λ npub. (role_gate lib false req now accounts seen).0 ≡ failed)
            ((role_gate lib false req now accounts seen).0)
  unfolding service_gate role_gate
  role_gate-Guards seen = elim (Verified-cases ((verify_now lib req now seen).0)) [
    | inl v ↦
        let own : (service_gate lib req now accounts seen).0 ≡ failed = rw (service_gate, v) refl in
        let away : (role_gate lib false req now accounts seen).0 ≡ failed =
          rw (role_gate, v) refl in
        (inl (v, own), rw (service_gate, role_gate, v) refl, inl (v, away))
    | inr (inl (e, v)) ↦
        let own : (service_gate lib req now accounts seen).0 ≡ unauthorized (status e) e =
          rw (service_gate, v) refl in
        let away : (role_gate lib false req now accounts seen).0 ≡ unauthorized (status e) e =
          rw (role_gate, v) refl in
        (inr (inl (e, v, own)), rw (service_gate, role_gate, v) refl, inr (inl (e, v, away)))
    | inr (inr (s, v)) ↦
        let own : (service_gate lib req now accounts seen).0
            ≡ admit_account (find (is_account s.npub) accounts) (some s.npub) =
          rw (service_gate, v) refl in
        let away : (role_gate lib false req now accounts seen).0 ≡ failed =
          rw (role_gate, v) refl in
        let checked : IsChecked s.npub ((service_gate lib req now accounts seen).0) =
          rw own (admit_account-IsChecked s.npub) in
        (
          inr (inr (s, v, checked)),
          rw
              (
                service_gate,
                role_gate,
                v,
                after_lookup-account s.npub accounts,
                anonymous-admit_account (find (is_account s.npub) accounts) s.npub,
              )
              refl,
          inr (inr (s, v, away)),
        )
  ]
