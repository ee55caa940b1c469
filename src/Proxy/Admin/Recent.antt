-- ===== src/Proxy/Admin/Recent.antt =====
-- The gate of /admin/* lets through whom formstr-backend says to be an admin, and fails closed.
use nostr_storage_orchestrat.Common.{
  ℕ, ◌+◌, ◌<◌, ◌≡◌, refl, ◌⊎◌, inl, inr, Bool, true, false, none, some, List, [], ◌∷◌, String, find,
  ltb, ◌==◌, string_eq, arith, eq_iff, Option-cases, Bool-cases, All,
}
use nostr_storage_orchestrat.Nip98.{
  Nip98Request, Nip98Error, status, Library, Signer, Verified, signer, refused, thrown, verify_now,
}
use nostr_storage_orchestrat.Proxy.Admin.{
  Verdict, AdminOptions, Backend, ttl_of, is_configured, is_of, set_verdict, ask_backend, is_admin,
  Keeper, Admission, admitted, unverified, admin_required, failed, require_admin, new_keeper,
  keep_gate,
}

-- A verdict is what the backend answered at its time, where it is configured.
abbrev pub IsTold : AdminOptions → Backend → String → Bool → ℕ → Type 0
IsTold options backend npub admin at =
    (is_configured options ≡ true)
    × ((t : ℕ) × (took : ℕ) × (backend t npub ≡ some (admin, took)) × (at ≡ t + took))

abbrev pub IsKnown : AdminOptions → Backend → Verdict → Type 0
IsKnown options backend v = IsTold options backend v.npub v.admin v.at

set_verdict-IsKnown :
    (options : AdminOptions) (backend : Backend) (v : Verdict) (vs : List Verdict)
    → IsKnown options backend v
    → All (IsKnown options backend) vs
    → All (IsKnown options backend) (set_verdict v vs)
set_verdict-IsKnown options backend v [] h a = (h, tt)
set_verdict-IsKnown options backend v (w ∷ ws) h a = elim (Bool-cases (w.npub == v.npub)) [
  | inl e ↦ rw e (h, a.1)
  | inr e ↦ rw e (a.0, set_verdict-IsKnown options backend v ws h a.1)
]

find-IsKnown :
    (options : AdminOptions) (backend : Backend) (npub : String) (vs : List Verdict) (v : Verdict)
    → All (IsKnown options backend) vs
    → find (is_of npub) vs ≡ some v
    → IsTold options backend npub v.admin v.at
find-IsKnown options backend npub [] v a h = cc
find-IsKnown options backend npub (w ∷ ws) v a h = elim (Bool-cases (w.npub == npub)) [
  | inl e ↦
      let same : w ≡ v = ground arith in
      let one : w.npub ≡ npub = ground (arith, eq_iff w.npub npub) in rw (← same, ← one) a.0
  | inr e ↦ find-IsKnown options backend npub ws v a.1 (ground arith)
]

-- The backend said so just now, or in an answer that came less than the ttl ago.
abbrev pub IsSaid : AdminOptions → Backend → String → ℕ → Bool → Type 0
IsSaid options backend npub now admin =
    (is_configured options ≡ true)
    × ((t : ℕ) × (took : ℕ) × (backend t npub ≡ some (admin, took))
        × ((t ≡ now) ⊎ (now < t + took + ttl_of options)))

-- Why an account is no admin: the backend said no, it is not configured, or it does not answer now.
abbrev pub IsDenied : AdminOptions → Backend → String → ℕ → Type 0
IsDenied options backend npub now =
    IsSaid options backend npub now false
    ⊎ ((is_configured options ≡ false) ⊎ (backend now npub ≡ none))

-- What `isAdmin` answers, and what it then remembers.
abbrev IsJudged : AdminOptions → Backend → String → ℕ → Bool × List Verdict → Type 0
IsJudged options backend npub now out =
    (((out.0 ≡ true) × IsSaid options backend npub now true)
      ⊎ ((out.0 ≡ false) × IsDenied options backend npub now))
    × All (IsKnown options backend) out.1

said :
    (options : AdminOptions) (backend : Backend) (npub : String) (now : ℕ) (admin : Bool)
    → IsSaid options backend npub now admin
    → ((admin ≡ true) × IsSaid options backend npub now true)
      ⊎ ((admin ≡ false) × IsDenied options backend npub now)
said options backend npub now true h = inl (refl, h)
said options backend npub now false h = inr (refl, inl h)

ask_backend-IsJudged :
    (options : AdminOptions) (backend : Backend) (npub : String) (now : ℕ) (vs : List Verdict)
    → All (IsKnown options backend) vs
    → IsJudged options backend npub now (ask_backend options backend npub now vs)
unfolding ask_backend
ask_backend-IsJudged options backend npub now vs a = elim (Bool-cases (is_configured options)) [
  | inr off ↦
      let e : ask_backend options backend npub now vs ≡ (false, vs) = rw (ask_backend, off) refl in
      rw e (inr (refl, inr (inl off)), a)
  | inl on ↦ elim (Option-cases (backend now npub)) [
    | inl down ↦
        let e : ask_backend options backend npub now vs ≡ (false, vs) =
          rw (ask_backend, on, down) refl in
        rw e (inr (refl, inr (inr down)), a)
    | inr ((admin, took), told) ↦
        let v : Verdict = record { npub = npub; admin = admin; at = now + took } in
        let e : ask_backend options backend npub now vs ≡ (admin, set_verdict v vs) =
          rw (ask_backend, on, told) refl in
        rw e (
          said options backend npub now admin (on, (now, took, told, inl refl)),
          set_verdict-IsKnown options backend v vs (on, (now, took, told, refl)) a,
        )
  ]
]

is_admin-IsJudged :
    (options : AdminOptions) (backend : Backend) (npub : String) (now : ℕ) (vs : List Verdict)
    → All (IsKnown options backend) vs
    → IsJudged options backend npub now (is_admin options backend npub now vs)
unfolding is_admin
is_admin-IsJudged options backend npub now vs a = elim (Option-cases (find (is_of npub) vs)) [
  | inl e ↦ rw (is_admin, e) (ask_backend-IsJudged options backend npub now vs a)
  | inr (v, e) ↦ elim (Bool-cases (ltb now (v.at + ttl_of options))) [
    | inr f ↦ rw (is_admin, e, f) (ask_backend-IsJudged options backend npub now vs a)
    | inl f ↦
        let (on, (t, took, told, same)) = find-IsKnown options backend npub vs v a e in
        let young : now < t + took + ttl_of options = ground arith in
        let hit : is_admin options backend npub now vs ≡ (v.admin, vs) = rw (is_admin, e, f) refl in
        rw hit (said options backend npub now v.admin (on, (t, took, told, inr young)), a)
  ]
]

pub Verified-cases :
    (v : Verified)
    → (v ≡ thrown) ⊎ ((e : Nip98Error) × (v ≡ refused e)) ⊎ ((s : Signer) × (v ≡ signer s))
Verified-cases thrown = inl refl
Verified-cases (refused e) = inr (inl (e, refl))
Verified-cases (signer s) = inr (inr (s, refl))

module _ (lib : Library) (options : AdminOptions) (backend : Backend) where
  -- What the gate answers to a request at a time.
  abbrev pub IsGated : Nip98Request → ℕ → Keeper → Admission → Type 0
  IsGated req now k out =
      (((verify_now lib req now k.seen).0 ≡ thrown) × (out ≡ failed))
      ⊎ ((e : Nip98Error) × ((verify_now lib req now k.seen).0 ≡ refused e)
          × (out ≡ unverified (status e) e))
      ⊎ ((s : Signer) × ((verify_now lib req now k.seen).0 ≡ signer s)
          × (((out ≡ admitted s.npub) × IsSaid options backend s.npub now true)
              ⊎ ((out ≡ admin_required) × IsDenied options backend s.npub now)))

  gate_step :
      (req : Nip98Request) (now : ℕ) (k : Keeper)
      → All (IsKnown options backend) k.verdicts
      → IsGated req now k ((require_admin lib options backend req now k).0)
        × All (IsKnown options backend) ((require_admin lib options backend req now k).1).verdicts
  unfolding require_admin
  gate_step req now k a = elim (Verified-cases ((verify_now lib req now k.seen).0)) [
    | inl f ↦
        let step : require_admin lib options backend req now k
            ≡ (failed, record k { seen = (verify_now lib req now k.seen).1 }) =
          rw (require_admin, f) refl in
        rw step (inl (f, refl), a)
    | inr (inl (e, f)) ↦
        let step : require_admin lib options backend req now k
            ≡ (unverified (status e) e, record k { seen = (verify_now lib req now k.seen).1 }) =
          rw (require_admin, f) refl in
        rw step (inr (inl (e, f, refl)), a)
    | inr (inr (s, f)) ↦
        let (judged, known) = is_admin-IsJudged options backend s.npub now k.verdicts a in
        let judge = is_admin options backend s.npub now k.verdicts in
        let k' : Keeper = record { seen = (verify_now lib req now k.seen).1; verdicts = judge.1 } in
        elim judged [
          | inl (granted, why) ↦
              let step : require_admin lib options backend req now k ≡ (admitted s.npub, k') =
                rw (require_admin, f, granted) refl in
              rw step (inr (inr (s, f, inl (refl, why))), known)
          | inr (denied, why) ↦
              let step : require_admin lib options backend req now k ≡ (admin_required, k') =
                rw (require_admin, f, denied) refl in
              rw step (inr (inr (s, f, inr (refl, why))), known)
        ]
  ]

  keep_gate-All :
      (history : List (Nip98Request × ℕ)) (k : Keeper)
      → All (IsKnown options backend) k.verdicts
      → All (IsKnown options backend) (keep_gate lib options backend history k).verdicts
  unfolding keep_gate
  keep_gate-All [] k a = a
  keep_gate-All ((req, now) ∷ rest) k a =
      keep_gate-All rest ((require_admin lib options backend req now k).1)
        ((gate_step req now k a).1)

  -- Whatever requests to /admin/* came before, with their times, the gate answers a request in one of four ways.
  -- verifyNip98 throws an error of another kind, and so does the gate. Or it refuses the request, and the answer is that error with its status. Or it is signed and the signer's account is let
  -- through, and formstr-backend, which is configured, said that it is an admin, just now or in an answer that came less
  -- than the ttl ago. Or it is signed and refused with admin_required, and the backend said in the same sense that it is
  -- none, or the backend or the service identity is not configured, or the backend does not answer now.
  pub require_admin-IsGated :
      (history : List (Nip98Request × ℕ)) (req : Nip98Request) (now : ℕ)
      → IsGated req now (keep_gate lib options backend history new_keeper) (
          (require_admin lib options backend req now
            (keep_gate lib options backend history new_keeper)).0)
  require_admin-IsGated history req now =
      let k = keep_gate lib options backend history new_keeper in
      (gate_step req now k (keep_gate-All history new_keeper tt)).0
