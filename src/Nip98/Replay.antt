-- ===== src/Nip98/Replay.antt =====
-- A signed event authorizes one request at most.
use text.Mathlib.TextPositions.{eq_refl}
use nostr_storage_orchestrat.Common.{
  ℕ, ◌+◌, ◌≤◌, ◌≡◌, refl, Bool, true, false, not, ◌&&◌, ◌⊎◌, inl, inr, none, some, List, [], ◌∷◌,
  ◌++◌, String, keep, any, ltb, ◌==◌, string_eq, arith, Bool-cases, Option-cases,
}
use nostr_storage_orchestrat.Nip98.{
  NostrEvent, Nip98Request, Library, signer, Signer, VerifyOptions, Seen, is_id, is_stale, remember,
  outside, check_event, use_event, verify_parsed, verify_nip98,
}

-- The id was used at a time no earlier than a bound.
abbrev pub used_since : String → ℕ → String × ℕ → Bool
used_since id t e = e.0 == id && not (ltb (e.1) t)

abbrev pub UsedSince : String → ℕ → Seen → Type 0
UsedSince id t seen = any (used_since id t) seen ≡ true

survives :
    (id : String) (t now : ℕ) (seen : Seen)
    → now ≤ t + 600
    → UsedSince id t seen
    → UsedSince id t (keep (λ e. not (is_stale now e)) seen)
survives id t now [] h u = cc
survives id t now (e ∷ seen) h u = ground (arith, survives id t now seen)

stays :
    (id other : String) (t now : ℕ) (seen : Seen)
    → UsedSince id t seen
    → UsedSince id t (seen ++ (other, now) ∷ [])
stays id other t now [] u = cc
stays id other t now (e ∷ seen) u = ground (arith, stays id other t now seen)

appended :
    (id : String) (t now : ℕ) (seen : Seen) → t ≤ now → UsedSince id t (seen ++ (id, now) ∷ [])
appended id t now [] h = ground (arith, eq_refl id)
appended id t now (e ∷ seen) h = ground (arith, appended id t now seen h)

has_id : (id : String) (t : ℕ) (seen : Seen) → UsedSince id t seen → any (is_id id) seen ≡ true
has_id id t [] u = cc
has_id id t (e ∷ seen) u = ground (arith, has_id id t seen)

remember_keeps :
    (id other : String) (t now : ℕ) (seen : Seen)
    → now ≤ t + 600
    → UsedSince id t seen
    → UsedSince id t ((remember other now seen).1)
unfolding remember
remember_keeps id other t now seen h u =
    let live = keep (λ e. not (is_stale now e)) seen in
    let s = survives id t now seen h u in
    elim (Bool-cases (any (is_id other) live)) [
      | inl e ↦ rw (remember, e) s
      | inr e ↦ rw (remember, e) (stays id other t now live s)
    ]

remember_cases :
    (id : String) (now : ℕ) (seen : Seen)
    → ((remember id now seen).0 ≡ false)
      ⊎ (((remember id now seen).0 ≡ true) × UsedSince id now ((remember id now seen).1))
unfolding remember
remember_cases id now seen =
    let live = keep (λ e. not (is_stale now e)) seen in
    elim (Bool-cases (any (is_id id) live)) [
      | inl e ↦ inl (rw (remember, e) refl)
      | inr e ↦ inr (rw (remember, e) (refl, appended id now now live (omega arith)))
    ]

pub remember_again :
    (id : String) (t now : ℕ) (seen : Seen)
    → now ≤ t + 600
    → UsedSince id t seen
    → (remember id now seen).0 ≡ false
unfolding remember
remember_again id t now seen h u =
    let e = has_id id t (keep (λ e. not (is_stale now e)) seen) (survives id t now seen h u) in
    rw (remember, e) refl

verify_nip98_keeps :
    (lib : Library) (options : VerifyOptions) (req : Nip98Request) (id : String) (t now : ℕ)
    (seen : Seen)
    → now ≤ t + 600
    → UsedSince id t seen
    → UsedSince id t ((verify_nip98 lib options req now seen).1)
unfolding verify_nip98 verify_parsed use_event
verify_nip98_keeps lib options req id t now seen h u = elim (Option-cases req.authorization) [
  | inl e ↦ rw (verify_nip98, e) u
  | inr (raw, e) ↦ elim (Bool-cases (raw == "")) [
    | inl e' ↦ rw (verify_nip98, e, e') u
    | inr e' ↦ elim (Option-cases (lib.parse raw)) [
      | inl e'' ↦ rw (verify_nip98, e, e', e'') u
      | inr (p, e'') ↦ elim (Option-cases p) [
        | inl f ↦ rw (verify_nip98, e, e', e'', f) u
        | inr (event, f) ↦ rw (verify_nip98, e, e', e'', f) (parsed event)
      ]
    ]
  ]
]
  where
    parsed :
        (event : NostrEvent) → UsedSince id t ((verify_parsed lib options req now event seen).1)
    parsed event = elim (Bool-cases (lib.verify_event event)) [
      | inr e ↦ rw (verify_parsed, e) u
      | inl e ↦ elim (Option-cases (check_event lib options req now event)) [
        | inr (x, e') ↦ rw (verify_parsed, e, e') u
        | inl e' ↦
            rw (verify_parsed, e, e')
              (elim (Bool-cases ((remember event.id now seen).0)) [
                | inl f ↦ rw (use_event, f) (remember_keeps id event.id t now seen h u)
                | inr f ↦ rw (use_event, f) (remember_keeps id event.id t now seen h u)
              ])
      ]
    ]

-- The header of a request holds an event.
abbrev pub Carries : Library → Nip98Request → NostrEvent → Type 0
Carries lib req event =
    (raw : String) × (req.authorization ≡ some raw)
    × ((raw == "") ≡ false)
    × (lib.parse raw ≡ some (some event))

in_window :
    (lib : Library) (options : VerifyOptions) (req : Nip98Request) (now : ℕ) (event : NostrEvent)
    → check_event lib options req now event ≡ none
    → outside now event.created_at options.max_skew_seconds ≡ false
unfolding check_event
in_window lib options req now event h = ground arith

-- What an accepted request tells.
pub accepted :
    (lib : Library) (options : VerifyOptions) (req : Nip98Request) (now : ℕ) (event : NostrEvent)
    (s : Signer) (seen : Seen)
    → Carries lib req event
    → (verify_nip98 lib options req now seen).0 ≡ signer s
    → (outside now event.created_at options.max_skew_seconds ≡ false)
      × UsedSince event.id now ((verify_nip98 lib options req now seen).1)
      × ((remember event.id now seen).0 ≡ true)
unfolding verify_nip98 verify_parsed use_event
accepted lib options req now event s seen (raw, e, e', e'') h =
    elim (Bool-cases (lib.verify_event event)) [
      | inr f ↦ let h' = rw (verify_nip98, e, e', e'', verify_parsed, f) at h in cc
      | inl f ↦ elim (Option-cases (check_event lib options req now event)) [
        | inr (x, g) ↦ let h' = rw (verify_nip98, e, e', e'', verify_parsed, f, g) at h in cc
        | inl g ↦ elim (remember_cases event.id now seen) [
          | inl r ↦
              let h' = rw (verify_nip98, e, e', e'', verify_parsed, f, g, use_event, r) at h in cc
          | inr (r, u) ↦ (
            in_window lib options req now event g,
            rw (verify_nip98, e, e', e'', verify_parsed, f, g, use_event, r) u,
            r,
          )
        ]
      ]
    ]

-- Requests with the times at which they are verified.
unfoldable pub verify_each : Library → VerifyOptions → List (Nip98Request × ℕ) → Seen → Seen
verify_each lib options [] seen = seen
verify_each lib options ((req, now) ∷ rest) seen =
    verify_each lib options rest ((verify_nip98 lib options req now seen).1)

abbrev pub AllBy : ℕ → List (Nip98Request × ℕ) → Type 0
AllBy t [] = Unit
AllBy t ((req, now) ∷ rest) = (now ≤ t) × AllBy t rest

pub verify_each_keeps :
    (lib : Library) (options : VerifyOptions) (reqs : List (Nip98Request × ℕ)) (id : String) (t : ℕ)
    (seen : Seen)
    → AllBy (t + 600) reqs
    → UsedSince id t seen
    → UsedSince id t (verify_each lib options reqs seen)
unfolding verify_each
verify_each_keeps lib options [] id t seen a u = u
verify_each_keeps lib options ((req, now) ∷ rest) id t seen a u =
    verify_each_keeps lib options rest id t ((verify_nip98 lib options req now seen).1) a.1
      (verify_nip98_keeps lib options req id t now seen a.0 u)
