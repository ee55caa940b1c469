-- ===== src/Proxy/Token/Sound.antt =====
-- Which tokens are accepted.
use nostr_storage_orchestrat.Common.{
  ℕ, ◌≤◌, ◌<◌, ◌≡◌, refl, ap, inl, inr, ◌≢◌, true, Option, none, some, List, [], ◌∷◌, String, ◌==◌,
  string_eq, nat_eq, arith, eq_iff, Option-cases, Bool-cases,
}
use nostr_storage_orchestrat.Nip98.{NostrEvent, tag_value}
use nostr_storage_orchestrat.Proxy.Token.{
  TokenLibrary, accepted, TokenOptions, expires_at, x_tags, is_action, includes, check_scope,
  check_token, answer, verify_auth_token,
}

-- What an accepted token is.
pub record IsToken (lib : TokenLibrary) (action : String) (options : TokenOptions) (now : ℕ)
    (event : NostrEvent) : Type 0 where
  pub signed : lib.verify_event event ≡ true
  pub kind : event.kind ≡ 24242
  pub begun : event.created_at ≤ now
  pub unexpired : (e : ℕ) × (expires_at lib event ≡ some e) × (now < e)
  pub for_action : tag_value "t" event.tags ≡ some action
  pub scoped : (options.require_hash_scope ≡ true) → x_tags lib event ≢ []
  pub for_hash :
      (h : String)
      → options.hash ≡ some h
      → h ≢ ""
      → x_tags lib event ≢ []
      → includes (lib.lower_case h) (x_tags lib event) ≡ true

scope_lem :
    (lib : TokenLibrary) (options : TokenOptions) (xs : List (Option String))
    → check_scope lib options xs ≡ none
    → ((options.require_hash_scope ≡ true) → xs ≢ [])
      × ((h : String)
          → options.hash ≡ some h
          → h ≢ ""
          → xs ≢ []
          → includes (lib.lower_case h) xs ≡ true)
unfolding check_scope
scope_lem lib options [] h = (λ r p. ground arith, λ k e n m. absurd (m refl))
scope_lem lib options (x ∷ xs) h = (λ r p. ground arith, λ k e n m. ground (arith, eq_iff k ""))

check_token-IsToken :
    (lib : TokenLibrary) (action : String) (options : TokenOptions) (now : ℕ) (event : NostrEvent)
    → check_token lib action options now event ≡ none
    → IsToken lib action options now event
unfolding check_token
check_token-IsToken lib action options now event h =
    let scope : check_scope lib options (x_tags lib event) ≡ none = ground arith in
    let (required, hashed) = scope_lem lib options (x_tags lib event) scope in
    elim (Option-cases (expires_at lib event)) [
      | inl e ↦ ground arith
      | inr (t, e) ↦ record {
        signed = ground arith;
        kind = ground arith;
        begun = ground arith;
        unexpired = (t, e, ground arith);
        for_action = action_of (tag_value "t" event.tags) (ground arith);
        scoped = required;
        for_hash = hashed;
      }
    ]
  where
    action_of : (t : Option String) → is_action action t ≡ true → t ≡ some action
    action_of none h = cc
    action_of (some t) h = ap some ((eq_iff t action).0 h)

-- A header is accepted only where it holds an event that is signed, of kind 24242, created in the past, not expired and
-- for the action; where the scope is required it has an `x` tag, and if it has any and a hash is given, one of them is
-- the hash; the answer is the npub of the event's key.
pub verify_auth_token-IsToken :
    (lib : TokenLibrary) (header action npub : String) (options : TokenOptions) (now : ℕ)
    → verify_auth_token lib (some header) action options now ≡ accepted npub
    → (event : NostrEvent) × (lib.parse header ≡ some (some event))
      × IsToken lib action options now event
      × (npub ≡ lib.npub_encode event.pubkey)
unfolding verify_auth_token answer
verify_auth_token-IsToken lib header action npub options now h = elim (Bool-cases (header == "")) [
  | inl e ↦ let h' = rw (verify_auth_token, e) at h in cc
  | inr e ↦ elim (Option-cases (lib.parse header)) [
    | inl p ↦ let h' = rw (verify_auth_token, e, p) at h in cc
    | inr (parsed, p) ↦ elim (Option-cases parsed) [
      | inl q ↦ elim (Bool-cases (lib.verify_throws header)) [
        | inl t ↦ let h' = rw (verify_auth_token, e, p, q, t) at h in cc
        | inr t ↦ let h' = rw (verify_auth_token, e, p, q, t) at h in cc
      ]
      | inr (event, q) ↦ elim (Option-cases (check_token lib action options now event)) [
        | inr (x, c) ↦ let h' = rw (verify_auth_token, e, p, q, c, answer) at h in cc
        | inl c ↦
            let h' = rw (verify_auth_token, e, p, q, c, answer) at h in
            (
              event,
              rw (p, q) refl,
              check_token-IsToken lib action options now event c,
              ground arith,
            )
      ]
    ]
  ]
]
