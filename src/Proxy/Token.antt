-- ===== src/Proxy/Token.antt =====
-- proxy/blossom/src/nostr.ts: the authorization tokens of BUD-11.
pub mod Sound
use nostr_storage_orchestrat.Common.{
  ℕ, ◌≤◌, ◌<◌, ◌≡◌, refl, ◌⊎◌, inl, inr, ◌≢◌, Bool, true, false, not, ◌&&◌, ◌||◌, Option, none,
  some, List, [], ◌∷◌, String, keep, any, map, ltb, leb, ◌==◌, string_eq, nat_eq, if◌then◌else◌,
  arith, eq_iff, is_some, Option-cases, Bool-cases,
}
use nostr_storage_orchestrat.Nip98.{NostrEvent, tag_value, is_tag, second}

-- What the code takes from nostr-tools, Node and the language.
pub record TokenLibrary : Type 0 where
  -- the JSON of the base64 after "Nostr ", where it is JSON, as an event, where it has an event's form
  pub parse : String → Option (Option NostrEvent)
  -- whether `verifyEvent` throws a TypeError on that JSON where it has no event's form, as it does on `null`
  pub verify_throws : String → Bool
  pub verify_event : NostrEvent → Bool
  pub npub_encode : String → String
  pub lower_case : String → String
  -- `Number(text)` rounded up, where it is finite and not negative
  pub seconds : String → Option ℕ

pub data AuthError : Type 0 where
  missing_header malformed_header invalid_signature wrong_kind not_in_past no_expiration
        wrong_action :
      AuthError
  hash_mismatch hash_required : AuthError

pub data Verified : Type 0 where
  accepted : String → Verified
  refused : AuthError → Verified
  -- an error that is no `AuthError`
  thrown : Verified

pub record TokenOptions : Type 0 where
  pub hash : Option String
  pub require_hash_scope : Bool

-- `Number(expirationTag)`, where the tag is there and not empty
abbrev pub expires_at : TokenLibrary → NostrEvent → Option ℕ
expires_at lib event = elim (tag_value "expiration" event.tags) [
  | none ↦ none
  | some t ↦ if t == "" then none else lib.seconds t
]

-- `!expirationTag || !Number.isFinite(expiration) || expiration <= now`
abbrev is_over : ℕ → Option ℕ → Bool
is_over now none = true
is_over now (some e) = leb e now

abbrev pub is_action : String → Option String → Bool
is_action action none = false
is_action action (some t) = t == action

-- `tags.filter((t) => t[0] === "x").map((t) => t[1]?.toLowerCase())`
abbrev lowered : TokenLibrary → List String → Option String
lowered lib t = elim (second t) [ none ↦ none | some v ↦ some (lib.lower_case v) ]

abbrev pub x_tags : TokenLibrary → NostrEvent → List (Option String)
x_tags lib event = map (lowered lib) (keep (is_tag "x") event.tags)

abbrev is_hash : String → Option String → Bool
is_hash h none = false
is_hash h (some v) = v == h

abbrev pub includes : String → List (Option String) → Bool
includes h xs = any (is_hash h) xs

-- The checks of the `x` tags; an empty hash is falsy.
abbrev check_unscoped : Bool → List (Option String) → Option AuthError
check_unscoped true [] = some hash_required
check_unscoped _ _ = none

abbrev check_hash : TokenLibrary → String → Bool → List (Option String) → Option AuthError
check_hash lib h required [] = if required then some hash_required else none
check_hash lib h required (x ∷ xs) =
    if includes (lib.lower_case h) (x ∷ xs) then none else some hash_mismatch

unfoldable pub check_scope : TokenLibrary → TokenOptions → List (Option String) → Option AuthError
check_scope lib options xs = elim options.hash [
  | none ↦ check_unscoped options.require_hash_scope xs
  | some h ↦
      if h == ""
      then check_unscoped options.require_hash_scope xs
      else check_hash lib h options.require_hash_scope xs
]

-- The checks after the parse.
unfoldable pub check_token :
    TokenLibrary → String → TokenOptions → ℕ → NostrEvent → Option AuthError
check_token lib action options now event =
    if not (lib.verify_event event)
    then some invalid_signature
    else if not (event.kind == 24242)
    then some wrong_kind
    else if ltb now event.created_at
    then some not_in_past
    else if is_over now (expires_at lib event)
    then some no_expiration
    else if not (is_action action (tag_value "t" event.tags))
    then some wrong_action
    else check_scope lib options (x_tags lib event)

answer : TokenLibrary → NostrEvent → Option AuthError → Verified
answer lib event none = accepted (lib.npub_encode event.pubkey)
answer lib event (some e) = refused e

-- `verifyAuthToken` at `now`, in seconds
unfoldable pub verify_auth_token :
    TokenLibrary → Option String → String → TokenOptions → ℕ → Verified
unfolding answer
verify_auth_token lib none action options now = refused missing_header
verify_auth_token lib (some header) action options now =
    if header == "" then refused missing_header else elim (lib.parse header) [
      | none ↦ refused malformed_header
      | some none ↦ if lib.verify_throws header then thrown else refused invalid_signature
      | some (some event) ↦ answer lib event (check_token lib action options now event)
    ]
