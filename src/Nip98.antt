-- ===== src/Nip98.antt =====
-- packages/nip98/src/verify.ts: HTTP requests signed by a Nostr event, and the cache of the events that were used.
pub mod Replay
pub mod SingleUse
use nostr_storage_orchestrat.Common.{
  ℕ, ◌+◌, ◌*◌, ◌/◌, Bool, true, false, not, ◌||◌, Option, none, some, List, [], ◌∷◌, ◌++◌, String,
  keep, any, find, ltb, ◌==◌, string_eq, nat_eq, if◌then◌else◌,
}
use nostr_storage_orchestrat.Common.Js.{Value}
use nostr_storage_orchestrat.Common.Utf8.{strip_slashes}

-- What `verifyEvent` has checked: an event's times are seconds, its tags are lists of texts.
pub record NostrEvent : Type 0 where
  pub id : String
  pub pubkey : String
  pub created_at : ℕ
  pub kind : ℕ
  pub tags : List (List String)

pub data Body : Type 0 where
  no_body : Body
  buffer : List ℕ → Body
  json : Value → Body

pub record Nip98Request : Type 0 where
  pub authorization : Option String
  pub method : String
  -- `${req.protocol}://${host}${req.originalUrl}`
  pub derived_url : String
  pub body : Body

-- What the code takes from nostr-tools, Node and the language.
pub record Library : Type 0 where
  -- the JSON of the base64 after "Nostr ", where it is JSON, as an event, where it has an event's form
  pub parse : String → Option (Option NostrEvent)
  -- whether `verifyEvent` throws a TypeError on that JSON where it has no event's form, as it does on `null`
  pub verify_throws : String → Bool
  pub verify_event : NostrEvent → Bool
  pub npub_encode : String → String
  pub upper_case : String → String
  pub lower_case : String → String
  -- the hexadecimal SHA-256
  pub sha256 : Body → String

pub data Nip98Error : Type 0 where
  missing_header malformed_header invalid_signature wrong_kind outside_window tags_mismatch :
      Nip98Error
  url_mismatch payload_mismatch already_used : Nip98Error

abbrev pub status : Nip98Error → ℕ
status malformed_header = 400
status _ = 401

pub record Signer : Type 0 where
  pub pubkey : String
  pub npub : String

pub data Verified : Type 0 where
  signer : Signer → Verified
  refused : Nip98Error → Verified
  -- an error that is no `Nip98Error`
  thrown : Verified

pub record VerifyOptions : Type 0 where
  pub expected_url : Option String
  pub max_skew_seconds : ℕ

-- `createInMemoryReplayCache`: the ids with the times at which they were used.
abbrev pub Seen : Type 0
Seen = List (String × ℕ)

abbrev pub is_id : String → String × ℕ → Bool
is_id id e = e.0 == id

-- `now - at > DEFAULT_SKEW * 2`
abbrev pub is_stale : ℕ → String × ℕ → Bool
is_stale now e = ltb (e.1 + 300 * 2) now

unfoldable pub remember : String → ℕ → Seen → Bool × Seen
remember id now seen =
    let live = keep (λ e. not (is_stale now e)) seen in
    if any (is_id id) live then (false, live) else (true, live ++ (id, now) ∷ [])

abbrev pub is_tag : String → List String → Bool
is_tag name [] = false
is_tag name (t ∷ ts) = t == name

abbrev pub second : List String → Option String
second (t ∷ v ∷ vs) = some v
second _ = none

-- `tags.find((t) => t[0] === name)?.[1]`
abbrev pub tag_value : String → List (List String) → Option String
tag_value name tags = elim (find (is_tag name) tags) [ none ↦ none | some t ↦ second t ]

-- `Math.abs(now - created) > skew`
abbrev pub outside : ℕ → ℕ → ℕ → Bool
outside now created skew = ltb (created + skew) now || ltb (now + skew) created

abbrev method_matches : Library → String → Option String → Bool
method_matches lib method none = false
method_matches lib method (some m) = lib.upper_case m == lib.upper_case method

abbrev same_url : String → String → Bool
same_url a b = strip_slashes a == strip_slashes b

abbrev expected : Option String → String → Bool
expected none u = false
expected (some url) u = same_url url u

abbrev payload_matches : Library → Body → Option String → Bool
payload_matches lib body none = true
payload_matches lib body (some p) = if p == "" then true else lib.sha256 body == lib.lower_case p

-- The checks of `verifyNip98` after the signature's, up to the replay cache's.
unfoldable pub check_event :
    Library → VerifyOptions → Nip98Request → ℕ → NostrEvent → Option Nip98Error
check_event lib options req now event =
    if not (event.kind == 27235)
    then some wrong_kind
    else if outside now event.created_at options.max_skew_seconds
    then some outside_window
    else elim (tag_value "u" event.tags) [
      | none ↦ some tags_mismatch
      | some u ↦
          if u == "" || not (method_matches lib req.method (tag_value "method" event.tags))
          then some tags_mismatch
          else if not (same_url req.derived_url u || expected options.expected_url u)
          then some url_mismatch
          else if not (payload_matches lib req.body (tag_value "payload" event.tags))
          then some payload_mismatch
          else none
    ]

use_event : Library → ℕ → NostrEvent → Seen → Verified × Seen
use_event lib now event seen =
    let (fresh, seen') = remember event.id now seen in
    if fresh
    then (signer record { pubkey = event.pubkey; npub = lib.npub_encode event.pubkey }, seen')
    else (refused already_used, seen')

-- What `verifyNip98` does with a parsed event.
unfoldable pub verify_parsed :
    Library → VerifyOptions → Nip98Request → ℕ → NostrEvent → Seen → Verified × Seen
unfolding use_event
verify_parsed lib options req now event seen =
    if not (lib.verify_event event)
    then (refused invalid_signature, seen)
    else elim (check_event lib options req now event) [
      | some e ↦ (refused e, seen)
      | none ↦ use_event lib now event seen
    ]

-- `verifyNip98` at `now`, in seconds
unfoldable pub verify_nip98 : Library → VerifyOptions → Nip98Request → ℕ → Seen → Verified × Seen
unfolding verify_parsed
verify_nip98 lib options req now seen = elim req.authorization [
  | none ↦ (refused missing_header, seen)
  | some raw ↦ if raw == "" then (refused missing_header, seen) else elim (lib.parse raw) [
    | none ↦ (refused malformed_header, seen)
    | some none ↦ (if lib.verify_throws raw then thrown else refused invalid_signature, seen)
    | some (some event) ↦ verify_parsed lib options req now event seen
  ]
]

-- `verifyNip98(req)` with the default options, at a time in milliseconds
abbrev pub verify_now : Library → Nip98Request → ℕ → Seen → Verified × Seen
verify_now lib req now seen =
    verify_nip98 lib record { expected_url = none; max_skew_seconds = 300 } req (now / 1000) seen
