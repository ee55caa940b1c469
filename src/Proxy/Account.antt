-- ===== src/Proxy/Account.antt =====
-- proxy/blossom/src/index.ts: who makes a request, and what the account may do. A handler runs at one time; `now` counts
-- as `Date` does here, in milliseconds from the earliest `Date`.
use Prim.Native.String.{◌++◌ as push_str}
use nostr_storage_orchestrat.Common.{
  ℕ, ◌-◌, ◌/◌, Bool, true, false, Option, none, some, List, String, ltb, ◌||◌, string_eq,
  if◌then◌else◌, ◌+◌,
}
use nostr_storage_orchestrat.Common.Int.{pos}
use nostr_storage_orchestrat.Common.Js.{at, epoch, Runtime}
use nostr_storage_orchestrat.Lifecycle.{
  UserStatus, Reason, AccessState, date, EntitlementDates, derive_access,
}
use nostr_storage_orchestrat.Lifecycle.Config.{LifecycleConfig}
use nostr_storage_orchestrat.Db.{User}
use nostr_storage_orchestrat.Proxy.Token.{
  TokenLibrary, TokenOptions, AuthError, missing_header, malformed_header, invalid_signature,
  wrong_kind, not_in_past, no_expiration, wrong_action, hash_mismatch, hash_required, Verified,
  accepted, refused as denied, thrown, verify_auth_token,
}
use nostr_storage_orchestrat.Proxy.Access.{Cached, lookup, get_user as cached_user, invalidate}
use nostr_storage_orchestrat.Proxy.Client.{Answer, answer, unreachable, get_user}
use nostr_storage_orchestrat.Proxy.World.{World, Network}
use nostr_storage_orchestrat.Proxy.Handler.{
  AccessError, Reply, refused, next, done, Handler, ◌>>=◌, pure, or_throw,
}

-- The proxy's configuration, and what it takes from its libraries.
pub record Service : Type 0 where
  pub js : Runtime
  pub lib : TokenLibrary
  pub config : LifecycleConfig
  pub ttl : ℕ
  pub replica_count : ℕ
  pub sha256 : List ℕ → String

-- `error.status` and `error.message`
abbrev pub auth_status : AuthError → ℕ
auth_status malformed_header = 400
auth_status _ = 401

abbrev pub auth_message : String → AuthError → String
auth_message action missing_header = "Missing Authorization header"
auth_message action malformed_header = "Malformed Authorization event"
auth_message action invalid_signature = "Invalid Nostr signature"
auth_message action wrong_kind = "Authorization event must be kind 24242"
auth_message action not_in_past = "Authorization event created_at must be in the past"
auth_message action no_expiration = "Authorization event is missing a valid future expiration tag"
auth_message action wrong_action =
    push_str "Authorization event must have a \"t\" tag of \"" (push_str action "\"")
auth_message action hash_mismatch =
    "Authorization event's \"x\" tag does not match the target blob hash"
auth_message action hash_required =
    "Authorization event must include an \"x\" tag for the target blob hash"

-- The account, `sendAuthError`, or the answer to any other error.
abbrev pub or_auth_error : {R : Type 0} → Reply R → String → Verified → Handler R String
or_auth_error failed action thrown w = (done failed, w)
or_auth_error failed action (accepted npub) w = (next npub, w)
or_auth_error failed action (denied e) w =
    (done (refused (auth_status e) (auth_message action e)), w)

abbrev pub seconds : ℕ → ℕ
seconds now = (now - epoch) / 1000

-- `verifyAuthToken`, whose error is the answer
unfoldable pub authorize :
    {R : Type 0} → Reply R → Service → ℕ → Option String → String → TokenOptions → Handler R String
authorize failed s now header action options =
    or_auth_error failed action (verify_auth_token s.lib header action options (seconds now))

-- `unpaidUser`
abbrev pub unpaid_user : String → User
unpaid_user npub = record {
  npub = npub;
  plan_expires_at = none;
  storage_bytes = none;
  used_storage = pos 0;
  created_at = epoch;
}

abbrev dates_of : User → EntitlementDates
dates_of u = record {
  plan_expires_at = elim u.plan_expires_at [ none ↦ none | some d ↦ some (date d) ];
  used_storage = u.used_storage;
  storage_bytes = u.storage_bytes;
}

-- `withAccess`
unfoldable pub with_access : Service → ℕ → User → AccessState
with_access s now u = derive_access s.js (dates_of u) (at now) s.config

abbrev pub or_unpaid : String → Option User → User
or_unpaid npub none = unpaid_user npub
or_unpaid npub (some u) = u

-- A missing account is an unpaid one.
abbrev pub derived :
    {R : Type 0} → Service → ℕ → String → Option User → Handler R (User × AccessState)
derived s now npub u = pure (or_unpaid npub u, with_access s now (or_unpaid npub u))

-- `accessCache.get(npub)`: a read that throws leaves the cache as it is, and one that the cache serves
-- does not throw.
abbrev is_young : ℕ → ℕ → Option Cached → Bool
is_young ttl now none = false
is_young ttl now (some hit) = ltb now (hit.at + ttl)

abbrev known : Answer (Option User) → Option User
known (answer u) = u
known _ = none

unfoldable pub read_cached : Service → Network → String → ℕ → World → Answer (Option User) × World
read_cached s net npub now w =
    let db = λ (t : ℕ) (n : String). known (get_user true n w.db) in
    let (u, cache) = cached_user s.ttl db npub now w.cache in
    if is_young s.ttl now (lookup npub w.cache)
    then (answer u, w)
    else if net.account_read npub
    then (answer u, record w { cache = cache })
    else (unreachable, w)

-- `loadAccess(npub)`
unfoldable pub load_access :
    {R : Type 0} → Reply R → Service → Network → String → ℕ → Handler R (User × AccessState)
unfolding read_cached
load_access failed s net npub now w =
    let (u, w') = read_cached s net npub now w in (or_throw failed u >>= derived s now npub) w'

-- `loadAccess(npub, true)`
unfoldable pub load_fresh :
    {R : Type 0} → Reply R → Service → Network → String → ℕ → Handler R (User × AccessState)
load_fresh failed s net npub now w =
    (or_throw failed (get_user net.account_reread npub w.db) >>= derived s now npub)
      (record w { cache = invalidate npub w.cache })

-- `loadAccess` and `loadAccessForDenialCheck`
unfoldable pub load_for_upload :
    {R : Type 0} → Reply R → Service → Network → String → ℕ → Handler R (User × AccessState)
unfolding load_access load_fresh
load_for_upload failed s net npub now = do
  (user, access) ← load_access failed s net npub now
  if access.can_upload then pure (user, access) else load_fresh failed s net npub now

-- `invalidate` on the handler's cache
abbrev pub forget : {R : Type 0} → String → Handler R (Unit {0})
forget npub w = (next tt, record w { cache = invalidate npub w.cache })

abbrev is_over : Reason → Bool
is_over Reason.grace_over_quota = true
is_over _ = false

access_code : AccessState → String
access_code access =
    if is_over access.reason
    then "quota_exceeded"
    else if access.can_upload
    then "quota_exceeded"
    else elim access.status [
      | UserStatus.unpaid ↦ "unpaid"
      | UserStatus.closed ↦ "account_closed"
      | UserStatus.grace ↦ "grace_expired"
      | UserStatus.write_blocked ↦ "write_blocked"
      | _ ↦ "read_blocked"
    ]

-- `sendAccessError`
unfoldable pub access_error : User → AccessState → AccessError
unfolding access_code
access_error user access = record {
  code = access_code access;
  status = access.status;
  action = if is_over access.reason || access.can_upload then "delete_or_upgrade" else "upgrade";
  used_storage = user.used_storage;
  storage_bytes = user.storage_bytes;
}

-- `{ ...access, canUpload: false, reason: "grace_over_quota" }`
abbrev pub over_quota : AccessState → AccessState
over_quota access = record access { can_upload = false; reason = Reason.grace_over_quota }

-- `STATUS_ERROR_CODES`
unfoldable pub status_error_code : UserStatus → String
status_error_code UserStatus.unpaid = "unpaid"
status_error_code UserStatus.active = "active"
status_error_code UserStatus.grace = "grace"
status_error_code UserStatus.write_blocked = "write_blocked"
status_error_code UserStatus.read_blocked = "read_blocked"
status_error_code UserStatus.closed = "account_closed"
