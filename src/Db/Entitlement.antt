-- ===== src/Db/Entitlement.antt =====
-- packages/db/src/entitlement.ts: the parse of an entitlement request, and the new expiry and
-- allowance that it gives an account.
pub mod Calls
pub mod Admission
pub mod Effect
use Prim.Native.Char.{code}
use Prim.Native.String
use nostr_storage_orchestrat.Common.{
  ℕ, max, Bool, true, false, not, ◌&&◌, ◌||◌, Option, none, some, List, [], ◌∷◌, String, length,
  all, leb, ltb, nat_beq, ◌==◌, string_eq, is_some, if◌then◌else◌,
}
use nostr_storage_orchestrat.Common.Int.{ℤ, pos, negsuc, leb_ℤ}
use nostr_storage_orchestrat.Common.Js.{
  Value, undefined, null, bool, num, str, arr, obj, Number, int, not_integer, get, Date, invalid,
  at, date_at, epoch, day_ms, add_days, Runtime,
}
use nostr_storage_orchestrat.Db.{User}

pub data EntitlementMode : Type 0 where
  extend upgrade : EntitlementMode

pub data EntitlementSource : Type 0 where
  payment admin : EntitlementSource

-- `ParsedEntitlementRequest`; `storage_bytes` is its `storageBytesBig`, and the expiry override is
-- kept as the `Date` that `computeEntitlement` makes of it.
pub record ParsedEntitlementRequest : Type 0 where
  pub duration_days : ℕ
  pub storage_bytes : ℤ
  pub source : EntitlementSource
  pub mode : Option EntitlementMode
  pub force : Bool
  pub payment_hash : Option String
  pub plan_expires_at : Option Date

abbrev pub max_duration_days : ℕ
max_duration_days = 36500

-- `EntitlementError`: a status and a code
pub data Parsed {ℓ} (A : Type ℓ) : Type ℓ where
  ok : A → Parsed A
  throw : ℕ → String → Parsed A

infixl 5 ◌>>=◌ ◌>>◌
abbrev pub ◌>>=◌ {ℓ κ} : {A : Type ℓ} {B : Type κ} → Parsed A → (A → Parsed B) → Parsed B
ok a >>= f = f a
throw status code >>= f = throw status code

abbrev pub ◌>>◌ {ℓ} : {B : Type ℓ} → Parsed (Unit {0}) → Parsed B → Parsed B
m >> k = m >>= λ _. k

abbrev pub throw_if : Bool → ℕ → String → Parsed (Unit {0})
throw_if true status code = throw status code
throw_if false status code = ok tt

abbrev is_payment : EntitlementSource → Bool
is_payment payment = true
is_payment admin = false

pub parse_duration : Value → Parsed ℕ
parse_duration (num (int (pos n))) =
    if nat_beq n 0 || ltb max_duration_days n then throw 400 "invalid_duration" else ok n
parse_duration _ = throw 400 "invalid_duration"

pub parse_source : Value → Parsed EntitlementSource
parse_source (str s) =
    if s == "payment"
    then ok payment
    else if s == "admin"
    then ok admin
    else throw 400 "invalid_source"
parse_source _ = throw 400 "invalid_source"

pub parse_storage_bytes : Runtime → Value → Parsed ℤ
parse_storage_bytes js v = elim (js.big_int v) [
  | none ↦ throw 400 "invalid_storage_bytes"
  | some n ↦ if leb_ℤ n (pos 0) then throw 400 "invalid_storage_bytes" else ok n
]

pub parse_mode : Value → Parsed (Option EntitlementMode)
parse_mode undefined = ok none
parse_mode (str s) =
    if s == "extend"
    then ok (some extend)
    else if s == "upgrade"
    then ok (some upgrade)
    else throw 400 "invalid_mode"
parse_mode _ = throw 400 "invalid_mode"

-- `v === true`
abbrev is_true : Value → Bool
is_true (bool b) = b
is_true _ = false

pub parse_force : Value → EntitlementSource → Parsed Bool
parse_force v source =
    if is_true v && not (is_payment source)
    then ok true
    else if is_true v
    then throw 403 "force_requires_admin"
    else ok false

abbrev pub is_hex : ℕ → Bool
is_hex c = leb b'0' c && leb c b'9' || (leb b'a' c && leb c b'f' || leb b'A' c && leb c b'F')

abbrev pub codes : String → List ℕ
codes String.[] = []
codes (String.◌∷◌ c s) = code c ∷ codes s

-- `/^[0-9a-f]{64}$/i.test(s)`
pub is_payment_hash : String → Bool
is_payment_hash s = let cs = codes s in all is_hex cs && nat_beq (length cs) 64

pub parse_payment_hash : Runtime → Value → EntitlementSource → Parsed (Option String)
unfolding is_payment_hash
parse_payment_hash js undefined payment = throw 400 "payment_hash_required"
parse_payment_hash js undefined admin = ok none
parse_payment_hash js (str s) source =
    if is_payment_hash s then ok (some (js.lower_case s)) else throw 400 "invalid_payment_hash"
parse_payment_hash js _ source = throw 400 "invalid_payment_hash"

valid_override : Date → Parsed (Option Date)
valid_override invalid = throw 400 "invalid_plan_expires_at"
valid_override (at t) = ok (some (at t))

pub parse_override : Runtime → Value → EntitlementSource → Parsed (Option Date)
unfolding valid_override
parse_override js undefined source = ok none
parse_override js _ payment = throw 403 "expiry_override_requires_admin"
parse_override js (str s) admin = valid_override (js.date_of s)
parse_override js _ admin = throw 400 "invalid_plan_expires_at"

-- The body below the check of the root, in the order of its checks.
pub parse_body : Runtime → Value → Parsed ParsedEntitlementRequest
unfolding parse_duration parse_source parse_storage_bytes parse_mode parse_force parse_payment_hash
    parse_override
parse_body js b = do
  duration ← parse_duration (get b "durationDays")
  source ← parse_source (get b "source")
  bytes ← parse_storage_bytes js (get b "storageBytes")
  mode ← parse_mode (get b "mode")
  force ← parse_force (get b "force") source
  hash ← parse_payment_hash js (get b "paymentHash") source
  override ← parse_override js (get b "planExpiresAt") source
  ok (record {
    duration_days = duration;
    storage_bytes = bytes;
    source = source;
    mode = mode;
    force = force;
    payment_hash = hash;
    plan_expires_at = override;
  })

-- `parseEntitlementRequest`. An array is an object without any of the keys.
unfoldable pub parse_entitlement_request : Runtime → Value → Parsed ParsedEntitlementRequest
unfolding parse_body
parse_entitlement_request js (obj fields) = parse_body js (obj fields)
parse_entitlement_request js (arr items) = parse_body js (arr items)
parse_entitlement_request js _ = throw 400 "invalid_entitlement"

pub record EntitlementEffect : Type 0 where
  pub plan_expires_at : Date
  pub storage_bytes : Option ℤ

-- `expiry.getTime() > now.getTime()`, for a stored expiry
abbrev pub is_live : Option Date → ℕ → Bool
is_live (some (at e)) now = ltb now e
is_live _ now = false

-- `Math.max(now.getTime(), user.planExpiresAt?.getTime() ?? 0)`, NaN for an Invalid Date
abbrev pub base_time : Option Date → ℕ → Date
base_time none now = at (max now epoch)
base_time (some (at e)) now = at (max now e)
base_time (some invalid) now = invalid

abbrev is_extend : Option EntitlementMode → Bool
is_extend none = true
is_extend (some extend) = true
is_extend (some upgrade) = false

-- `computeEntitlement`: with no mode it extends.
unfoldable pub compute_entitlement : User → ParsedEntitlementRequest → ℕ → Parsed EntitlementEffect
compute_entitlement user request now =
    let live = is_live user.plan_expires_at now in
    let extended = add_days (base_time user.plan_expires_at now) request.duration_days in
    let preserve = is_extend request.mode && live && not request.force in
    if live && not request.force && not (is_some request.mode)
    then throw 409 "mode_required"
    else ok (record {
      plan_expires_at = elim request.plan_expires_at [ none ↦ extended | some d ↦ d ];
      storage_bytes = if preserve then user.storage_bytes else some request.storage_bytes;
    })
