-- ===== src/Db/Entitlement/Admission.antt =====
-- Which entitlement requests `parse_entitlement_request` lets through.
use nostr_storage_orchestrat.Common.{
  ℕ, ◌≡◌, refl, ◌≤◌, ◌≢◌, Bool, true, false, Option, none, some, String, is_some, eq_iff, string_eq,
  arith,
}
use nostr_storage_orchestrat.Common.Int.{ℤ, pos, ◌≤ℤ◌}
use nostr_storage_orchestrat.Common.Js.{
  Value, undefined, bool, num, str, arr, obj, int, get, Date, invalid, at, Runtime,
}
use nostr_storage_orchestrat.Db.Entitlement.{
  EntitlementMode, extend, upgrade, EntitlementSource, payment, admin, ParsedEntitlementRequest, ok,
  parse_duration, parse_source, parse_storage_bytes, parse_mode, parse_force, is_payment_hash,
  parse_payment_hash, valid_override, parse_override, parse_entitlement_request,
}
use nostr_storage_orchestrat.Db.Entitlement.Calls.{Calls, parse_body-Calls}

-- What a payment may not carry: it cannot force, nor set the expiry, and it names its hash.
abbrev pub IsPaid : ParsedEntitlementRequest → Type 0
IsPaid r = (r.force ≡ false) × (r.plan_expires_at ≡ none) × (is_some r.payment_hash ≡ true)

-- The text that each source and each mode is written as.
abbrev pub IsSource : Value → EntitlementSource → Type 0
IsSource v payment = v ≡ str "payment"
IsSource v admin = v ≡ str "admin"

abbrev pub IsMode : Value → Option EntitlementMode → Type 0
IsMode v none = v ≡ undefined
IsMode v (some extend) = v ≡ str "extend"
IsMode v (some upgrade) = v ≡ str "upgrade"

-- A request that was let through, against the body that it was read from.
pub record IsAdmitted (js : Runtime) (b : Value) (r : ParsedEntitlementRequest) : Type 0 where
  pub duration : get b "durationDays" ≡ num (int (pos r.duration_days))
  pub some_days : 1 ≤ r.duration_days
  pub within_century : r.duration_days ≤ 36500
  pub bytes : js.big_int (get b "storageBytes") ≡ some r.storage_bytes
  pub some_bytes : pos 1 ≤ℤ r.storage_bytes
  pub hash :
      (h : String)
      → r.payment_hash ≡ some h
      → (s : String) × (get b "paymentHash" ≡ str s)
        × (is_payment_hash s ≡ true)
        × (h ≡ js.lower_case s)
  pub override : (r.plan_expires_at ≡ some invalid) → ⊥
  pub source : IsSource (get b "source") r.source
  pub mode : IsMode (get b "mode") r.mode
  pub forced : r.force ≡ true → get b "force" ≡ bool true
  pub expiry :
      (d : Date)
      → r.plan_expires_at ≡ some d
      → (s : String) × (get b "planExpiresAt" ≡ str s) × (d ≡ js.date_of s)
  pub paid : r.source ≡ payment → IsPaid r

read_duration :
    (v : Value) (n : ℕ) → parse_duration v ≡ ok n → (v ≡ num (int (pos n))) × (1 ≤ n) × (n ≤ 36500)
unfolding parse_duration
read_duration (num (int (pos k))) n h = ground arith
read_duration _ n h = cc

read_bytes :
    (js : Runtime) (v : Value) (n : ℤ)
    → parse_storage_bytes js v ≡ ok n
    → (js.big_int v ≡ some n) × (pos 1 ≤ℤ n)
unfolding parse_storage_bytes
read_bytes js v n h = ground arith

read_hash :
    (js : Runtime) (v : Value) (source : EntitlementSource) (h : String)
    → parse_payment_hash js v source ≡ ok (some h)
    → (s : String) × (v ≡ str s) × (is_payment_hash s ≡ true) × (h ≡ js.lower_case s)
unfolding parse_payment_hash
read_hash js (str s) source h e = (s, refl, ground arith, ground arith)
read_hash js undefined payment h e = cc
read_hash js undefined admin h e = cc
read_hash js _ source h e = cc

hash_required :
    (js : Runtime) (v : Value) (h : Option String)
    → parse_payment_hash js v payment ≡ ok h
    → is_some h ≡ true
unfolding parse_payment_hash
hash_required js undefined h e = cc
hash_required js (str s) h e = ground arith
hash_required js _ h e = cc

valid_override-ok : (d : Date) (o : Option Date) → valid_override d ≡ ok o → o ≢ some invalid
unfolding valid_override
valid_override-ok invalid o e = cc
valid_override-ok (at t) o e = ground arith

override_valid :
    (js : Runtime) (v : Value) (source : EntitlementSource) (o : Option Date)
    → parse_override js v source ≡ ok o
    → o ≢ some invalid
unfolding parse_override
override_valid js undefined source o e = ground arith
override_valid js (str s) admin o e = valid_override-ok (js.date_of s) o e
override_valid js _ payment o e = cc
override_valid js _ admin o e = cc

no_override :
    (js : Runtime) (v : Value) (o : Option Date) → parse_override js v payment ≡ ok o → o ≡ none
unfolding parse_override
no_override js undefined o e = ground arith
no_override js _ o e = cc

no_force : (v : Value) (f : Bool) → parse_force v payment ≡ ok f → f ≡ false
unfolding parse_force
no_force v f h = ground arith

parse_source-IsSource : (v : Value) (s : EntitlementSource) → parse_source v ≡ ok s → IsSource v s
unfolding parse_source
parse_source-IsSource (str t) payment h = ground (arith, eq_iff t "payment", eq_iff t "admin")
parse_source-IsSource (str t) admin h = ground (arith, eq_iff t "payment", eq_iff t "admin")
parse_source-IsSource _ s h = cc

parse_mode-IsMode : (v : Value) (m : Option EntitlementMode) → parse_mode v ≡ ok m → IsMode v m
unfolding parse_mode
parse_mode-IsMode undefined none h = refl
parse_mode-IsMode undefined (some m) h = cc
parse_mode-IsMode (str t) none h = ground arith
parse_mode-IsMode (str t) (some extend) h = ground (arith, eq_iff t "extend", eq_iff t "upgrade")
parse_mode-IsMode (str t) (some upgrade) h = ground (arith, eq_iff t "extend", eq_iff t "upgrade")
parse_mode-IsMode _ m h = cc

read_force :
    (v : Value) (source : EntitlementSource) → parse_force v source ≡ ok true → v ≡ bool true
unfolding parse_force
read_force (bool f) source h = ground arith
read_force _ source h = cc

read_override :
    (js : Runtime) (v : Value) (source : EntitlementSource) (d : Date)
    → parse_override js v source ≡ ok (some d)
    → (s : String) × (v ≡ str s) × (d ≡ js.date_of s)
unfolding parse_override valid_override
read_override js undefined source d h = cc
read_override js (str s) admin d h = (s, refl, date_of_override (js.date_of s) d h)
  where
    date_of_override : (e d : Date) → valid_override e ≡ ok (some d) → d ≡ e
    date_of_override invalid d h = cc
    date_of_override (at t) d h = ground arith
read_override js _ payment d h = cc
read_override js _ admin d h = cc

Calls-IsAdmitted :
    (js : Runtime) (b : Value) (r : ParsedEntitlementRequest) → Calls js b r → IsAdmitted js b r
Calls-IsAdmitted js b r c =
    let (duration, some_days, within_century) = read_duration _ r.duration_days c.duration in
    let (bytes, some_bytes) = read_bytes js _ r.storage_bytes c.bytes in
    record {
      duration = duration;
      some_days = some_days;
      within_century = within_century;
      bytes = bytes;
      some_bytes = some_bytes;
      hash = λ h e. read_hash js (get b "paymentHash") r.source h (rw (← e) c.hash);
      override = override_valid js _ r.source r.plan_expires_at c.override;
      source = parse_source-IsSource _ r.source c.source;
      mode = parse_mode-IsMode _ r.mode c.mode;
      forced = λ e. read_force _ r.source (rw e at c.force);
      expiry = λ d e. read_override js _ r.source d (rw (← e) c.override);
      paid = λ e. (
        no_force (get b "force") r.force (rw (← e) c.force),
        no_override js (get b "planExpiresAt") r.plan_expires_at (rw (← e) c.override),
        hash_required js (get b "paymentHash") r.payment_hash (rw (← e) c.hash),
      );
    }

-- A request is let through only with a whole number of days from 1 to 36500 and a positive allowance,
-- as its body gives them; a payment hash is the lower case of the 64 hex digits of the body; an expiry
-- override is the valid date that the body's text gives; the source and the mode are those that the body names, with no
-- mode where it names none; it forces only where the body says true; and a payment has a hash, and neither forces nor
-- overrides the expiry.
pub parse_entitlement_request-IsAdmitted :
    (js : Runtime) (b : Value) (r : ParsedEntitlementRequest)
    → parse_entitlement_request js b ≡ ok r
    → IsAdmitted js b r
unfolding parse_entitlement_request
parse_entitlement_request-IsAdmitted js (obj fs) r e =
    Calls-IsAdmitted js _ r (parse_body-Calls js _ r e)
parse_entitlement_request-IsAdmitted js (arr vs) r e =
    Calls-IsAdmitted js _ r (parse_body-Calls js _ r e)
parse_entitlement_request-IsAdmitted js _ r e = cc
