-- ===== src/Notifier/Due.antt =====
-- packages/notifier/src/notifications.ts: which notifications an account is due. A kind stands for the code's string, in
-- which the number of days or percent is written out; titles and bodies are left out.
pub mod Windows
use nostr_storage_orchestrat.Common.{
  ℕ, zero, suc, ◌*◌, ◌/◌, Bool, true, false, ◌&&◌, Option, none, some, List, [], ◌∷◌, ◌++◌, String,
  nat_beq, if◌then◌else◌,
}
use nostr_storage_orchestrat.Common.Int.{ℤ, pos, negsuc, leb_ℤ}
use nostr_storage_orchestrat.Common.Js.{Date, Runtime}
use nostr_storage_orchestrat.Lifecycle.{UserStatus, AccessState, days_until}
use nostr_storage_orchestrat.Lifecycle.Config.{LifecycleNotifyConfig}

pub data Kind : Type 0 where
  expiry_warning quota_warning : ℕ → Kind
  grace_entered write_blocked read_blocked : Kind

-- A due notification's kind and `ref`.
pub record Due : Type 0 where
  pub kind : Kind
  pub ref : String

pub record UserInfo : Type 0 where
  pub plan_expires_at : Option String
  pub storage_bytes : Option ℤ
  pub used_storage : ℤ

-- `remaining >= 0 && remaining <= warningDays`, false for NaN
abbrev pub in_days : Option ℤ → ℕ → Bool
in_days none days = false
in_days (some n) days = leb_ℤ (pos 0) n && leb_ℤ n (pos days)

unfoldable pub expiry_warnings : String → Date → Date → List ℕ → List Due
expiry_warnings ref expiry now [] = []
expiry_warnings ref expiry now (days ∷ rest) =
    let later = expiry_warnings ref expiry now rest in
    if in_days (days_until expiry now) days
    then record { kind = expiry_warning days; ref = ref } ∷ later
    else later

abbrev negated : ℕ → ℤ
negated zero = pos 0
negated (suc n) = negsuc n

-- `(used * 100n) / allowance` for a positive allowance; a BigInt division drops the fraction
abbrev percent : ℤ → ℕ → ℤ
percent (pos used) allowance = pos (used * 100 / allowance)
percent (negsuc n) allowance = negated (suc n * 100 / allowance)

unfoldable pub quota_warnings : String → ℤ → List ℕ → List Due
quota_warnings ref full [] = []
quota_warnings ref full (threshold ∷ rest) =
    let later = quota_warnings ref full rest in
    if leb_ℤ (pos threshold) full
    then record { kind = quota_warning threshold; ref = ref } ∷ later
    else later

abbrev pub quota_part : String → ℤ → List ℕ → Option ℤ → List Due
quota_part ref used thresholds none = []
quota_part ref used thresholds (some (pos allowance)) =
    if nat_beq allowance 0 then [] else quota_warnings ref (percent used allowance) thresholds
quota_part ref used thresholds (some (negsuc n)) = []

abbrev pub stage_part : String → UserStatus → List Due
stage_part ref UserStatus.grace = record { kind = grace_entered; ref = ref } ∷ []
stage_part ref UserStatus.write_blocked = record { kind = write_blocked; ref = ref } ∷ []
stage_part ref UserStatus.read_blocked = record { kind = read_blocked; ref = ref } ∷ []
stage_part ref _ = []

abbrev pub is_closed : UserStatus → Bool
is_closed UserStatus.closed = true
is_closed _ = false

-- `dueNotifications`
unfoldable pub due_notifications :
    Runtime → UserInfo → AccessState → LifecycleNotifyConfig → Date → List Due
unfolding expiry_warnings quota_warnings
due_notifications js user access notify now = elim user.plan_expires_at [
  | none ↦ []
  | some ref ↦
      if is_closed access.status
      then []
      else expiry_warnings ref (js.date_of ref) now notify.expiry_warning_days
        ++ (quota_part ref user.used_storage notify.quota_warning_percent user.storage_bytes
            ++ stage_part ref access.status)
]
