-- ===== src/Lifecycle.antt =====
-- packages/lifecycle/src/state.ts, second half: the access state of an account, derived from its
-- entitlement dates alone. The parsed configuration is in Lifecycle/Config.
pub mod Config
pub mod Stages
pub mod Rights
pub mod Days
use nostr_storage_orchestrat.Common.{
  ℕ, zero, suc, ◌+◌, ◌-◌, ◌/◌, Bool, true, false, Option, none, some, ◌&&◌, String, leb,
  if◌then◌else◌,
}
use nostr_storage_orchestrat.Common.Int.{ℤ, pos, negsuc, ltb_ℤ}
use nostr_storage_orchestrat.Common.Js.{
  Date, invalid, at, add_days, before, not_before, day_ms, Runtime,
}
use Config.{LifecycleConfig}

pub data UserStatus : Type 0 where
  unpaid active grace write_blocked read_blocked closed : UserStatus

pub data Reason : Type 0 where
  unpaid active grace_expired_plan grace_over_quota write_blocked read_blocked closed : Reason

pub record AccessState : Type 0 where
  pub status : UserStatus
  pub can_upload : Bool
  pub can_read : Bool
  pub can_delete : Bool
  pub grace_until : Option Date
  pub write_blocked_until : Option Date
  pub read_blocked_until : Option Date
  pub purge_at : Option Date
  pub reason : Reason

-- `Date | string`
pub data DateInput : Type 0 where
  date : Date → DateInput
  text : String → DateInput

-- `EntitlementDates & { storageBytes }`, the two byte counts after `BigInt(…)`
pub record EntitlementDates : Type 0 where
  pub plan_expires_at : Option DateInput
  pub used_storage : ℤ
  pub storage_bytes : Option ℤ

abbrev pub valid_or_none : Date → Option Date
valid_or_none invalid = none
valid_or_none (at t) = some (at t)

unfoldable pub to_date : Runtime → Option DateInput → Option Date
to_date js none = none
to_date js (some (date d)) = valid_or_none d
to_date js (some (text s)) = valid_or_none (js.date_of s)

abbrev pub is_over_quota : EntitlementDates → Bool
is_over_quota user = elim user.storage_bytes [
  | none ↦ false
  | some allowance ↦ ltb_ℤ allowance user.used_storage
]

abbrev unpaid_access : AccessState
unpaid_access = record {
  status = UserStatus.unpaid;
  can_upload = false;
  can_read = false;
  can_delete = false;
  grace_until = none;
  write_blocked_until = none;
  read_blocked_until = none;
  purge_at = none;
  reason = Reason.unpaid;
}

-- The rest of `deriveAccess`, from `const expiry = …` on.
unfoldable pub paid_access : EntitlementDates → Date → Date → LifecycleConfig → AccessState
paid_access user expiry now config =
    let grace_end = add_days expiry config.grace_days in
    let write_end = add_days grace_end config.write_blocked_days in
    let read_end = add_days write_end config.read_blocked_days in
    let over_quota = is_over_quota user in
    if not_before now read_end
    then record {
      status = UserStatus.closed;
      can_upload = false;
      can_read = false;
      can_delete = false;
      grace_until = some grace_end;
      write_blocked_until = some write_end;
      read_blocked_until = some read_end;
      purge_at = some read_end;
      reason = Reason.closed;
    }
    else if before now expiry
    then (if over_quota
        then record {
          status = UserStatus.grace;
          can_upload = false;
          can_read = true;
          can_delete = true;
          grace_until = some grace_end;
          write_blocked_until = some write_end;
          read_blocked_until = some read_end;
          purge_at = none;
          reason = grace_over_quota;
        }
        else record {
          status = UserStatus.active;
          can_upload = true;
          can_read = true;
          can_delete = true;
          grace_until = none;
          write_blocked_until = none;
          read_blocked_until = none;
          purge_at = none;
          reason = Reason.active;
        })
    else if before now grace_end
    then record {
      status = UserStatus.grace;
      can_upload = false;
      can_read = true;
      can_delete = true;
      grace_until = some grace_end;
      write_blocked_until = some write_end;
      read_blocked_until = some read_end;
      purge_at = none;
      reason = if over_quota then grace_over_quota else grace_expired_plan;
    }
    else if before now write_end
    then record {
      status = UserStatus.write_blocked;
      can_upload = false;
      can_read = true;
      can_delete = true;
      grace_until = some grace_end;
      write_blocked_until = some write_end;
      read_blocked_until = some read_end;
      purge_at = none;
      reason = Reason.write_blocked;
    }
    else record {
      status = UserStatus.read_blocked;
      can_upload = false;
      can_read = false;
      can_delete = true;
      grace_until = some grace_end;
      write_blocked_until = some write_end;
      read_blocked_until = some read_end;
      purge_at = some read_end;
      reason = Reason.read_blocked;
    }

unfoldable pub derive_access : Runtime → EntitlementDates → Date → LifecycleConfig → AccessState
unfolding to_date paid_access
derive_access js user now config = elim (to_date js user.plan_expires_at) [
  | none ↦ unpaid_access
  | some expiry ↦ paid_access user expiry now config
]

-- -n as an integer; `Math.ceil` gives -0 for n = 0, which every comparison takes for 0.
abbrev neg : ℕ → ℤ
neg zero = pos 0
neg (suc n) = negsuc n

-- `Math.ceil((target - now) / DAY_MS)`, `none` for NaN. The quotient of two doubles rounds to the
-- wrong side of an integer only for dates more than 2 ^ 27 days apart.
unfoldable pub days_until : Date → Date → Option ℤ
days_until (at target) (at now) = some (
    if leb now target
    then pos ((target - now + (day_ms - 1)) / day_ms)
    else neg ((now - target) / day_ms))
days_until _ _ = none
