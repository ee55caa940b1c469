-- ===== src/Notifier/Due/Windows.antt =====
-- When an expiry warning is due.
use nostr_storage_orchestrat.Common.{
  ℕ, ◌+◌, ◌*◌, ◌≤◌, ◌<◌, ◌≡◌, ◌≢◌, ◌↔◌, inl, inr, refl, Bool, true, false, ◌&&◌, ◌||◌, Option, none,
  some, List, [], ◌∷◌, ◌++◌, String, any, nat_beq, arith, Bool-cases,
}
use nostr_storage_orchestrat.Common.Int.{ℤ, pos, negsuc}
use nostr_storage_orchestrat.Common.Js.{Date, at, day_ms, Runtime}
use nostr_storage_orchestrat.Lifecycle.{UserStatus, AccessState, days_until}
use nostr_storage_orchestrat.Lifecycle.Days.{days_until_lem}
use nostr_storage_orchestrat.Lifecycle.Config.{LifecycleNotifyConfig}
use nostr_storage_orchestrat.Notifier.Due.{
  expiry_warning, Due, UserInfo, in_days, expiry_warnings, quota_warnings, quota_part, stage_part,
  is_closed, due_notifications,
}

abbrev pub warns : ℕ → Due → Bool
warns days d = elim d.kind [ expiry_warning n ↦ nat_beq days n | _ ↦ false ]

any-append : (p : Due → Bool) (xs ys : List Due) → any p (xs ++ ys) ≡ (any p xs || any p ys)
any-append p [] ys = refl
any-append p (x ∷ xs) ys = ground (arith, any-append p xs ys)

expiry_part :
    (days : ℕ) (ref : String) (expiry now : Date) (list : List ℕ)
    → any (warns days) (expiry_warnings ref expiry now list)
      ≡ (any (nat_beq days) list && in_days (days_until expiry now) days)
unfolding expiry_warnings
expiry_part days ref expiry now [] = refl
expiry_part days ref expiry now (n ∷ list) = elim (Bool-cases (nat_beq days n)) [
  | inl e ↦
      let same : n ≡ days = ground arith in
      rw same (ground (arith, expiry_part days ref expiry now list))
  | inr e ↦ ground (arith, expiry_part days ref expiry now list)
]

quota_none :
    (days : ℕ) (ref : String) (full : ℤ) (list : List ℕ)
    → any (warns days) (quota_warnings ref full list) ≡ false
unfolding quota_warnings
quota_none days ref full [] = refl
quota_none days ref full (n ∷ list) = ground (arith, quota_none days ref full list)

quota_part_none :
    (days : ℕ) (ref : String) (used : ℤ) (list : List ℕ) (allowance : Option ℤ)
    → any (warns days) (quota_part ref used list allowance) ≡ false
quota_part_none days ref used list none = refl
quota_part_none days ref used list (some (negsuc n)) = refl
quota_part_none days ref used list (some (pos n)) = elim (Bool-cases (nat_beq n 0)) [
  | inl e ↦ rw e refl
  | inr e ↦ rw e (quota_none days ref _ list)
]

stage_none :
    (days : ℕ) (ref : String) (s : UserStatus) → any (warns days) (stage_part ref s) ≡ false
stage_none days ref s = ground arith

in_days_iff :
    (e t days : ℕ)
    → (in_days (days_until (at e) (at t)) days ≡ true)
      ↔ ((e ≤ t + days * day_ms) × (t < e + day_ms))
in_days_iff e t days =
    let (n, is_n, within, after) = days_until_lem e t in
    rw is_n (ground (arith, within days, after))

-- For an account with a plan that is not closed, the warning of a number of days is due just where the configuration has
-- that number, the plan expires in at most so many days, and it did not expire a whole day ago.
pub due_notifications_expiry :
    (js : Runtime) (user : UserInfo) (access : AccessState) (notify : LifecycleNotifyConfig)
    (ref : String) (e t days : ℕ)
    → user.plan_expires_at ≡ some ref
    → js.date_of ref ≡ at e
    → access.status ≢ UserStatus.closed
    → (any (warns days) (due_notifications js user access notify (at t)) ≡ true) ↔ (
        (any (nat_beq days) notify.expiry_warning_days ≡ true)
        × (e ≤ t + days * day_ms)
        × (t < e + day_ms))
unfolding due_notifications
due_notifications_expiry js user access notify ref e t days plan date still =
    let running : is_closed access.status ≡ false = ground arith in
    rw (due_notifications, plan, date, running)
      (ground (
        arith,
        any-append (warns days) (expiry_warnings ref (at e) (at t) notify.expiry_warning_days) (
            quota_part ref user.used_storage notify.quota_warning_percent user.storage_bytes
            ++ stage_part ref access.status),
        any-append (warns days)
            (quota_part ref user.used_storage notify.quota_warning_percent user.storage_bytes)
            (stage_part ref access.status),
        expiry_part days ref (at e) (at t) notify.expiry_warning_days,
        quota_part_none days ref user.used_storage notify.quota_warning_percent user.storage_bytes,
        stage_none days ref access.status,
        in_days_iff e t days,
      ))
