-- ===== src/Lifecycle/Stages.antt =====
-- When an account is in which stage: the windows of `derive_access`, and their order in time.
use nostr_storage_orchestrat.Common.{ℕ, ◌+◌, ◌*◌, ◌≤◌, ◌<◌, ◌≡◌, ◌⊎◌, ◌↔◌, true, false, some, arith}
use nostr_storage_orchestrat.Common.Js.{at, day_ms, Runtime}
use nostr_storage_orchestrat.Lifecycle.Config.{LifecycleConfig}
use nostr_storage_orchestrat.Lifecycle.{
  UserStatus, EntitlementDates, is_over_quota, to_date, paid_access, derive_access,
}

-- How far along the lifecycle a status is.
abbrev pub rank : UserStatus → ℕ
rank UserStatus.unpaid = 0
rank UserStatus.active = 1
rank UserStatus.grace = 2
rank UserStatus.write_blocked = 3
rank UserStatus.read_blocked = 4
rank UserStatus.closed = 5

module _ (user : EntitlementDates) (config : LifecycleConfig) where
  abbrev pub grace_end : ℕ → ℕ
  grace_end e = e + config.grace_days * day_ms

  abbrev pub write_end : ℕ → ℕ
  write_end e = grace_end e + config.write_blocked_days * day_ms

  abbrev pub read_end : ℕ → ℕ
  read_end e = write_end e + config.read_blocked_days * day_ms

  abbrev pub Windows : ℕ → ℕ → UserStatus → Type 0
  Windows e t s =
      (s ≡ UserStatus.active ↔ ((t < e) × (is_over_quota user ≡ false)))
      × (s ≡ UserStatus.grace ↔ ((t < grace_end e) × ((e ≤ t) ⊎ (is_over_quota user ≡ true))))
      × (s ≡ UserStatus.write_blocked ↔ ((grace_end e ≤ t) × (t < write_end e)))
      × (s ≡ UserStatus.read_blocked ↔ ((write_end e ≤ t) × (t < read_end e)))
      × (s ≡ UserStatus.closed ↔ (read_end e ≤ t))

  paid-Windows :
      (e t : ℕ)
      → read_end e ≤ 17280000000000000
      → Windows e t (paid_access user (at e) (at t) config).status
  unfolding paid_access
  paid-Windows e t h = ground arith

  -- An account with a valid expiry, where no window ends past the last `Date`, is active until it unless
  -- over quota, in grace from then on (or while over quota) for the grace days, write blocked and then read
  -- blocked for the days of those stages, and closed from the end of the last on: each status holds just in
  -- its window.
  pub derive_access-Windows :
      (js : Runtime) (e t : ℕ)
      → to_date js user.plan_expires_at ≡ some (at e)
      → read_end e ≤ 17280000000000000
      → Windows e t (derive_access js user (at t) config).status
  unfolding derive_access
  derive_access-Windows js e t d h = rw (d, derive_access) (paid-Windows e t h)

  -- Where the grace period would end past the last `Date`, the account is read blocked from its expiry on:
  -- it has no grace, and is never closed.
  pub read_blocked_of_overflow :
      (js : Runtime) (e t : ℕ)
      → to_date js user.plan_expires_at ≡ some (at e)
      → 17280000000000000 < grace_end e
      → e ≤ t
      → (derive_access js user (at t) config).status ≡ UserStatus.read_blocked
  unfolding derive_access paid_access
  read_blocked_of_overflow js e t d h le = rw (d, derive_access) (ground arith)
