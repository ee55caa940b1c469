-- ===== src/Tests/Lifecycles.antt =====
-- Examples of the lifecycle's theorems.
use nostr_storage_orchestrat.Common.{ℕ, ◌+◌, ◌*◌, ◌≤◌, ◌<◌, ◌≡◌, refl, ◌↔◌, some, arith}
use nostr_storage_orchestrat.Common.Int.{ℤ, pos, ◌≤ℤ◌}
use nostr_storage_orchestrat.Common.Js.{Value, obj, field, end, num, int, at, day_ms}
use nostr_storage_orchestrat.Lifecycle.{
  UserStatus, EntitlementDates, date, to_date, derive_access, days_until,
}
use nostr_storage_orchestrat.Lifecycle.Config.{
  LifecycleConfig, default_lifecycle_config, parse_lifecycle_config,
}
use nostr_storage_orchestrat.Lifecycle.Config.Laws.{Reads, parse_lifecycle_config-Reads}
use nostr_storage_orchestrat.Lifecycle.Days.{days_until_lem}
use nostr_storage_orchestrat.Lifecycle.Rights.{HasRights, derive_access-HasRights}
use nostr_storage_orchestrat.Lifecycle.Stages.{
  Windows, derive_access-Windows, read_blocked_of_overflow,
}
use nostr_storage_orchestrat.Tests.Data.{small_js, today}

abbrev paid : EntitlementDates
paid = record {
  plan_expires_at = some (date (at today));
  used_storage = pos 10;
  storage_bytes = some (pos 100);
}

-- ten days after the expiry
abbrev later : ℕ
later = today + 10 * day_ms

-- the end of the retention window
abbrev purge_day : ℕ
purge_day = today + 67 * day_ms

derive_access-Windows_example :
    Windows paid default_lifecycle_config today later
      (derive_access small_js paid (at later) default_lifecycle_config).status
unfolding to_date
derive_access-Windows_example =
    derive_access-Windows paid default_lifecycle_config small_js today later refl (omega arith)

derive_access-HasRights_example :
    HasRights (derive_access small_js paid (at later) default_lifecycle_config)
derive_access-HasRights_example =
    derive_access-HasRights paid (at later) default_lifecycle_config small_js

abbrev long_grace : LifecycleConfig
long_grace = record default_lifecycle_config { grace_days = 200000000 }

read_blocked_of_overflow_example :
    (derive_access small_js paid (at later) long_grace).status ≡ UserStatus.read_blocked
unfolding to_date
read_blocked_of_overflow_example =
    read_blocked_of_overflow paid long_grace small_js today later refl (omega arith) (omega arith)

abbrev grace_file : Value
grace_file = obj (field "graceDays" (num (int (pos 3))) end)

abbrev grace_config : LifecycleConfig
grace_config = record default_lifecycle_config { grace_days = 3 }

parse_lifecycle_config-Reads_example : Reads grace_file grace_config
unfolding parse_lifecycle_config
parse_lifecycle_config-Reads_example = parse_lifecycle_config-Reads grace_file grace_config refl

days_until_lem_example :
    (n : ℤ) × (days_until (at later) (at today) ≡ some n)
    × ((d : ℕ) → (n ≤ℤ pos d) ↔ (later ≤ today + d * day_ms))
    × ((pos 0 ≤ℤ n) ↔ (today < later + day_ms))
days_until_lem_example = days_until_lem later today
