-- ===== src/Lifecycle/Days.antt =====
-- `days_until` against the dates that it counts between.
use nostr_storage_orchestrat.Common.{ℕ, ◌+◌, ◌*◌, ◌≤◌, ◌<◌, ◌≡◌, refl, ◌↔◌, some, arith}
use nostr_storage_orchestrat.Common.Int.{ℤ, pos, ◌≤ℤ◌}
use nostr_storage_orchestrat.Common.Js.{at, day_ms}
use nostr_storage_orchestrat.Lifecycle.{days_until}

-- The days left are the least number of days that reaches from now to the target: at most d days are
-- left just where the target is at most d days away, and the count is non-negative just where the
-- target is less than a day past.
pub days_until_lem :
    (target now : ℕ)
    → (n : ℤ) × (days_until (at target) (at now) ≡ some n)
      × ((d : ℕ) → (n ≤ℤ pos d) ↔ (target ≤ now + d * day_ms))
      × ((pos 0 ≤ℤ n) ↔ (now < target + day_ms))
unfolding days_until
days_until_lem target now = (_, refl, λ d. ground arith, ground arith)
