-- ===== src/Tests/Messages.antt =====
-- Examples of the theorems on notifications.
use nostr_storage_orchestrat.Common.Int.{pos}
use nostr_storage_orchestrat.Common.{◌≢◌, arith, ◌≡◌, refl, none, some, List, [], ◌∷◌}
use nostr_storage_orchestrat.Db.{empty}
use nostr_storage_orchestrat.Db.Notifications.{
  NotificationBody, DistinctEntries, Logs, post_notifications, post_notifications-Logs,
}
use nostr_storage_orchestrat.Notifier.{Message, World, sent, threw, nostr, email, deliver_on}
use nostr_storage_orchestrat.Notifier.Once.{
  Delivery, IsAddressed, IsOnce, deliver_on_again, deliver_each, deliver_each-IsOnce,
}
use nostr_storage_orchestrat.Tests.Data.{differ}
use nostr_storage_orchestrat.Common.{◌+◌, ◌-◌, ◌*◌, ◌≤◌, ◌<◌, ◌↔◌, true, any, nat_beq}
use nostr_storage_orchestrat.Common.Js.{at, day_ms}
use nostr_storage_orchestrat.Lifecycle.{UserStatus, Reason, AccessState}
use nostr_storage_orchestrat.Lifecycle.Config.{default_lifecycle_config}
use nostr_storage_orchestrat.Notifier.Due.{UserInfo, due_notifications}
use nostr_storage_orchestrat.Notifier.Due.Windows.{warns, due_notifications_expiry}
use nostr_storage_orchestrat.Tests.Data.{small_js, today}

abbrev warning : Message
warning = record { npub = "alice"; kind = "expiry_warning_3"; ref = "2026-01-01"; channel = nostr }

abbrev quiet : World
quiet = record { db = empty; outbox = [] }

warning-IsAddressed : IsAddressed warning
warning-IsAddressed =
    (differ "alice" "" refl, differ "expiry_warning_3" "" refl, differ nostr "" refl)

abbrev by_mail : Message
by_mail = record warning { channel = email }

by_mail-IsAddressed : IsAddressed by_mail
by_mail-IsAddressed =
    (differ "alice" "" refl, differ "expiry_warning_3" "" refl, differ email "" refl)

abbrev mails : List Delivery
mails = record { what = by_mail; time = 1; outcome = sent } ∷ []

deliver_on_again_example :
    deliver_on warning 2 sent (deliver_each mails ((deliver_on warning 1 threw quiet).1))
    ≡ (1, deliver_each mails ((deliver_on warning 1 threw quiet).1))
deliver_on_again_example =
    deliver_on_again warning 1 2 threw sent mails quiet warning-IsAddressed
      (by_mail-IsAddressed, tt)

abbrev passes : List Delivery
passes =
    record { what = warning; time = 1; outcome = sent }
    ∷ record { what = by_mail; time = 1; outcome = threw }
    ∷ record { what = warning; time = 2; outcome = sent }
    ∷ []

deliver_each-IsOnce_example : IsOnce (deliver_each passes quiet)
deliver_each-IsOnce_example =
    deliver_each-IsOnce passes quiet
      (warning-IsAddressed, (by_mail-IsAddressed, (warning-IsAddressed, tt)))
      record { logged = tt; unique = tt }

abbrev body : NotificationBody
body = record { npub = some "alice"; kind = some "purged"; ref = none; channel = some "email" }

post_notifications-Logs_example :
    DistinctEntries ((post_notifications body 5 empty).1).notifications
    × Logs body 5 empty (post_notifications body 5 empty)
post_notifications-Logs_example = post_notifications-Logs body 5 empty tt

abbrev alice_info : UserInfo
alice_info = record {
  plan_expires_at = some "2026";
  storage_bytes = some (pos 100);
  used_storage = pos 10;
}

abbrev active_access : AccessState
active_access = record {
  status = UserStatus.active;
  can_upload = true;
  can_read = true;
  can_delete = true;
  grace_until = none;
  write_blocked_until = none;
  read_blocked_until = none;
  purge_at = none;
  reason = Reason.active;
}

active_is_not_closed : active_access.status ≢ UserStatus.closed
active_is_not_closed = ground arith

due_notifications_expiry_example :
    (any (warns 3) (
        due_notifications small_js alice_info active_access default_lifecycle_config.notify
          (at (today - 2 * day_ms)))
      ≡ true)
    ↔ ((any (nat_beq 3) (14 ∷ 3 ∷ 1 ∷ []) ≡ true)
        × (today ≤ today - 2 * day_ms + 3 * day_ms)
        × (today - 2 * day_ms < today + day_ms))
due_notifications_expiry_example =
    due_notifications_expiry small_js alice_info active_access default_lifecycle_config.notify
      "2026" today (today - 2 * day_ms) 3 refl refl active_is_not_closed
