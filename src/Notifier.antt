-- ===== src/Notifier.antt =====
-- packages/notifier/src/scheduler.ts: the delivery of one due notification, over the log of packages/db.
pub mod Once
pub mod Due
use nostr_storage_orchestrat.Common.{
  ℕ, ◌+◌, Bool, true, false, Option, none, some, List, [], ◌∷◌, ◌++◌, String, if◌then◌else◌, ◌==◌,
  nat_eq,
}
use nostr_storage_orchestrat.Db.{NotificationLog, Db, Response, success, error}
use nostr_storage_orchestrat.Db.Notifications.{NotificationBody, post_notifications}

-- What a channel's `send` does: it resolves with "sent" or with something else, or it throws.
pub data SendResult : Type 0 where
  sent skipped threw : SendResult

-- A message that left the notifier, as its notification is logged.
pub record Message : Type 0 where
  pub npub : String
  pub kind : String
  pub ref : String
  pub channel : String

pub record World : Type 0 where
  pub db : Db
  pub outbox : List Message

abbrev pub body_of : Message → NotificationBody
body_of m = record {
  npub = some m.npub;
  kind = some m.kind;
  ref = some m.ref;
  channel = some m.channel;
}

-- packages/db-client: `logNotification`; `none` is a throw
abbrev pub read_answer : Response NotificationLog → Option Bool
read_answer (success status row) = some true
read_answer (error status code) = if status == 409 then some false else none

unfoldable pub log_notification : Message → ℕ → Db → Option Bool × Db
log_notification m now db =
    let (answer, db') = post_notifications (body_of m) now db in (read_answer answer, db')

abbrev after_send : Message → SendResult → World → ℕ × World
after_send m sent w = (1, record w { outbox = w.outbox ++ m ∷ [] })
after_send m skipped w = (0, w)
after_send m threw w = (0, w)

-- What is done once the log has answered.
abbrev pub after_log : Message → SendResult → Option Bool → World → ℕ × World
after_log m outcome none w = (0, w)
after_log m outcome (some false) w = (1, w)
after_log m outcome (some true) w = after_send m outcome w

-- The part of `deliver` for one channel.
unfoldable pub deliver_on : Message → ℕ → SendResult → World → ℕ × World
deliver_on m now outcome w =
    let (logged, db') = log_notification m now w.db in
    after_log m outcome logged (record w { db = db' })

abbrev pub nostr : String
nostr = "nostr"

abbrev pub email : String
email = "email"

pub record DueNotification : Type 0 where
  pub kind : String
  pub ref : String

abbrev pub message : String → DueNotification → String → Message
message npub due channel = record { npub = npub; kind = due.kind; ref = due.ref; channel = channel }

-- Without a key there is no DM sender.
abbrev pub deliver_dm : Option SendResult → String → DueNotification → ℕ → World → ℕ × World
deliver_dm none npub due now w = (0, w)
deliver_dm (some outcome) npub due now w = deliver_on (message npub due nostr) now outcome w

-- `deliver`: by DM where there is a sender, and by e-mail.
unfoldable pub deliver :
    Option SendResult → SendResult → String → DueNotification → ℕ → World → ℕ × World
unfolding deliver_on
deliver dm mail npub due now w =
    let (by_dm, w') = deliver_dm dm npub due now w in
    let (by_mail, w'') = deliver_on (message npub due email) now mail w' in (by_dm + by_mail, w'')
