-- ===== src/Notifier/Once.antt =====
-- A notification is sent once at most, and not at all where its first send fails.
use text.Mathlib.TextPositions.{eq_refl}
use nostr_storage_orchestrat.Common.{
  ℕ, ◌≡◌, sym, refl, ◌⊎◌, inl, inr, ◌≢◌, true, false, some, List, [], ◌∷◌, ◌++◌, any, arith, eq_iff,
  All, All-mono, All-append, string_eq,
}
use nostr_storage_orchestrat.Db.{NotificationLog, Db}
use nostr_storage_orchestrat.Db.Notifications.{
  conflicts, create_notification, answer_notification, post_notifications, create_cases,
}
use nostr_storage_orchestrat.Notifier.{
  SendResult, sent, skipped, threw, Message, World, body_of, log_notification, after_log,
  deliver_on,
}

-- The log's entry for a message.
abbrev pub entry : Message → ℕ → NotificationLog
entry m now = record {
  npub = m.npub;
  kind = m.kind;
  ref = some m.ref;
  channel = m.channel;
  sent_at = now;
}

-- What the log takes: a message with an account, a kind and a channel.
abbrev pub IsAddressed : Message → Type 0
IsAddressed m = (m.npub ≢ "") × (m.kind ≢ "") × (m.channel ≢ "")

abbrev pub IsLogged : Message → Db → Type 0
IsLogged m db = any (conflicts (entry m 0)) db.notifications ≡ true

posted :
    (m : Message) (now : ℕ) (db : Db)
    → IsAddressed m
    → post_notifications (body_of m) now db
      ≡ answer_notification db (create_notification (entry m now) db)
unfolding post_notifications
posted m now db a =
    ground (arith, a.0, a.1, a.2, eq_iff m.npub "", eq_iff m.kind "", eq_iff m.channel "")

entry_time :
    (m : Message) (now : ℕ) (rs : List NotificationLog)
    → any (conflicts (entry m now)) rs ≡ any (conflicts (entry m 0)) rs
unfolding conflicts
entry_time m now [] = refl
entry_time m now (r ∷ rs) = ground (arith, entry_time m now rs)

-- The world with a message in its log.
abbrev with_entry : Message → ℕ → World → World
with_entry m now w = record w {
  db = record (w.db) { notifications = w.db.notifications ++ entry m now ∷ [] };
}

-- The log refuses a message that it holds, and takes any other.
logging :
    (m : Message) (now : ℕ) (db : Db)
    → IsAddressed m
    → (IsLogged m db × (log_notification m now db ≡ (some false, db)))
      ⊎ ((any (conflicts (entry m 0)) db.notifications ≡ false)
          × (log_notification m now db
              ≡ (some true, record db { notifications = db.notifications ++ entry m now ∷ [] })))
unfolding log_notification answer_notification
logging m now db a = elim (create_cases (entry m now) db) [
  | inl (h, e) ↦ inl (
    ground (arith, entry_time m now db.notifications),
    rw (log_notification, posted m now db a, e, answer_notification) refl,
  )
  | inr (h, e) ↦ inr (
    ground (arith, entry_time m now db.notifications),
    rw (log_notification, posted m now db a, e, answer_notification) refl,
  )
]

self_logged :
    (m : Message) (now : ℕ) (rs : List NotificationLog)
    → any (conflicts (entry m 0)) (rs ++ entry m now ∷ []) ≡ true
unfolding conflicts
self_logged m now [] =
    ground (arith, eq_refl m.npub, eq_refl m.kind, eq_refl m.ref, eq_refl m.channel)
self_logged m now (r ∷ rs) = ground (arith, self_logged m now rs)

stays_logged :
    (m : Message) (e : NotificationLog) (rs : List NotificationLog)
    → any (conflicts (entry m 0)) rs ≡ true
    → any (conflicts (entry m 0)) (rs ++ e ∷ []) ≡ true
stays_logged m e [] h = cc
stays_logged m e (r ∷ rs) h = ground (arith, stays_logged m e rs)

-- One delivery on a channel: the message was logged before and nothing happens, or it is logged now and what the channel
-- does with it is all that will be.
pub delivery :
    (m : Message) (now : ℕ) (outcome : SendResult) (w : World)
    → IsAddressed m
    → (IsLogged m w.db × (deliver_on m now outcome w ≡ (1, w)))
      ⊎ ((any (conflicts (entry m 0)) w.db.notifications ≡ false)
          × (deliver_on m now outcome w ≡ after_log m outcome (some true) (with_entry m now w)))
unfolding deliver_on
delivery m now outcome w a = elim (logging m now w.db a) [
  | inl (h, e) ↦ inl (h, rw (deliver_on, e) refl)
  | inr (h, e) ↦ inr (h, rw (deliver_on, e) refl)
]

delivered-IsLogged :
    (m : Message) (now : ℕ) (outcome : SendResult) (w : World)
    → IsAddressed m
    → IsLogged m ((deliver_on m now outcome w).1).db
delivered-IsLogged m now outcome w a = elim (delivery m now outcome w a) [
  | inl (h, e) ↦ rw e h
  | inr (h, e) ↦ rw e (logged_after outcome)
]
  where
    logged_after :
        (o : SendResult) → IsLogged m ((after_log m o (some true) (with_entry m now w)).1).db
    logged_after sent = self_logged m now w.db.notifications
    logged_after skipped = self_logged m now w.db.notifications
    logged_after threw = self_logged m now w.db.notifications

-- The deliveries of several passes, in their order.
pub record Delivery : Type 0 where
  pub what : Message
  pub time : ℕ
  pub outcome : SendResult

unfoldable pub deliver_each : List Delivery → World → World
deliver_each [] w = w
deliver_each (d ∷ ds) w = deliver_each ds ((deliver_on d.what d.time d.outcome w).1)

abbrev pub Other : Message → Message → Type 0
Other m x = x ≢ m

-- No message is in the outbox twice.
abbrev pub UniqueMessages : List Message → Type 0
UniqueMessages [] = Unit
UniqueMessages (m ∷ ms) = All (Other m) ms × UniqueMessages ms

-- What left the notifier left it once, and is in the log.
pub record IsOnce (w : World) : Type 0 where
  pub logged : All (λ m. IsLogged m w.db) w.outbox
  pub unique : UniqueMessages w.outbox

UniqueMessages-append :
    (m : Message) (ms : List Message)
    → UniqueMessages ms
    → All (Other m) ms
    → UniqueMessages (ms ++ m ∷ [])
UniqueMessages-append m [] u a = (tt, tt)
UniqueMessages-append m (x ∷ ms) u a =
    (All-append (Other x) ms m u.0 (λ e. a.0 (sym e)), UniqueMessages-append m ms u.1 a.1)

delivered-IsOnce :
    (m : Message) (now : ℕ) (o : SendResult) (w : World)
    → any (conflicts (entry m 0)) w.db.notifications ≡ false
    → IsOnce w
    → IsOnce ((after_log m o (some true) (with_entry m now w)).1)
delivered-IsOnce m now o w fresh i = go o
  where
    kept : All (λ x. IsLogged x (with_entry m now w).db) w.outbox
    kept =
        All-mono (λ x. IsLogged x w.db) (λ x. IsLogged x (with_entry m now w).db) w.outbox
          (λ x h. stays_logged x (entry m now) w.db.notifications h) i.logged

    others : All (Other m) w.outbox
    others =
        All-mono (λ x. IsLogged x w.db) (Other m) w.outbox (λ x h e. ground (arith, e)) i.logged

    go : (o : SendResult) → IsOnce ((after_log m o (some true) (with_entry m now w)).1)
    go sent = record {
      logged =
          All-append (λ x. IsLogged x (with_entry m now w).db) w.outbox m kept
            (self_logged m now w.db.notifications);
      unique = UniqueMessages-append m w.outbox i.unique others;
    }
    go skipped = record { logged = kept; unique = i.unique }
    go threw = record { logged = kept; unique = i.unique }

-- From an outbox of different messages that the log holds, however many passes deliver however
-- many messages with an account, a kind and a channel, and whatever the channels do with them, no
-- message is in the outbox twice and the log holds all of them.
pub deliver_each-IsOnce :
    (ds : List Delivery) (w : World)
    → All (λ d. IsAddressed d.what) ds
    → IsOnce w
    → IsOnce (deliver_each ds w)
unfolding deliver_each
deliver_each-IsOnce [] w a i = i
deliver_each-IsOnce (d ∷ ds) w a i =
    deliver_each-IsOnce ds ((deliver_on d.what d.time d.outcome w).1) a.1
      (elim (delivery d.what d.time d.outcome w a.0) [
        | inl (h, e) ↦ rw e i
        | inr (h, e) ↦ rw e (delivered-IsOnce d.what d.time d.outcome w h i)
      ])

IsLogged-after :
    (x : Message) (d : Delivery) (w : World)
    → IsAddressed d.what
    → IsLogged x w.db
    → IsLogged x ((deliver_on d.what d.time d.outcome w).1).db
IsLogged-after x d w a h = elim (delivery d.what d.time d.outcome w a) [
  | inl (_, e) ↦ rw e h
  | inr (_, e) ↦ rw e (stays d.outcome)
]
  where
    stays :
        (o : SendResult)
        → IsLogged x ((after_log d.what o (some true) (with_entry d.what d.time w)).1).db
    stays sent = stays_logged x (entry d.what d.time) w.db.notifications h
    stays skipped = stays_logged x (entry d.what d.time) w.db.notifications h
    stays threw = stays_logged x (entry d.what d.time) w.db.notifications h

IsLogged-each :
    (x : Message) (ds : List Delivery) (w : World)
    → All (λ d. IsAddressed d.what) ds
    → IsLogged x w.db
    → IsLogged x (deliver_each ds w).db
unfolding deliver_each
IsLogged-each x [] w a h = h
IsLogged-each x (d ∷ ds) w a h =
    IsLogged-each x ds ((deliver_on d.what d.time d.outcome w).1) a.1 (IsLogged-after x d w a.0 h)

-- A message with an account, a kind and a channel that was delivered once on its channel is not sent
-- again, even where its first send failed, whatever such messages are delivered in between: a later
-- delivery counts it as delivered and changes nothing.
pub deliver_on_again :
    (m : Message) (now later : ℕ) (first second : SendResult) (between : List Delivery) (w : World)
    → IsAddressed m
    → All (λ d. IsAddressed d.what) between
    → deliver_on m later second (deliver_each between ((deliver_on m now first w).1))
      ≡ (1, deliver_each between ((deliver_on m now first w).1))
deliver_on_again m now later first second between w a addressed =
    elim (delivery m later second (deliver_each between ((deliver_on m now first w).1)) a) [
      | inl (h, e) ↦ e
      | inr (h, e) ↦
          let logged =
            IsLogged-each m between ((deliver_on m now first w).1) addressed
              (delivered-IsLogged m now first w a) in
          cc
    ]
