-- ===== src/Db/Notifications.antt =====
-- packages/db/src/routes/notifications.ts: the log of sent notifications, for bodies whose fields are
-- texts where they are there.
use text.Mathlib.TextPositions.{eq_refl}
use nostr_storage_orchestrat.Common.{
  ℕ, ◌≡◌, ◌≢◌, refl, ◌⊎◌, inl, inr, Bool, true, false, ◌&&◌, Option, none, some, List, [], ◌∷◌,
  ◌++◌, String, any, ◌==◌, string_eq, if◌then◌else◌, arith, eq_iff, Option-cases, Bool-cases, count,
  ◌||◌,
}
use nostr_storage_orchestrat.Db.{
  NotificationLog, Db, TxResult, ok, fail, p2002, Response, success, error,
}

-- A request's body: what is missing is `none`.
pub record NotificationBody : Type 0 where
  pub npub : Option String
  pub kind : Option String
  pub ref : Option String
  pub channel : Option String

-- `!s` for a string that may be missing
abbrev pub truthy : Option String → Option String
truthy none = none
truthy (some s) = if s == "" then none else some s

abbrev same_ref : Option String → Option String → Bool
same_ref (some a) (some b) = a == b
same_ref _ _ = false

-- The unique key (npub, kind, ref, channel), in which a null equals nothing.
unfoldable pub conflicts : NotificationLog → NotificationLog → Bool
conflicts a b =
    a.npub == b.npub && (a.kind == b.kind && (same_ref a.ref b.ref && a.channel == b.channel))

-- `prisma.notificationLog.create`
unfoldable pub create_notification : NotificationLog → Db → TxResult NotificationLog
create_notification row db =
    if any (conflicts row) db.notifications
    then fail p2002
    else ok row (record db { notifications = db.notifications ++ row ∷ [] })

unfoldable pub answer_notification : Db → TxResult NotificationLog → Response NotificationLog × Db
answer_notification db (ok row db') = (success 201 row, db')
answer_notification db (fail p2002) = (error 409 "already_exists", db)
answer_notification db (fail _) = (error 500 "internal_error", db)

-- POST /notifications
unfoldable pub post_notifications : NotificationBody → ℕ → Db → Response NotificationLog × Db
post_notifications body now db = elim (truthy body.npub) [
  | none ↦ (error 400 "invalid_notification", db)
  | some npub ↦ elim (truthy body.kind) [
    | none ↦ (error 400 "invalid_notification", db)
    | some kind ↦ elim (truthy body.channel) [
      | none ↦ (error 400 "invalid_notification", db)
      | some channel ↦ answer_notification db (
          create_notification
            record { npub = npub; kind = kind; ref = body.ref; channel = channel; sent_at = now }
            db)
    ]
  ]
]

-- How many entries of the log conflict with a row.
abbrev pub entries : NotificationLog → List NotificationLog → ℕ
entries row = count (conflicts row)

-- No two entries of the log have one key.
abbrev pub DistinctEntries : List NotificationLog → Type 0
DistinctEntries [] = Unit
DistinctEntries (r ∷ rs) = (any (conflicts r) rs ≡ false) × DistinctEntries rs

same_ref_sym : (a b : Option String) → same_ref a b ≡ same_ref b a
same_ref_sym none none = refl
same_ref_sym none (some b) = refl
same_ref_sym (some a) none = refl
same_ref_sym (some a) (some b) = ground (arith, eq_iff a b, eq_iff b a)

conflicts_sym : (a b : NotificationLog) → conflicts a b ≡ conflicts b a
unfolding conflicts
conflicts_sym a b = ground (
  arith,
  eq_iff a.npub b.npub,
  eq_iff b.npub a.npub,
  eq_iff a.kind b.kind,
  eq_iff b.kind a.kind,
  eq_iff a.channel b.channel,
  eq_iff b.channel a.channel,
  same_ref_sym a.ref b.ref,
)

any-append :
    (row r : NotificationLog) (rs : List NotificationLog)
    → any (conflicts r) (rs ++ row ∷ []) ≡ (any (conflicts r) rs || conflicts r row)
any-append row r [] = ground arith
any-append row r (x ∷ rs) = ground (arith, any-append row r rs)

DistinctEntries-append :
    (row : NotificationLog) (rs : List NotificationLog)
    → DistinctEntries rs
    → any (conflicts row) rs ≡ false
    → DistinctEntries (rs ++ row ∷ [])
DistinctEntries-append row [] h fresh = (refl, tt)
DistinctEntries-append row (r ∷ rs) h fresh =
    ground (arith, any-append row r rs, conflicts_sym r row, DistinctEntries-append row rs h.1)

-- A field that is missing or empty.
abbrev pub IsBlank : Option String → Type 0
IsBlank field = (field ≡ none) ⊎ (field ≡ some "")

-- The entry that a body asks for: its account, kind and channel, which are not empty, its ref and the time.
pub record IsEntry (body : NotificationBody) (now : ℕ) (row : NotificationLog) : Type 0 where
  pub npub : (body.npub ≡ some row.npub) × (row.npub ≢ "")
  pub kind : (body.kind ≡ some row.kind) × (row.kind ≢ "")
  pub channel : (body.channel ≡ some row.channel) × (row.channel ≢ "")
  pub ref : row.ref ≡ body.ref
  pub time : row.sent_at ≡ now

-- What logging a notification did: it was refused for a missing field or for a conflict and changed nothing, or it is the
-- one new entry.
pub data Logs (body : NotificationBody) (now : ℕ) (db : Db) (r : Response NotificationLog × Db)
    : Type 0 where
  incomplete :
      IsBlank body.npub ⊎ IsBlank body.kind ⊎ IsBlank body.channel
      → r ≡ (error 400 "invalid_notification", db)
      → Logs body now db r
  conflicting :
      (row : NotificationLog)
      → IsEntry body now row
      → any (conflicts row) db.notifications ≡ true
      → r ≡ (error 409 "already_exists", db)
      → Logs body now db r
  appended :
      (row : NotificationLog)
      → IsEntry body now row
      → any (conflicts row) db.notifications ≡ false
      → r ≡ (success 201 row, record db { notifications = db.notifications ++ row ∷ [] })
      → Logs body now db r

pub create_cases :
    (row : NotificationLog) (db : Db)
    → ((any (conflicts row) db.notifications ≡ true) × (create_notification row db ≡ fail p2002))
      ⊎ ((any (conflicts row) db.notifications ≡ false)
          × (create_notification row db
              ≡ ok row (record db { notifications = db.notifications ++ row ∷ [] })))
unfolding create_notification
create_cases row db = ground arith

truthy-none : (field : Option String) → truthy field ≡ none → IsBlank field
truthy-none none h = inl refl
truthy-none (some s) h = inr (ground (arith, eq_iff s ""))

truthy-some :
    (field : Option String) (s : String) → truthy field ≡ some s → (field ≡ some s) × (s ≢ "")
truthy-some none s h = cc
truthy-some (some t) s h = elim (Bool-cases (t == "")) [
  | inl e ↦ let h' = rw e at h in cc
  | inr e ↦
      let same : t ≡ s = ground arith in
      (ground arith, λ empty. ground (arith, eq_iff t "", eq_refl t))
]

Logs-logged :
    (body : NotificationBody) (now : ℕ) (row : NotificationLog) (db : Db)
    → IsEntry body now row
    → Logs body now db (answer_notification db (create_notification row db))
unfolding answer_notification
Logs-logged body now row db asked = elim (create_cases row db) [
  | inl (old, e) ↦ conflicting row asked old (rw (e, answer_notification) refl)
  | inr (fresh, e) ↦ appended row asked fresh (rw (e, answer_notification) refl)
]

Logs-DistinctEntries :
    {body : NotificationBody} {now : ℕ} {db : Db} {r : Response NotificationLog × Db}
    → Logs body now db r
    → DistinctEntries db.notifications
    → DistinctEntries (r.1).notifications
Logs-DistinctEntries (incomplete _ e) h = rw e h
Logs-DistinctEntries (conflicting _ _ _ e) h = rw e h
Logs-DistinctEntries {db = db} (appended row _ fresh e) h =
    rw e (DistinctEntries-append row db.notifications h fresh)

posted-Logs :
    (body : NotificationBody) (now : ℕ) (db : Db)
    → Logs body now db (post_notifications body now db)
unfolding post_notifications
posted-Logs body now db = elim (Option-cases (truthy body.npub)) [
  | inl e ↦ incomplete (inl (truthy-none body.npub e)) (rw (post_notifications, e) refl)
  | inr (npub, e) ↦ elim (Option-cases (truthy body.kind)) [
    | inl e' ↦
        incomplete (inr (inl (truthy-none body.kind e'))) (rw (post_notifications, e, e') refl)
    | inr (kind, e') ↦ elim (Option-cases (truthy body.channel)) [
      | inl e'' ↦
          incomplete (inr (inr (truthy-none body.channel e'')))
            (rw (post_notifications, e, e', e'') refl)
      | inr (channel, e'') ↦
          let row : NotificationLog = record {
            npub = npub;
            kind = kind;
            ref = body.ref;
            channel = channel;
            sent_at = now;
          } in
          let asked : IsEntry body now row = record {
            npub = truthy-some body.npub npub e;
            kind = truthy-some body.kind kind e';
            channel = truthy-some body.channel channel e'';
            ref = refl;
            time = refl;
          } in
          let posted : post_notifications body now db
              ≡ answer_notification db (create_notification row db) =
            rw (post_notifications, e, e', e'') refl in
          rw posted (Logs-logged body now row db asked)
    ]
  ]
]

-- Logging a notification into a log of distinct entries keeps them distinct. It is refused with 400 where the account,
-- the kind or the channel is missing or empty, and with 409 where an entry conflicts with the one that the body asks for,
-- both without a change; otherwise the entry, with the body's fields and the time, is appended and answered.
pub post_notifications-Logs :
    (body : NotificationBody) (now : ℕ) (db : Db)
    → DistinctEntries db.notifications
    → DistinctEntries ((post_notifications body now db).1).notifications
      × Logs body now db (post_notifications body now db)
post_notifications-Logs body now db h =
    let logs = posted-Logs body now db in (Logs-DistinctEntries logs h, logs)
