-- ===== src/Lifecycle/Config/Laws.antt =====
-- What a parsed lifecycle configuration guarantees.
use mathlib.Core.List.{Perm}
use mathlib.Core.List.Perm
use nostr_storage_orchestrat.Common.{
  ℕ, ◌≤◌, ◌<◌, ◌≡◌, refl, ap, ◌⊎◌, inl, inr, Bool, true, false, some, List, [], ◌∷◌, String, leb,
  All, keep, Bool-cases, Option-cases, arith,
}
use nostr_storage_orchestrat.Common.Int.{pos}
use nostr_storage_orchestrat.Common.Js.{
  Value, undefined, null, bool, num, arr, obj, Items, nil, cons, int, get,
}
use nostr_storage_orchestrat.Lifecycle.Config.{
  LifecycleConfig, LifecycleNotifyConfig, grace_field, parse_notify, default_lifecycle_config,
  Parsed, ok, throw, ◌>>=◌, positive_int, non_negative_items, insert_desc, sort_desc,
  positive_int_array, purge_flag, parse_fields, parse_lifecycle_config,
}

-- Largest first.
abbrev pub IsDescending : List ℕ → Type 0
IsDescending [] = Unit
IsDescending (n ∷ ns) = All (λ m. m ≤ n) ns × IsDescending ns

All-insert_desc :
    (b n : ℕ) (ns : List ℕ) → n ≤ b → All (λ m. m ≤ b) ns → All (λ m. m ≤ b) (insert_desc n ns)
unfolding insert_desc
All-insert_desc b n [] h hs = (h, tt)
All-insert_desc b n (m ∷ ns) h hs = ground (arith, All-insert_desc b n ns h hs.1)

All-le_mono : (a b : ℕ) (ns : List ℕ) → a ≤ b → All (λ m. m ≤ a) ns → All (λ m. m ≤ b) ns
All-le_mono a b [] h hs = tt
All-le_mono a b (m ∷ ns) h hs = (omega arith, All-le_mono a b ns h hs.1)

insert_desc-IsDescending : (n : ℕ) (ns : List ℕ) → IsDescending ns → IsDescending (insert_desc n ns)
unfolding insert_desc
insert_desc-IsDescending n [] h = (tt, tt)
insert_desc-IsDescending n (m ∷ ns) h =
    ground (arith, insert_desc-IsDescending n ns h.1, All-insert_desc m n ns, All-le_mono m n ns)

sort_desc-IsDescending : (ns : List ℕ) → IsDescending (sort_desc ns)
unfolding sort_desc
sort_desc-IsDescending [] = tt
sort_desc-IsDescending (n ∷ ns) =
    insert_desc-IsDescending n (sort_desc ns) (sort_desc-IsDescending ns)

insert_desc-perm : (n : ℕ) (ns : List ℕ) → Perm (insert_desc n ns) (n ∷ ns)
unfolding insert_desc
insert_desc-perm n [] = Perm.rfl
insert_desc-perm n (m ∷ ns) = elim (Bool-cases (leb m n)) [
  | inl e ↦ rw e Perm.rfl
  | inr e ↦ rw e (Perm.trans (Perm.cons m (insert_desc-perm n ns)) (Perm.swap n m ns))
]

sort_desc-perm : (ns : List ℕ) → Perm (sort_desc ns) ns
unfolding sort_desc
sort_desc-perm [] = Perm.rfl
sort_desc-perm (n ∷ ns) =
    Perm.trans (insert_desc-perm n (sort_desc ns)) (Perm.cons n (sort_desc-perm ns))

-- A key that is missing or null.
abbrev pub IsAbsent : Value → Type 0
IsAbsent v = (v ≡ undefined) ⊎ (v ≡ null)

abbrev pub ReadsInt : Value → ℕ → ℕ → Type 0
ReadsInt v fallback n = (IsAbsent v × (n ≡ fallback)) ⊎ (v ≡ num (int (pos n)))

abbrev pub number_items : List ℕ → Items
number_items [] = nil
number_items (n ∷ ns) = cons (num (int (pos n))) (number_items ns)

abbrev pub ReadsArray : Value → List ℕ → List ℕ → Type 0
ReadsArray v fallback ns =
    (IsAbsent v × (ns ≡ fallback))
    ⊎ ((ms : List ℕ) × (v ≡ arr (number_items ms)) × Perm ns ms × IsDescending ns)

positive_int-ReadsInt :
    (v : Value) (name : String) (fallback n : ℕ)
    → positive_int v name fallback ≡ ok n
    → ReadsInt v fallback n
unfolding positive_int
positive_int-ReadsInt undefined name f n h = ground arith
positive_int-ReadsInt (num (int (pos k))) name f n h = ground arith
positive_int-ReadsInt _ name f n h = ground arith

non_negative_items-number_items :
    (items : Items) (ns : List ℕ) → non_negative_items items ≡ some ns → items ≡ number_items ns
unfolding non_negative_items
non_negative_items-number_items nil ns h = ground arith
non_negative_items-number_items (cons (num (int (pos k))) rest) ns h =
    elim (Option-cases (non_negative_items rest)) [
      | inl e ↦ ground arith
      | inr (ms, e) ↦
          let split : k ∷ ms ≡ ns = ground arith in
          rw (← split) (ap (cons (num (int (pos k)))) (non_negative_items-number_items rest ms e))
    ]
non_negative_items-number_items (cons _ rest) ns h = cc

positive_int_array-ReadsArray :
    (v : Value) (name : String) (fallback ns : List ℕ)
    → positive_int_array v name fallback ≡ ok ns
    → ReadsArray v fallback ns
unfolding positive_int_array
positive_int_array-ReadsArray undefined name f ns h = ground arith
positive_int_array-ReadsArray (arr items) name f ns h =
    elim (Option-cases (non_negative_items items)) [
      | inl e ↦ ground arith
      | inr (ms, e) ↦
          let sorted : sort_desc ms ≡ ns = ground arith in
          inr (
            ms,
            ap arr (non_negative_items-number_items items ms e),
            rw (← sorted) (sort_desc-perm ms),
            rw (← sorted) (sort_desc-IsDescending ms),
          )
    ]
positive_int_array-ReadsArray _ name f ns h = ground arith

abbrev is_ok {ℓ} : {A : Type ℓ} → Parsed A → Bool
is_ok (ok a) = true
is_ok (throw e) = false

Parsed-cases {ℓ} : {A : Type ℓ} (m : Parsed A) → is_ok m ≡ true → (a : A) × (m ≡ ok a)
Parsed-cases (ok a) h = (a, refl)
Parsed-cases (throw e) h = cc

-- The percentages, above which none is kept beyond 100.
abbrev pub ReadsQuota : Value → List ℕ → Type 0
ReadsQuota v qs =
    (ps : List ℕ) × ReadsArray (get v "quotaWarningPercent") (80 ∷ 100 ∷ []) ps
    × (qs ≡ keep (λ p. leb p 100) ps)

-- Each field of the configuration is read from its key, or is the default where that is absent.
pub record Reads (v : Value) (c : LifecycleConfig) : Type 0 where
  pub grace : ReadsInt (get v "graceDays") 7 c.grace_days
  pub write : ReadsInt (get v "writeBlockedDays") 30 c.write_blocked_days
  pub read : ReadsInt (get v "readBlockedDays") 30 c.read_blocked_days
  pub purge :
      ((get v "purgeEnabled" ≡ undefined) × (c.purge_enabled ≡ false))
      ⊎ (get v "purgeEnabled" ≡ bool c.purge_enabled)
  pub expiry :
      ReadsArray
        (get (get v "notify") "expiryWarningDays")
        (14 ∷ 3 ∷ 1 ∷ [])
        c.notify.expiry_warning_days
  pub quota : ReadsQuota (get v "notify") c.notify.quota_warning_percent
  pub positive : 0 < c.grace_days

purge_flag-ok :
    (v : Value) (b : Bool) → purge_flag v ≡ ok b → ((v ≡ undefined) × (b ≡ false)) ⊎ (v ≡ bool b)
unfolding purge_flag
purge_flag-ok undefined b h = ground arith
purge_flag-ok (bool x) b h = ground arith
purge_flag-ok _ b h = cc

grace_field-ok :
    (r : Value) (n : ℕ)
    → grace_field r ≡ ok n
    → (positive_int (get r "graceDays") "graceDays" 7 ≡ ok n) × (0 < n)
unfolding grace_field
grace_field-ok r n h = ground arith

parse_notify-ok :
    (v : Value) (n : LifecycleNotifyConfig)
    → parse_notify v ≡ ok n
    → ReadsArray (get v "expiryWarningDays") (14 ∷ 3 ∷ 1 ∷ []) n.expiry_warning_days
      × ReadsQuota v n.quota_warning_percent
unfolding parse_notify
parse_notify-ok v n h =
    let percents =
      positive_int_array (get v "quotaWarningPercent") "notify.quotaWarningPercent"
        (80 ∷ 100 ∷ []) in
    let (ps, e) = Parsed-cases percents (ground arith) in
    (
      positive_int_array-ReadsArray _ "notify.expiryWarningDays" _ _ (ground arith),
      (ps, positive_int_array-ReadsArray _ "notify.quotaWarningPercent" _ ps e, ground arith),
    )

-- The calls that `parse_fields` makes, where none of them throws.
record Calls (g w b : Parsed ℕ) (p : Parsed Bool) (n : Parsed LifecycleNotifyConfig)
    (c : LifecycleConfig) : Type 0 where
  grace : g ≡ ok c.grace_days
  write : w ≡ ok c.write_blocked_days
  read : b ≡ ok c.read_blocked_days
  purge : p ≡ ok c.purge_enabled
  notify : n ≡ ok c.notify

fields-Calls :
    (g w b : Parsed ℕ) (p : Parsed Bool) (n : Parsed LifecycleNotifyConfig) (c : LifecycleConfig)
    → (do
      grace ← g
      write ← w
      read ← b
      purge ← p
      notify ← n
      ok (record {
        grace_days = grace;
        write_blocked_days = write;
        read_blocked_days = read;
        purge_enabled = purge;
        notify = notify;
      }))
      ≡ ok c
    → Calls g w b p n c
fields-Calls (ok g) (ok w) (ok b) (ok p) (ok n) c h = ground arith
fields-Calls _ _ _ _ _ c h = cc

parse_fields-Reads : (r : Value) (c : LifecycleConfig) → parse_fields r ≡ ok c → Reads r c
unfolding parse_fields
parse_fields-Reads r c h =
    let calls =
      fields-Calls (grace_field r) (positive_int (get r "writeBlockedDays") "writeBlockedDays" 30)
        (positive_int (get r "readBlockedDays") "readBlockedDays" 30)
        (purge_flag (get r "purgeEnabled")) (parse_notify (get r "notify")) c h in
    let (grace, positive) = grace_field-ok r c.grace_days calls.grace in
    let (expiry, quota) = parse_notify-ok (get r "notify") c.notify calls.notify in
    record {
      grace = positive_int-ReadsInt _ "graceDays" 7 c.grace_days grace;
      write = positive_int-ReadsInt _ "writeBlockedDays" 30 c.write_blocked_days calls.write;
      read = positive_int-ReadsInt _ "readBlockedDays" 30 c.read_blocked_days calls.read;
      purge = purge_flag-ok _ c.purge_enabled calls.purge;
      expiry = expiry;
      quota = quota;
      positive = positive;
    }

default-Reads :
    (v : Value) (c : LifecycleConfig)
    → ((k : String) → get v k ≡ undefined)
    → default_lifecycle_config ≡ c
    → Reads v c
default-Reads v c h e = rw (← e) (record {
  grace = inl (inl (h _), refl);
  write = inl (inl (h _), refl);
  read = inl (inl (h _), refl);
  purge = inl (h _, refl);
  expiry = inl (inl (ap (λ w. get w "expiryWarningDays") (h "notify")), refl);
  quota =
      (80 ∷ 100 ∷ [], inl (inl (ap (λ w. get w "quotaWarningPercent") (h "notify")), refl), refl);
  positive = omega arith;
})

-- An accepted configuration is read field by field: each value is the non-negative integer, the flag
-- or the array of non-negative integers that its key holds (an array sorted largest first, with
-- percentages above 100 then dropped), or the default where the key is absent; a `notify` that is no mapping
-- is read as one without keys, and not refused; and the grace period is positive.
pub parse_lifecycle_config-Reads :
    (v : Value) (c : LifecycleConfig) → parse_lifecycle_config v ≡ ok c → Reads v c
unfolding parse_lifecycle_config
parse_lifecycle_config-Reads (obj fields) c h = parse_fields-Reads (obj fields) c h
parse_lifecycle_config-Reads undefined c h = default-Reads undefined c (λ k. refl) (ground arith)
parse_lifecycle_config-Reads null c h = default-Reads null c (λ k. refl) (ground arith)
parse_lifecycle_config-Reads _ c h = cc
