-- ===== src/Lifecycle/Config.antt =====
-- packages/lifecycle/src/state.ts, first half: the lifecycle configuration and its validation.
pub mod Laws
use nostr_storage_orchestrat.Common.{
  ℕ, Bool, true, false, Option, none, some, List, [], ◌∷◌, String, leb, nat_beq, keep,
  if◌then◌else◌,
}
use nostr_storage_orchestrat.Common.Int.{ℤ, pos, negsuc}
use nostr_storage_orchestrat.Common.Js.{
  Value, undefined, null, bool, num, str, arr, obj, Items, nil, cons, int, not_integer, get,
}

pub record LifecycleNotifyConfig : Type 0 where
  pub expiry_warning_days : List ℕ
  pub quota_warning_percent : List ℕ

pub record LifecycleConfig : Type 0 where
  pub grace_days : ℕ
  pub write_blocked_days : ℕ
  pub read_blocked_days : ℕ
  pub purge_enabled : Bool
  pub notify : LifecycleNotifyConfig

abbrev pub default_lifecycle_config : LifecycleConfig
default_lifecycle_config = record {
  grace_days = 7;
  write_blocked_days = 30;
  read_blocked_days = 30;
  purge_enabled = false;
  notify = record { expiry_warning_days = 14 ∷ 3 ∷ 1 ∷ []; quota_warning_percent = 80 ∷ 100 ∷ [] };
}

-- What a parse throws, by the field that its message names.
pub data ConfigError : Type 0 where
  root_not_mapping : ConfigError
  not_non_negative_integer : String → ConfigError
  not_integer_array : String → ConfigError
  not_positive : String → ConfigError
  not_boolean : String → ConfigError

pub data Parsed {ℓ} (A : Type ℓ) : Type ℓ where
  ok : A → Parsed A
  throw : ConfigError → Parsed A

infixl 5 ◌>>=◌
abbrev pub ◌>>=◌ {ℓ κ} : {A : Type ℓ} {B : Type κ} → Parsed A → (A → Parsed B) → Parsed B
ok a >>= f = f a
throw e >>= f = throw e

positive_int : Value → String → ℕ → Parsed ℕ
positive_int undefined name fallback = ok fallback
positive_int null name fallback = ok fallback
positive_int (num (int (pos n))) name fallback = ok n
positive_int _ name fallback = throw (not_non_negative_integer name)

-- The elements, if each is a non-negative integer.
non_negative_items : Items → Option (List ℕ)
non_negative_items nil = some []
non_negative_items (cons (num (int (pos n))) rest) = elim (non_negative_items rest) [
  | none ↦ none
  | some ns ↦ some (n ∷ ns)
]
non_negative_items (cons _ rest) = none

-- `sort((a, b) => b - a)`: descending, and stable.
insert_desc : ℕ → List ℕ → List ℕ
insert_desc n [] = n ∷ []
insert_desc n (m ∷ ms) = let rest = insert_desc n ms in if leb m n then n ∷ m ∷ ms else m ∷ rest

unfoldable pub sort_desc : List ℕ → List ℕ
unfolding insert_desc
sort_desc [] = []
sort_desc (n ∷ ns) = insert_desc n (sort_desc ns)

positive_int_array : Value → String → List ℕ → Parsed (List ℕ)
unfolding non_negative_items sort_desc
positive_int_array undefined name fallback = ok fallback
positive_int_array null name fallback = ok fallback
positive_int_array (arr items) name fallback = elim (non_negative_items items) [
  | none ↦ throw (not_integer_array name)
  | some ns ↦ ok (sort_desc ns)
]
positive_int_array _ name fallback = throw (not_integer_array name)

-- the test of `purgeEnabled`, and its value
purge_flag : Value → Parsed Bool
purge_flag undefined = ok default_lifecycle_config.purge_enabled
purge_flag (bool b) = ok b
purge_flag _ = throw (not_boolean "purgeEnabled")

-- `graceDays`, which must be positive too
grace_field : Value → Parsed ℕ
unfolding positive_int
grace_field r = do
  grace ← positive_int (get r "graceDays") "graceDays" default_lifecycle_config.grace_days
  if nat_beq grace 0 then throw (not_positive "graceDays") else ok grace

-- The two arrays. `notify` counts only where it is an object: on any other value `get` is
-- `undefined`, as `rawNotify?.[…]` is.
parse_notify : Value → Parsed LifecycleNotifyConfig
unfolding positive_int_array
parse_notify raw = do
  expiry_days ←
      positive_int_array (get raw "expiryWarningDays") "notify.expiryWarningDays"
        default_lifecycle_config.notify.expiry_warning_days
  percents ←
      positive_int_array (get raw "quotaWarningPercent") "notify.quotaWarningPercent"
        default_lifecycle_config.notify.quota_warning_percent
  ok (record {
    expiry_warning_days = expiry_days;
    quota_warning_percent = keep (λ p. leb p 100) percents;
  })

-- The body below the checks of the root.
parse_fields : Value → Parsed LifecycleConfig
unfolding positive_int grace_field purge_flag parse_notify
parse_fields r = do
  grace ← grace_field r
  write_days ←
      positive_int (get r "writeBlockedDays") "writeBlockedDays"
        default_lifecycle_config.write_blocked_days
  read_days ←
      positive_int (get r "readBlockedDays") "readBlockedDays"
        default_lifecycle_config.read_blocked_days
  purge ← purge_flag (get r "purgeEnabled")
  notify ← parse_notify (get r "notify")
  ok (record {
    grace_days = grace;
    write_blocked_days = write_days;
    read_blocked_days = read_days;
    purge_enabled = purge;
    notify = notify;
  })

unfoldable pub parse_lifecycle_config : Value → Parsed LifecycleConfig
unfolding parse_fields
parse_lifecycle_config undefined = ok default_lifecycle_config
parse_lifecycle_config null = ok default_lifecycle_config
parse_lifecycle_config (obj fields) = parse_fields (obj fields)
parse_lifecycle_config _ = throw root_not_mapping
