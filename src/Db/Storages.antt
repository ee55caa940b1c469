-- ===== src/Db/Storages.antt =====
-- packages/db/src/routes/storages.ts: which providers are active, and the room for new accounts. The bytes that a
-- provider reports are never negative: their writers take digits only.
pub mod Room
use nostr_storage_orchestrat.Common.{
  ℕ, ◌+◌, ◌-◌, ◌*◌, ◌/◌, ◌≤◌, min, max, ◌≡◌, Bool, true, false, ◌&&◌, Option, none, some, List, [],
  ◌∷◌, String, keep, length, ltb, leb, is_some, if◌then◌else◌, arith,
}
use nostr_storage_orchestrat.Common.Int.{pos_part, ◌-ℤ◌}
use nostr_storage_orchestrat.Common.Js.{at, before}
use nostr_storage_orchestrat.Db.{User, Db}

pub data StorageLifecycle : Type 0 where
  linked removed : StorageLifecycle

pub record StorageProvider : Type 0 where
  pub npub : String
  pub tunnel_ip : Option String
  pub blossom_port : Option ℕ
  pub pg_agent_port : Option ℕ
  pub reported_total_bytes : Option ℕ
  pub reported_free_bytes : Option ℕ
  pub lifecycle : StorageLifecycle
  pub last_ping_at : Option ℕ

abbrev pub is_linked : StorageLifecycle → Bool
is_linked linked = true
is_linked removed = false

-- `lastPingAt: { gt: now - window }`
abbrev pinged : ℕ → ℕ → Option ℕ → Bool
pinged now window none = false
pinged now window (some t) = ltb now (t + window)

-- The `where` of GET /storages/active, with the window in milliseconds.
abbrev pub is_active : ℕ → ℕ → StorageProvider → Bool
is_active now window p =
    is_linked p.lifecycle
    && (pinged now window p.last_ping_at && (is_some p.tunnel_ip && is_some p.blossom_port))

-- GET /storages/active
unfoldable pub get_active : ℕ → ℕ → List StorageProvider → List StorageProvider
get_active now window ps = keep (is_active now window) ps

-- GET /storages/active-pg
unfoldable pub get_active_pg : ℕ → ℕ → List StorageProvider → List StorageProvider
get_active_pg now window ps =
    keep
      (λ p.
        is_linked p.lifecycle
        && (pinged now window p.last_ping_at
            && (is_some p.tunnel_ip && (is_some p.blossom_port && is_some p.pg_agent_port))))
      ps

abbrev or_zero : Option ℕ → ℕ
or_zero none = 0
or_zero (some n) = n

abbrev pub free_bytes : List StorageProvider → ℕ
free_bytes [] = 0
free_bytes (p ∷ ps) = or_zero p.reported_free_bytes + free_bytes ps

abbrev pub total_bytes : List StorageProvider → ℕ
total_bytes [] = 0
total_bytes (p ∷ ps) = or_zero p.reported_total_bytes + total_bytes ps

-- `plan_expires_at > now()`
abbrev pub is_paid_up : ℕ → User → Bool
is_paid_up now u = elim u.plan_expires_at [ none ↦ false | some d ↦ before (at now) d ]

-- `GREATEST(storage_bytes - used_storage, 0)`
abbrev pub unused : User → ℕ
unused u = elim u.storage_bytes [ none ↦ 0 | some a ↦ pos_part (a -ℤ u.used_storage) ]

-- The query for the unused part of every live allowance.
abbrev pub committed : ℕ → List User → ℕ
committed now [] = 0
committed now (u ∷ us) =
    let rest = committed now us in if is_paid_up now u then unused u + rest else rest

-- What the environment configures, after `positiveNumber` and `Math.floor`.
pub record CapacityConfig : Type 0 where
  pub active_window_ms : ℕ
  pub replicas : ℕ
  pub count_commitments : Bool
  pub min_free_bytes : ℕ

pub record Capacity : Type 0 where
  pub providers : ℕ
  pub replicas : ℕ
  pub total_bytes : ℕ
  pub free_bytes : ℕ
  pub committed_bytes : ℕ
  pub available_bytes : ℕ
  pub min_free_bytes : ℕ
  pub signups_open : Bool

abbrev pub replicas_of : CapacityConfig → List StorageProvider → ℕ
replicas_of config ps = max 1 (min (max 1 config.replicas) (length ps))

abbrev pub raw_available : CapacityConfig → List StorageProvider → ℕ
raw_available config [] = 0
raw_available config (p ∷ ps) = free_bytes (p ∷ ps) / replicas_of config (p ∷ ps)

abbrev pub available : CapacityConfig → ℕ → ℕ → ℕ
available config raw taken =
    if config.count_commitments then (if ltb taken raw then raw - taken else 0) else raw

abbrev pub is_open : List StorageProvider → ℕ → ℕ → Bool
is_open [] room least = false
is_open (p ∷ ps) room least = leb least room

-- GET /storages/capacity
unfoldable pub get_capacity : CapacityConfig → ℕ → List StorageProvider → Db → Capacity
unfolding get_active
get_capacity config now table db =
    let ps = get_active now config.active_window_ms table in
    let taken = committed now db.users in
    let room = available config (raw_available config ps) taken in
    record {
      providers = length ps;
      replicas = replicas_of config ps;
      total_bytes = total_bytes ps;
      free_bytes = free_bytes ps;
      committed_bytes = taken;
      available_bytes = room;
      min_free_bytes = config.min_free_bytes;
      signups_open = is_open ps room config.min_free_bytes;
    }
