-- ===== src/Db/Storages/Room.antt =====
-- Open signups leave room for all that live accounts may still store.
use nostr_storage_orchestrat.Common.{
  ℕ, suc, ◌+◌, ◌*◌, ◌≤◌, ◌<◌, ◌≡◌, ◌⊎◌, none, some, List, [], ◌∷◌, String,
}
use nostr_storage_orchestrat.Common.Int.{ℤ, pos, ◌+ℤ◌, ◌≤ℤ◌}
use nostr_storage_orchestrat.Common.Js.{at}
use nostr_storage_orchestrat.Db.{User, Db}
use nostr_storage_orchestrat.Db.Storages.{StorageProvider, linked, CapacityConfig}

-- What the accounts whose plan runs may still store, all together.
pub data Owed (now : ℕ) : List User → ℕ → Type 0 where
  nobody : Owed now [] 0
  ended :
      (u : User) (us : List User) (n : ℕ)
      → ((e : ℕ) → u.plan_expires_at ≡ some (at e) → e ≤ now)
      → Owed now us n
      → Owed now (u ∷ us) n
  unallowed :
      (u : User) (us : List User) (n : ℕ)
      → u.storage_bytes ≡ none
      → Owed now us n
      → Owed now (u ∷ us) n
  used_up :
      (u : User) (us : List User) (n : ℕ) (a : ℤ)
      → u.storage_bytes ≡ some a
      → a ≤ℤ u.used_storage
      → Owed now us n
      → Owed now (u ∷ us) n
  owes :
      (u : User) (us : List User) (n e k : ℕ) (a : ℤ)
      → u.plan_expires_at ≡ some (at e)
      → now < e
      → u.storage_bytes ≡ some a
      → u.used_storage +ℤ pos k ≡ a
      → Owed now us n
      → Owed now (u ∷ us) (k + n)

-- A provider that is linked, reachable, and pinged within the window.
pub record IsUp (now window : ℕ) (p : StorageProvider) : Type 0 where
  pub in_use : p.lifecycle ≡ linked
  pub pinged : (t : ℕ) × (p.last_ping_at ≡ some t) × (now < t + window)
  pub ip : (s : String) × (p.tunnel_ip ≡ some s)
  pub port : (n : ℕ) × (p.blossom_port ≡ some n)

-- How many of the providers can be chosen that are up, and the bytes that these report to be free.
pub data Offers (now window : ℕ) : List StorageProvider → ℕ → ℕ → Type 0 where
  no_provider : Offers now window [] 0 0
  left_out :
      (p : StorageProvider) (ps : List StorageProvider) (c f : ℕ)
      → Offers now window ps c f
      → Offers now window (p ∷ ps) c f
  silent :
      (p : StorageProvider) (ps : List StorageProvider) (c f : ℕ)
      → IsUp now window p
      → p.reported_free_bytes ≡ none
      → Offers now window ps c f
      → Offers now window (p ∷ ps) (suc c) f
  offering :
      (p : StorageProvider) (ps : List StorageProvider) (c f b : ℕ)
      → IsUp now window p
      → p.reported_free_bytes ≡ some b
      → Offers now window ps c f
      → Offers now window (p ∷ ps) (suc c) (b + f)

-- Room for so many copies: as many as are configured, or one on each provider where these are fewer.
abbrev pub Copies : CapacityConfig → ℕ → ℕ → Type 0
Copies config c r =
    (1 ≤ r) × (r ≤ c) × ((r ≡ config.replicas) ⊎ ((r ≡ 1) × (config.replicas ≡ 0)) ⊎ (r ≡ c))

abbrev pub HasRoom : CapacityConfig → ℕ → List StorageProvider → List User → Type 0
HasRoom config now table us =
    (owed : ℕ) × (providers : ℕ) × (free : ℕ) × (r : ℕ) × Owed now us owed
    × Offers now config.active_window_ms table providers free
    × Copies config providers r
    × ((owed + config.min_free_bytes) * r ≤ free)
