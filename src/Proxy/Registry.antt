-- ===== src/Proxy/Registry.antt =====
-- proxy/blossom/src/servers.ts: the roster of the storage providers, which is read from db-api and keeps its last good
-- state. The map is a list of candidates in the order of insertion.
pub mod Distinct
pub mod Kept
use Prim.Native.String.{◌∷◌ as prepend, ◌++◌ as push_str, [] as empty_text}
use Prim.Native.Char.{Char, code}
use nostr_storage_orchestrat.Common.{
  ℕ, zero, suc, ◌+◌, ◌/◌, ◌%◌, ◌≡◌, refl, ◌≢◌, Bool, true, false, not, ◌&&◌, ◌||◌, Option, none,
  some, List, [], ◌∷◌, String, nat_eq, ◌==◌, string_eq, if◌then◌else◌, ltb, leb, arith, eq_iff,
  Bool-cases, inl, inr, All,
}
use nostr_storage_orchestrat.Proxy.Placement.{ServerCandidate, get_elem?}

-- What `listActiveStorages` answers with, for each provider.
pub record ActiveStorage : Type 0 where
  pub npub : String
  pub tunnel_ip : String
  pub blossom_port : ℕ

abbrev pub Registry : Type 0
Registry = List ServerCandidate

abbrev digits : List String
digits = "0" ∷ "1" ∷ "2" ∷ "3" ∷ "4" ∷ "5" ∷ "6" ∷ "7" ∷ "8" ∷ "9" ∷ []

abbrev digit : ℕ → String
digit n = elim (get_elem? digits n) [ none ↦ "" | some d ↦ d ]

-- A number below 10 ^ fuel in decimal.
unfoldable pub show : ℕ → ℕ → String
show zero n = ""
show (suc fuel) n = elim (ltb n 10) [
  | true ↦ digit n
  | false ↦ push_str (show fuel (n / 10)) (digit (n % 10))
]

abbrev has_colon : String → Bool
has_colon empty_text = false
has_colon (prepend c s) = code c == 58 || has_colon s

abbrev opens_bracket : String → Bool
opens_bracket empty_text = false
opens_bracket (prepend c s) = code c == 91

-- `hostForUrl`
unfoldable pub host_for_url : String → String
host_for_url host =
    if has_colon host && not (opens_bracket host) then push_str "[" (push_str host "]") else host

-- `http://${hostForUrl(tunnelIp)}:${blossomPort}`; a port has at most five digits
unfoldable pub url_of : ActiveStorage → String
unfolding host_for_url show
url_of s =
    push_str "http://" (push_str (host_for_url s.tunnel_ip) (push_str ":" (show 5 s.blossom_port)))

-- `map.set`
abbrev pub set : ServerCandidate → Registry → Registry
set c [] = c ∷ []
set c (d ∷ ds) = if d.id == c.id then c ∷ ds else d ∷ set c ds

-- `new Map(active.map(…))`, after the entries that it has
unfoldable pub enter : List ActiveStorage → Registry → Registry
unfolding url_of
enter [] registry = registry
enter (s ∷ rest) registry = enter rest (set record { id = s.npub; url = url_of s } registry)

-- `refresh()`; `none` is a call that throws
unfoldable pub refresh : Option (List ActiveStorage) → Registry → Registry
unfolding enter
refresh none registry = registry
refresh (some active) registry = enter active []

-- `freshCandidates()`, as the registry that it leaves, whose entries are the candidates
unfoldable pub fresh_candidates : Option (List ActiveStorage) → Registry → Registry
unfolding refresh
fresh_candidates active [] = refresh active []
fresh_candidates active (c ∷ cs) = c ∷ cs

abbrev lower : ℕ → ℕ
lower c = if leb 65 c && leb c 90 then c + 32 else c

-- Whether a text begins with another, in either case of letters.
abbrev begins_with : String → String → Bool
begins_with empty_text s = true
begins_with (prepend p ps) empty_text = false
begins_with (prepend p ps) (prepend c s) = lower (code c) == code p && begins_with ps s

-- `RAW_URL.test(id)`
unfoldable pub is_raw_url : String → Bool
is_raw_url id =
    begins_with "http://" id
    || (begins_with "https://" id || (begins_with "ws://" id || begins_with "wss://" id))

abbrev pub find_url : String → Registry → Option String
find_url id [] = none
find_url id (c ∷ cs) = if c.id == id then some c.url else find_url id cs

-- `resolve(id)`
unfoldable pub resolve : Registry → String → Option String
unfolding is_raw_url
resolve registry id = if is_raw_url id then some id else find_url id registry

-- `refresh` and the uploads that find the roster empty, in their order
pub data Poll : Type 0 where
  polled : Option (List ActiveStorage) → Poll
  asked : Option (List ActiveStorage) → Poll

unfoldable pub poll : List Poll → Registry → Registry
poll [] registry = registry
poll (polled active ∷ rest) registry = poll rest (refresh active registry)
poll (asked active ∷ rest) registry = poll rest (fresh_candidates active registry)
