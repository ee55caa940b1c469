-- ===== src/Proxy/Upload.antt =====
-- proxy/blossom/src/servers.ts: the replication of an upload over the providers.
pub mod Remaining
pub mod Replicas
use nostr_storage_orchestrat.Common.{
  ℕ, zero, suc, ◌==◌, string_eq, Bool, true, false, Option, none, some, List, [], ◌∷◌, ◌++◌, String,
  length, ltb, if◌then◌else◌, ◌&&◌,
}
use nostr_storage_orchestrat.Proxy.Placement.{ServerCandidate, select_owner}

-- `remaining.splice(remaining.indexOf(server), 1)`; the candidates come from a map, so an id names one
abbrev pub remove : String → List ServerCandidate → List ServerCandidate
remove id [] = []
remove id (c ∷ cs) = if c.id == id then cs else c ∷ remove id cs

abbrev pub wants_more : List ServerCandidate → ℕ → List String → Bool
wants_more [] replica_count stored = false
wants_more (c ∷ cs) replica_count stored = ltb (length stored) replica_count

-- What the loop ends with: the providers that failed, and those that hold the blob.
pub record Attempts : Type 0 where
  pub tried : List String
  pub stored : List String

-- The loop of `uploadBlob`, on fuel. `put` is whether a provider takes the upload; each is asked once at most. `none` is
-- running out of fuel, or a selection that is undefined.
unfoldable pub upload_loop :
    (ServerCandidate → Bool)
    → String
    → ℕ
    → ℕ
    → ℕ
    → List ServerCandidate
    → Attempts
    → Option Attempts
upload_loop put npub now replica_count zero remaining log = none
upload_loop put npub now replica_count (suc fuel) remaining log =
    elim (wants_more remaining replica_count log.stored) [
      | false ↦ some log
      | true ↦ elim (select_owner npub remaining now) [
        | none ↦ none
        | some server ↦ elim (put server) [
          | true ↦
              upload_loop put npub now replica_count fuel (remove server.id remaining)
                (record log { stored = log.stored ++ server.id ∷ [] })
          | false ↦
              upload_loop put npub now replica_count fuel (remove server.id remaining)
                (record log { tried = log.tried ++ server.id ∷ [] })
        ]
      ]
    ]

pub data UploadResult : Type 0 where
  no_providers : UploadResult
  all_failed : List String → UploadResult
  uploaded : List String → UploadResult

settle : Option Attempts → Option UploadResult
settle none = none
settle (some log) = elim log.stored [
  | [] ↦ some (all_failed log.tried)
  | id ∷ ids ↦ some (uploaded (id ∷ ids))
]

-- `uploadBlob`, from the candidates that the registry gave
unfoldable pub upload_blob :
    (ServerCandidate → Bool) → String → ℕ → ℕ → List ServerCandidate → Option UploadResult
unfolding upload_loop settle
upload_blob put npub now replica_count [] = some no_providers
upload_blob put npub now replica_count (c ∷ cs) = settle (
    upload_loop put npub now replica_count (suc (length (c ∷ cs))) (c ∷ cs)
      record { tried = []; stored = [] })
