-- ===== src/Proxy/Read/Reachable.antt =====
-- The bytes that a replica at hand serves.
use nostr_storage_orchestrat.Common.{
  ℕ, ◌≡◌, refl, sym, ◌∙◌, inl, inr, Bool, true, ◌&&◌, some, List, [], ◌∷◌, String, any, find,
  is_some, All, Bool-cases, Option-cases, string_eq, eq_iff, arith,
}
use nostr_storage_orchestrat.Db.{Blob, has_hash}
use nostr_storage_orchestrat.Proxy.Registry.{Registry, resolve}
use nostr_storage_orchestrat.Proxy.World.{Copy, is_copy, fetch, open_blob_stream}
use nostr_storage_orchestrat.Proxy.Durable.{HasCopy}
use nostr_storage_orchestrat.Proxy.Account.{Service}
use nostr_storage_orchestrat.Proxy.Put.Genuine.{IsGenuine}

abbrev pub is_reachable : (String → Bool) → Registry → String → Bool
is_reachable gets registry replica = is_some (resolve registry replica) && gets replica

-- A row of the hash has a replica whose node answers.
abbrev pub IsAtHand : (String → Bool) → Registry → String → Blob → Type 0
IsAtHand gets registry hash b =
    has_hash hash b ≡ true → any (is_reachable gets registry) b.replicas ≡ true

find_copy :
    (s : Service) (node hash : String) (copies : List Copy)
    → All (IsGenuine s) copies
    → any (is_copy node hash) copies ≡ true
    → (c : Copy) × (find (is_copy node hash) copies ≡ some c) × (s.sha256 c.content ≡ hash)
find_copy s node hash [] genuine h = cc
find_copy s node hash (c ∷ copies) genuine h = elim (Bool-cases (is_copy node hash c)) [
  | inl e ↦
      let same : c.hash ≡ hash = ground (arith, eq_iff c.hash hash) in
      (c, rw e refl, genuine.0 ∙ same)
  | inr e ↦
      let (d, f, g) = find_copy s node hash copies genuine.1 (ground arith) in
      (d, rw (e, f) refl, g)
]

find_genuine :
    (s : Service) (node hash : String) (copies : List Copy)
    → All (IsGenuine s) copies
    → (c : Copy) → find (is_copy node hash) copies ≡ some c
    → s.sha256 c.content ≡ hash
find_genuine s node hash [] genuine c h = cc
find_genuine s node hash (d ∷ copies) genuine c h = elim (Bool-cases (is_copy node hash d)) [
  | inl e ↦
      let same : d ≡ c = ground arith in
      let hashes : d.hash ≡ hash = ground (arith, eq_iff d.hash hash) in
      rw (← same) (genuine.0 ∙ hashes)
  | inr e ↦ find_genuine s node hash copies genuine.1 c (ground arith)
]

fetch_genuine :
    (s : Service) (gets : String → Bool) (registry : Registry) (hash : String) (copies : List Copy)
    (replica : String)
    → All (IsGenuine s) copies
    → (content : List ℕ) → fetch gets registry hash copies replica ≡ some content
    → s.sha256 content ≡ hash
fetch_genuine s gets registry hash copies replica genuine content h =
    elim (Option-cases (resolve registry replica)) [
      | inl f ↦ let h' = rw (fetch, f) at h in cc
      | inr (server, f) ↦ elim (Bool-cases (gets replica)) [
        | inr down ↦ let h' = rw (fetch, f, down) at h in cc
        | inl up ↦ elim (Option-cases (find (is_copy replica hash) copies)) [
          | inl e ↦ let h' = rw (fetch, f, up, e) at h in cc
          | inr (c, e) ↦
              let h' = rw (fetch, f, up, e) at h in
              let same : c.content ≡ content = ground arith in
              rw (← same) (find_genuine s replica hash copies genuine c e)
        ]
      ]
    ]

fetch_reachable :
    (s : Service) (gets : String → Bool) (registry : Registry) (hash : String) (copies : List Copy)
    (replica : String)
    → All (IsGenuine s) copies
    → HasCopy copies hash replica
    → is_reachable gets registry replica ≡ true
    → (content : List ℕ) × (fetch gets registry hash copies replica ≡ some content)
      × (s.sha256 content ≡ hash)
fetch_reachable s gets registry hash copies replica genuine has h =
    let (c, e, g) = find_copy s replica hash copies genuine has in
    elim (Option-cases (resolve registry replica)) [
      | inl f ↦ let h' = rw (is_reachable, f) at h in cc
      | inr (server, f) ↦
          let up : gets replica ≡ true = ground arith in (c.content, rw (fetch, f, up, e) refl, g)
    ]

-- The first replica that answers serves the bytes of the hash.
pub open_reachable :
    (s : Service) (gets : String → Bool) (registry : Registry) (hash : String)
    (replicas : List String) (copies : List Copy)
    → All (IsGenuine s) copies
    → All (HasCopy copies hash) replicas
    → any (is_reachable gets registry) replicas ≡ true
    → (content : List ℕ) × (open_blob_stream gets registry hash replicas copies ≡ some content)
      × (s.sha256 content ≡ hash)
unfolding open_blob_stream
open_reachable s gets registry hash [] copies genuine held h = cc
open_reachable s gets registry hash (r ∷ rs) copies genuine held h =
    elim (Option-cases (fetch gets registry hash copies r)) [
      | inl e ↦ elim (Bool-cases (is_reachable gets registry r)) [
        | inl up ↦
            let (c, f, g) = fetch_reachable s gets registry hash copies r genuine held.0 up in
            let same = sym e ∙ f in cc
        | inr down ↦
            let (c, f, g) =
              open_reachable s gets registry hash rs copies genuine held.1 (ground arith) in
            (c, rw (open_blob_stream, e) f, g)
      ]
      | inr (c, e) ↦ (
        c,
        rw (open_blob_stream, e) refl,
        fetch_genuine s gets registry hash copies r genuine c e,
      )
    ]
