-- ===== src/Proxy/Registry/Kept.antt =====
-- The roster is the last listing that db-api answered to a refresh.
use Prim.Native.String.{◌++◌ as push_str}
use nostr_storage_orchestrat.Common.{
  ◌≡◌, refl, sym, ◌∙◌, ap, false, none, some, List, [], ◌∷◌, ◌++◌, String, map, ◌==◌, string_eq,
  All,
}
use nostr_storage_orchestrat.Proxy.Placement.{ServerCandidate}
use nostr_storage_orchestrat.Proxy.Registry.{
  ActiveStorage, Registry, show, host_for_url, url_of, set, enter, refresh, fresh_candidates,
  is_raw_url, resolve, Poll, polled, asked, poll,
}
use nostr_storage_orchestrat.Proxy.Registry.Distinct.{
  LacksId, HasDistinctIds, enter-HasDistinctIds, IsFound, all-IsFound,
}

-- The address of a provider: its tunnel's, in brackets where that is an IPv6 address, and its port.
abbrev pub address : ActiveStorage → String
address s =
    push_str "http://" (push_str (host_for_url s.tunnel_ip) (push_str ":" (show 5 s.blossom_port)))

abbrev pub candidate : ActiveStorage → ServerCandidate
candidate s = record { id = s.npub; url = address s }

abbrev pub Differs : ActiveStorage → ActiveStorage → Type 0
Differs s t = (s.npub == t.npub) ≡ false

-- No account is listed twice.
abbrev pub ListsOnce : List ActiveStorage → Type 0
ListsOnce [] = Unit
ListsOnce (s ∷ rest) = All (Differs s) rest × ListsOnce rest

set_new :
    (c : ServerCandidate) (registry : Registry)
    → All (LacksId c.id) registry
    → set c registry ≡ registry ++ c ∷ []
set_new c [] h = refl
set_new c (d ∷ ds) h = rw h.0 (ap (λ r. d ∷ r) (set_new c ds h.1))

append_nil : (xs : Registry) → xs ++ [] ≡ xs
append_nil [] = refl
append_nil (x ∷ xs) = ap (λ r. x ∷ r) (append_nil xs)

append_assoc :
    (xs : Registry) (c : ServerCandidate) (ys : Registry) → (xs ++ c ∷ []) ++ ys ≡ xs ++ c ∷ ys
append_assoc [] c ys = refl
append_assoc (x ∷ xs) c ys = ap (λ r. x ∷ r) (append_assoc xs c ys)

LacksId-last :
    (id : String) (c : ServerCandidate) (registry : Registry)
    → (c.id == id) ≡ false
    → All (LacksId id) registry
    → All (LacksId id) (registry ++ c ∷ [])
LacksId-last id c [] e h = (e, tt)
LacksId-last id c (d ∷ ds) e h = (h.0, LacksId-last id c ds e h.1)

abbrev IsNew : Registry → ActiveStorage → Type 0
IsNew registry s = All (LacksId s.npub) registry

IsNew-last :
    (s : ActiveStorage) (registry : Registry) (rest : List ActiveStorage)
    → All (Differs s) rest
    → All (IsNew registry) rest
    → All (IsNew (registry ++ candidate s ∷ [])) rest
IsNew-last s registry [] d h = tt
IsNew-last s registry (t ∷ rest) d h =
    (LacksId-last t.npub (candidate s) registry d.0 h.0, IsNew-last s registry rest d.1 h.1)

enter_all :
    (active : List ActiveStorage) (registry : Registry)
    → ListsOnce active
    → All (IsNew registry) active
    → enter active registry ≡ registry ++ map candidate active
unfolding enter url_of
enter_all [] registry once new = sym (append_nil registry)
enter_all (s ∷ rest) registry once new = rw (set_new (candidate s) registry new.0) (
    enter_all rest (registry ++ candidate s ∷ []) once.1 (IsNew-last s registry rest once.0 new.1)
    ∙ append_assoc registry (candidate s) (map candidate rest))

-- A poll that db-api does not answer.
abbrev pub IsUnanswered : Poll → Type 0
IsUnanswered (polled active) = active ≡ none
IsUnanswered (asked active) = active ≡ none

poll_unanswered :
    (polls : List Poll) (registry : Registry)
    → All IsUnanswered polls
    → poll polls registry ≡ registry
unfolding poll refresh fresh_candidates
poll_unanswered [] registry h = refl
poll_unanswered (polled active ∷ rest) registry h = rw h.0 (poll_unanswered rest registry h.1)
poll_unanswered (asked active ∷ rest) [] h = rw h.0 (poll_unanswered rest [] h.1)
poll_unanswered (asked active ∷ rest) (c ∷ cs) h = poll_unanswered rest (c ∷ cs) h.1

poll-append :
    (xs ys : List Poll) (registry : Registry)
    → poll (xs ++ ys) registry ≡ poll ys (poll xs registry)
unfolding poll
poll-append [] ys registry = refl
poll-append (polled active ∷ xs) ys registry = poll-append xs ys (refresh active registry)
poll-append (asked active ∷ xs) ys registry = poll-append xs ys (fresh_candidates active registry)

All-candidates :
    (P : ServerCandidate → Type 0) (active : List ActiveStorage)
    → All P (map candidate active)
    → All (λ s. P (candidate s)) active
All-candidates P [] h = tt
All-candidates P (s ∷ rest) h = (h.0, All-candidates P rest h.1)

-- An id that is no URL, which `resolve` would answer as it is.
abbrev pub IsName : ActiveStorage → Type 0
IsName s = is_raw_url s.npub ≡ false

all_resolved :
    (registry : Registry) (active : List ActiveStorage)
    → All IsName active
    → All (λ s. IsFound registry (candidate s)) active
    → All (λ s. resolve registry s.npub ≡ some (address s)) active
unfolding resolve
all_resolved registry [] names h = tt
all_resolved registry (s ∷ rest) names h =
    (rw (resolve, names.0) h.0, all_resolved registry rest names.1 h.1)

-- Whatever polls came before, after a refresh that db-api answered with a listing in which no account is twice the roster
-- is that listing, in its order and with the addresses `http://<host>:<port>` of its tunnels, and it stays so through any
-- polls that db-api does not answer; each provider of the listing resolves to its address, where no account is written
-- as a URL.
pub poll-Keeps :
    (earlier failures : List Poll) (active : List ActiveStorage)
    → All IsUnanswered failures
    → ListsOnce active
    → All IsName active
    → (poll (earlier ++ polled (some active) ∷ failures) [] ≡ map candidate active)
      × All
          (λ s.
            resolve (poll (earlier ++ polled (some active) ∷ failures) []) s.npub
            ≡ some (address s))
          active
unfolding poll refresh
poll-Keeps earlier failures active unanswered once names =
    let entered : enter active [] ≡ map candidate active =
      enter_all active [] once (all_new active) in
    let kept : poll (earlier ++ polled (some active) ∷ failures) [] ≡ enter active [] =
      poll-append earlier (polled (some active) ∷ failures) []
      ∙ poll_unanswered failures (enter active []) unanswered in
    let distinct : HasDistinctIds (map candidate active) =
      rw entered at (enter-HasDistinctIds active [] tt) in
    rw (kept ∙ entered) (
      refl,
      all_resolved (map candidate active) active names (
          All-candidates (IsFound (map candidate active)) active
            (all-IsFound (map candidate active) distinct)),
    )
  where
    all_new : (xs : List ActiveStorage) → All (IsNew []) xs
    all_new [] = tt
    all_new (x ∷ xs) = (tt, all_new xs)
