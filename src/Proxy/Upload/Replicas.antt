-- ===== src/Proxy/Upload/Replicas.antt =====
-- How many replicas an upload ends with, and where they are.
use nostr_storage_orchestrat.Common.{
  ℕ, zero, suc, ◌-◌, ◌<◌, ◌≤◌, min, ◌≡◌, refl, ap, ◌∙◌, inl, inr, Bool, true, false, Option, none,
  some, List, [], ◌∷◌, ◌++◌, String, length, length-append, count, All, All-mono, arith, Bool-cases,
}
use nostr_storage_orchestrat.Proxy.Placement.{ServerCandidate}
use nostr_storage_orchestrat.Proxy.Placement.Fair.{In, select_owner-In}
use nostr_storage_orchestrat.Proxy.Upload.{
  remove, wants_more, Attempts, upload_loop, UploadResult, no_providers, all_failed, uploaded,
  upload_blob, settle,
}
use nostr_storage_orchestrat.Proxy.Upload.Remaining.{Differs, UniqueIds, Removes, remove-Removes}

abbrev pub ids : List ServerCandidate → List String
ids [] = []
ids (c ∷ cs) = c.id ∷ ids cs

-- A provider of the roster that answers in a given way.
abbrev pub Answers :
    (ServerCandidate → Bool) → Bool → List ServerCandidate → ServerCandidate → Type 0
Answers put b roster c = In c roster × (put c ≡ b)

-- The providers that the loop adds to its log.
pub record Adds (put : ServerCandidate → Bool) (replica_count : ℕ)
    (remaining : List ServerCandidate) (log : Attempts) (r : Option Attempts) : Type 0 where
  pub failed : List ServerCandidate
  pub holding : List ServerCandidate
  pub ends : r ≡ some record { tried = log.tried ++ ids failed; stored = log.stored ++ ids holding }
  pub number : length holding ≡ min (replica_count - length log.stored) (count put remaining)
  pub took : All (Answers put true remaining) holding
  pub refused : All (Answers put false remaining) failed
  pub distinct : UniqueIds holding

snoc_append : (xs ys : List String) (x : String) → (xs ++ x ∷ []) ++ ys ≡ xs ++ x ∷ ys
snoc_append [] ys x = refl
snoc_append (z ∷ xs) ys x = ap (λ l. z ∷ l) (snoc_append xs ys x)

append_nil : (xs : List String) → xs ++ [] ≡ xs
append_nil [] = refl
append_nil (x ∷ xs) = ap (λ l. x ∷ l) (append_nil xs)

stopped :
    (put : ServerCandidate → Bool) (replica_count : ℕ) (remaining : List ServerCandidate)
    (log : Attempts)
    → wants_more remaining replica_count log.stored ≡ false
    → Adds put replica_count remaining log (some log)
stopped put replica_count remaining log e = record {
  failed = [];
  holding = [];
  ends = rw (append_nil log.tried, append_nil log.stored) refl;
  number = stop_number remaining e;
  took = tt;
  refused = tt;
  distinct = tt;
}
  where
    stop_number :
        (cs : List ServerCandidate)
        → wants_more cs replica_count log.stored ≡ false
        → 0 ≡ min (replica_count - length log.stored) (count put cs)
    stop_number [] e = omega arith
    stop_number (c ∷ cs) e = ground arith

widen :
    (put : ServerCandidate → Bool) (b : Bool) {server : ServerCandidate}
    {cs rest : List ServerCandidate} (fs : List ServerCandidate)
    → Removes server cs rest
    → All (Answers put b rest) fs
    → All (Answers put b cs) fs
widen put b {cs = cs} {rest = rest} fs rm =
    All-mono (Answers put b rest) (Answers put b cs) fs (λ c a. ((rm.others c a.0).0, a.1))

module _ {put : ServerCandidate → Bool} {replica_count : ℕ} {server : ServerCandidate}
    {cs rest : List ServerCandidate} {log : Attempts} {r : Option Attempts} where
  held :
      Removes server cs rest
      → In server cs
      → put server ≡ true
      → length log.stored < replica_count
      → Adds put replica_count rest (record log { stored = log.stored ++ server.id ∷ [] }) r
      → Adds put replica_count cs log r
  held rm m accepted more a = record {
    failed = a.failed;
    holding = server ∷ a.holding;
    ends =
        a.ends
        ∙ ap (λ l. some record { tried = log.tried ++ ids a.failed; stored = l })
            (snoc_append log.stored (ids a.holding) server.id);
    number = ground (arith, a.number, rm.counts put, length-append log.stored (server.id ∷ []));
    took = ((m, accepted), widen put true a.holding rm a.took);
    refused = widen put false a.failed rm a.refused;
    distinct = (
      All-mono (Answers put true rest) (Differs server.id) a.holding (λ c t. (rm.others c t.0).1)
          a.took,
      a.distinct,
    );
  }

  dropped :
      Removes server cs rest
      → In server cs
      → put server ≡ false
      → Adds put replica_count rest (record log { tried = log.tried ++ server.id ∷ [] }) r
      → Adds put replica_count cs log r
  dropped rm m rejected a = record {
    failed = server ∷ a.failed;
    holding = a.holding;
    ends =
        a.ends
        ∙ ap (λ l. some record { tried = l; stored = log.stored ++ ids a.holding })
            (snoc_append log.tried (ids a.failed) server.id);
    number = ground (arith, a.number, rm.counts put);
    took = widen put true a.holding rm a.took;
    refused = ((m, rejected), widen put false a.failed rm a.refused);
    distinct = a.distinct;
  }

upload_loop-Adds :
    (put : ServerCandidate → Bool) (npub : String) (now replica_count fuel : ℕ)
    (cs : List ServerCandidate) (log : Attempts)
    → UniqueIds cs
    → length cs < fuel
    → Adds put replica_count cs log (upload_loop put npub now replica_count fuel cs log)
unfolding upload_loop
upload_loop-Adds put npub now replica_count zero cs log u h = absurd (omega arith)
upload_loop-Adds put npub now replica_count (suc fuel) cs log u h =
    elim (Bool-cases (wants_more cs replica_count log.stored)) [
      | inr e ↦ rw (upload_loop, e) (stopped put replica_count cs log e)
      | inl e ↦
          let (server, chosen, m) = select_owner-In npub now cs (ground arith) in
          let rm = remove-Removes server cs u m in
          let more : length log.stored < replica_count = ground arith in
          elim (Bool-cases (put server)) [
            | inl accepted ↦
                rw (upload_loop, e, chosen, accepted)
                  (held rm m accepted more (
                    upload_loop-Adds put npub now replica_count fuel (remove server.id cs) _
                      rm.unique (omega (arith, rm.shorter))))
            | inr rejected ↦
                rw (upload_loop, e, chosen, rejected)
                  (dropped rm m rejected (
                    upload_loop-Adds put npub now replica_count fuel (remove server.id cs) _
                      rm.unique (omega (arith, rm.shorter))))
          ]
    ]

-- What an upload ends with.
pub data Replicates (put : ServerCandidate → Bool) (replica_count : ℕ) (cs : List ServerCandidate)
    (r : Option UploadResult) : Type 0 where
  nobody : length cs ≡ 0 → r ≡ some no_providers → Replicates put replica_count cs r
  none_took :
      (failed : List ServerCandidate)
      → 0 < length cs
      → count put cs ≡ 0
      → All (Answers put false cs) failed
      → r ≡ some (all_failed (ids failed))
      → Replicates put replica_count cs r
  stored :
      (holding : List ServerCandidate)
      → 0 < count put cs
      → length holding ≡ min replica_count (count put cs)
      → All (Answers put true cs) holding
      → UniqueIds holding
      → r ≡ some (uploaded (ids holding))
      → Replicates put replica_count cs r

settled :
    (put : ServerCandidate → Bool) (replica_count : ℕ) (c : ServerCandidate)
    (cs : List ServerCandidate) (r : Option Attempts) (failed holding : List ServerCandidate)
    → 1 ≤ replica_count
    → r ≡ some record { tried = ids failed; stored = ids holding }
    → length holding ≡ min replica_count (count put (c ∷ cs))
    → All (Answers put true (c ∷ cs)) holding
    → All (Answers put false (c ∷ cs)) failed
    → UniqueIds holding
    → Replicates put replica_count (c ∷ cs) (settle r)
unfolding settle
settled put replica_count c cs r failed [] want e n took refused distinct =
    none_took failed (omega arith) (omega arith) refused (rw (e, settle) refl)
settled put replica_count c cs r failed (h ∷ hs) want e n took refused distinct =
    stored (h ∷ hs) (omega arith) n took distinct (rw (e, settle) refl)

-- With at least one replica wanted and a roster of distinct ids, an upload always returns: with no
-- providers it says so; it fails only where every provider of the roster refuses the blob; and
-- otherwise it ends with different providers that took it, as many as were wanted or, if fewer
-- take it, as many as do.
pub upload_blob-Replicates :
    (put : ServerCandidate → Bool) (npub : String) (now replica_count : ℕ)
    (cs : List ServerCandidate)
    → 1 ≤ replica_count
    → UniqueIds cs
    → Replicates put replica_count cs (upload_blob put npub now replica_count cs)
unfolding upload_blob
upload_blob-Replicates put npub now replica_count [] want u = nobody refl refl
upload_blob-Replicates put npub now replica_count (c ∷ cs) want u =
    let start : Attempts = record { tried = []; stored = [] } in
    let a =
      upload_loop-Adds put npub now replica_count (suc (length (c ∷ cs))) (c ∷ cs) start u
        (omega arith) in
    settled put replica_count c cs _ a.failed a.holding want a.ends (ground (arith, a.number))
      a.took a.refused a.distinct

settled_some :
    (log : Attempts) (held names : List String)
    → log.stored ≡ held
    → settle (some log) ≡ some (uploaded names)
    → (id : String) × (rest : List String) × (names ≡ id ∷ rest)
unfolding settle
settled_some log [] names e h = let h' = rw e at h in cc
settled_some log (id ∷ rest) names e h = let h' = rw e at h in (id, rest, ground arith)

settle-some :
    (o : Option Attempts) (names : List String)
    → settle o ≡ some (uploaded names)
    → (id : String) × (rest : List String) × (names ≡ id ∷ rest)
unfolding settle
settle-some none names h = cc
settle-some (some log) names h = settled_some log log.stored names refl h

-- An upload that succeeds names a provider.
pub upload_blob-some :
    (put : ServerCandidate → Bool) (npub : String) (now n : ℕ) (cs : List ServerCandidate)
    (names : List String)
    → upload_blob put npub now n cs ≡ some (uploaded names)
    → (id : String) × (rest : List String) × (names ≡ id ∷ rest)
unfolding upload_blob
upload_blob-some put npub now n [] names h = cc
upload_blob-some put npub now n (c ∷ cs) names h = settle-some _ names h
